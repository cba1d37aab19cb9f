-- ===== src/Auth/Crates.antt =====
-- What the gate takes from third-party crates and the database: `argon2`, `hmac`, `time`, `http`
-- and the query behind `repo::resolve_share`. An `OffsetDateTime` is its nanoseconds since the
-- Unix epoch, a `Duration` its nanoseconds.
use gps_trips.Prelude.{ℕ, ◌*◌, ◌^◌, ◌<◌, ◌≡◌, List, Option, some, All}
use gps_trips.Prelude.Int.{ℤ, pos, ◌+ℤ◌, ◌≤ℤ◌}
use gps_trips.Qmapshack.Words.{InRange}

abbrev pub secs : ℕ → ℕ
secs n = n * 1000000000

pub record AuthCrates : Type 0 where
  -- Argon2id of a password and a salt, and HMAC-SHA256 of a key and a message
  pub argon2 : List ℕ → List ℕ → List ℕ
  pub hmac : List ℕ → List ℕ → List ℕ
  pub unix_timestamp : ℤ → ℤ
  -- `none` is an error
  pub from_unix_timestamp : ℤ → Option ℤ
  pub rfc3339 : ℤ → List ℕ
  -- The bytes of a header's value as text, and back; `none` is an error
  pub to_str : List ℕ → Option (List ℕ)
  pub header_value : List ℕ → Option (List ℕ)

-- From 1970 to the end of the year 9999.
abbrev pub Representable : ℤ → Type 0
Representable t = (pos 0 ≤ℤ t) × (t ≤ℤ pos (secs 253402300799))

pub record AuthLaws (C : AuthCrates) : Type 0 where
  pub hmac-bytes : (key message : List ℕ) → All (λ b. b < 256) (C.hmac key message)
  -- The timestamp is the instant cut down to a whole second.
  pub from_unix_timestamp-unix_timestamp :
      (t : ℤ)
      → Representable t
      → (s : ℤ) × (C.from_unix_timestamp (C.unix_timestamp t) ≡ some s)
        × (s ≤ℤ t)
        × (t +ℤ pos 1 ≤ℤ s +ℤ pos (secs 1))
  pub unix_timestamp-InRange : (t : ℤ) → Representable t → InRange (2 ^ 63) (C.unix_timestamp t)
  -- A text of visible ASCII is a header's value, and is read from it again.
  pub to_str-visible : (s : List ℕ) → All (λ c. (32 < c) × (c < 127)) s → C.to_str s ≡ some s
