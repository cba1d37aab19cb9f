-- ===== src/Auth/Token.antt =====
-- The gate's own state and the signed session token of src/server/auth.rs. `str::as_bytes` is
-- injective, so the comparison of two texts' bytes is one of the texts.
pub mod RoundTrip
use gps_trips.Prelude.{
  ℕ, ◌+◌, ◌-◌, ◌*◌, ◌/◌, ◌%◌, ◌≡◌, Bool, true, false, List, [], ◌∷◌, ◌++◌, Option, none, some, ltb,
  if◌then◌else◌, codes, text_eq,
}
use gps_trips.Prelude.Int.{ℤ, pos, ◌+ℤ◌, ltb_ℤ}
use gps_trips.Auth.Crates.{AuthCrates, secs}
use gps_trips.Auth.Lockout.{LoginFailures, default_failures}
use gps_trips.Text.{trim, is_empty, split_once}
use gps_trips.Text.Decimal.{i64_to_string, parse_i64}

abbrev pub session_ttl : ℕ
session_ttl = secs (90 * 86400)

abbrev pub session_refresh_after : ℕ
session_refresh_after = secs ((90 * 86400) / 2)

pub record Auth : Type 0 where
  pub key : List ℕ
  pub salt : List ℕ
  pub failures : LoginFailures

pub record Session : Type 0 where
  pub token : List ℕ
  pub expires_at : List ℕ

pub data Principal : Type 0 where
  owner : Principal
  anonymous : Principal
  share : (share_id : ℤ) → Principal

pub record VerifiedSession : Type 0 where
  pub principal : Principal
  pub expires_at : ℤ

abbrev pub token_context : List ℕ
token_context = codes "trip-archive/session-token/v1/owner."

unfoldable pub hex_digit : ℕ → ℕ
hex_digit d = if ltb d 10 then b'0' + d else b'a' + d - 10

-- `format!("{b:02x}")` of each byte
unfoldable pub hex : List ℕ → List ℕ
unfolding hex_digit
hex [] = []
hex (b ∷ bytes) = hex_digit (b / 16) ∷ hex_digit (b % 16) ∷ hex bytes

-- What is signed: the context and the expiry.
abbrev pub message : ℤ → List ℕ
message expires_at_unix = token_context ++ i64_to_string expires_at_unix

unfoldable pub signature_hex : AuthCrates → List ℕ → ℤ → List ℕ
unfolding hex
signature_hex C key expires_at_unix = hex (C.hmac key (message expires_at_unix))

unfoldable pub derive_key : AuthCrates → List ℕ → List ℕ → List ℕ
derive_key C password salt = C.argon2 password salt

-- `none` is `MissingPassword`.
unfoldable pub new : AuthCrates → List ℕ → List ℕ → Option Auth
unfolding derive_key
new C password salt =
    if is_empty (trim password)
    then none
    else some
        (record { key = derive_key C password salt; salt = salt; failures = default_failures })

unfoldable pub sign : AuthCrates → Auth → ℤ → List ℕ
sign C auth expires_at_unix =
    i64_to_string expires_at_unix ++ b'.' ∷ signature_hex C auth.key expires_at_unix

unfoldable pub mint : AuthCrates → Auth → ℤ → Session
unfolding sign
mint C auth now =
    let expires_at = now +ℤ pos session_ttl in
    record { token = sign C auth (C.unix_timestamp expires_at); expires_at = C.rfc3339 expires_at }

-- The end of `verify`: an expiry with the right signature.
abbrev pub unexpired : Option ℤ → ℤ → Option VerifiedSession
unexpired none now = none
unexpired (some expires_at) now =
    if ltb_ℤ now expires_at
    then some (record { principal = owner; expires_at = expires_at })
    else none

abbrev pub check_signature : AuthCrates → Auth → List ℕ → ℤ → Option ℤ → Option VerifiedSession
check_signature C auth signature now none = none
check_signature C auth signature now (some expires_at_unix) =
    if text_eq signature (signature_hex C auth.key expires_at_unix)
    then unexpired (C.from_unix_timestamp expires_at_unix) now
    else none

unfoldable pub verify : AuthCrates → Auth → List ℕ → ℤ → Option VerifiedSession
verify C auth token now = elim (split_once b'.' token) [
  | none ↦ none
  | some (expiry, signature) ↦ check_signature C auth signature now (parse_i64 expiry)
]

unfoldable pub password_matches : AuthCrates → Auth → List ℕ → Bool
password_matches C auth attempt = text_eq (derive_key C attempt auth.salt) auth.key
