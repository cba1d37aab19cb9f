-- ===== src/Auth/Headers/Cookie.antt =====
-- Theorems on the session's cookie of src/server/auth.rs.
use gps_trips.Prelude.{
  ℕ, suc, ◌/◌, ◌%◌, ◌<◌, ◌≤◌, ◌≡◌, ◌≢◌, refl, ap, false, List, [], ◌∷◌, ◌++◌, some, arith, All,
  All-append, All-weaken, codes,
}
use gps_trips.Prelude.Int.{ℤ, pos, negsuc, ◌+ℤ◌, ◌≤ℤ◌}
use gps_trips.Auth.Crates.{AuthCrates, AuthLaws, Representable, secs}
use gps_trips.Auth.Token.{
  Auth, owner, mint, sign, signature_hex, hex, hex_digit, session_ttl, message,
}
use gps_trips.Auth.Token.RoundTrip.{verify-mint}
use gps_trips.Auth.Headers.{
  cookie_name, cookie_pair, session_cookie, session_pair, find_session, cookie_token, get, cookie,
  resolve, attributes,
}
use gps_trips.Text.{split, split_once, trim, trim_start, trim_end, contains, is_whitespace}
use gps_trips.Text.Parts.{split-append, split-no_separator, trim-bare, not_contains}
use gps_trips.Text.Decimal.{i64_to_string, digits, digits-IsDigit, IsDigit}

-- What a token is made of.
abbrev IsBare : ℕ → Type 0
IsBare c = (45 ≤ c) × (c < 127) × (c ≢ b';')

IsBare-digit : (c : ℕ) → IsDigit c → IsBare c
IsBare-digit c h = (omega (arith, h.0), omega (arith, h.1), omega (arith, h.1))

i64_to_string-IsBare : (n : ℤ) → All IsBare (i64_to_string n)
unfolding i64_to_string
i64_to_string-IsBare (pos n) = All-weaken IsBare-digit (digits 20 n) (digits-IsDigit 20 n)
i64_to_string-IsBare (negsuc n) = (
  (omega arith, omega arith, omega arith),
  All-weaken IsBare-digit (digits 20 (suc n)) (digits-IsDigit 20 (suc n)),
)

hex_digit-IsBare : (d : ℕ) → d < 16 → IsBare (hex_digit d)
unfolding hex_digit
hex_digit-IsBare d h = ground (arith, h)

hex-IsBare : (bytes : List ℕ) → All (λ b. b < 256) bytes → All IsBare (hex bytes)
unfolding hex
hex-IsBare [] h = tt
hex-IsBare (b ∷ bytes) h = (
  hex_digit-IsBare (b / 16) (omega (arith, h.0)),
  (hex_digit-IsBare (b % 16) (omega arith), hex-IsBare bytes h.1),
)

sign-IsBare :
    (C : AuthCrates) (laws : AuthLaws C) (auth : Auth) (n : ℤ) → All IsBare (sign C auth n)
unfolding sign signature_hex
sign-IsBare C laws auth n =
    All-append IsBare (i64_to_string n) (b'.' ∷ signature_hex C auth.key n) (i64_to_string-IsBare n)
      (
        (omega arith, omega arith, omega arith),
        hex-IsBare (C.hmac auth.key (message n)) (laws.hmac-bytes auth.key (message n)),
      )

bare-not_whitespace : (c : ℕ) → IsBare c → is_whitespace c ≡ false
unfolding is_whitespace
bare-not_whitespace c h = ground (arith, h)

pair-ne_semicolon : (token : List ℕ) → All IsBare token → All (λ c. c ≢ b';') (cookie_pair token)
unfolding contains
pair-ne_semicolon token h =
    All-append (λ c. c ≢ b';') (cookie_name ++ b'=' ∷ []) token
      (not_contains b';' (cookie_name ++ b'=' ∷ []) refl) (All-weaken (λ c b. b.2) token h)

-- The attributes follow the first semicolon.
split-session_cookie :
    (token : List ℕ) (max_age : ℕ)
    → All IsBare token
    → (rest : List (List ℕ)) × (split b';' (session_cookie token max_age)
        ≡ cookie_pair token ∷ rest)
unfolding session_cookie
split-session_cookie token max_age h =
    let rest = codes " Max-Age=" ++ (digits 20 (max_age / secs 1) ++ attributes) in
    (split b';' rest, split-append b';' (cookie_pair token) rest (pair-ne_semicolon token h))

session_pair-cookie_pair :
    (token : List ℕ) → All IsBare token → session_pair (cookie_pair token) ≡ some token
unfolding session_pair split_once trim trim_start trim_end is_whitespace
session_pair-cookie_pair token h =
    ap some (trim-bare token (All-weaken bare-not_whitespace token h))

mint-IsBare :
    (C : AuthCrates) (laws : AuthLaws C) (auth : Auth) (now : ℤ)
    → All IsBare (mint C auth now).token
unfolding mint
mint-IsBare C laws auth now = sign-IsBare C laws auth (C.unix_timestamp (now +ℤ pos session_ttl))

pair-visible :
    (token : List ℕ) → All IsBare token → All (λ c. (32 < c) × (c < 127)) (cookie_pair token)
pair-visible token h =
    All-append (λ c. (32 < c) × (c < 127)) (cookie_name ++ b'=' ∷ []) token (ground arith)
      (All-weaken (λ c b. (omega (arith, b.0), b.1)) token h)

find_session_here :
    (pair : List ℕ) (pairs : List (List ℕ)) (token : List ℕ)
    → session_pair pair ≡ some token
    → find_session (pair ∷ pairs) ≡ some token
unfolding find_session
find_session_here pair pairs token h = rw (find_session, h) refl

cookie_token-cookie_pair :
    (C : AuthCrates) (laws : AuthLaws C) (token : List ℕ)
    → All IsBare token
    → cookie_token C ((codes "cookie", cookie_pair token) ∷ []) ≡ some token
unfolding cookie_token get find_session
cookie_token-cookie_pair C laws token h =
    rw (laws.to_str-visible (cookie_pair token) (pair-visible token h)) (
      rw (split-no_separator b';' (cookie_pair token) (pair-ne_semicolon token h))
        (find_session_here (cookie_pair token) [] token (session_pair-cookie_pair token h)))

pub resolve-cookie_pair :
    (C : AuthCrates) (laws : AuthLaws C) (auth : Auth) (now t : ℤ)
    → Representable (now +ℤ pos session_ttl)
    → t +ℤ pos (secs 1) ≤ℤ now +ℤ pos session_ttl
    → (e : ℤ) × (resolve C auth ((codes "cookie", cookie_pair (mint C auth now).token) ∷ []) t
        ≡ some (record { principal = owner; expires_at = e }, cookie))
      × (e ≤ℤ now +ℤ pos session_ttl)
unfolding resolve
resolve-cookie_pair C laws auth now t h k =
    let (e, v, below) = verify-mint C laws auth now t h k in
    let found =
      cookie_token-cookie_pair C laws (mint C auth now).token (mint-IsBare C laws auth now) in
    (e, rw (resolve, found) (rw v refl), below)

-- The session's cookie, set for a session that is minted and sent back by the browser without its
-- attributes, makes the caller the owner until a second before the session's expiry. The
-- condition: the expiry lies between 1970 and the end of the year 9999.
pub resolve-session_cookie :
    (C : AuthCrates) (laws : AuthLaws C) (auth : Auth) (now t : ℤ) (max_age : ℕ)
    → Representable (now +ℤ pos session_ttl)
    → t +ℤ pos (secs 1) ≤ℤ now +ℤ pos session_ttl
    → (pair : List ℕ) × (rest : List (List ℕ)) × (e : ℤ) × (split b';'
          (session_cookie (mint C auth now).token max_age)
        ≡ pair ∷ rest)
      × (resolve C auth ((codes "cookie", pair) ∷ []) t
          ≡ some (record { principal = owner; expires_at = e }, cookie))
resolve-session_cookie C laws auth now t max_age h k =
    let token = (mint C auth now).token in
    let (rest, parts) = split-session_cookie token max_age (mint-IsBare C laws auth now) in
    let (e, resolved, _) = resolve-cookie_pair C laws auth now t h k in
    (cookie_pair token, rest, e, parts, resolved)
