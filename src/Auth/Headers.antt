-- ===== src/Auth/Headers.antt =====
-- The credentials of a request in src/server/auth.rs: the cookie and the `Authorization` header.
pub mod Cookie
use gps_trips.Prelude.{
  ℕ, ◌+◌, ◌/◌, ◌≡◌, refl, Bool, true, false, List, [], ◌∷◌, ◌++◌, Option, none, some, if◌then◌else◌,
  codes, text_eq,
}
use gps_trips.Prelude.Int.{ℤ}
use gps_trips.Auth.Crates.{AuthCrates, secs}
use gps_trips.Auth.Token.{Auth, VerifiedSession, verify}
use gps_trips.Text.{trim, split, split_once, eq_ignore_ascii_case}
use gps_trips.Text.Decimal.{digits}

abbrev pub cookie_name : List ℕ
cookie_name = codes "trip_archive_session"

-- The name and the value of a header, names in lower case.
abbrev pub HeaderMap : Type 0
HeaderMap = List (List ℕ × List ℕ)

-- The first value under a name.
unfoldable pub get : List ℕ → HeaderMap → Option (List ℕ)
get name [] = none
get name ((other, value) ∷ headers) =
    let rest = get name headers in if text_eq other name then some value else rest

abbrev pub and_then {ℓ κ} : {A : Type ℓ} {B : Type κ} → Option A → (A → Option B) → Option B
and_then none f = none
and_then (some a) f = f a

pub and_then_inv {ℓ κ} :
    {A : Type ℓ} {B : Type κ} (o : Option A) (f : A → Option B) (b : B)
    → and_then o f ≡ some b
    → (a : A) × (o ≡ some a) × (f a ≡ some b)
and_then_inv none f b h = cc
and_then_inv (some a) f b h = (a, refl, h)

abbrev pub attributes : List ℕ
attributes = codes "; Path=/; HttpOnly; Secure; SameSite=Lax"

-- A cookie's name and value.
abbrev pub cookie_pair : List ℕ → List ℕ
cookie_pair token = cookie_name ++ b'=' ∷ token

-- `as_secs` of a duration, printed.
unfoldable pub session_cookie : List ℕ → ℕ → List ℕ
session_cookie token max_age =
    cookie_pair token ++ (codes "; Max-Age=" ++ (digits 20 (max_age / secs 1) ++ attributes))

unfoldable pub cleared_cookie : List ℕ
cleared_cookie = cookie_name ++ (codes "=; Max-Age=0" ++ attributes)

-- The value of a `name=value` pair of the session's cookie.
unfoldable pub session_pair : List ℕ → Option (List ℕ)
session_pair pair = elim (split_once b'=' pair) [
  | none ↦ none
  | some (name, value) ↦ if text_eq (trim name) cookie_name then some (trim value) else none
]

unfoldable pub find_session : List (List ℕ) → Option (List ℕ)
unfolding session_pair
find_session [] = none
find_session (pair ∷ pairs) = elim (session_pair pair) [
  | some token ↦ some token
  | none ↦ find_session pairs
]

unfoldable pub cookie_token : AuthCrates → HeaderMap → Option (List ℕ)
unfolding get find_session
cookie_token C headers =
    and_then (and_then (get (codes "cookie") headers) C.to_str) (λ s. find_session (split b';' s))

abbrev pub bearer : Option (List ℕ × List ℕ) → Option (List ℕ)
bearer none = none
bearer (some (scheme, token)) =
    if eq_ignore_ascii_case scheme (codes "Bearer") then some (trim token) else none

unfoldable pub bearer_token : AuthCrates → HeaderMap → Option (List ℕ)
unfolding get
bearer_token C headers =
    and_then (and_then (get (codes "authorization") headers) C.to_str)
      (λ value. bearer (split_once b' ' value))

pub data Credential : Type 0 where
  cookie : Credential
  bearer_header : Credential

unfoldable pub resolve : AuthCrates → Auth → HeaderMap → ℤ → Option (VerifiedSession × Credential)
unfolding cookie_token bearer_token
resolve C auth headers now =
    elim (and_then (cookie_token C headers) (λ token. verify C auth token now)) [
      | some session ↦ some (session, cookie)
      | none ↦
          and_then (and_then (bearer_token C headers) (λ token. verify C auth token now))
            (λ session. some (session, bearer_header))
    ]
