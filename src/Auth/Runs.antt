-- ===== src/Auth/Runs.antt =====
-- Concrete runs of the gate of src/server/auth.rs. The crates are stood in for by functions that
-- keep their laws.
mod Gated
use gps_trips.Prelude.{
  ℕ, suc, ◌+◌, ◌*◌, ◌/◌, ◌%◌, ◌^◌, ◌≤◌, ◌≡◌, ◌≢◌, ◌↔◌, ◌⊎◌, refl, ap, true, false, List, [], ◌∷◌,
  ◌++◌, Option, none, some, arith, leb, if◌then◌else◌, codes, text_eq, length, All,
}
use gps_trips.Prelude.Int.{ℤ, pos, negsuc, ◌+ℤ◌, ◌-ℤ◌, ◌≤ℤ◌, ltb_ℤ, pos_part, neg_part}
use gps_trips.Qmapshack.Words.{InRange}
use gps_trips.Auth.Crates.{AuthCrates, AuthLaws, Representable, secs}
use gps_trips.Auth.Lockout.{default_failures, locked_for, register_failure}
use gps_trips.Auth.Token.{
  Auth, VerifiedSession, Principal, owner, mint, signature_hex, message, session_ttl,
  session_refresh_after, verify, password_matches, derive_key,
}
use gps_trips.Auth.Token.RoundTrip.{verify-mint, verify-IsSigned, verify-mint_rotated}
use gps_trips.Auth.Login.{login, logins, with_failures}
use gps_trips.Auth.Login.Bound.{guesses-bound, InWindow, logins-locked, refusals, grants}
use gps_trips.Auth.Headers.{
  cookie, resolve, cookie_token, bearer_token, get, session_cookie, cookie_pair, cleared_cookie,
  HeaderMap,
}
use gps_trips.Auth.Headers.Cookie.{resolve-session_cookie, resolve-cookie_pair}
use gps_trips.Auth.Types.{
  Method, Request, Response, handled, unauthorized, Caller, Lookup, found, missing,
}
use gps_trips.Auth.Gate.{
  gate, token_under, path_prefix, with_principal, is_public, naming, error_response,
  sets_session_cookie, sets_session,
}
use gps_trips.Auth.Gate.Routes.{is_public_iff, PublicRoute}
use gps_trips.Auth.Gate.Safety.{gate-runs, gate-refuses, Authorised}
use gps_trips.Auth.Gate.Renewal.{gate-renews}
use gps_trips.Auth.Handlers.{handle_logout, gate-handle_logout}
use gps_trips.Text.Decimal.{parse_i64, i64_to_string, digits}
use gps_trips.Text.{split, contains, is_empty, strip_prefix, starts_with}

abbrev floor_secs : ℤ → ℤ
floor_secs (pos n) = pos (n / 1000000000)
floor_secs (negsuc n) = negsuc (n / 1000000000)

abbrev from_secs : ℤ → Option ℤ
from_secs (pos n) = if leb n 253402300799 then some (pos (secs n)) else none
from_secs (negsuc n) = some (negsuc (secs n + 999999999))

abbrev pub stand_ins : AuthCrates
stand_ins = record {
  argon2 = λ password salt. password ++ salt;
  hmac = λ key message. (length key + length message) % 256 ∷ [];
  unix_timestamp = floor_secs;
  from_unix_timestamp = from_secs;
  rfc3339 = λ t. [];
  to_str = λ value. some value;
  header_value = λ text. some text;
}

floor_law :
    (t : ℤ)
    → Representable t
    → (s : ℤ) × (from_secs (floor_secs t) ≡ some s)
      × (pos_part s + neg_part t ≤ pos_part t + neg_part s)
      × (pos_part (t +ℤ pos 1) + neg_part (s +ℤ pos (secs 1))
          ≤ pos_part (s +ℤ pos (secs 1)) + neg_part (t +ℤ pos 1))
unfolding ◌+ℤ◌
floor_law (pos n) h = (pos (secs (n / 1000000000)), ground (arith, h), omega arith, ground arith)
floor_law (negsuc n) h = absurd (omega (arith, h.0))

in_range : (t : ℤ) → Representable t → InRange (2 ^ 63) (floor_secs t)
in_range (pos n) h = omega (arith, h)
in_range (negsuc n) h = absurd (omega (arith, h.0))

pub stand_ins_laws : AuthLaws stand_ins
stand_ins_laws = record {
  hmac-bytes = λ key message. (omega arith, tt);
  from_unix_timestamp-unix_timestamp = floor_law;
  unix_timestamp-InRange = in_range;
  to_str-visible = λ s h. refl;
}

abbrev pub archive : Auth
archive = record { key = codes "secrets"; salt = codes "s"; failures = default_failures }

abbrev locked : Auth
locked = record {
  key = codes "secrets";
  salt = codes "s";
  failures = record { consecutive = 0; locked_until = some (pos (secs 900)) };
}

-- Six wrong guesses, a second apart.
abbrev guesses : List (List ℕ × ℤ)
guesses =
    (codes "a", pos (secs 1))
    ∷ (codes "b", pos (secs 2))
    ∷ (codes "c", pos (secs 3))
    ∷ (codes "d", pos (secs 4))
    ∷ (codes "e", pos (secs 5))
    ∷ (codes "f", pos (secs 6))
    ∷ []

five_refused : refusals (logins stand_ins archive guesses).0 ≡ 5
unfolding refusals logins login locked_for register_failure password_matches derive_key
    with_failures ◌+ℤ◌
five_refused = refl

guesses_wrong :
    All (λ a. (password_matches stand_ins archive a.0 ≡ false) × InWindow (pos 0) a.1) guesses
unfolding password_matches derive_key ◌+ℤ◌
guesses_wrong = (
  (refl, (omega arith, refl)),
  (
    (refl, (omega arith, refl)),
    (
      (refl, (omega arith, refl)),
      (
        (refl, (omega arith, refl)),
        ((refl, (omega arith, refl)), ((refl, (omega arith, refl)), tt)),
      ),
    ),
  ),
)

guesses-bound_example :
    archive.failures.consecutive + refusals (logins stand_ins archive guesses).0 ≤ 5
guesses-bound_example = guesses-bound stand_ins archive (pos 0) guesses (omega arith) guesses_wrong

logins-locked_example :
    (grants (logins stand_ins locked ((codes "secret", pos 5) ∷ [])).0 ≡ 0)
    × (refusals (logins stand_ins locked ((codes "secret", pos 5) ∷ [])).0 ≡ 0)
    × ((logins stand_ins locked ((codes "secret", pos 5) ∷ [])).1 ≡ locked)
logins-locked_example =
    logins-locked stand_ins locked (pos (secs 900)) ((codes "secret", pos 5) ∷ []) refl (refl, tt)

abbrev pub noon : ℤ
noon = pos (secs 43200)

abbrev pub end_of_session : ℤ
end_of_session = noon +ℤ pos session_ttl

pub session_fits : Representable end_of_session
unfolding ◌+ℤ◌
session_fits = (omega arith, omega arith)

pub noon_early : noon +ℤ pos (secs 1) ≤ℤ end_of_session
unfolding ◌+ℤ◌
noon_early = omega arith

verify-mint_example :
    (e : ℤ) × (verify stand_ins archive (mint stand_ins archive noon).token noon
      ≡ some (record { principal = owner; expires_at = e }))
    × (e ≤ℤ end_of_session)
verify-mint_example = verify-mint stand_ins stand_ins_laws archive noon noon session_fits noon_early

abbrev pub token : List ℕ
token = (mint stand_ins archive noon).token

abbrev session_end : ℤ
session_end = (verify-mint stand_ins stand_ins_laws archive noon noon session_fits noon_early).0

abbrev session : VerifiedSession
session = record { principal = owner; expires_at = session_end }

verify-IsSigned_example :
    (expiry : List ℕ) × (n : ℤ) × (token ≡ expiry ++ b'.' ∷ signature_hex stand_ins archive.key n)
    × (parse_i64 expiry ≡ some n)
    × (from_secs n ≡ some session_end)
    × (ltb_ℤ noon session_end ≡ true)
    × (owner ≡ owner)
verify-IsSigned_example =
    verify-IsSigned stand_ins archive token noon session
      (verify-mint stand_ins stand_ins_laws archive noon noon session_fits noon_early).1

-- The gate after the password is changed.
abbrev rotated : Auth
rotated = record { key = codes "longer secrets"; salt = codes "s"; failures = default_failures }

abbrev first : List ℕ → ℕ
first [] = 0
first (c ∷ s) = c

keys_differ :
    stand_ins.hmac rotated.key (message (floor_secs end_of_session))
    ≢ stand_ins.hmac archive.key (message (floor_secs end_of_session))
unfolding ◌+ℤ◌ i64_to_string digits
keys_differ h = let e : 57 ≡ 50 = ap first h in absurd (omega (arith, e))

verify-mint_rotated_example : verify stand_ins rotated token noon ≡ none
verify-mint_rotated_example =
    verify-mint_rotated stand_ins stand_ins_laws archive rotated noon noon session_fits keys_differ

resolve-session_cookie_example :
    (pair : List ℕ) × (rest : List (List ℕ)) × (e : ℤ) × (split b';'
        (session_cookie token session_ttl)
      ≡ pair ∷ rest)
    × (resolve stand_ins archive ((codes "cookie", pair) ∷ []) noon
        ≡ some (record { principal = owner; expires_at = e }, cookie))
resolve-session_cookie_example =
    resolve-session_cookie stand_ins stand_ins_laws archive noon noon session_ttl session_fits
      noon_early
