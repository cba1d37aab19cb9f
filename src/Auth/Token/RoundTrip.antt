-- ===== src/Auth/Token/RoundTrip.antt =====
-- Theorems on the session tokens of src/server/auth.rs.
use gps_trips.Prelude.{
  ℕ, suc, ◌+◌, ◌-◌, ◌*◌, ◌/◌, ◌%◌, ◌<◌, ◌≡◌, ◌≢◌, refl, sym, ap, subst, some-injective, ◌∙◌, true,
  List, [], ◌∷◌, ◌++◌, Option, none, some, arith, ltb, if◌then◌else◌, All, All-weaken, Bool-cases,
  Option-cases, inl, inr, guard_inv, text_eq, text_eq_refl, text_eq→eq,
}
use gps_trips.Prelude.Int.{ℤ, pos, negsuc, ◌+ℤ◌, ◌≤ℤ◌, ltb_ℤ}
use gps_trips.Auth.Crates.{AuthCrates, AuthLaws, Representable, secs}
use gps_trips.Auth.Token.{
  Auth, VerifiedSession, owner, mint, sign, verify, signature_hex, hex, hex_digit, message,
  session_ttl, check_signature, unexpired,
}
use gps_trips.Text.{split_once, split_once-append, split_once_joins}
use gps_trips.Text.Decimal.{
  i64_to_string, parse_i64, parse_i64-i64_to_string, digits, digits-IsDigit,
}

-- Neither a full stop nor what else separates a token is among the characters of a number.
pub i64_to_string-ne_stop : (n : ℤ) → All (λ c. c ≢ b'.') (i64_to_string n)
unfolding i64_to_string
i64_to_string-ne_stop (pos n) =
    All-weaken (λ c d. omega (arith, d.0)) (digits 20 n) (digits-IsDigit 20 n)
i64_to_string-ne_stop (negsuc n) = (
  omega arith,
  All-weaken (λ c d. omega (arith, d.0)) (digits 20 (suc n)) (digits-IsDigit 20 (suc n)),
)

verify-sign :
    (C : AuthCrates) (auth auth' : Auth) (n : ℤ) (t : ℤ)
    → parse_i64 (i64_to_string n) ≡ some n
    → verify C auth' (sign C auth n) t
      ≡ check_signature C auth' (signature_hex C auth.key n) t (some n)
unfolding verify sign
verify-sign C auth auth' n t h =
    let e : split_once b'.' (sign C auth n) ≡ some (i64_to_string n, signature_hex C auth.key n) =
      split_once-append b'.' (i64_to_string n) (signature_hex C auth.key n)
        (i64_to_string-ne_stop n) in
    rw (verify, e) (rw h refl)

still_live :
    (t s x : ℤ) → t +ℤ pos (secs 1) ≤ℤ x → x +ℤ pos 1 ≤ℤ s +ℤ pos (secs 1) → ltb_ℤ t s ≡ true
unfolding ◌+ℤ◌
still_live t s x h k = ground (arith, h, k)

-- A session that is minted is accepted as the owner's until a second before its expiry, and the
-- expiry that is read back is no later than a session's lifetime from the minting. The condition:
-- the expiry lies between 1970 and the end of the year 9999.
pub verify-mint :
    (C : AuthCrates) (laws : AuthLaws C) (auth : Auth) (now t : ℤ)
    → Representable (now +ℤ pos session_ttl)
    → t +ℤ pos (secs 1) ≤ℤ now +ℤ pos session_ttl
    → (e : ℤ) × (verify C auth (mint C auth now).token t
        ≡ some (record { principal = owner; expires_at = e }))
      × (e ≤ℤ now +ℤ pos session_ttl)
unfolding mint
verify-mint C laws auth now t h k =
    let x = now +ℤ pos session_ttl in
    let (e, whole, below, above) = laws.from_unix_timestamp-unix_timestamp x h in
    let n = C.unix_timestamp x in
    let v : verify C auth (sign C auth n) t
        ≡ check_signature C auth (signature_hex C auth.key n) t (some n) =
      verify-sign C auth auth n t (parse_i64-i64_to_string n (laws.unix_timestamp-InRange x h)) in
    let granted : check_signature C auth (signature_hex C auth.key n) t (some n)
        ≡ some (record { principal = owner; expires_at = e }) =
      rw (text_eq_refl (signature_hex C auth.key n))
        (rw whole (rw (still_live t e x k above) refl)) in
    (e, v ∙ granted, below)

unexpired_inv :
    (o : Option ℤ) (now : ℤ) (session : VerifiedSession)
    → unexpired o now ≡ some session
    → (o ≡ some session.expires_at)
      × (ltb_ℤ now session.expires_at ≡ true)
      × (session.principal ≡ owner)
unexpired_inv none now session h = cc
unexpired_inv (some e) now session h =
    let (live, found) =
      guard_inv (ltb_ℤ now e) (some (record { principal = owner; expires_at = e })) session h in
    let same : record { principal = owner; expires_at = e } ≡ session =
      some-injective (record { principal = owner; expires_at = e }) session found in
    (
      ap (λ v. some v.expires_at) same,
      subst (λ v. ltb_ℤ now v.expires_at ≡ true) same live,
      ap (λ v. v.principal) (sym same),
    )

check_signature_inv :
    (C : AuthCrates) (auth : Auth) (signature : List ℕ) (now : ℤ) (o : Option ℤ)
    (session : VerifiedSession)
    → check_signature C auth signature now o ≡ some session
    → (n : ℤ) × (o ≡ some n)
      × (signature ≡ signature_hex C auth.key n)
      × (unexpired (C.from_unix_timestamp n) now ≡ some session)
check_signature_inv C auth signature now none session h = cc
check_signature_inv C auth signature now (some n) session h =
    let mine = signature_hex C auth.key n in
    let (ours, live) =
      guard_inv (text_eq signature mine) (unexpired (C.from_unix_timestamp n) now) session h in
    (n, refl, text_eq→eq signature mine ours, live)

-- A token that is accepted is a number, a full stop and the gate's own signature over that number;
-- the instant that the number stands for lies ahead, and the caller is the owner.
pub verify-IsSigned :
    (C : AuthCrates) (auth : Auth) (token : List ℕ) (now : ℤ) (session : VerifiedSession)
    → verify C auth token now ≡ some session
    → (expiry : List ℕ) × (n : ℤ) × (token ≡ expiry ++ b'.' ∷ signature_hex C auth.key n)
      × (parse_i64 expiry ≡ some n)
      × (C.from_unix_timestamp n ≡ some session.expires_at)
      × (ltb_ℤ now session.expires_at ≡ true)
      × (session.principal ≡ owner)
unfolding verify
verify-IsSigned C auth token now session h = elim (Option-cases (split_once b'.' token)) [
  | inl whole ↦ let clash : none ≡ some session = rw (verify, whole) at h in cc
  | inr ((expiry, signature), parts) ↦
      let (n, parsed, ours, live) =
        check_signature_inv C auth signature now (parse_i64 expiry) session
          (rw (verify, parts) at h) in
      let (at, ahead, who) = unexpired_inv (C.from_unix_timestamp n) now session live in
      (
        expiry,
        n,
        split_once_joins b'.' token expiry signature parts ∙ ap (λ t. expiry ++ b'.' ∷ t) ours,
        parsed,
        at,
        ahead,
        who,
      )
]

pub verify-principal :
    (C : AuthCrates) (auth : Auth) (token : List ℕ) (now : ℤ) (session : VerifiedSession)
    → verify C auth token now ≡ some session
    → session.principal ≡ owner
verify-principal C auth token now session h =
    let (_, _, _, _, _, _, who) = verify-IsSigned C auth token now session h in who

hex_value : ℕ → ℕ
hex_value c = if ltb c b'a' then c - b'0' else c + 10 - b'a'

hex_value-hex_digit : (d : ℕ) → d < 16 → hex_value (hex_digit d) ≡ d
unfolding hex_value hex_digit
hex_value-hex_digit d h = ground (arith, h)

from_hex : List ℕ → List ℕ
from_hex [] = []
from_hex (c ∷ []) = []
from_hex (c ∷ d ∷ s) = (hex_value c * 16 + hex_value d) ∷ from_hex s

from_hex-hex : (bytes : List ℕ) → All (λ b. b < 256) bytes → from_hex (hex bytes) ≡ bytes
unfolding from_hex hex
from_hex-hex [] h = refl
from_hex-hex (b ∷ bytes) h =
    let high : hex_value (hex_digit (b / 16)) ≡ b / 16 =
      hex_value-hex_digit (b / 16) (omega (arith, h.0)) in
    let low : hex_value (hex_digit (b % 16)) ≡ b % 16 =
      hex_value-hex_digit (b % 16) (omega arith) in
    let byte : b / 16 * 16 + b % 16 ≡ b = omega arith in
    rw high (rw low (rw byte (ap (λ s. b ∷ s) (from_hex-hex bytes h.1))))

signature-injective :
    (C : AuthCrates) (laws : AuthLaws C) (key key' : List ℕ) (n : ℤ)
    → signature_hex C key n ≡ signature_hex C key' n
    → C.hmac key (message n) ≡ C.hmac key' (message n)
unfolding signature_hex
signature-injective C laws key key' n h =
    sym (from_hex-hex (C.hmac key (message n)) (laws.hmac-bytes key (message n)))
    ∙ ap from_hex h
    ∙ from_hex-hex (C.hmac key' (message n)) (laws.hmac-bytes key' (message n))

-- A gate whose key signs the expiry of a session otherwise does not accept that session, at
-- whatever instant. The condition: the expiry lies between 1970 and the end of the year 9999.
pub verify-mint_rotated :
    (C : AuthCrates) (laws : AuthLaws C) (auth auth' : Auth) (now t : ℤ)
    → Representable (now +ℤ pos session_ttl)
    → (C.hmac auth'.key (message (C.unix_timestamp (now +ℤ pos session_ttl)))
        ≢ C.hmac auth.key (message (C.unix_timestamp (now +ℤ pos session_ttl))))
    → verify C auth' (mint C auth now).token t ≡ none
unfolding mint
verify-mint_rotated C laws auth auth' now t h other =
    let n = C.unix_timestamp (now +ℤ pos session_ttl) in
    let ours = C.hmac auth'.key (message n) in
    let theirs = C.hmac auth.key (message n) in
    let v : verify C auth' (sign C auth n) t
        ≡ check_signature C auth' (signature_hex C auth.key n) t (some n) =
      verify-sign C auth auth' n t
        (parse_i64-i64_to_string n (laws.unix_timestamp-InRange (now +ℤ pos session_ttl) h)) in
    v ∙ elim (Bool-cases (text_eq (signature_hex C auth.key n) (signature_hex C auth'.key n))) [
      | inr differ ↦ rw differ refl
      | inl same ↦ absurd (
          other (
            signature-injective C laws auth'.key auth.key n
              (sym (text_eq→eq (signature_hex C auth.key n) (signature_hex C auth'.key n) same))))
    ]
