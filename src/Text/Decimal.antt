-- ===== src/Text/Decimal.antt =====
-- Rust's `Display` and `FromStr` of `i64`.
use gps_trips.Prelude.{
  ℕ, zero, suc, ◌+◌, ◌-◌, ◌*◌, ◌/◌, ◌%◌, ◌^◌, ◌≤◌, ◌<◌, ◌≡◌, refl, ap, subst, ◌∙◌, Bool, ◌&&◌, List,
  [], ◌∷◌, ◌++◌, Option, none, some, arith, ltb, leb, ◌==◌, if◌then◌else◌, All, ltb→lt, All-append,
  Bool-cases, inl, inr,
}
use gps_trips.Prelude.Int.{ℤ, pos, negsuc}
use gps_trips.Qmapshack.Words.{InRange}

-- The decimal digits of `n`; 20 rounds are enough for 64 bits.
unfoldable pub digits : ℕ → ℕ → List ℕ
digits zero n = []
digits (suc fuel) n =
    let front = digits fuel (n / 10) in
    if ltb n 10 then (b'0' + n) ∷ [] else front ++ (b'0' + n % 10) ∷ []

unfoldable pub i64_to_string : ℤ → List ℕ
i64_to_string (pos n) = digits 20 n
i64_to_string (negsuc n) = b'-' ∷ digits 20 (suc n)

is_digit : ℕ → Bool
is_digit c = leb b'0' c && leb c b'9'

-- The number that digits spell behind `acc`; `none` is an error.
unfoldable pub from_digits : ℕ → List ℕ → Option ℕ
unfolding is_digit
from_digits acc [] = some acc
from_digits acc (c ∷ s) =
    let rest = from_digits (acc * 10 + (c - b'0')) s in if is_digit c then rest else none

-- An unsigned number of at most `most`.
unfoldable pub parse_up_to : ℕ → List ℕ → Option ℕ
unfolding from_digits
parse_up_to most [] = none
parse_up_to most (c ∷ s) = elim (from_digits 0 (c ∷ s)) [
  | none ↦ none
  | some n ↦ if leb n most then some n else none
]

minus : ℕ → ℤ
minus zero = pos 0
minus (suc n) = negsuc n

-- `str::parse::<i64>`: a sign, then digits, within the range.
unfoldable pub parse_i64 : List ℕ → Option ℤ
unfolding parse_up_to minus
parse_i64 [] = none
parse_i64 (c ∷ s) =
    if c == b'-'
    then elim (parse_up_to (2 ^ 63) s) [ none ↦ none | some n ↦ some (minus n) ]
    else if c == b'+'
    then elim (parse_up_to (2 ^ 63 - 1) s) [ none ↦ none | some n ↦ some (pos n) ]
    else elim (parse_up_to (2 ^ 63 - 1) (c ∷ s)) [ none ↦ none | some n ↦ some (pos n) ]

-- `str::parse::<u64>`: a plus sign or none, then digits.
unfoldable pub parse_u64 : List ℕ → Option ℕ
unfolding parse_up_to
parse_u64 [] = none
parse_u64 (c ∷ s) =
    if c == b'+' then parse_up_to (2 ^ 64 - 1) s else parse_up_to (2 ^ 64 - 1) (c ∷ s)

from_digits-append :
    (a b : List ℕ) (acc m : ℕ)
    → from_digits acc a ≡ some m
    → from_digits acc (a ++ b) ≡ from_digits m b
unfolding from_digits
from_digits-append [] b acc m h = ground arith
from_digits-append (c ∷ a) b acc m h =
    ground (arith, from_digits-append a b (acc * 10 + (c - b'0')) m)

-- Enough rounds print the number.
pub from_digits-digits :
    (fuel n : ℕ) → n < 10 ^ fuel * 10 → from_digits 0 (digits (suc fuel) n) ≡ some n
unfolding digits from_digits is_digit
from_digits-digits zero n h = ground arith
from_digits-digits (suc fuel) n h = elim (Bool-cases (ltb n 10)) [
  | inl one ↦ ground (arith, one)
  | inr more ↦
      let front : from_digits 0 (digits (suc fuel) (n / 10)) ≡ some (n / 10) =
        from_digits-digits fuel (n / 10) (omega arith) in
      (let e : from_digits 0 (digits (suc fuel) (n / 10) ++ (b'0' + n % 10) ∷ []) ≡ some n =
          from_digits-append (digits (suc fuel) (n / 10)) ((b'0' + n % 10) ∷ []) 0 (n / 10) front
          ∙ ground arith in
        ground (arith, more, e))
]

abbrev pub IsDigit : ℕ → Type 0
IsDigit c = (b'0' ≤ c) × (c ≤ b'9')

-- Digits, so that neither a sign nor a full stop is among them.
pub digits-IsDigit : (fuel n : ℕ) → All IsDigit (digits fuel n)
unfolding digits
digits-IsDigit zero n = tt
digits-IsDigit (suc fuel) n = elim (Bool-cases (ltb n 10)) [
  | inl one ↦
      let d : IsDigit (b'0' + n) = (omega arith, omega (arith, ltb→lt n 10 one)) in rw one (d, tt)
  | inr more ↦
      let d : IsDigit (b'0' + n % 10) = (omega arith, omega arith) in
      rw more (
        All-append IsDigit (digits fuel (n / 10)) ((b'0' + n % 10) ∷ [])
          (digits-IsDigit fuel (n / 10)) (d, tt))
]

digits-ne_empty : (fuel n : ℕ) → (c : ℕ) × (s : List ℕ) × (digits (suc fuel) n ≡ c ∷ s)
unfolding digits
digits-ne_empty zero n = elim (Bool-cases (ltb n 10)) [
  | inl one ↦ (b'0' + n, [], rw (digits, one) refl)
  | inr more ↦ (b'0' + n % 10, [], rw (digits, more) refl)
]
digits-ne_empty (suc fuel) n = elim (Bool-cases (ltb n 10)) [
  | inl one ↦ (b'0' + n, [], rw (digits, one) refl)
  | inr more ↦
      let (c, s, e) = digits-ne_empty fuel (n / 10) in
      (c, s ++ (b'0' + n % 10) ∷ [], rw (digits, more) (ap (λ t. t ++ (b'0' + n % 10) ∷ []) e))
]

parse_up_to-digits : (most n : ℕ) → n < 10 ^ 20 → n ≤ most → parse_up_to most (digits 20 n) ≡ some n
unfolding parse_up_to
parse_up_to-digits most n h k =
    let (c, s, e) = digits-ne_empty 19 n in
    let r : from_digits 0 (c ∷ s) ≡ some n =
      subst (λ t. from_digits 0 t ≡ some n) e (from_digits-digits 19 n (omega (arith, h))) in
    rw e (ground (arith, r, k))

parse_i64-digits :
    (s : List ℕ)
    → All IsDigit s
    → (n : ℕ) → parse_up_to (2 ^ 63 - 1) s ≡ some n
    → parse_i64 s ≡ some (pos n)
unfolding parse_i64 parse_up_to
parse_i64-digits [] d n h = cc
parse_i64-digits (c ∷ s) d n h = ground (arith, d.0, h)

parse_i64-minus :
    (s : List ℕ) (n : ℕ) → parse_up_to (2 ^ 63) s ≡ some n → parse_i64 (b'-' ∷ s) ≡ some (minus n)
unfolding parse_i64
parse_i64-minus s n h = rw h refl

-- What is printed is read again, for the numbers of 64 bits.
pub parse_i64-i64_to_string : (n : ℤ) → InRange (2 ^ 63) n → parse_i64 (i64_to_string n) ≡ some n
unfolding i64_to_string minus
parse_i64-i64_to_string (pos n) h =
    parse_i64-digits (digits 20 n) (digits-IsDigit 20 n) n
      (parse_up_to-digits (2 ^ 63 - 1) n (omega (arith, h)) (omega (arith, h)))
parse_i64-i64_to_string (negsuc n) h =
    parse_i64-minus (digits 20 (suc n)) (suc n)
      (parse_up_to-digits (2 ^ 63) (suc n) (omega (arith, h)) (omega (arith, h)))
