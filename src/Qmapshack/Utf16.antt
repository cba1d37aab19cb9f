-- ===== src/Qmapshack/Utf16.antt =====
-- Rust's `str::encode_utf16` and `String::from_utf16`. A text is the list of its Unicode scalar
-- values.
use mathlib.Core.Option
use gps_trips.Prelude.{
  ℕ, ◌+◌, ◌-◌, ◌*◌, ◌/◌, ◌%◌, ◌^◌, ◌≤◌, ◌<◌, ◌≡◌, refl, ◌⊎◌, Bool, true, false, ap, ◌∙◌, inl, inr,
  Bool-cases, ◌&&◌, List, [], ◌∷◌, ◌++◌, Option, none, some, arith, ltb, leb, if◌then◌else◌, All,
}

-- The values that a `char` can have.
abbrev pub IsScalar : ℕ → Type 0
IsScalar c = (c < 0xd800) ⊎ ((0xe000 ≤ c) × (c < 0x110000))

encode_char : ℕ → List ℕ
encode_char c =
    if ltb c 0x10000
    then c ∷ []
    else (0xd800 + (c - 0x10000) / 0x400) ∷ (0xdc00 + (c - 0x10000) % 0x400) ∷ []

unfoldable pub encode_utf16 : List ℕ → List ℕ
unfolding encode_char
encode_utf16 [] = []
encode_utf16 (c ∷ s) = encode_char c ++ encode_utf16 s

is_surrogate : ℕ → Bool
is_surrogate u = leb 0xd800 u && ltb u 0xe000

is_pair : ℕ → ℕ → Bool
is_pair u v = leb 0xd800 u && ltb u 0xdc00 && (leb 0xdc00 v && ltb v 0xe000)

-- The character of a surrogate pair.
join : ℕ → ℕ → ℕ
join u v = 0x10000 + (u - 0xd800) * 0x400 + (v - 0xdc00)

-- `none` is the error on a surrogate without its other half.
unfoldable pub from_utf16 : List ℕ → Option (List ℕ)
unfolding is_surrogate is_pair join
from_utf16 [] = some []
from_utf16 (u ∷ []) = if is_surrogate u then none else some (u ∷ [])
from_utf16 (u ∷ v ∷ rest) =
    let single = Option.map (λ s. u ∷ s) (from_utf16 (v ∷ rest)) in
    let pair = Option.map (λ s. join u v ∷ s) (from_utf16 rest) in
    if is_surrogate u then (if is_pair u v then pair else none) else single

abbrev high_half : ℕ → ℕ
high_half c = 0xd800 + (c - 0x10000) / 0x400

abbrev low_half : ℕ → ℕ
low_half c = 0xdc00 + (c - 0x10000) % 0x400

pair_join :
    (u v : ℕ) (rest s : List ℕ)
    → is_surrogate u ≡ true
    → is_pair u v ≡ true
    → from_utf16 rest ≡ some s
    → from_utf16 (u ∷ v ∷ rest) ≡ some (join u v ∷ s)
unfolding from_utf16 join
pair_join u v rest s a b e = rw (a, b, e)

halves :
    (c : ℕ)
    → 0x10000 ≤ c
    → c < 0x110000
    → (is_surrogate (high_half c) ≡ true)
      × (is_pair (high_half c) (low_half c) ≡ true)
      × (join (high_half c) (low_half c) ≡ c)
unfolding is_surrogate is_pair join
halves c lo hi = (ground arith, ground arith, omega arith)

from_utf16-pair :
    (c : ℕ) (rest s : List ℕ)
    → 0x10000 ≤ c
    → c < 0x110000
    → from_utf16 rest ≡ some s
    → from_utf16 (high_half c ∷ low_half c ∷ rest) ≡ some (c ∷ s)
from_utf16-pair c rest s lo hi e =
    let (a, b, j) = halves c lo hi in
    pair_join (high_half c) (low_half c) rest s a b e ∙ ap (λ d. some (d ∷ s)) j

from_utf16-single :
    (c : ℕ) (rest s : List ℕ)
    → is_surrogate c ≡ false
    → from_utf16 rest ≡ some s
    → from_utf16 (c ∷ rest) ≡ some (c ∷ s)
unfolding from_utf16
from_utf16-single c [] s ok e = ground arith
from_utf16-single c (v ∷ rest) s ok e = rw ok (rw e)

-- Every text comes back from its UTF-16.
pub from_utf16-encode_utf16 : (s : List ℕ) → All IsScalar s → from_utf16 (encode_utf16 s) ≡ some s
unfolding encode_utf16
from_utf16-encode_utf16 [] h = unfold from_utf16 in refl
from_utf16-encode_utf16 (c ∷ s) (hc, hs) = elim (Bool-cases (ltb c 0x10000)) [
  | inl small ↦ rw small (
      from_utf16-single c (encode_utf16 s) s (unfold is_surrogate in ground arith)
        (from_utf16-encode_utf16 s hs))
  | inr large ↦ rw large (
      from_utf16-pair c (encode_utf16 s) s (ground arith) (ground arith)
        (from_utf16-encode_utf16 s hs))
]

-- The units of a text are 16-bit.
pub encode_utf16-units : (s : List ℕ) → All IsScalar s → All (λ u. u < 2 ^ 16) (encode_utf16 s)
unfolding encode_utf16
encode_utf16-units [] h = tt
encode_utf16-units (c ∷ s) (hc, hs) = elim (Bool-cases (ltb c 0x10000)) [
  | inl small ↦ rw small (ground arith, encode_utf16-units s hs)
  | inr large ↦ rw large (ground arith, (ground arith, encode_utf16-units s hs))
]

-- An ASCII text has one unit a character.
pub encode_utf16-ascii : (s : List ℕ) → All (λ c. c < 128) s → encode_utf16 s ≡ s
unfolding encode_utf16
encode_utf16-ascii [] h = refl
encode_utf16-ascii (c ∷ s) (hc, hs) =
    let small : ltb c 0x10000 ≡ true = ground arith in
    rw small (ap (λ t. c ∷ t) (encode_utf16-ascii s hs))

pub All-ascii : (s : List ℕ) → All (λ c. c < 128) s → All IsScalar s
All-ascii [] h = tt
All-ascii (c ∷ s) (hc, hs) = (inl (omega arith), All-ascii s hs)
