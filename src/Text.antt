-- ===== src/Text.antt =====
-- The methods of Rust's `str` that the program uses, on the list of a text's scalar values.
pub mod Decimal
pub mod Parts
use gps_trips.Prelude.{
  ℕ, zero, suc, ◌+◌, ◌-◌, ◌*◌, ◌/◌, ◌%◌, ◌^◌, ◌<◌, ◌≡◌, ◌≢◌, refl, ap, inl, inr, Bool-cases, ◌∙◌,
  Bool, true, false, not, ◌&&◌, ◌||◌, List, [], ◌∷◌, ◌++◌, append_assoc, Option, none, some, arith,
  ltb, leb, ◌==◌, if◌then◌else◌, All,
}

-- `char::is_whitespace`: the code points with the property White_Space.
unfoldable pub is_whitespace : ℕ → Bool
is_whitespace c =
    (leb 9 c && leb c 13)
    || c == 32
    || c == 0x85
    || c == 0xa0
    || c == 0x1680
    || (leb 0x2000 c && leb c 0x200a)
    || c == 0x2028
    || c == 0x2029
    || c == 0x202f
    || c == 0x205f
    || c == 0x3000

unfoldable pub trim_start : List ℕ → List ℕ
trim_start [] = []
trim_start (c ∷ s) = if is_whitespace c then trim_start s else c ∷ s

-- A character in front of a text whose end is trimmed.
abbrev keep : ℕ → List ℕ → List ℕ
keep c [] = if is_whitespace c then [] else c ∷ []
keep c (d ∷ s) = c ∷ d ∷ s

unfoldable pub trim_end : List ℕ → List ℕ
trim_end [] = []
trim_end (c ∷ s) = keep c (trim_end s)

unfoldable pub trim : List ℕ → List ℕ
unfolding trim_start trim_end
trim s = trim_end (trim_start s)

unfoldable pub is_empty : List ℕ → Bool
is_empty [] = true
is_empty (c ∷ s) = false

unfoldable pub contains : ℕ → List ℕ → Bool
contains d [] = false
contains d (c ∷ s) = c == d || contains d s

-- What comes before and after the first `d`.
abbrev before : ℕ → Option (List ℕ × List ℕ) → Option (List ℕ × List ℕ)
before c none = none
before c (some (a, b)) = some (c ∷ a, b)

unfoldable pub split_once : ℕ → List ℕ → Option (List ℕ × List ℕ)
split_once d [] = none
split_once d (c ∷ s) = let rest = split_once d s in if c == d then some ([], s) else before c rest

abbrev pub cons_head : ℕ → List (List ℕ) → List (List ℕ)
cons_head c [] = (c ∷ []) ∷ []
cons_head c (p ∷ ps) = (c ∷ p) ∷ ps

-- The parts between the separators: one more than there are separators.
unfoldable pub split : ℕ → List ℕ → List (List ℕ)
split d [] = [] ∷ []
split d (c ∷ s) = let rest = split d s in if c == d then [] ∷ rest else cons_head c rest

unfoldable pub strip_prefix : List ℕ → List ℕ → Option (List ℕ)
strip_prefix [] s = some s
strip_prefix (p ∷ ps) [] = none
strip_prefix (p ∷ ps) (c ∷ s) = let rest = strip_prefix ps s in if p == c then rest else none

unfoldable pub starts_with : List ℕ → List ℕ → Bool
unfolding strip_prefix
starts_with p s = elim (strip_prefix p s) [ none ↦ false | some rest ↦ true ]

lower : ℕ → ℕ
lower c = if leb b'A' c && leb c b'Z' then c + 32 else c

unfoldable pub eq_ignore_ascii_case : List ℕ → List ℕ → Bool
unfolding lower
eq_ignore_ascii_case [] [] = true
eq_ignore_ascii_case [] (d ∷ t) = false
eq_ignore_ascii_case (c ∷ s) [] = false
eq_ignore_ascii_case (c ∷ s) (d ∷ t) =
    if lower c == lower d then eq_ignore_ascii_case s t else false

-- A text without `d`, then `d`, is split there.
pub split_once-append :
    (d : ℕ) (a b : List ℕ) → All (λ c. c ≢ d) a → split_once d (a ++ d ∷ b) ≡ some (a, b)
unfolding split_once
split_once-append d [] b h = ground arith
split_once-append d (c ∷ a) b h = ground (arith, split_once-append d a b h.1)

before_inv :
    (c : ℕ) (o : Option (List ℕ × List ℕ)) (a b : List ℕ)
    → before c o ≡ some (a, b)
    → (a' : List ℕ) × (a ≡ c ∷ a') × (o ≡ some (a', b))
before_inv c none a b h = cc
before_inv c (some (x, y)) a b h = (x, ground arith, ground arith)

-- What is split is the text.
pub split_once_joins : (d : ℕ) (s a b : List ℕ) → split_once d s ≡ some (a, b) → s ≡ a ++ d ∷ b
unfolding split_once
split_once_joins d [] a b h = cc
split_once_joins d (c ∷ s) a b h = elim (Bool-cases (c == d)) [
  | inl here ↦ ground (arith, here)
  | inr later ↦
      let (a', e, rest) = before_inv c (split_once d s) a b (ground (arith, later)) in
      ap (λ t. c ∷ t) (split_once_joins d s a' b rest) ∙ rw e
]

pub strip_prefix-append : (p s : List ℕ) → strip_prefix p (p ++ s) ≡ some s
unfolding strip_prefix
strip_prefix-append [] s = refl
strip_prefix-append (c ∷ p) s = ground (arith, strip_prefix-append p s)

pub strip_prefix_joins : (p s t : List ℕ) → strip_prefix p s ≡ some t → s ≡ p ++ t
unfolding strip_prefix
strip_prefix_joins [] s t h = ground arith
strip_prefix_joins (c ∷ p) [] t h = cc
strip_prefix_joins (c ∷ p) (d ∷ s) t h = ground (arith, strip_prefix_joins p s t)
