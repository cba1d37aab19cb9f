-- ===== src/Qmapshack/Words.antt =====
-- Machine integers as bytes: Rust's `to_le_bytes`, `from_le_bytes`, `to_be_bytes` and
-- `from_be_bytes`, which server/qmapshack/qtstream.rs and decode.rs use. A byte is a number; a signed
-- integer is stored as its two's complement.
use native.Mathlib.Nat.{pow-suc, mod-eq_of_lt}
use gps_trips.Prelude.{
  ℕ, zero, suc, ◌+◌, ◌-◌, ◌*◌, ◌/◌, ◌%◌, ◌^◌, ◌<◌, ◌≡◌, refl, ap, List, [], ◌∷◌, arith, ltb,
  if◌then◌else◌, length,
}
use gps_trips.Prelude.Int.{ℤ, pos, negsuc}

-- The lowest `k` bytes of `n`, lowest first.
unfoldable pub le_bytes : ℕ → ℕ → List ℕ
le_bytes zero n = []
le_bytes (suc k) n = n % 256 ∷ le_bytes k (n / 256)

unfoldable pub from_le_bytes : List ℕ → ℕ
from_le_bytes [] = 0
from_le_bytes (b ∷ bs) = b + 256 * from_le_bytes bs

-- Highest first, behind what `acc` has read.
from_be_loop : ℕ → List ℕ → ℕ
from_be_loop acc [] = acc
from_be_loop acc (b ∷ bs) = from_be_loop (acc * 256 + b) bs

unfoldable pub from_be_bytes : List ℕ → ℕ
unfolding from_be_loop
from_be_bytes = from_be_loop 0

unfoldable pub be_bytes_u32 : ℕ → List ℕ
be_bytes_u32 n = n / 2 ^ 24 % 256 ∷ n / 2 ^ 16 % 256 ∷ n / 2 ^ 8 % 256 ∷ n % 256 ∷ []

-- The bit pattern of a signed integer of `2 * half` values, and the integer of a bit pattern.
abbrev pub to_word : ℕ → ℤ → ℕ
to_word half (pos n) = n % (2 * half)
to_word half (negsuc n) = 2 * half - 1 - n

abbrev pub from_word : ℕ → ℕ → ℤ
from_word half w = if ltb w half then pos w else negsuc (2 * half - 1 - w)

-- The integers of that type.
abbrev pub InRange : ℕ → ℤ → Type 0
InRange half (pos n) = n < half
InRange half (negsuc n) = n < half

pub length-le_bytes : (k n : ℕ) → length (le_bytes k n) ≡ k
unfolding le_bytes
length-le_bytes zero n = refl
length-le_bytes (suc k) n = ap suc (length-le_bytes k (n / 256))

pub from_le_bytes-le_bytes : (k n : ℕ) → n < 256 ^ k → from_le_bytes (le_bytes k n) ≡ n
unfolding le_bytes from_le_bytes
from_le_bytes-le_bytes zero n h = omega arith
from_le_bytes-le_bytes (suc k) n h =
    omega (arith, from_le_bytes-le_bytes k (n / 256) (omega (arith, pow-suc 256 k)))

pub from_be_bytes-be_bytes_u32 : (n : ℕ) → n < 2 ^ 32 → from_be_bytes (be_bytes_u32 n) ≡ n
unfolding from_be_bytes be_bytes_u32
from_be_bytes-be_bytes_u32 n h = omega arith

pub from_word-to_word : (half : ℕ) (z : ℤ) → InRange half z → from_word half (to_word half z) ≡ z
from_word-to_word half (pos n) h =
    rw (mod-eq_of_lt {n = n} {m = 2 * half} (omega arith)) (ground arith)
from_word-to_word half (negsuc n) h = ground arith

pub to_word-lt : (half : ℕ) (z : ℤ) → InRange half z → to_word half z < 2 * half
to_word-lt half (pos n) h = rw (mod-eq_of_lt {n = n} {m = 2 * half} (omega arith)) (omega arith)
to_word-lt half (negsuc n) h = omega arith
