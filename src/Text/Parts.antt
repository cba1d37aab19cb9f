-- ===== src/Text/Parts.antt =====
-- Lemmas on the parts of a text: where it is split, and what is trimmed off it.
use gps_trips.Prelude.{ℕ, ◌≡◌, ◌≢◌, refl, ap, ◌∙◌, false, List, [], ◌∷◌, ◌++◌, arith, All}
use gps_trips.Text.{split, trim, trim_start, trim_end, is_whitespace, keep, contains}

pub split-no_separator : (d : ℕ) (s : List ℕ) → All (λ c. c ≢ d) s → split d s ≡ s ∷ []
unfolding split
split-no_separator d [] h = refl
split-no_separator d (c ∷ s) h = ground (arith, h.0, split-no_separator d s h.1)

-- What precedes the first separator is the first part.
pub split-append :
    (d : ℕ) (a b : List ℕ) → All (λ c. c ≢ d) a → split d (a ++ d ∷ b) ≡ a ∷ split d b
unfolding split
split-append d [] b h = ground arith
split-append d (c ∷ a) b h = ground (arith, h.0, split-append d a b h.1)

trim_start-bare : (s : List ℕ) → All (λ c. is_whitespace c ≡ false) s → trim_start s ≡ s
unfolding trim_start
trim_start-bare [] h = refl
trim_start-bare (c ∷ s) h = rw h.0 refl

trim_end-bare : (s : List ℕ) → All (λ c. is_whitespace c ≡ false) s → trim_end s ≡ s
unfolding trim_end
trim_end-bare [] h = refl
trim_end-bare (c ∷ []) h = rw h.0 refl
trim_end-bare (c ∷ d ∷ s) h = ap (keep c) (trim_end-bare (d ∷ s) h.1)

-- Nothing is trimmed off a text without whitespace.
pub trim-bare : (s : List ℕ) → All (λ c. is_whitespace c ≡ false) s → trim s ≡ s
unfolding trim
trim-bare s h = ap trim_end (trim_start-bare s h) ∙ trim_end-bare s h

-- Whether a text contains a character.
pub not_contains : (d : ℕ) (s : List ℕ) → contains d s ≡ false → All (λ c. c ≢ d) s
unfolding contains
not_contains d [] h = tt
not_contains d (c ∷ s) h = (ground (arith, h), not_contains d s (ground (arith, h)))

pub contains_not : (d : ℕ) (s : List ℕ) → All (λ c. c ≢ d) s → contains d s ≡ false
unfolding contains
contains_not d [] h = refl
contains_not d (c ∷ s) h = ground (arith, contains_not d s h.1, h.0)
