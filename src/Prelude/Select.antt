-- ===== src/Prelude/Select.antt =====
-- Lists searched and selected from by Boolean tests, as `iter().any`, `filter` and a WHERE do.
use mathlib.Core.Path.{◌≡◌, refl}
use mathlib.Core.Logic.{◌⊎◌, inl, inr}
use mathlib.Core.Bool.{Bool, true, false}
use mathlib.Core.List.{List, [], ◌∷◌, ◌++◌, map}
use gps_trips.Prelude.Tests.{if◌then◌else◌, Bool-cases}
use gps_trips.Prelude.Lists.{All, All-weaken}

module _ {ℓ} {A : Type ℓ} where
  abbrev pub any : (A → Bool) → List A → Bool
  any p [] = false
  any p (x ∷ xs) = if p x then true else any p xs

  abbrev pub filter : (A → Bool) → List A → List A
  filter p [] = []
  filter p (x ∷ xs) = if p x then x ∷ filter p xs else filter p xs

  -- A relation of every element to each of those behind it, by recursion as `All`.
  abbrev pub Pairwise {κ} : (A → A → Type κ) → List A → Type (ℓ ⊔ κ)
  Pairwise R [] = Unit {_}
  Pairwise R (x ∷ xs) = All (R x) xs × Pairwise R xs

module _ {ℓ μ} {A : Type ℓ} {B : Type μ} where
  pub All-map {κ} :
      (P : B → Type κ) (f : A → B) (xs : List A) → All (λ x. P (f x)) xs → All P (map f xs)
  All-map P f [] h = tt
  All-map P f (x ∷ xs) h = (h.0, All-map P f xs h.1)

module _ {ℓ} {A : Type ℓ} where
  pub any-false : (p : A → Bool) (xs : List A) → any p xs ≡ false → All (λ x. p x ≡ false) xs
  any-false p [] h = tt
  any-false p (x ∷ xs) h = elim (Bool-cases (p x)) [
    | inl yes_x ↦ let bad : true ≡ false = rw yes_x at h in cc
    | inr no_x ↦ let rest : any p xs ≡ false = rw no_x at h in (no_x, any-false p xs rest)
  ]

  pub any-none : (p : A → Bool) (xs : List A) → All (λ x. p x ≡ false) xs → any p xs ≡ false
  any-none p [] h = refl
  any-none p (x ∷ xs) h = rw h.0 (any-none p xs h.1)

  pub any-append_left : (p : A → Bool) (xs ys : List A) → any p xs ≡ true → any p (xs ++ ys) ≡ true
  any-append_left p [] ys h = cc
  any-append_left p (x ∷ xs) ys h = elim (Bool-cases (p x)) [
    | inl yes_x ↦ rw yes_x refl
    | inr no_x ↦ let rest : any p xs ≡ true = rw no_x at h in rw no_x (any-append_left p xs ys rest)
  ]

  pub any-append_right : (p : A → Bool) (xs ys : List A) → any p ys ≡ true → any p (xs ++ ys) ≡ true
  any-append_right p [] ys h = h
  any-append_right p (x ∷ xs) ys h = elim (Bool-cases (p x)) [
    | inl yes_x ↦ rw yes_x refl
    | inr no_x ↦ rw no_x (any-append_right p xs ys h)
  ]

  pub any-append_inv :
      (p : A → Bool) (xs ys : List A)
      → any p (xs ++ ys) ≡ true
      → (any p xs ≡ true) ⊎ (any p ys ≡ true)
  any-append_inv p [] ys h = inr h
  any-append_inv p (x ∷ xs) ys h = elim (Bool-cases (p x)) [
    | inl yes_x ↦ inl (rw yes_x refl)
    | inr no_x ↦ elim (any-append_inv p xs ys (rw no_x at h)) [
      | inl l ↦ inl (rw no_x l)
      | inr r ↦ inr r
    ]
  ]

  pub any-filter :
      (p q : A → Bool) (xs : List A)
      → ((x : A) → p x ≡ true → q x ≡ true)
      → any p xs ≡ true
      → any p (filter q xs) ≡ true
  any-filter p q [] f h = h
  any-filter p q (x ∷ xs) f h = elim (Bool-cases (p x)) [
    | inl yes_x ↦ rw (f x yes_x, yes_x) refl
    | inr no_x ↦
        let rest : any p (filter q xs) ≡ true = any-filter p q xs f (rw no_x at h) in
        elim (Bool-cases (q x)) [
          | inl kept ↦ rw (kept, no_x) rest
          | inr left_out ↦ rw left_out rest
        ]
  ]

  pub All-filter {κ} :
      (P : A → Type κ) (p : A → Bool) (xs : List A) → All P xs → All P (filter p xs)
  All-filter P p [] h = tt
  All-filter P p (x ∷ xs) h = elim (Bool-cases (p x)) [
    | inl kept ↦ rw kept (h.0, All-filter P p xs h.1)
    | inr left_out ↦ rw left_out (All-filter P p xs h.1)
  ]

  pub filter-holds : (p : A → Bool) (xs : List A) → All (λ x. p x ≡ true) (filter p xs)
  filter-holds p [] = tt
  filter-holds p (x ∷ xs) = elim (Bool-cases (p x)) [
    | inl kept ↦ rw kept (kept, filter-holds p xs)
    | inr left_out ↦ rw left_out (filter-holds p xs)
  ]

  pub Pairwise-filter {κ} :
      (R : A → A → Type κ) (p : A → Bool) (xs : List A) → Pairwise R xs → Pairwise R (filter p xs)
  Pairwise-filter R p [] h = tt
  Pairwise-filter R p (x ∷ xs) h = elim (Bool-cases (p x)) [
    | inl kept ↦ rw kept (All-filter (R x) p xs h.0, Pairwise-filter R p xs h.1)
    | inr left_out ↦ rw left_out (Pairwise-filter R p xs h.1)
  ]

  -- A change of the elements that keeps the relation keeps it throughout the list.
  pub Pairwise-map {κ} :
      (R : A → A → Type κ) (f : A → A) (xs : List A)
      → ((x y : A) → R x y → R (f x) (f y))
      → Pairwise R xs
      → Pairwise R (map f xs)
  Pairwise-map R f [] k h = tt
  Pairwise-map R f (x ∷ xs) k h =
      (All-map (R (f x)) f xs (All-weaken (k x) xs h.0), Pairwise-map R f xs k h.1)

  pub All-snoc {κ} : (P : A → Type κ) (xs : List A) (y : A) → All P xs → P y → All P (xs ++ y ∷ [])
  All-snoc P [] y h k = (k, tt)
  All-snoc P (x ∷ xs) y h k = (h.0, All-snoc P xs y h.1 k)

  pub Pairwise-snoc {κ} :
      (R : A → A → Type κ) (xs : List A) (y : A)
      → Pairwise R xs
      → All (λ x. R x y) xs
      → Pairwise R (xs ++ y ∷ [])
  Pairwise-snoc R [] y h k = (tt, tt)
  Pairwise-snoc R (x ∷ xs) y h k = (All-snoc (R x) xs y h.0 k.0, Pairwise-snoc R xs y h.1 k.1)
