-- ===== src/Types.antt =====
-- The closed sets of crates/types/src and their names on the wire. A `match` on a text is the list
-- of its arms, tried in order.
pub mod Activity
pub mod Kind
pub mod Privacy
pub mod Recorded
pub mod Tag
mod Runs
use gps_trips.Prelude.{
  ℕ, ◌≡◌, refl, sym, ap, ◌∙◌, Bool, true, false, List, [], ◌∷◌, Option, none, some, some-injective,
  text_eq, text_eq→eq, All, Bool-cases, inl, inr, if◌then◌else◌, ◌↔◌,
}

module _ {ℓ} {A : Type ℓ} where
  unfoldable pub match_text : List (List ℕ × A) → List ℕ → Option A
  match_text [] s = none
  match_text (arm ∷ arms) s =
      let rest = match_text arms s in if text_eq s arm.0 then some arm.1 else rest

  -- What an arm gives is named by the text, if every arm's text is its value's name.
  pub match_text_named :
      (as_str : A → List ℕ) (arms : List (List ℕ × A)) (s : List ℕ) (a : A)
      → All (λ arm. as_str arm.1 ≡ arm.0) arms
      → match_text arms s ≡ some a
      → as_str a ≡ s
  unfolding match_text
  match_text_named as_str [] s a h k = cc
  match_text_named as_str (arm ∷ arms) s a h k = elim (Bool-cases (text_eq s arm.0)) [
    | inl here ↦
        let e : some arm.1 ≡ some a = rw here at k in
        ap as_str (sym (some-injective arm.1 a e)) ∙ h.0 ∙ sym (text_eq→eq s arm.0 here)
    | inr later ↦
        let e : match_text arms s ≡ some a = rw later at k in match_text_named as_str arms s a h.1 e
  ]
