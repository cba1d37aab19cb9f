-- ===== src/Ui/Kinds/Address.antt =====
-- The toggles of crates/ui-dioxus/src/kinds.rs, and the addresses that they are written to.
use gps_trips.Prelude.{
  ℕ, ◌≡◌, refl, sym, subst, Bool, true, false, List, [], ◌∷◌, inl, inr, Bool-cases, if_true,
  if_false,
}
use gps_trips.Text.{split}
use gps_trips.Ui.Kinds.{
  Kind, recorded, planned, collections, Kinds, only, iter, is_last, toggled, param, from_param,
  any_on, none_on, read_names,
}

-- A click at a time.
unfoldable pub clicked : Kinds → List Kind → Kinds
unfolding toggled
clicked kinds [] = kinds
clicked kinds (kind ∷ clicks) = clicked (toggled kinds kind) clicks

abbrev triple : Bool → Bool → Bool → Kinds
triple r p c = record { on_recorded = r; on_planned = p; on_collections = c }

toggled-any_on :
    (r p c : Bool) (kind : Kind)
    → any_on (triple r p c) ≡ true
    → any_on (toggled (triple r p c) kind) ≡ true
unfolding toggled is_last iter
toggled-any_on true true true recorded h = refl
toggled-any_on true true true planned h = refl
toggled-any_on true true true collections h = refl
toggled-any_on true true false recorded h = refl
toggled-any_on true true false planned h = refl
toggled-any_on true true false collections h = refl
toggled-any_on true false true recorded h = refl
toggled-any_on true false true planned h = refl
toggled-any_on true false true collections h = refl
toggled-any_on true false false recorded h = refl
toggled-any_on true false false planned h = refl
toggled-any_on true false false collections h = refl
toggled-any_on false true true recorded h = refl
toggled-any_on false true true planned h = refl
toggled-any_on false true true collections h = refl
toggled-any_on false true false recorded h = refl
toggled-any_on false true false planned h = refl
toggled-any_on false true false collections h = refl
toggled-any_on false false true recorded h = refl
toggled-any_on false false true planned h = refl
toggled-any_on false false true collections h = refl
toggled-any_on false false false kind h = cc

from_param-any_on : (value : List ℕ) → any_on (from_param value) ≡ true
unfolding from_param only
from_param-any_on value =
    let read = read_names none_on (split b',' value) in
    elim (Bool-cases (any_on read)) [
      | inl e ↦ subst (λ k. any_on k ≡ true) (sym (if_true _ _ e)) e
      | inr e ↦ subst (λ k. any_on k ≡ true) (sym (if_false _ _ e)) refl
    ]

clicked-any_on :
    (clicks : List Kind) (kinds : Kinds)
    → any_on kinds ≡ true
    → any_on (clicked kinds clicks) ≡ true
unfolding clicked
clicked-any_on [] kinds h = h
clicked-any_on (kind ∷ clicks) kinds h =
    clicked-any_on clicks (toggled kinds kind)
      (toggled-any_on kinds.on_recorded kinds.on_planned kinds.on_collections kind h)

from_param-param-triple :
    (r p c : Bool) → any_on (triple r p c) ≡ true → from_param (param (triple r p c)) ≡ triple r p c
unfolding from_param param iter split only
from_param-param-triple true true true h = refl
from_param-param-triple true true false h = refl
from_param-param-triple true false true h = refl
from_param-param-triple true false false h = refl
from_param-param-triple false true true h = refl
from_param-param-triple false true false h = refl
from_param-param-triple false false true h = refl
from_param-param-triple false false false h = cc

-- Whatever address the list is opened with, and whatever is clicked then, some kind is on, and the
-- address that is written for the kinds opens the list with the same ones.
pub from_param-param :
    (value : List ℕ) (clicks : List Kind)
    → (any_on (clicked (from_param value) clicks) ≡ true)
      × (from_param (param (clicked (from_param value) clicks)) ≡ clicked (from_param value) clicks)
from_param-param value clicks =
    let kinds = clicked (from_param value) clicks in
    let on = clicked-any_on clicks (from_param value) (from_param-any_on value) in
    (on, from_param-param-triple kinds.on_recorded kinds.on_planned kinds.on_collections on)
