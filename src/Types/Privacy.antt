-- ===== src/Types/Privacy.antt =====
-- crates/types/src/komoot_privacy.rs.
use gps_trips.Prelude.{
  ℕ, ◌≡◌, ◌↔◌, refl, subst, List, [], ◌∷◌, Option, none, some, some-injective, codes, Option-cases,
  inl, inr, ◌∙◌, sym,
}
use gps_trips.Types.{match_text, match_text_named}

pub data KomootPrivacy : Type 0 where
  unknown : KomootPrivacy
  private : KomootPrivacy
  public : KomootPrivacy

abbrev pub as_str : KomootPrivacy → List ℕ
as_str unknown = codes "unknown"
as_str private = codes "private"
as_str public = codes "public"

abbrev pub arms : List (List ℕ × KomootPrivacy)
arms = (codes "unknown", unknown) ∷ (codes "private", private) ∷ (codes "public", public) ∷ []

-- `none` is an error.
unfoldable pub from_str : List ℕ → Option KomootPrivacy
from_str s = match_text arms s

abbrev pub unwrap_or {ℓ} : {A : Type ℓ} → A → Option A → A
unwrap_or d none = d
unwrap_or d (some a) = a

unfoldable pub from_komoot_status : List ℕ → KomootPrivacy
from_komoot_status status = unwrap_or unknown (from_str status)

unfoldable pub komoot_status : KomootPrivacy → Option (List ℕ)
komoot_status unknown = none
komoot_status private = some (as_str private)
komoot_status public = some (as_str public)

from_str-as_str : (a : KomootPrivacy) → from_str (as_str a) ≡ some a
unfolding from_str match_text
from_str-as_str unknown = refl
from_str-as_str private = refl
from_str-as_str public = refl

pub privacy_from_str_iff : (s : List ℕ) (a : KomootPrivacy) → (from_str s ≡ some a) ↔ (as_str a ≡ s)
unfolding from_str
privacy_from_str_iff s a = (
  match_text_named as_str arms s a (refl, (refl, (refl, tt))),
  λ h. subst (λ t. from_str t ≡ some a) h (from_str-as_str a),
)

pushed : (a : KomootPrivacy) (sent : List ℕ) → komoot_status a ≡ some sent → as_str a ≡ sent
unfolding komoot_status
pushed unknown sent h = cc
pushed private sent h = some-injective (as_str private) sent h
pushed public sent h = some-injective (as_str public) sent h

-- What is pushed to Komoot for a status that was pulled from it is that status: one that the
-- archive does not know is never overwritten.
pub komoot_status-from_komoot_status :
    (status sent : List ℕ) → komoot_status (from_komoot_status status) ≡ some sent → sent ≡ status
unfolding from_komoot_status komoot_status
komoot_status-from_komoot_status status sent h = elim (Option-cases (from_str status)) [
  | inl none_known ↦ let bad : none ≡ some sent = rw none_known at h in cc
  | inr (a, known) ↦
      let e : komoot_status a ≡ some sent = rw known at h in
      sym (pushed a sent e) ∙ (privacy_from_str_iff status a).0 known
]
