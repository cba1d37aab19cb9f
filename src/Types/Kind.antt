-- ===== src/Types/Kind.antt =====
-- crates/types/src/trip_kind.rs.
use gps_trips.Prelude.{ℕ, ◌≡◌, ◌↔◌, refl, subst, List, [], ◌∷◌, Option, some, codes}
use gps_trips.Types.{match_text, match_text_named}

pub data TripKind : Type 0 where
  recorded : TripKind
  planned : TripKind

abbrev pub as_str : TripKind → List ℕ
as_str recorded = codes "recorded"
as_str planned = codes "planned"

abbrev pub arms : List (List ℕ × TripKind)
arms = (codes "recorded", recorded) ∷ (codes "planned", planned) ∷ []

-- `none` is an error.
unfoldable pub from_str : List ℕ → Option TripKind
from_str s = match_text arms s

from_str-as_str : (a : TripKind) → from_str (as_str a) ≡ some a
unfolding from_str match_text
from_str-as_str recorded = refl
from_str-as_str planned = refl

-- A text is read as a kind exactly if it is that kind's name.
pub kind_from_str_iff : (s : List ℕ) (a : TripKind) → (from_str s ≡ some a) ↔ (as_str a ≡ s)
unfolding from_str
kind_from_str_iff s a = (
  match_text_named as_str arms s a (refl, (refl, tt)),
  λ h. subst (λ t. from_str t ≡ some a) h (from_str-as_str a),
)
