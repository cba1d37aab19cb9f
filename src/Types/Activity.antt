-- ===== src/Types/Activity.antt =====
-- crates/types/src/activity_type.rs.
use gps_trips.Prelude.{ℕ, ◌≡◌, ◌↔◌, refl, subst, List, [], ◌∷◌, Option, some, codes}
use gps_trips.Types.{match_text, match_text_named}

pub data ActivityType : Type 0 where
  unknown : ActivityType
  hiking : ActivityType
  mountaineering : ActivityType
  cycling : ActivityType
  bikepacking : ActivityType
  kayaking : ActivityType
  ski_touring : ActivityType
  cross_country_skiing : ActivityType
  snow_shoe : ActivityType

abbrev pub as_str : ActivityType → List ℕ
as_str unknown = codes "unknown"
as_str hiking = codes "hiking"
as_str mountaineering = codes "mountaineering"
as_str cycling = codes "cycling"
as_str bikepacking = codes "bikepacking"
as_str kayaking = codes "kayaking"
as_str ski_touring = codes "ski_touring"
as_str cross_country_skiing = codes "cross_country_skiing"
as_str snow_shoe = codes "snow_shoe"

abbrev pub arms : List (List ℕ × ActivityType)
arms =
    (codes "unknown", unknown)
    ∷ (codes "hiking", hiking)
    ∷ (codes "mountaineering", mountaineering)
    ∷ (codes "cycling", cycling)
    ∷ (codes "bikepacking", bikepacking)
    ∷ (codes "kayaking", kayaking)
    ∷ (codes "ski_touring", ski_touring)
    ∷ (codes "cross_country_skiing", cross_country_skiing)
    ∷ (codes "snow_shoe", snow_shoe)
    ∷ []

-- `none` is an error.
unfoldable pub from_str : List ℕ → Option ActivityType
unfolding match_text
from_str s = match_text arms s

from_str-as_str : (a : ActivityType) → from_str (as_str a) ≡ some a
unfolding from_str match_text
from_str-as_str unknown = refl
from_str-as_str hiking = refl
from_str-as_str mountaineering = refl
from_str-as_str cycling = refl
from_str-as_str bikepacking = refl
from_str-as_str kayaking = refl
from_str-as_str ski_touring = refl
from_str-as_str cross_country_skiing = refl
from_str-as_str snow_shoe = refl

-- A text is read as an activity exactly if it is that activity's name.
pub from_str_iff : (s : List ℕ) (a : ActivityType) → (from_str s ≡ some a) ↔ (as_str a ≡ s)
unfolding from_str
from_str_iff s a = (
  match_text_named as_str arms s a
      (refl, (refl, (refl, (refl, (refl, (refl, (refl, (refl, (refl, tt))))))))),
  λ h. subst (λ t. from_str t ≡ some a) h (from_str-as_str a),
)
