-- ===== src/Komoot/Sport.antt =====
-- src/server/komoot_sport.rs, and what push_one_edit of src/server/komoot_sync.rs sends for a sport.
pub mod Preserved
use gps_trips.Prelude.{
  ℕ, ◌≡◌, refl, List, [], ◌∷◌, Option, some, codes, text_eq, Bool, if◌then◌else◌,
}
use gps_trips.Types.{match_text}
use gps_trips.Types.Activity.{ActivityType}
use gps_trips.Types.Activity
use gps_trips.Types.Privacy.{unwrap_or}

abbrev pub sport_arms : List (List ℕ × ActivityType)
sport_arms =
    (codes "hike", ActivityType.hiking)
    ∷ (codes "mountaineering", ActivityType.mountaineering)
    ∷ (codes "touringbicycle", ActivityType.cycling)
    ∷ (codes "racebike", ActivityType.cycling)
    ∷ (codes "mtb", ActivityType.cycling)
    ∷ (codes "mtb_easy", ActivityType.cycling)
    ∷ (codes "nordic", ActivityType.cross_country_skiing)
    ∷ (codes "skitour", ActivityType.ski_touring)
    ∷ (codes "snowshoe", ActivityType.snow_shoe)
    ∷ []

unfoldable pub map_sport : List ℕ → ActivityType
map_sport sport = unwrap_or ActivityType.unknown (match_text sport_arms sport)

unfoldable pub activity_to_sport : ActivityType → List ℕ
activity_to_sport ActivityType.unknown = codes "other"
activity_to_sport ActivityType.hiking = codes "hike"
activity_to_sport ActivityType.mountaineering = codes "mountaineering"
activity_to_sport ActivityType.cycling = codes "touringbicycle"
activity_to_sport ActivityType.bikepacking = codes "other"
activity_to_sport ActivityType.kayaking = codes "other"
activity_to_sport ActivityType.ski_touring = codes "skitour"
activity_to_sport ActivityType.cross_country_skiing = codes "nordic"
activity_to_sport ActivityType.snow_shoe = codes "snowshoe"

-- `PartialEq` of the enumeration, by its names.
abbrev pub same_activity : ActivityType → ActivityType → Bool
same_activity a b = text_eq (Activity.as_str a) (Activity.as_str b)

-- The live sport, if it is the trip's activity already.
unfoldable pub sport_for : ActivityType → List ℕ → List ℕ
sport_for activity live =
    if same_activity (map_sport live) activity then live else activity_to_sport activity
