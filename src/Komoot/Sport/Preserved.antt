-- ===== src/Komoot/Sport/Preserved.antt =====
-- What a push, src/server/komoot_sync.rs, does to a tour's sport.
use gps_trips.Prelude.{
  ℕ, ◌≡◌, ◌≢◌, refl, sym, ap, ◌∙◌, true, false, List, some-injective, ◌⊎◌, inl, inr, Bool-cases,
  text_eq→eq, text_eq_refl, if_true, if_false,
}
use gps_trips.Types.{match_text}
use gps_trips.Types.Activity
use gps_trips.Types.Activity.{ActivityType, from_str, from_str_iff}
use gps_trips.Komoot.Sport.{map_sport, activity_to_sport, same_activity, sport_for}

same_activity→eq : (a b : ActivityType) → same_activity a b ≡ true → a ≡ b
same_activity→eq a b h =
    let e = text_eq→eq (Activity.as_str a) (Activity.as_str b) h in
    some-injective a b (
      sym ((from_str_iff (Activity.as_str a) a).1 refl)
      ∙ ap from_str e
      ∙ (from_str_iff (Activity.as_str b) b).1 refl)

pub map_sport-activity_to_sport :
    (activity : ActivityType)
    → activity ≢ ActivityType.bikepacking
    → activity ≢ ActivityType.kayaking
    → map_sport (activity_to_sport activity) ≡ activity
unfolding map_sport activity_to_sport match_text
map_sport-activity_to_sport ActivityType.unknown h k = refl
map_sport-activity_to_sport ActivityType.hiking h k = refl
map_sport-activity_to_sport ActivityType.mountaineering h k = refl
map_sport-activity_to_sport ActivityType.cycling h k = refl
map_sport-activity_to_sport ActivityType.bikepacking h k = absurd (h refl)
map_sport-activity_to_sport ActivityType.kayaking h k = absurd (k refl)
map_sport-activity_to_sport ActivityType.ski_touring h k = refl
map_sport-activity_to_sport ActivityType.cross_country_skiing h k = refl
map_sport-activity_to_sport ActivityType.snow_shoe h k = refl

-- The sport that a push sends is read as the trip's activity when it is pulled again, and it is
-- the tour's live sport unless that is another activity. The condition: the activity is one that
-- Komoot has, not bikepacking or kayaking.
pub sport_for-preserves :
    (activity : ActivityType) (live : List ℕ)
    → activity ≢ ActivityType.bikepacking
    → activity ≢ ActivityType.kayaking
    → (map_sport (sport_for activity live) ≡ activity)
      × ((sport_for activity live ≡ live) ⊎ (map_sport live ≢ activity))
unfolding sport_for
sport_for-preserves activity live h k =
    elim (Bool-cases (same_activity (map_sport live) activity)) [
      | inl e ↦ (
        ap map_sport (if_true _ _ e) ∙ same_activity→eq (map_sport live) activity e,
        inl (if_true _ _ e),
      )
      | inr e ↦ (
        ap map_sport (if_false _ _ e) ∙ map_sport-activity_to_sport activity h k,
        inr (λ same.
            let yes_same : same_activity (map_sport live) activity ≡ true =
              ap (λ a. same_activity a activity) same ∙ text_eq_refl (Activity.as_str activity) in
            let bad : true ≡ false = rw yes_same at e in cc),
      )
    ]
