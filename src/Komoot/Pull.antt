-- ===== src/Komoot/Pull.antt =====
-- How src/server/komoot_sync.rs pulls tours: the candidates, and the import of those that are chosen
-- or left over, each in a transaction of its own.
pub mod Steps
pub mod Exact
use gps_trips.Prelude.{
  ℕ, Bool, true, false, not, List, [], ◌∷◌, ◌++◌, map, Option, none, some, ◌⊎◌, inl, inr, codes,
  text_eq, if◌then◌else◌, any, filter, take,
}
use gps_trips.Types.Activity.{ActivityType}
use gps_trips.Types.Kind.{TripKind}
use gps_trips.Types.Privacy.{KomootPrivacy, from_komoot_status, unwrap_or}
use gps_trips.Komoot.Archive.{
  Archive, list_linked_tour_ids, insert_link_in_tx, set_privacy_in_tx, refresh_privacy_from_listing,
}
use gps_trips.Komoot.Archive.Trips.{insert_trip_in_tx}
use gps_trips.Komoot.Sport.{map_sport}
use gps_trips.Komoot.Photo.{resolve_photo_url}
use gps_trips.Komoot.World.{
  AppError, to_string, database, Outcome, ok, err, unfinished, World, Action, return, lift, settle,
  modify, gets, ◌>>=◌,
}
use gps_trips.Komoot.Service.{
  KomootTourSummary, KomootPhoto, UploadedPhoto, Service, of_komoot, of_driver, of_archive,
}
use gps_trips.Komoot.Database.{query, refresh_privacy}
use gps_trips.Komoot.Tour.{sync_one_tour}
use gps_trips.Komoot.Listing.{list_all_tours_of_kind, list_all_tour_photos, tag_by_kind}

pub record SyncCandidate : Type 0 where
  pub tour_id : List ℕ
  pub name : List ℕ
  pub sport : List ℕ
  pub date : List ℕ
  pub distance_m : ℕ
  pub kind : TripKind

pub record SelectedTour : Type 0 where
  pub tour_id : List ℕ
  pub kind : TripKind

pub record SyncSummary : Type 0 where
  pub imported : List (List ℕ × ℕ)
  pub failed : Option (List ℕ × List ℕ)

abbrev pub contains : List (List ℕ) → List ℕ → Bool
contains ids id = any (text_eq id) ids

abbrev pub same_kind : TripKind → TripKind → Bool
same_kind TripKind.recorded TripKind.recorded = true
same_kind TripKind.planned TripKind.planned = true
same_kind _ _ = false

-- A map from the ids, `by_id`: what is inserted last is found first.
abbrev pub Tours : Type 0
Tours = List (List ℕ × (KomootTourSummary × TripKind))

unfoldable pub tours_by_id : List (KomootTourSummary × TripKind) → Tours → Tours
tours_by_id [] found = found
tours_by_id (tour ∷ tours) found = tours_by_id tours ((tour.0.id, tour) ∷ found)

unfoldable pub get_tour_by_id : List ℕ → Tours → Option (KomootTourSummary × TripKind)
get_tour_by_id id [] = none
get_tour_by_id id (tour ∷ tours) =
    let rest = get_tour_by_id id tours in if text_eq tour.0 id then some tour.1 else rest

unfoldable pub remove_tour : List ℕ → Tours → Tours
remove_tour id tours = filter (λ tour. not (text_eq tour.0 id)) tours

abbrev pub not_listed : List ℕ
not_listed = codes "tour is no longer listed by Komoot"

abbrev pub up_to {ℓ} : {A : Type ℓ} → Option ℕ → List A → List A
up_to none xs = xs
up_to (some limit) xs = take limit xs

-- The loop of `import_selected_tours` goes on, or halts at a failure.
abbrev pub after_tour {ℓ} :
    {R : Type ℓ}
    → List ℕ
    → List (List ℕ × ℕ)
    → (List (List ℕ × ℕ) → Action R SyncSummary)
    → Outcome ℕ × World R
    → Outcome SyncSummary × World R
after_tour id imported rest (ok trip, w) = rest (imported ++ (id, trip) ∷ []) w
after_tour id imported rest (err e, w) =
    (ok (record { imported = imported; failed = some (id, to_string e) }), w)
after_tour id imported rest (unfinished, w) = (unfinished, w)

module _ {ℓ} {R : Type ℓ} (S : Service R) (fuel : ℕ) where
  unfoldable pub import_found :
      List ℕ
      → List (List ℕ × ℕ)
      → (List (List ℕ × ℕ) → Action R SyncSummary)
      → Option (KomootTourSummary × TripKind)
      → Action R SyncSummary
  import_found id imported rest none =
      return (record { imported = imported; failed = some (id, not_listed) })
  import_found id imported rest (some (tour, kind)) =
      λ w. after_tour id imported rest (sync_one_tour S fuel tour kind w)

  unfoldable pub import_each :
      List (List ℕ)
      → Tours
      → List (List ℕ)
      → List (List ℕ × ℕ)
      → List (List ℕ)
      → Action R SyncSummary
  unfolding import_found
  import_each linked by_id attempted imported [] =
      return (record { imported = imported; failed = none })
  import_each linked by_id attempted imported (id ∷ ids) =
      let skipped = import_each linked by_id attempted imported ids in
      let passed = import_each linked by_id (id ∷ attempted) imported ids in
      let rest = λ (all : List (List ℕ × ℕ)).
        import_each linked (remove_tour id by_id) (id ∷ attempted) all ids in
      if contains attempted id
      then skipped
      else if contains linked id
      then passed
      else import_found id imported rest (get_tour_by_id id by_id)

  unfoldable pub import_selected_tours :
      List (KomootTourSummary × TripKind) → List (List ℕ) → Action R SyncSummary
  unfolding import_each
  import_selected_tours all_tours tour_ids = do
    _ ← refresh_privacy S (map (λ (t : KomootTourSummary × TripKind). t.0) all_tours)
    already_linked ← query S list_linked_tour_ids
    import_each already_linked (tours_by_id all_tours []) [] [] tour_ids

  -- A listing is fetched only if the selection has a tour of the kind.
  unfoldable pub listing_for :
      List ℕ → List SelectedTour → TripKind → Action R (List KomootTourSummary)
  listing_for username selected kind =
      if any (λ (s : SelectedTour). same_kind s.kind kind) selected
      then list_all_tours_of_kind S fuel username kind
      else return []

  unfoldable pub sync_selected_tours : List SelectedTour → Action R SyncSummary
  unfolding listing_for import_selected_tours
  sync_selected_tours selected = do
    username ← of_komoot S.login
    recorded ← listing_for username selected TripKind.recorded
    planned ← listing_for username selected TripKind.planned
    import_selected_tours (tag_by_kind recorded planned)
        (map (λ (s : SelectedTour). s.tour_id) selected)

  unfoldable pub left_over : Option ℕ → List (List ℕ) → List KomootTourSummary → List (List ℕ)
  left_over limit linked tours =
      up_to limit
        (filter (λ id. not (contains linked id)) (map (λ (t : KomootTourSummary). t.id) tours))

  unfoldable pub backfill : Option ℕ → TripKind → Action R SyncSummary
  unfolding left_over import_selected_tours
  backfill limit kind = do
    username ← of_komoot S.login
    all_tours ← list_all_tours_of_kind S fuel username kind
    linked ← query S list_linked_tour_ids
    import_selected_tours (map (λ t. (t, kind)) all_tours) (left_over limit linked all_tours)

  abbrev candidate_of : KomootTourSummary × TripKind → SyncCandidate
  candidate_of (t, kind) = record {
    tour_id = t.id;
    name = t.name;
    sport = t.sport;
    date = t.date;
    distance_m = t.distance;
    kind = kind;
  }

  unfoldable pub candidates :
      List (List ℕ) → List (KomootTourSummary × TripKind) → List SyncCandidate
  candidates linked tours = map candidate_of (filter (λ t. not (contains linked t.0.id)) tours)

  unfoldable pub list_sync_candidates : Action R (List SyncCandidate)
  unfolding candidates
  list_sync_candidates = do
    username ← of_komoot S.login
    recorded ← list_all_tours_of_kind S fuel username TripKind.recorded
    planned ← list_all_tours_of_kind S fuel username TripKind.planned
    _ ← refresh_privacy S (recorded ++ planned)
    linked ← query S list_linked_tour_ids
    return (candidates linked (tag_by_kind recorded planned))
