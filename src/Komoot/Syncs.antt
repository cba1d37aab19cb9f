-- ===== src/Komoot/Syncs.antt =====
-- Concrete runs of the synchronisation.
mod Pushes
use gps_trips.Prelude.{
  ℕ, ◌+◌, ◌*◌, ◌≡◌, ◌≢◌, refl, ap, true, false, not, List, [], ◌∷◌, none, some, ◌⊎◌, inl, inr,
  codes, arith, take, drop, filter, map, text_eq, if◌then◌else◌,
}
use gps_trips.Types.Activity.{ActivityType}
use gps_trips.Types.Kind.{TripKind}
use gps_trips.Types.Privacy.{KomootPrivacy}
use gps_trips.Types.{match_text}
use gps_trips.Types.Privacy.{from_komoot_status, from_str}
use gps_trips.Komoot.Archive.{
  Archive, NewTrip, KomootLink, update_links, list_linked_tour_ids, insert_link_in_tx,
  set_privacy_in_tx, refresh_privacy_from_listing, list_edit_pending, edits_of, joined,
  clear_edit_pending, list_delete_pending, delete_link,
}
use gps_trips.Komoot.Archive.Trips.{insert_trip_in_tx, delete_trip}
use gps_trips.Komoot.Archive.Valid.{IsValid}
use gps_trips.Komoot.Archive.Valid.Reach.{
  empty_archive, at_first, after_step, inserting_trip, inserting_link, deleting, IsReached-IsValid,
}
use gps_trips.Komoot.Archive.Refresh.{refreshed_by, refresh_privacy-pointwise}
use gps_trips.Komoot.Sport.{map_sport, sport_for}
use gps_trips.Komoot.Sport.Preserved.{sport_for-preserves}
use gps_trips.Komoot.World.{Outcome, ok, World, Call, call}
use gps_trips.Komoot.World.Keeps.{Ends}
use gps_trips.Komoot.Service.{KomootTourSummary, Service}
use gps_trips.Komoot.Database.{
  in_transaction, query, write, insert_link, refresh_each, refresh_privacy,
}
use gps_trips.Komoot.Listing.{pages, tag_by_kind, list_all_tours_of_kind, list_all_tour_photos}
use gps_trips.Komoot.Listing.Pages.{list_all_tours_complete}
use gps_trips.Komoot.Tour.{prepare_photos, insert_trip, sync_in_tx, sync_one_tour}
use gps_trips.Komoot.Pull.{
  SelectedTour, SyncSummary, tours_by_id, get_tour_by_id, remove_tour, import_found, import_each,
  import_selected_tours, sync_selected_tours, backfill, list_sync_candidates,
}
use gps_trips.Komoot.Pull.Steps.{Pulls, runs-Pulls}
use gps_trips.Komoot.Pull.Exact.Loop.{Report}
use gps_trips.Komoot.Pull.Exact.Run.{import_selected_tours-Report}
use gps_trips.Komoot.Pull.Exact.Again.{nothing_new, refreshed_as, import_selected_tours-again}
use gps_trips.Komoot.Push.{
  outgoing_sport, push_one_edit, push_each, push_pending_edits, delete_each, push_pending_deletes,
}
use gps_trips.Komoot.Push.Edits.{Pushed, push_pending_edits-Pushed}
use gps_trips.Komoot.Push.Left.{push_pending_edits-settles}
use gps_trips.Komoot.Push.Dropped.{push_pending_deletes-settles}

abbrev tour : List ℕ → List ℕ → List ℕ → KomootTourSummary
tour id sport status = record {
  id = id;
  name = codes "Tour";
  sport = sport;
  date = codes "2024-05-01";
  distance = 0;
  status = status;
}

abbrev tours : List KomootTourSummary
tours =
    tour (codes "1") (codes "mtb") (codes "public")
    ∷ tour (codes "2") (codes "hike") (codes "private")
    ∷ tour (codes "3") (codes "nordic") (codes "friends")
    ∷ []

abbrev answers {ℓ} : {A : Type ℓ} → A → Call ℕ (List ℕ) A
answers a calls = (inr a, calls + 1)

-- A service that counts its calls, and has no file for tour 3.
abbrev pub service : Service ℕ
service = record {
  execute = answers tt;
  constraint_failed = codes "constraint";
  login = answers (codes "owner");
  list_tours = λ username limit page. answers (take limit (drop (page * limit) tours));
  list_planned_tours = λ username limit page. answers [];
  get_tour_photos = λ tour limit page. answers [];
  get_tour_gpx = λ id calls.
      if text_eq id (codes "3")
      then (inl (codes "404"), calls + 1)
      else (inr (codes "gpx"), calls + 1);
  fetch_photo_bytes = λ url. answers [];
  get_tour = λ id. answers (tour id (codes "mtb") (codes "public"));
  update_tour = λ id update. answers tt;
  delete_tour = λ id. answers tt;
  DerivedTrack = Unit {0};
  PreparedPhoto = Unit {0};
  derive_track = λ gpx. inr tt;
  guessed_tz = λ derived. codes "Europe/Oslo";
  guess_image_format = λ bytes. (codes "jpg", codes "image/jpeg");
  prepare_photo = λ photo. tt;
  store_track = λ id derived gpx. answers tt;
  store_photos = λ id derived photos calls. (inr tt, calls + 1);
  after_trip_entered = λ id calls. calls + 1;
}

-- Tour 1 is linked already, and its edit and the deletion of tour 9 are pending.
abbrev pub before : Archive
before = record {
  trips =
      record {
        id = 1;
        name = codes "Ride";
        activity_type = ActivityType.cycling;
        tz_name = codes "UTC";
        trip_kind = TripKind.recorded;
        gpx = codes "gpx";
      }
      ∷ [];
  links =
      record {
        trip_id = some 1;
        komoot_tour_id = codes "1";
        edit_pending = true;
        delete_pending = false;
        privacy_status = none;
      }
      ∷ record {
        trip_id = none;
        komoot_tour_id = codes "9";
        edit_pending = false;
        delete_pending = true;
        privacy_status = none;
      }
      ∷ [];
  next_trip = 2;
}

abbrev pub start : World ℕ
start = record { db = before; rest = 0 }

abbrev listed : List (KomootTourSummary × TripKind)
listed = tag_by_kind tours []

abbrev wanted : List (List ℕ)
wanted = codes "1" ∷ codes "2" ∷ codes "2" ∷ []

abbrev run_of : List (List ℕ) → Outcome SyncSummary × World ℕ
run_of ids = import_selected_tours service 2 listed ids start

-- Tour 1 is passed over, 2 is imported, and the run halts at 3.
halts :
    (run_of (codes "1" ∷ codes "2" ∷ codes "3" ∷ codes "2" ∷ [])).0
    ≡ ok (record {
      imported = (codes "2", 2) ∷ [];
      failed = some (codes "3", codes "Komoot error: 404");
    })
unfolding import_selected_tours import_each import_found tours_by_id get_tour_by_id remove_tour
    sync_one_tour prepare_photos insert_trip sync_in_tx in_transaction query write insert_link
    refresh_each refresh_privacy call pages list_all_tour_photos tag_by_kind list_linked_tour_ids
    insert_link_in_tx set_privacy_in_tx refresh_privacy_from_listing update_links insert_trip_in_tx
    from_komoot_status from_str map_sport match_text
halts = refl

all_done : (run_of wanted).0 ≡ ok (record { imported = (codes "2", 2) ∷ []; failed = none })
unfolding import_selected_tours import_each import_found tours_by_id get_tour_by_id remove_tour
    sync_one_tour prepare_photos insert_trip sync_in_tx in_transaction query write insert_link
    refresh_each refresh_privacy call pages list_all_tour_photos tag_by_kind list_linked_tour_ids
    insert_link_in_tx set_privacy_in_tx refresh_privacy_from_listing update_links insert_trip_in_tx
    from_komoot_status from_str map_sport match_text
all_done = refl

import_selected_tours-Report_example : Ends (Report before [] wanted) (run_of wanted)
import_selected_tours-Report_example = import_selected_tours-Report service 2 listed wanted start

import_selected_tours-again_example :
    Ends
      (λ t db. (t ≡ nothing_new) × (db ≡ refreshed_as [] (run_of wanted).1.db))
      (import_selected_tours service 2 [] wanted (run_of wanted).1)
import_selected_tours-again_example =
    import_selected_tours-again service 2 listed wanted start (run_of wanted).1
      (record { imported = (codes "2", 2) ∷ []; failed = none })
      (ap (λ o. (o, (run_of wanted).1)) all_done) refl [] (run_of wanted).1 refl

list_all_tours_complete_example :
    (after : ℕ) × (list_all_tours_of_kind service 1 (codes "owner") TripKind.recorded start
      ≡ (ok tours, record start { rest = after }))
unfolding call
list_all_tours_complete_example =
    list_all_tours_complete service (codes "owner") TripKind.recorded tours
      (λ page w. (w.rest + 1, refl)) (omega arith) 1 (omega arith) start

pub before-IsValid : IsValid before
before-IsValid = record {
  apart = (((λ e. cc, tt), tt), (tt, tt));
  owned = ((refl, refl), (refl, tt));
  numbered = (omega arith, tt);
  distinct = (tt, tt);
}

abbrev chosen : List SelectedTour
chosen = record { tour_id = codes "2"; kind = TripKind.recorded } ∷ []

runs-Pulls_example :
    let synced = (sync_selected_tours service 1 chosen start).1.db in
    let filled = (backfill service 1 (some 1) TripKind.recorded start).1.db in
    let shown = (list_sync_candidates service 1 start).1.db in
    (Pulls before synced × IsValid synced)
    × (Pulls before filled × IsValid filled)
    × (Pulls before shown × IsValid shown)
runs-Pulls_example = runs-Pulls service 1 chosen (some 1) TripKind.recorded start before-IsValid
