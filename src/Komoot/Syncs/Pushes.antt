-- ===== src/Komoot/Syncs/Pushes.antt =====
-- Concrete pushes, and what they and listings do to an archive.
use gps_trips.Prelude.{
  ℕ, List, ◌++◌, inl, inr, ◌≡◌, ◌≢◌, refl, ap, not, [], ◌∷◌, none, some, ◌⊎◌, codes, filter, map,
}
use gps_trips.Types.Activity.{ActivityType}
use gps_trips.Types.Kind.{TripKind}
use gps_trips.Types.Privacy.{KomootPrivacy}
use gps_trips.Types.{match_text}
use gps_trips.Komoot.Archive.{
  Archive, NewTrip, KomootLink, update_links, insert_link_in_tx, refresh_privacy_from_listing,
  list_edit_pending, edits_of, joined, clear_edit_pending, list_delete_pending, delete_link,
}
use gps_trips.Komoot.Archive.Trips.{insert_trip_in_tx, delete_trip}
use gps_trips.Komoot.Archive.Valid.{IsValid}
use gps_trips.Komoot.Archive.Valid.Reach.{
  empty_archive, at_first, after_step, inserting_trip, inserting_link, deleting, IsReached-IsValid,
}
use gps_trips.Komoot.Archive.Refresh.{refreshed_by, refresh_privacy-pointwise}
use gps_trips.Komoot.Sport.{map_sport, sport_for}
use gps_trips.Komoot.Sport.Preserved.{sport_for-preserves}
use gps_trips.Komoot.World.{ok, call, Call, World}
use gps_trips.Komoot.Service.{Service, TourUpdate}
use gps_trips.Komoot.Database.{query, write}
use gps_trips.Komoot.Push.{
  outgoing_sport, push_one_edit, push_each, push_pending_edits, delete_each, push_pending_deletes,
}
use gps_trips.Komoot.Push.Delivered.{Accepted, Journal, Delivered}
use gps_trips.Komoot.Push.Left.{settled_link, push_pending_edits-settles}
use gps_trips.Komoot.Push.Dropped.{push_pending_deletes-settles}
use gps_trips.Komoot.Syncs.{service, before, start, before-IsValid}

-- The service with the updates that it has accepted beside its count.
abbrev beside {ℓ} : {E A : Type ℓ} → Call ℕ E A → Call (ℕ × Accepted) E A
beside c (calls, log) = let (answer, after) = c calls in (answer, (after, log))

abbrev logged :
    List ℕ × TourUpdate → (List ℕ ⊎ Unit {0}) × ℕ → Accepted → (List ℕ ⊎ Unit {0}) × (ℕ × Accepted)
logged update (inl e, after) log = (inl e, (after, log))
logged update (inr done, after) log = (inr done, (after, log ++ update ∷ []))

abbrev logging : Service (ℕ × Accepted)
logging = record {
  execute = beside service.execute;
  constraint_failed = service.constraint_failed;
  login = beside service.login;
  list_tours = λ username limit page. beside (service.list_tours username limit page);
  list_planned_tours =
      λ username limit page. beside (service.list_planned_tours username limit page);
  get_tour_photos = λ tour limit page. beside (service.get_tour_photos tour limit page);
  get_tour_gpx = λ id. beside (service.get_tour_gpx id);
  fetch_photo_bytes = λ url. beside (service.fetch_photo_bytes url);
  get_tour = λ id. beside (service.get_tour id);
  update_tour =
      λ id update state. logged (id, update) (service.update_tour id update state.0) state.1;
  delete_tour = λ id. beside (service.delete_tour id);
  DerivedTrack = service.DerivedTrack;
  PreparedPhoto = service.PreparedPhoto;
  derive_track = service.derive_track;
  guessed_tz = service.guessed_tz;
  guess_image_format = service.guess_image_format;
  prepare_photo = service.prepare_photo;
  store_track = λ id derived gpx. beside (service.store_track id derived gpx);
  store_photos = λ id derived photos. beside (service.store_photos id derived photos);
  after_trip_entered = λ id state. (service.after_trip_entered id state.0, state.1);
}

abbrev log : Journal logging
log = record {
  accepted = λ state. state.1;
  executes = λ state. refl;
  looks = λ tour state. refl;
  updates = λ tour update state. refl;
}

abbrev at_start : World (ℕ × Accepted)
at_start = record { db = before; rest = (0, []) }

sport_kept :
    (push_pending_edits logging at_start).1.rest.1
    ≡ (codes "1", record { name = codes "Ride"; sport = some (codes "mtb"); status = none }) ∷ []
unfolding push_pending_edits push_each push_one_edit outgoing_sport query write call
    list_edit_pending edits_of joined clear_edit_pending update_links sport_for map_sport match_text
sport_kept = refl

edits_done :
    (push_pending_edits service start).0
    ≡ ok (record { pushed = (codes "1", 1) ∷ []; failed = none })
unfolding push_pending_edits push_each push_one_edit outgoing_sport query write call
    list_edit_pending edits_of joined clear_edit_pending update_links sport_for map_sport match_text
edits_done = refl

push_pending_edits-settles_example :
    (push_pending_edits service start).1.db
    ≡ record before { links = map (settled_link before.trips) before.links }
push_pending_edits-settles_example =
    push_pending_edits-settles service start (push_pending_edits service start).1
      (record { pushed = (codes "1", 1) ∷ []; failed = none })
      (ap (λ o. (o, (push_pending_edits service start).1)) edits_done) refl

deletes_done :
    (push_pending_deletes service start).0 ≡ ok (record { deleted = codes "9" ∷ []; failed = none })
unfolding push_pending_deletes delete_each query write call list_delete_pending delete_link
deletes_done = refl

push_pending_deletes-settles_example :
    (push_pending_deletes service start).1.db.links
    ≡ filter (λ (l : KomootLink). not l.delete_pending) before.links
push_pending_deletes-settles_example =
    push_pending_deletes-settles service start (push_pending_deletes service start).1
      (record { deleted = codes "9" ∷ []; failed = none }) before-IsValid
      (ap (λ o. (o, (push_pending_deletes service start).1)) deletes_done) refl

sport_for-preserves_example :
    (map_sport (sport_for ActivityType.hiking (codes "mtb")) ≡ ActivityType.hiking)
    × ((sport_for ActivityType.hiking (codes "mtb") ≡ codes "mtb")
        ⊎ (map_sport (codes "mtb") ≢ ActivityType.hiking))
sport_for-preserves_example =
    sport_for-preserves ActivityType.hiking (codes "mtb") (λ e. cc) (λ e. cc)

refresh_privacy-pointwise_example :
    refresh_privacy_from_listing ((codes "9", KomootPrivacy.public) ∷ []) before ≡ record before {
      links = map (refreshed_by ((codes "9", KomootPrivacy.public) ∷ [])) before.links;
    }
refresh_privacy-pointwise_example =
    refresh_privacy-pointwise ((codes "9", KomootPrivacy.public) ∷ []) before

abbrev ride : NewTrip
ride = record {
  name = codes "Ride";
  activity_type = ActivityType.cycling;
  tz_name = codes "UTC";
  trip_kind = TripKind.recorded;
  gpx = codes "gpx";
}

-- A trip is imported with its link and deleted again; the link stays.
abbrev with_trip : Archive
with_trip = (insert_trip_in_tx ride empty_archive).1

link_added : (after : Archive) × (insert_link_in_tx 1 (codes "1") with_trip ≡ some after)
unfolding insert_link_in_tx insert_trip_in_tx
link_added = (_, refl)

IsReached-IsValid_example : IsValid (delete_trip 1 link_added.0).1
IsReached-IsValid_example = IsReached-IsValid (
    after_step
      (after_step (after_step at_first (inserting_trip ride))
        (inserting_link 1 (codes "1") link_added.1))
      (deleting 1))
