-- ===== src/Komoot/Archive/Trips.antt =====
-- The writes to `trip` of src/server/repo/trip.rs and src/server/repo/bulk_edit.rs that concern the
-- synchronisation. What the statements on other tables do (the track, the moving time) is left out.
use gps_trips.Prelude.{
  ℕ, ◌+◌, Bool, true, false, not, List, [], ◌∷◌, ◌++◌, Option, none, some, ◌==◌, if◌then◌else◌,
  filter,
}
use gps_trips.Types.Activity.{ActivityType}
use gps_trips.Types.Privacy.{KomootPrivacy}
use gps_trips.Komoot.Archive.{
  Archive, Trip, NewTrip, KomootLink, of_trip, has_trip, update, update_links, set_privacy_in_tx,
}

-- `AUTOINCREMENT`: an id is never given out again.
unfoldable pub insert_trip_in_tx : NewTrip → Archive → ℕ × Archive
insert_trip_in_tx trip db = (
  db.next_trip,
  record db {
    trips =
        db.trips
        ++ record {
          id = db.next_trip;
          name = trip.name;
          activity_type = trip.activity_type;
          tz_name = trip.tz_name;
          trip_kind = trip.trip_kind;
          gpx = trip.gpx;
        }
          ∷ [];
    next_trip = db.next_trip + 1;
  },
)

pub record TripEdit : Type 0 where
  pub name : Option (List ℕ)
  pub activity_type : Option ActivityType
  pub privacy : Option KomootPrivacy

abbrev pub coalesce {ℓ} : {A : Type ℓ} → Option A → A → A
coalesce none old = old
coalesce (some new) old = new

abbrev pub edited : TripEdit → Trip → Trip
edited edit trip = record trip {
  name = coalesce edit.name trip.name;
  activity_type = coalesce edit.activity_type trip.activity_type;
}

abbrev pub trip_is : ℕ → Trip → Bool
trip_is id trip = trip.id == id

abbrev pub edit_marked : KomootLink → KomootLink
edit_marked link = record link { edit_pending = true }

unfoldable pub mark_edit : ℕ → Archive → Archive
mark_edit id db = update_links (of_trip id) edit_marked db

abbrev pub set_privacy_if : ℕ → Option KomootPrivacy → Archive → Archive
set_privacy_if id none db = db
set_privacy_if id (some status) db = set_privacy_in_tx id status db

-- Whether there is such a trip, and the archive after it.
unfoldable pub update_trip : ℕ → TripEdit → Archive → Bool × Archive
unfolding mark_edit
update_trip id edit db =
    if has_trip id db.trips
    then (
      true,
      mark_edit id (
          set_privacy_if id edit.privacy
            (record db { trips = update (trip_is id) (edited edit) db.trips })),
    )
    else (false, db)

abbrev pub delete_marked : KomootLink → KomootLink
delete_marked link = record link { delete_pending = true }

-- `ON DELETE SET NULL`
abbrev pub orphaned : KomootLink → KomootLink
orphaned link = record link { trip_id = none }

unfoldable pub remove_trip : ℕ → Archive → Bool × Archive
remove_trip id db =
    if has_trip id db.trips
    then (
      true,
      update_links (of_trip id) orphaned
          (record db { trips = filter (λ trip. not (trip_is id trip)) db.trips }),
    )
    else (false, db)

unfoldable pub delete_trip : ℕ → Archive → Bool × Archive
unfolding remove_trip
delete_trip id db = remove_trip id (update_links (of_trip id) delete_marked db)

-- The transaction is rolled back as a whole at a trip that is not there.
unfoldable pub set_each : List ℕ → ActivityType → Archive → Option Archive
unfolding mark_edit
set_each [] activity db = some db
set_each (id ∷ ids) activity db =
    let rest = set_each ids activity (
      mark_edit id (record db {
        trips = update (trip_is id) (λ trip. record trip { activity_type = activity }) db.trips;
      })) in
    if has_trip id db.trips then rest else none

abbrev pub committed : Archive → Option Archive → Bool × Archive
committed db none = (false, db)
committed db (some after) = (true, after)

unfoldable pub set_activity_type : List ℕ → ActivityType → Archive → Bool × Archive
unfolding set_each
set_activity_type ids activity db = committed db (set_each ids activity db)
