-- ===== src/Komoot/Archive/Valid/Reach.antt =====
-- The states that the archive's tables go through, src/server/repo/: steps between them, and what
-- holds of each that is reached from the empty archive.
use gps_trips.Prelude.{ℕ, ◌≡◌, List, [], some}
use gps_trips.Types.Activity.{ActivityType}
use gps_trips.Types.Privacy.{KomootPrivacy}
use gps_trips.Komoot.Archive.{
  Archive, NewTrip, insert_link_in_tx, set_privacy_in_tx, refresh_privacy_from_listing,
  clear_edit_pending, delete_link,
}
use gps_trips.Komoot.Archive.Trips.{
  insert_trip_in_tx, TripEdit, update_trip, delete_trip, set_activity_type,
}
use gps_trips.Komoot.Archive.Valid.{
  IsValid, refresh-IsValid, set_privacy-IsValid, clear_edit_pending-IsValid, delete_link-IsValid,
}
use gps_trips.Komoot.Archive.Valid.Trips.{
  insert_trip-IsValid, insert_link-IsValid, update_trip-IsValid, set_activity_type-IsValid,
}
use gps_trips.Komoot.Archive.Valid.Delete.{delete_trip-IsValid}

abbrev pub empty_archive : Archive
empty_archive = record { trips = []; links = []; next_trip = 1 }

pub data Step : Archive → Archive → Type 0 where
  inserting_trip : {db : Archive} (trip : NewTrip) → Step db (insert_trip_in_tx trip db).1
  inserting_link :
      {db after : Archive} (trip : ℕ) (tour : List ℕ)
      → insert_link_in_tx trip tour db ≡ some after
      → Step db after
  setting_privacy :
      {db : Archive} (trip : ℕ) (chosen : KomootPrivacy)
      → Step db (set_privacy_in_tx trip chosen db)
  refreshing :
      {db : Archive} (listed : List (List ℕ × KomootPrivacy))
      → Step db (refresh_privacy_from_listing listed db)
  clearing : {db : Archive} (trip : ℕ) → Step db (clear_edit_pending trip db)
  dropping : {db : Archive} (tour : List ℕ) → Step db (delete_link tour db)
  editing : {db : Archive} (trip : ℕ) (edit : TripEdit) → Step db (update_trip trip edit db).1
  deleting : {db : Archive} (trip : ℕ) → Step db (delete_trip trip db).1
  setting_activity :
      {db : Archive} (trips : List ℕ) (activity : ActivityType)
      → Step db (set_activity_type trips activity db).1

-- The states that any sequence of the operations leads to.
pub data IsReached : Archive → Type 0 where
  at_first : IsReached empty_archive
  after_step : {db after : Archive} → IsReached db → Step db after → IsReached after

pub Step-IsValid : {db after : Archive} → Step db after → IsValid db → IsValid after
Step-IsValid (inserting_trip trip) v = insert_trip-IsValid trip _ v
Step-IsValid (inserting_link trip tour h) v = insert_link-IsValid trip tour _ _ h v
Step-IsValid (setting_privacy trip chosen) v = set_privacy-IsValid trip chosen _ v
Step-IsValid (refreshing listed) v = refresh-IsValid listed _ v
Step-IsValid (clearing trip) v = clear_edit_pending-IsValid trip _ v
Step-IsValid (dropping tour) v = delete_link-IsValid tour _ v
Step-IsValid (editing trip edit) v = update_trip-IsValid trip edit _ v
Step-IsValid (deleting trip) v = delete_trip-IsValid trip _ v
Step-IsValid (setting_activity trips activity) v = set_activity_type-IsValid trips activity _ v

-- Whatever sequence of writes has led from the empty archive to it, an archive has its tables in
-- order: the links are of different tours and of different trips, a link is of a trip that is
-- there and not to be deleted or of none and to be deleted, and the trips' ids are different ones
-- that were given out.
pub IsReached-IsValid : {db : Archive} → IsReached db → IsValid db
IsReached-IsValid at_first = record { apart = tt; owned = tt; numbered = tt; distinct = tt }
IsReached-IsValid (after_step before step) = Step-IsValid step (IsReached-IsValid before)
