-- ===== src/Komoot/Archive.antt =====
-- The tables `trip` and `trip_komoot_link`, and what src/server/repo/komoot.rs, repo/trip.rs and
-- repo/bulk_edit.rs read and write there. A table is the list of its rows in the order in which they
-- came; a transaction is one step. `none` is the refusal of a statement by one of the constraints:
-- the tour's id and the trip's are unique among the links, and a link's trip is there. Of a trip
-- the columns are left out that its measured track gives; the ids are SQLite's, from 1 on.
pub mod Trips
pub mod Valid
pub mod Refresh
use gps_trips.Prelude.{
  ℕ, ◌+◌, Bool, true, false, not, ◌&&◌, ◌||◌, List, [], ◌∷◌, ◌++◌, map, Option, none, some, ◌==◌,
  if◌then◌else◌, text_eq, any, filter, length,
}
use gps_trips.Types.Activity.{ActivityType}
use gps_trips.Types.Kind.{TripKind}
use gps_trips.Types.Privacy.{KomootPrivacy}

-- A row of `trip`.
pub record Trip : Type 0 where
  pub id : ℕ
  pub name : List ℕ
  pub activity_type : ActivityType
  pub tz_name : List ℕ
  pub trip_kind : TripKind
  pub gpx : List ℕ

pub record NewTrip : Type 0 where
  pub name : List ℕ
  pub activity_type : ActivityType
  pub tz_name : List ℕ
  pub trip_kind : TripKind
  pub gpx : List ℕ

-- A row of `trip_komoot_link`.
pub record KomootLink : Type 0 where
  pub trip_id : Option ℕ
  pub komoot_tour_id : List ℕ
  pub edit_pending : Bool
  pub delete_pending : Bool
  pub privacy_status : Option KomootPrivacy

pub record Archive : Type 0 where
  pub trips : List Trip
  pub links : List KomootLink
  pub next_trip : ℕ

abbrev pub id_is : ℕ → Option ℕ → Bool
id_is id none = false
id_is id (some trip) = trip == id

-- `WHERE trip_id = ?`
abbrev pub of_trip : ℕ → KomootLink → Bool
of_trip id link = id_is id link.trip_id

-- `WHERE komoot_tour_id = ?`
abbrev pub of_tour : List ℕ → KomootLink → Bool
of_tour tour link = text_eq link.komoot_tour_id tour

abbrev pub has_trip : ℕ → List Trip → Bool
has_trip id trips = any (λ trip. trip.id == id) trips

-- `UPDATE … WHERE`
abbrev pub update {ℓ} : {A : Type ℓ} → (A → Bool) → (A → A) → List A → List A
update at change rows = map (λ row. if at row then change row else row) rows

unfoldable pub update_links : (KomootLink → Bool) → (KomootLink → KomootLink) → Archive → Archive
update_links at change db = record db { links = update at change db.links }

unfoldable pub list_linked_tour_ids : Archive → List (List ℕ)
list_linked_tour_ids db = map (λ (link : KomootLink). link.komoot_tour_id) db.links

abbrev pub new_link : ℕ → List ℕ → KomootLink
new_link trip tour = record {
  trip_id = some trip;
  komoot_tour_id = tour;
  edit_pending = false;
  delete_pending = false;
  privacy_status = none;
}

unfoldable pub insert_link_in_tx : ℕ → List ℕ → Archive → Option Archive
insert_link_in_tx trip tour db =
    if any (of_tour tour) db.links || any (of_trip trip) db.links || not (has_trip trip db.trips)
    then none
    else some (record db { links = db.links ++ new_link trip tour ∷ [] })

pub record EditPending : Type 0 where
  pub trip_id : ℕ
  pub komoot_tour_id : List ℕ
  pub name : List ℕ
  pub activity_type : ActivityType
  pub privacy : Option KomootPrivacy
  pub trip_kind : TripKind

-- `FROM trip_komoot_link l JOIN trip t ON t.id = l.trip_id`, for one link
unfoldable pub joined : KomootLink → List Trip → List EditPending
joined link [] = []
joined link (trip ∷ trips) =
    let rest = joined link trips in
    if id_is trip.id link.trip_id
    then record {
      trip_id = trip.id;
      komoot_tour_id = link.komoot_tour_id;
      name = trip.name;
      activity_type = trip.activity_type;
      privacy = link.privacy_status;
      trip_kind = trip.trip_kind;
    }
      ∷ rest
    else rest

unfoldable pub edits_of : List Trip → List KomootLink → List EditPending
edits_of trips [] = []
edits_of trips (link ∷ links) =
    let rest = edits_of trips links in if link.edit_pending then joined link trips ++ rest else rest

unfoldable pub list_edit_pending : Archive → List EditPending
list_edit_pending db = edits_of db.trips db.links

abbrev pub with_privacy : KomootPrivacy → KomootLink → KomootLink
with_privacy status link = record link { privacy_status = some status }

unfoldable pub set_privacy_in_tx : ℕ → KomootPrivacy → Archive → Archive
set_privacy_in_tx trip status db = update_links (of_trip trip) (with_privacy status) db

unfoldable pub link_exists : Archive → ℕ → Bool
link_exists db trip = any (of_trip trip) db.links

-- `WHERE komoot_tour_id = ? AND edit_pending = 0 AND delete_pending = 0`
abbrev pub refreshable : List ℕ → KomootLink → Bool
refreshable tour link = of_tour tour link && not link.edit_pending && not link.delete_pending

unfoldable pub refresh_privacy_from_listing : List (List ℕ × KomootPrivacy) → Archive → Archive
refresh_privacy_from_listing [] db = db
refresh_privacy_from_listing ((tour, status) ∷ listed) db =
    refresh_privacy_from_listing listed (update_links (refreshable tour) (with_privacy status) db)

unfoldable pub count_edit_pending : Archive → ℕ
count_edit_pending db = length (filter (λ link. link.edit_pending) db.links)

abbrev pub edit_cleared : KomootLink → KomootLink
edit_cleared link = record link { edit_pending = false }

unfoldable pub clear_edit_pending : ℕ → Archive → Archive
clear_edit_pending trip db = update_links (of_trip trip) edit_cleared db

unfoldable pub list_delete_pending : Archive → List (List ℕ)
list_delete_pending db =
    map (λ (link : KomootLink). link.komoot_tour_id) (filter (λ link. link.delete_pending) db.links)

unfoldable pub count_delete_pending : Archive → ℕ
count_delete_pending db = length (filter (λ link. link.delete_pending) db.links)

unfoldable pub delete_link : List ℕ → Archive → Archive
delete_link tour db = record db { links = filter (λ link. not (of_tour tour link)) db.links }
