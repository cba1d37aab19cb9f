-- ===== src/Komoot/Tour.antt =====
-- `sync_one_tour` of src/server/komoot_sync.rs: a tour's file and photos, and one transaction for its
-- trip, its link and its privacy.
pub mod Atomic
use gps_trips.Prelude.{ℕ, false, List, [], ◌∷◌, ◌++◌, Option, none, some, ◌⊎◌, inl, inr, codes}
use gps_trips.Types.Kind.{TripKind}
use gps_trips.Types.Privacy.{from_komoot_status, unwrap_or}
use gps_trips.Komoot.Archive.{NewTrip, set_privacy_in_tx}
use gps_trips.Komoot.Archive.Trips.{insert_trip_in_tx}
use gps_trips.Komoot.Sport.{map_sport}
use gps_trips.Komoot.Photo.{resolve_photo_url}
use gps_trips.Komoot.World.{AppError, Outcome, ok, err, World, Action, return, lift, ◌>>=◌}
use gps_trips.Komoot.Service.{
  KomootTourSummary, KomootPhoto, UploadedPhoto, Service, of_komoot, of_driver, of_archive,
}
use gps_trips.Komoot.Database.{in_transaction, write, insert_link}
use gps_trips.Komoot.Listing.{list_all_tour_photos}

abbrev pub max_dimension : ℕ
max_dimension = 2048

abbrev pub outcome_of {ℓ} : {A : Type ℓ} → AppError ⊎ A → Outcome A
outcome_of (inl e) = err e
outcome_of (inr a) = ok a

module _ {ℓ} {R : Type ℓ} (S : Service R) where
  abbrev pub photo_url : KomootPhoto → List ℕ
  photo_url photo =
      resolve_photo_url photo.src (unwrap_or max_dimension photo.width_px)
        (unwrap_or max_dimension photo.height_px) false

  abbrev pub uploaded : KomootPhoto → List ℕ → UploadedPhoto
  uploaded photo bytes =
      let (ext, content_type) = S.guess_image_format bytes in
      record {
        original_name = codes "komoot-" ++ photo.id ++ codes "." ++ ext;
        content_type = content_type;
        bytes = bytes;
        known_location = photo.location;
      }

  unfoldable pub prepare_photos : List KomootPhoto → Action R (List S.PreparedPhoto)
  prepare_photos [] = return []
  prepare_photos (photo ∷ photos) = do
    bytes ← of_komoot (S.fetch_photo_bytes (photo_url photo))
    rest ← prepare_photos photos
    return (S.prepare_photo (uploaded photo bytes) ∷ rest)

  abbrev pub new_trip : KomootTourSummary → TripKind → S.DerivedTrack → List ℕ → NewTrip
  new_trip tour kind derived gpx = record {
    name = tour.name;
    activity_type = map_sport tour.sport;
    tz_name = S.guessed_tz derived;
    trip_kind = kind;
    gpx = gpx;
  }

  unfoldable pub insert_trip : NewTrip → S.DerivedTrack → Action R ℕ
  insert_trip trip derived = do
    _ ← of_driver S.execute
    id ← λ w. let (id, db) = insert_trip_in_tx trip w.db in (ok id, record w { db = db })
    _ ← of_driver (S.store_track id derived trip.gpx)
    return id

  unfoldable pub sync_in_tx :
      KomootTourSummary → NewTrip → S.DerivedTrack → List S.PreparedPhoto → Action R ℕ
  unfolding insert_trip
  sync_in_tx tour trip derived photos = do
    trip_id ← insert_trip trip derived
    _ ← insert_link S trip_id tour.id
    _ ← write S (set_privacy_in_tx trip_id (from_komoot_status tour.status))
    _ ← of_archive (S.store_photos trip_id derived photos)
    return trip_id

  unfoldable pub sync_one_tour : ℕ → KomootTourSummary → TripKind → Action R ℕ
  unfolding prepare_photos sync_in_tx
  sync_one_tour fuel tour kind = do
    gpx ← of_komoot (S.get_tour_gpx tour.id)
    derived ← lift (outcome_of (S.derive_track gpx))
    photos ← list_all_tour_photos S fuel tour.id
    prepared ← prepare_photos photos
    trip_id ← in_transaction S (sync_in_tx tour (new_trip tour kind derived gpx) derived prepared)
    λ w. (ok trip_id, record w { rest = S.after_trip_entered trip_id w.rest })
