-- ===== src/Komoot/Service.antt =====
-- What src/server/komoot_sync.rs calls: the trait `KomootClient` of src/server/komoot.rs, the
-- database's driver, and the archive's own pipelines for tracks and photos, which are not modelled
-- and may do what they want. A text is the list of its characters, a file that of its bytes.
use gps_trips.Prelude.{ℕ, List, Option, ◌⊎◌}
use gps_trips.Komoot.World.{AppError, database, komoot, Action, Call, call}

-- `distance` is the bits of a float.
pub record KomootTourSummary : Type 0 where
  pub id : List ℕ
  pub name : List ℕ
  pub sport : List ℕ
  pub date : List ℕ
  pub distance : ℕ
  pub status : List ℕ

pub record KomootPhoto : Type 0 where
  pub id : List ℕ
  pub src : List ℕ
  pub location : Option (ℕ × ℕ)
  pub width_px : Option ℕ
  pub height_px : Option ℕ

pub record TourUpdate : Type 0 where
  pub name : List ℕ
  pub sport : Option (List ℕ)
  pub status : Option (List ℕ)

pub record UploadedPhoto : Type 0 where
  pub original_name : List ℕ
  pub content_type : List ℕ
  pub bytes : List ℕ
  pub known_location : Option (ℕ × ℕ)

-- An error of Komoot's or of the driver's is its text.
pub record Service {ℓ} (R : Type ℓ) : Type (ℓ ⊔ 1) where
  -- Whether a statement, the beginning or the end of a transaction is carried out
  pub execute : Call R (List ℕ) (Unit {0})
  pub constraint_failed : List ℕ
  pub login : Call R (List ℕ) (List ℕ)
  pub list_tours : List ℕ → ℕ → ℕ → Call R (List ℕ) (List KomootTourSummary)
  pub list_planned_tours : List ℕ → ℕ → ℕ → Call R (List ℕ) (List KomootTourSummary)
  pub get_tour_photos : List ℕ → ℕ → ℕ → Call R (List ℕ) (List KomootPhoto)
  pub get_tour_gpx : List ℕ → Call R (List ℕ) (List ℕ)
  pub fetch_photo_bytes : List ℕ → Call R (List ℕ) (List ℕ)
  pub get_tour : List ℕ → Call R (List ℕ) KomootTourSummary
  pub update_tour : List ℕ → TourUpdate → Call R (List ℕ) (Unit {0})
  pub delete_tour : List ℕ → Call R (List ℕ) (Unit {0})
  pub DerivedTrack : Type 0
  pub PreparedPhoto : Type 0
  pub derive_track : List ℕ → AppError ⊎ DerivedTrack
  pub guessed_tz : DerivedTrack → List ℕ
  -- The extension and the type of content
  pub guess_image_format : List ℕ → List ℕ × List ℕ
  pub prepare_photo : UploadedPhoto → PreparedPhoto
  -- The rows of `track` and of the moving time
  pub store_track : ℕ → DerivedTrack → List ℕ → Call R (List ℕ) (Unit {0})
  pub store_photos : ℕ → DerivedTrack → List PreparedPhoto → Call R AppError (Unit {0})
  -- Failures are logged.
  pub after_trip_entered : ℕ → R → R

module _ {ℓ κ} {R : Type ℓ} {A : Type κ} where
  abbrev pub of_komoot : Call R (List ℕ) A → Action R A
  of_komoot c = call komoot c

  abbrev pub of_driver : Call R (List ℕ) A → Action R A
  of_driver c = call database c

  abbrev pub of_archive : Call R AppError A → Action R A
  of_archive c = call (λ e. e) c
