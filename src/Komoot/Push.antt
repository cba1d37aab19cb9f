-- ===== src/Komoot/Push.antt =====
-- How src/server/komoot_sync.rs pushes what is pending: the edits, and the deletions.
pub mod Edits
pub mod Delivered
pub mod Deletes
pub mod Left
pub mod Dropped
use gps_trips.Prelude.{
  ℕ, Bool, true, false, List, [], ◌∷◌, ◌++◌, Option, none, some, ◌⊎◌, inl, inr, codes,
  if◌then◌else◌, text_eq,
}
use gps_trips.Types.Activity.{ActivityType}
use gps_trips.Types.Kind.{TripKind}
use gps_trips.Types.Privacy.{KomootPrivacy, komoot_status}
use gps_trips.Komoot.Archive.{
  Archive, EditPending, list_edit_pending, clear_edit_pending, list_delete_pending, delete_link,
}
use gps_trips.Komoot.Sport.{sport_for}
use gps_trips.Komoot.World.{
  AppError, to_string, Outcome, ok, err, unfinished, World, Action, return, ◌>>=◌,
}
use gps_trips.Komoot.Service.{KomootTourSummary, TourUpdate, Service, of_komoot}
use gps_trips.Komoot.Database.{query, write}

pub record PushSummary : Type 0 where
  pub pushed : List (List ℕ × ℕ)
  pub failed : Option (List ℕ × List ℕ)

pub record PushDeleteSummary : Type 0 where
  pub deleted : List (List ℕ)
  pub failed : Option (List ℕ × List ℕ)

abbrev pub outgoing_status : Option KomootPrivacy → Option (List ℕ)
outgoing_status none = none
outgoing_status (some chosen) = komoot_status chosen

module _ {ℓ} {R : Type ℓ} (S : Service R) where
  unfoldable pub outgoing_sport : TripKind → EditPending → Action R (Option (List ℕ))
  outgoing_sport TripKind.planned edit = return none
  outgoing_sport TripKind.recorded edit = do
    live ← of_komoot (S.get_tour edit.komoot_tour_id)
    return (some (sport_for edit.activity_type live.sport))

  unfoldable pub push_one_edit : EditPending → Action R (Unit {0})
  unfolding outgoing_sport
  push_one_edit edit = do
    sport ← outgoing_sport edit.trip_kind edit
    of_komoot (
        S.update_tour edit.komoot_tour_id
          (record { name = edit.name; sport = sport; status = outgoing_status edit.privacy }))

  abbrev pub after_edit :
      EditPending
      → List (List ℕ × ℕ)
      → (List (List ℕ × ℕ) → Action R PushSummary)
      → Outcome (Unit {0}) × World R
      → Outcome PushSummary × World R
  after_edit edit pushed rest (ok done, w) =
      (write S (clear_edit_pending edit.trip_id) >>= λ _.
      rest (pushed ++ (edit.komoot_tour_id, edit.trip_id) ∷ []))
        w
  after_edit edit pushed rest (err e, w) =
      (ok (record { pushed = pushed; failed = some (edit.komoot_tour_id, to_string e) }), w)
  after_edit edit pushed rest (unfinished, w) = (unfinished, w)

  unfoldable pub push_each : List (List ℕ × ℕ) → List EditPending → Action R PushSummary
  push_each pushed [] = return (record { pushed = pushed; failed = none })
  push_each pushed (edit ∷ edits) =
      let rest = λ (all : List (List ℕ × ℕ)). push_each all edits in
      λ w. after_edit edit pushed rest (push_one_edit edit w)

  unfoldable pub push_pending_edits : Action R PushSummary
  unfolding push_each
  push_pending_edits = do pending ← query S list_edit_pending; push_each [] pending

  -- The error is Komoot's own, without what `AppError` puts before it.
  abbrev pub after_delete :
      List ℕ
      → List (List ℕ)
      → (List (List ℕ) → Action R PushDeleteSummary)
      → Archive
      → (List ℕ ⊎ Unit {0}) × R
      → Outcome PushDeleteSummary × World R
  after_delete tour deleted rest db (inl e, after) = (
    ok (record { deleted = deleted; failed = some (tour, codes "delete tour: " ++ e) }),
    record { db = db; rest = after },
  )
  after_delete tour deleted rest db (inr done, after) =
      (write S (delete_link tour) >>= λ _. rest (deleted ++ tour ∷ []))
        (record { db = db; rest = after })

  unfoldable pub delete_each : List (List ℕ) → List (List ℕ) → Action R PushDeleteSummary
  delete_each deleted [] = return (record { deleted = deleted; failed = none })
  delete_each deleted (tour ∷ tours) =
      let rest = λ (all : List (List ℕ)). delete_each all tours in
      λ w. after_delete tour deleted rest w.db (S.delete_tour tour w.rest)

  unfoldable pub push_pending_deletes : Action R PushDeleteSummary
  unfolding delete_each
  push_pending_deletes = do pending ← query S list_delete_pending; delete_each [] pending
