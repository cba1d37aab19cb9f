-- ===== src/Komoot/Push/Delivered/Run.antt =====
-- That a push of src/server/komoot_sync.rs delivers what it reports.
use gps_trips.Prelude.{ℕ, ◌≡◌, ◌∙◌, List, [], ◌∷◌, ◌++◌, Option}
use gps_trips.Komoot.Archive.{EditPending, clear_edit_pending}
use gps_trips.Komoot.World.{Outcome, ok, err, unfinished, World}
use gps_trips.Komoot.Service.{Service}
use gps_trips.Komoot.Push.Delivered.{Journal, SportOf, update_of, Delivered}

module _ {ℓ} {R : Type ℓ} (S : Service R) (J : Journal S) where
  -- Nothing has changed that a push is about.
  abbrev Still : World R → World R → Type 0
  Still w v = (v.db ≡ w.db) × (J.accepted v.rest ≡ J.accepted w.rest)

  -- Whether a call succeeds or not, nothing has changed; and a success is as stated.
  abbrev Looked {κ} : {A : Type κ} → World R → (A → Type 0) → Outcome A × World R → Type 0
  Looked w P (ok a, v) = P a × Still w v
  Looked w P (err e, v) = Still w v
  Looked w P (unfinished, v) = Unit {0}

  -- One edit: its update is accepted, or nothing has changed.
  abbrev Sent : EditPending → World R → Outcome (Unit {0}) × World R → Type 0
  Sent edit w (ok a, v) =
      (v.db ≡ w.db)
      × (sport : Option (List ℕ)) × SportOf edit sport
      × (J.accepted v.rest ≡ J.accepted w.rest ++ update_of edit sport ∷ [])
  Sent edit w (err e, v) = Still w v
  Sent edit w (unfinished, v) = Unit {0}

  Still-trans : (u v w : World R) → Still u v → Still v w → Still u w
  Still-trans u v w h k = (k.0 ∙ h.0, k.1 ∙ h.1)

  -- The flags of a trip are cleared, and Komoot is not asked.
  Marked : ℕ → World R → Unit {0} → World R → Type 0
  Marked trip w a v =
      (v.db ≡ clear_edit_pending trip w.db) × (J.accepted v.rest ≡ J.accepted w.rest)
