-- ===== src/Komoot/Database.antt =====
-- The statements that src/server/komoot_sync.rs has carried out through src/server/repo/: each may
-- fail, and a transaction that does not reach its end is rolled back.
pub mod Ends
use gps_trips.Prelude.{ℕ, List, [], ◌∷◌, map, Option, none, some}
use gps_trips.Types.Privacy.{KomootPrivacy, from_komoot_status}
use gps_trips.Komoot.Archive.{Archive, insert_link_in_tx, refresh_privacy_from_listing}
use gps_trips.Komoot.World.{
  database, Outcome, ok, err, World, Action, return, settle, modify, gets, ◌>>=◌,
}
use gps_trips.Komoot.Service.{KomootTourSummary, Service, of_driver}

module _ {ℓ} {R : Type ℓ} (S : Service R) where
  -- `begin_write`, the body and `commit`
  unfoldable pub in_transaction {κ} : {A : Type κ} → Action R A → Action R A
  in_transaction body w =
      settle w.db ((do _ ← of_driver S.execute; a ← body; _ ← of_driver S.execute; return a) w)

  unfoldable pub query {κ} : {A : Type κ} → (Archive → A) → Action R A
  query f = do _ ← of_driver S.execute; gets f

  unfoldable pub write : (Archive → Archive) → Action R (Unit {0})
  write f = do _ ← of_driver S.execute; modify f

  abbrev pub inserted : World R → Option Archive → Outcome (Unit {0}) × World R
  inserted w none = (err (database S.constraint_failed), w)
  inserted w (some db) = (ok tt, record w { db = db })

  unfoldable pub insert_link : ℕ → List ℕ → Action R (Unit {0})
  insert_link trip tour = do
    _ ← of_driver S.execute
    λ w. inserted w (insert_link_in_tx trip tour w.db)

  unfoldable pub refresh_each : List (List ℕ × KomootPrivacy) → Action R (Unit {0})
  unfolding write
  refresh_each [] = return tt
  refresh_each (tour ∷ listed) = do
    _ ← write (refresh_privacy_from_listing (tour ∷ []))
    refresh_each listed

  abbrev pub listed_privacy : List KomootTourSummary → List (List ℕ × KomootPrivacy)
  listed_privacy tours = map (λ tour. (tour.id, from_komoot_status tour.status)) tours

  unfoldable pub refresh_privacy : List KomootTourSummary → Action R (Unit {0})
  unfolding in_transaction refresh_each
  refresh_privacy tours = in_transaction (refresh_each (listed_privacy tours))
