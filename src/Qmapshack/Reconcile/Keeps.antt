-- ===== src/Qmapshack/Reconcile/Keeps.antt =====
-- Reconciling keeps the tables in order: src/server/qmapshack/reconcile.rs.
use gps_trips.Prelude.{ℕ, ◌≡◌, sym, subst, Option, none, some, Bool-cases, Option-cases, inl, inr}
use gps_trips.Qmapshack.Target.{Database, ItemState, get_item_state, update_item}
use gps_trips.Qmapshack.Target.Reads.{IsValid, insert_item-some}
use gps_trips.Qmapshack.Target.Keeps.{
  update_item-IsValid, set_item_folder-IsValid, insert_item-IsValid, state-id_lt,
}
use gps_trips.Qmapshack.Reconcile.{
  Desired, ItemContent, new_item, content_changed, placement_changed, reconcile_item,
  reconcile_known,
}
use gps_trips.Qmapshack.Reconcile.Idempotent.{reconcile_item-absent, free_key}

known-IsValid :
    (db : Database) (folder : ℕ) (desired : Desired) (content : Option ItemContent) (s : ItemState)
    → IsValid db
    → get_item_state db desired.keyqms ≡ some s
    → IsValid (reconcile_known db folder desired content s).1
unfolding reconcile_known update_item
known-IsValid db folder desired none s v h =
    let id = state-id_lt db desired.keyqms s v h in
    let moved = set_item_folder-IsValid db s.id folder id v in
    elim (Bool-cases (content_changed s desired)) [
      | inl stale ↦ rw stale v
      | inr same ↦ elim (Bool-cases (placement_changed s folder)) [
        | inl moves ↦ rw same (rw moves moved)
        | inr stays ↦ rw same (rw stays v)
      ]
    ]
known-IsValid db folder desired (some c) s v h =
    let id = state-id_lt db desired.keyqms s v h in
    let moved = set_item_folder-IsValid db s.id folder id v in
    let first = update_item db s.id (new_item c desired) in
    let first-IsValid = update_item-IsValid db s.id (new_item c desired) v in
    elim (Bool-cases (content_changed s desired)) [
      | inl stale ↦ elim (Bool-cases (placement_changed s folder)) [
        | inl moves ↦
            rw stale (rw moves (set_item_folder-IsValid first s.id folder id first-IsValid))
        | inr stays ↦ rw stale (rw stays first-IsValid)
      ]
      | inr same ↦ elim (Bool-cases (placement_changed s folder)) [
        | inl moves ↦ rw same (rw moves moved)
        | inr stays ↦ rw same (rw stays v)
      ]
    ]

absent-IsValid :
    (db : Database) (folder : ℕ) (desired : Desired) (content : Option ItemContent)
    → IsValid db
    → get_item_state db desired.keyqms ≡ none
    → IsValid (reconcile_item db folder desired content).1
unfolding reconcile_item
absent-IsValid db folder desired none v h = rw (reconcile_item, h) v
absent-IsValid db folder desired (some c) v h =
    let (after, made) =
      insert_item-some db (new_item c desired) folder (free_key db desired.keyqms h) in
    subst (λ r. IsValid r.1) (sym (reconcile_item-absent db after folder desired c h made))
      (insert_item-IsValid db after (new_item c desired) folder made v)

-- Whatever reconciling an item comes to, an error included, the ids of the database are given out
-- in ascending order afterwards if they were before.
pub reconcile_item-IsValid :
    (db : Database) (folder : ℕ) (desired : Desired) (content : Option ItemContent)
    → IsValid db
    → IsValid (reconcile_item db folder desired content).1
unfolding reconcile_item
reconcile_item-IsValid db folder desired content v =
    elim (Option-cases (get_item_state db desired.keyqms)) [
      | inr (s, present) ↦
          rw (reconcile_item, present) (known-IsValid db folder desired content s v present)
      | inl absent ↦ absent-IsValid db folder desired content v absent
    ]
