-- ===== src/Qmapshack/Reconcile/Idempotent.antt =====
-- A run of the export after another finds nothing to do: src/server/qmapshack/reconcile.rs.
use gps_trips.Prelude.{
  ℕ, ◌≡◌, refl, Bool, true, false, List, Option, none, some, Option-cases, inl, inr,
}
use gps_trips.Qmapshack.Target.{
  Database, ItemState, get_item_state, state_of, find_item, insert_item, update_item,
  set_item_folder,
}
use gps_trips.Qmapshack.Reconcile.{
  Desired, ItemContent, skipped, inserted, updated, new_item, content_changed, placement_changed,
  reconcile_known, reconcile_item, place,
}

-- An item that is as desired is skipped.
pub reconcile_item-settled :
    (db : Database) (folder : ℕ) (desired : Desired) (content : Option ItemContent) (s : ItemState)
    → get_item_state db desired.keyqms ≡ some s
    → content_changed s desired ≡ false
    → placement_changed s folder ≡ false
    → reconcile_item db folder desired content ≡ (some skipped, db)
unfolding reconcile_known reconcile_item
reconcile_item-settled db folder desired content s h k m = rw (reconcile_item, h) (rw k (rw m refl))

pub reconcile_item-moved :
    (db : Database) (folder : ℕ) (desired : Desired) (content : Option ItemContent) (s : ItemState)
    → get_item_state db desired.keyqms ≡ some s
    → content_changed s desired ≡ false
    → placement_changed s folder ≡ true
    → reconcile_item db folder desired content
      ≡ (some (updated false true), set_item_folder db s.id folder)
unfolding reconcile_known reconcile_item
reconcile_item-moved db folder desired content s h k m = rw (reconcile_item, h) (rw k (rw m refl))

pub reconcile_item-written :
    (db : Database) (folder : ℕ) (desired : Desired) (content : ItemContent) (s : ItemState)
    → (moved : Bool) → get_item_state db desired.keyqms ≡ some s
    → content_changed s desired ≡ true
    → placement_changed s folder ≡ moved
    → reconcile_item db folder desired (some content) ≡ (
      some (updated true moved),
      place moved (update_item db s.id (new_item content desired)) s.id folder,
    )
unfolding reconcile_known reconcile_item
reconcile_item-written db folder desired content s moved h k m =
    rw (reconcile_item, h) (rw k (rw m refl))

pub reconcile_item-absent :
    (db after : Database) (folder : ℕ) (desired : Desired) (content : ItemContent)
    → get_item_state db desired.keyqms ≡ none
    → insert_item db (new_item content desired) folder ≡ some after
    → reconcile_item db folder desired (some content) ≡ (some inserted, after)
unfolding reconcile_item
reconcile_item-absent db after folder desired content h made = rw (reconcile_item, h) (rw made refl)

pub free_key :
    (db : Database) (key : List ℕ) → get_item_state db key ≡ none → find_item key db.items ≡ none
unfolding get_item_state state_of
free_key db key h = elim (Option-cases (find_item key db.items)) [
  | inl e ↦ e
  | inr (item, e) ↦ let bad : state_of db (some item) ≡ none = rw (get_item_state, e) at h in cc
]
