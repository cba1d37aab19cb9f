-- ===== src/Qmapshack/Target/Reads.antt =====
-- What src/server/qmapshack/target.rs reads of an item after a write.
pub mod Moved
use gps_trips.Prelude.{
  ℕ, ◌<◌, ◌≡◌, ◌≢◌, refl, ap, subst, ◌∙◌, true, false, ◌&&◌, List, [], ◌∷◌, ◌++◌, Option, none,
  some, some-injective, arith, ◌==◌, ==_iff, All, All-weaken, Bool-cases, Option-cases, inl, inr,
  text_eq, text_eq_refl, if◌then◌else◌,
}
use gps_trips.Qmapshack.Target.{
  Database, Item, Link, ItemState, NewItem, find_item, parents_of, sorted, state_of, get_item_state,
  insert_item, row_of, rewritten, at_id, update_where, untrashed, update_item, link_of, keep_only,
  set_item_folder,
}

-- Links in the order of their ids.
unfoldable pub Ascending : List Link → Type 0
Ascending [] = Unit {0}
Ascending (l ∷ ls) = All (λ m. l.id < m.id) ls × Ascending ls

pub record IsValid (db : Database) : Type 0 where
  pub ascending : Ascending db.links
  pub given_out : All (λ l. l.id < db.next_link) db.links
  pub children : All (λ l. l.child < db.next_item) db.links
  pub item_ids : All (λ i. i.id < db.next_item) db.items

keyqms-at_id :
    (id : ℕ) (f : Item → Item)
    → ((i : Item) → (f i).keyqms ≡ i.keyqms)
    → (i : Item) → (at_id id f i).keyqms ≡ i.keyqms
keyqms-at_id id f k i = elim (Bool-cases (i.id == id)) [
  | inl same ↦ ap (λ b. (if b then f i else i).keyqms) same ∙ k i
  | inr other ↦ ap (λ b. (if b then f i else i).keyqms) other
]

-- An update that keeps the key changes the item that is found, if it has the id.
pub find_item-update_where :
    (key : List ℕ) (id : ℕ) (f : Item → Item)
    → ((i : Item) → (f i).keyqms ≡ i.keyqms)
    → (items : List Item) (item : Item) → find_item key items ≡ some item
    → find_item key (update_where id f items) ≡ some (at_id id f item)
unfolding find_item update_where
find_item-update_where key id f k [] item h = cc
find_item-update_where key id f k (i ∷ items) item h = elim (Bool-cases (text_eq i.keyqms key)) [
  | inl here ↦
      let same : some i ≡ some item = rw here at h in
      let here' : text_eq (at_id id f i).keyqms key ≡ true =
        ap (λ t. text_eq t key) (keyqms-at_id id f k i) ∙ here in
      ap (λ b. if b then some (at_id id f i) else find_item key (update_where id f items)) here'
      ∙ ap (λ j. some (at_id id f j)) (some-injective i item same)
  | inr later ↦
      let rest : find_item key items ≡ some item = rw later at h in
      let later' : text_eq (at_id id f i).keyqms key ≡ false =
        ap (λ t. text_eq t key) (keyqms-at_id id f k i) ∙ later in
      ap (λ b. if b then some (at_id id f i) else find_item key (update_where id f items)) later'
      ∙ find_item-update_where key id f k items item rest
]

pub at_id_same : (f : Item → Item) (i : Item) → at_id i.id f i ≡ f i
at_id_same f i = ap (λ b. if b then f i else i) ((==_iff i.id i.id).1 refl)

-- The state that is read is that of a row.
pub state_of_inv :
    (db : Database) (o : Option Item) (s : ItemState)
    → state_of db o ≡ some s
    → (item : Item) × (o ≡ some item)
      × (record {
        id = item.id;
        name = item.name;
        comment = item.comment;
        hash = item.hash;
        folder_ids = sorted (parents_of item.id db.links);
      }
          ≡ s)
unfolding state_of
state_of_inv db none s h = cc
state_of_inv db (some item) s h = (item, refl, some-injective _ s h)

-- An updated item has the new columns and its old folders.
pub get_item_state-update_item :
    (db : Database) (key : List ℕ) (new : NewItem) (s : ItemState)
    → get_item_state db key ≡ some s
    → get_item_state (update_item db s.id new) key
      ≡ some (record {
        id = s.id;
        name = new.name;
        comment = some new.comment;
        hash = new.hash;
        folder_ids = s.folder_ids;
      })
unfolding get_item_state update_item
get_item_state-update_item db key new s h =
    let (item, found, e) = state_of_inv db (find_item key db.items) s h in
    subst
      (λ s.
        get_item_state (update_item db s.id new) key
        ≡ some (record {
          id = s.id;
          name = new.name;
          comment = some new.comment;
          hash = new.hash;
          folder_ids = s.folder_ids;
        }))
      e
      (ap (state_of (update_item db item.id new)) (
        find_item-update_where key item.id (rewritten new) (λ i. refl) db.items item found
        ∙ ap some (at_id_same (rewritten new) item)))

pub sorted_one : (folder : ℕ) → sorted (folder ∷ []) ≡ folder ∷ []
unfolding sorted
sorted_one folder = refl

find_item-append :
    (key : List ℕ) (items : List Item) (item : Item)
    → find_item key items ≡ none
    → text_eq item.keyqms key ≡ true
    → find_item key (items ++ item ∷ []) ≡ some item
unfolding find_item
find_item-append key [] item h k = rw k refl
find_item-append key (i ∷ items) item h k = elim (Bool-cases (text_eq i.keyqms key)) [
  | inl here ↦ let bad : some i ≡ none = rw here at h in cc
  | inr later ↦
      let rest : find_item key items ≡ none = rw later at h in
      rw later (find_item-append key items item rest k)
]

parents_of-append :
    (item folder n : ℕ) (links : List Link)
    → All (λ l. l.child < item) links
    → parents_of item (links ++ record { id = n; parent = folder; child = item } ∷ []) ≡ folder ∷ []
unfolding parents_of
parents_of-append item folder n [] h = ground arith
parents_of-append item folder n (l ∷ links) h =
    ground (arith, h.0, parents_of-append item folder n links h.1)

pub insert_item-some :
    (db : Database) (new : NewItem) (folder : ℕ)
    → find_item new.keyqms db.items ≡ none
    → (after : Database) × (insert_item db new folder ≡ some after)
unfolding insert_item
insert_item-some db new folder free = elim (Option-cases (insert_item db new folder)) [
  | inr made ↦ made
  | inl e ↦ let bad = rw (insert_item, free) at e in cc
]

-- A new item is the one with its key, in its folder.
pub get_item_state-insert_item :
    (db after : Database) (new : NewItem) (folder : ℕ)
    → IsValid db
    → find_item new.keyqms db.items ≡ none
    → insert_item db new folder ≡ some after
    → get_item_state after new.keyqms
      ≡ some (record {
        id = db.next_item;
        name = new.name;
        comment = some new.comment;
        hash = new.hash;
        folder_ids = folder ∷ [];
      })
unfolding get_item_state state_of insert_item
get_item_state-insert_item db after new folder v free h =
    let made = some-injective _ after (rw (insert_item, free) at h) in
    subst
      (λ after.
        get_item_state after new.keyqms
        ≡ some (record {
          id = db.next_item;
          name = new.name;
          comment = some new.comment;
          hash = new.hash;
          folder_ids = folder ∷ [];
        }))
      made
      (rw
        (find_item-append new.keyqms db.items (row_of db.next_item new) free
          (text_eq_refl new.keyqms))
        (rw (parents_of-append db.next_item folder db.next_link db.links v.children)
          (rw (sorted_one folder) refl)))
