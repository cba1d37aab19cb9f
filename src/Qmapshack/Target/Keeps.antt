-- ===== src/Qmapshack/Target/Keeps.antt =====
-- The writes of src/server/qmapshack/target.rs keep the tables in order.
use gps_trips.Prelude.{
  ℕ, ◌+◌, ◌<◌, ◌≡◌, refl, sym, subst, not, ◌&&◌, List, [], ◌∷◌, ◌++◌, some, some-injective, arith,
  ◌==◌, All, All-append, All-weaken, Bool-cases, Option-cases, inl, inr, text_eq,
}
use gps_trips.Qmapshack.Target.{
  Database, Item, Link, ItemState, NewItem, find_item, get_item_state, insert_item, row_of, link_to,
  rewritten, update_where, untrashed, update_item, link_of, keep_only, set_item_folder,
}
use gps_trips.Qmapshack.Target.Reads.{Ascending, IsValid, state_of_inv}

Ascending-append :
    (links : List Link) (l : Link)
    → Ascending links
    → All (λ m. m.id < l.id) links
    → Ascending (links ++ l ∷ [])
unfolding Ascending
Ascending-append [] l a h = (tt, tt)
Ascending-append (m ∷ links) l a h =
    (All-append (λ k. m.id < k.id) links (l ∷ []) a.0 (h.0, tt), Ascending-append links l a.1 h.1)

All-keep_only :
    (P : Link → Type 0) (item keep : ℕ) (links : List Link)
    → All P links
    → All P (keep_only item keep links)
unfolding keep_only
All-keep_only P item keep [] h = tt
All-keep_only P item keep (l ∷ links) h =
    elim (Bool-cases ((l.child == item) && not (l.id == keep))) [
      | inl dropped ↦ rw dropped (All-keep_only P item keep links h.1)
      | inr kept ↦ rw kept (h.0, All-keep_only P item keep links h.1)
    ]

Ascending-keep_only :
    (item keep : ℕ) (links : List Link) → Ascending links → Ascending (keep_only item keep links)
unfolding keep_only Ascending
Ascending-keep_only item keep [] a = tt
Ascending-keep_only item keep (l ∷ links) a =
    elim (Bool-cases ((l.child == item) && not (l.id == keep))) [
      | inl dropped ↦ rw dropped (Ascending-keep_only item keep links a.1)
      | inr kept ↦ rw kept (
        All-keep_only (λ m. l.id < m.id) item keep links a.0,
        Ascending-keep_only item keep links a.1,
      )
    ]

All-update_where :
    (n id : ℕ) (f : Item → Item)
    → ((i : Item) → (f i).id ≡ i.id)
    → (items : List Item) → All (λ i. i.id < n) items
    → All (λ i. i.id < n) (update_where id f items)
unfolding update_where
All-update_where n id f k [] h = tt
All-update_where n id f k (i ∷ items) h =
    let rest = All-update_where n id f k items h.1 in
    elim (Bool-cases (i.id == id)) [
      | inl same ↦ rw same (subst (λ m. m < n) (sym (k i)) h.0, rest)
      | inr other ↦ rw other (h.0, rest)
    ]

pub update_item-IsValid :
    (db : Database) (id : ℕ) (new : NewItem) → IsValid db → IsValid (update_item db id new)
unfolding update_item
update_item-IsValid db id new v = record {
  ascending = v.ascending;
  given_out = v.given_out;
  children = v.children;
  item_ids = All-update_where db.next_item id (rewritten new) (λ i. refl) db.items v.item_ids;
}

pub set_item_folder-IsValid :
    (db : Database) (id folder : ℕ)
    → id < db.next_item
    → IsValid db
    → IsValid (set_item_folder db id folder)
unfolding set_item_folder
set_item_folder-IsValid db id folder h v = elim (Option-cases (link_of id folder db.links)) [
  | inr (keep, e) ↦
      rw (set_item_folder, e)
        (record {
          ascending = Ascending-keep_only id keep db.links v.ascending;
          given_out = All-keep_only (λ l. l.id < db.next_link) id keep db.links v.given_out;
          children = All-keep_only (λ l. l.child < db.next_item) id keep db.links v.children;
          item_ids = v.item_ids;
        })
  | inl e ↦
      let more = db.links ++ link_to db folder id ∷ [] in
      rw (set_item_folder, e)
        (record {
          ascending =
              Ascending-keep_only id db.next_link more
                (Ascending-append db.links (link_to db folder id) v.ascending v.given_out);
          given_out =
              All-keep_only (λ l. l.id < db.next_link + 1) id db.next_link more
                (All-append (λ l. l.id < db.next_link + 1) db.links (link_to db folder id ∷ [])
                  (All-weaken (λ l k. omega (arith, k)) db.links v.given_out) (omega arith, tt));
          children =
              All-keep_only (λ l. l.child < db.next_item) id db.next_link more
                (All-append (λ l. l.child < db.next_item) db.links (link_to db folder id ∷ [])
                  v.children (h, tt));
          item_ids = All-update_where db.next_item id untrashed (λ i. refl) db.items v.item_ids;
        })
]

pub insert_item-IsValid :
    (db after : Database) (new : NewItem) (folder : ℕ)
    → insert_item db new folder ≡ some after
    → IsValid db
    → IsValid after
unfolding insert_item
insert_item-IsValid db after new folder h v = elim (Option-cases (find_item new.keyqms db.items)) [
  | inr (taken, e) ↦ let bad = rw (insert_item, e) at h in cc
  | inl e ↦ subst IsValid (some-injective _ after (rw (insert_item, e) at h)) (record {
    ascending = Ascending-append db.links (link_to db folder db.next_item) v.ascending v.given_out;
    given_out =
        All-append (λ l. l.id < db.next_link + 1) db.links (link_to db folder db.next_item ∷ [])
          (All-weaken (λ l k. omega (arith, k)) db.links v.given_out) (omega arith, tt);
    children =
        All-append (λ l. l.child < db.next_item + 1) db.links (link_to db folder db.next_item ∷ [])
          (All-weaken (λ l k. omega (arith, k)) db.links v.children) (omega arith, tt);
    item_ids =
        All-append (λ i. i.id < db.next_item + 1) db.items (row_of db.next_item new ∷ [])
          (All-weaken (λ i k. omega (arith, k)) db.items v.item_ids) (omega arith, tt);
  })
]

found_id :
    (n : ℕ) (key : List ℕ) (items : List Item) (item : Item)
    → All (λ i. i.id < n) items
    → find_item key items ≡ some item
    → item.id < n
unfolding find_item
found_id n key [] item h e = cc
found_id n key (i ∷ items) item h e = elim (Bool-cases (text_eq i.keyqms key)) [
  | inl here ↦
      let same : some i ≡ some item = rw here at e in
      subst (λ j. j.id < n) (some-injective i item same) h.0
  | inr later ↦
      let rest : find_item key items ≡ some item = rw later at e in
      found_id n key items item h.1 rest
]

-- The id of a state that is read has been given out.
pub state-id_lt :
    (db : Database) (key : List ℕ) (s : ItemState)
    → IsValid db
    → get_item_state db key ≡ some s
    → s.id < db.next_item
unfolding get_item_state
state-id_lt db key s v h =
    let (item, found, e) = state_of_inv db (find_item key db.items) s h in
    subst (λ s. s.id < db.next_item) e (found_id db.next_item key db.items item v.item_ids found)
