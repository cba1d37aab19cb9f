-- ===== src/Qmapshack/Target/Reads/Moved.antt =====
-- What src/server/qmapshack/target.rs reads of an item after it was put into a folder.
use gps_trips.Prelude.{
  ℕ, ◌<◌, ◌≡◌, ◌≢◌, refl, ap, subst, ◌∙◌, ◌&&◌, List, [], ◌∷◌, ◌++◌, Option, some, some-injective,
  arith, ◌==◌, All, All-weaken, Bool-cases, Option-cases, inl, inr,
}
use gps_trips.Qmapshack.Target.{
  Database, Item, Link, ItemState, find_item, parents_of, sorted, state_of, get_item_state,
  untrashed, link_of, keep_only, set_item_folder,
}
use gps_trips.Qmapshack.Target.Reads.{
  Ascending, IsValid, find_item-update_where, at_id_same, state_of_inv, sorted_one,
}

link_of-lt :
    (b item folder keep : ℕ) (links : List Link)
    → All (λ m. b < m.id) links
    → link_of item folder links ≡ some keep
    → b < keep
unfolding link_of
link_of-lt b item folder keep [] h e = cc
link_of-lt b item folder keep (l ∷ links) h e =
    elim (Bool-cases ((l.child == item) && (l.parent == folder))) [
      | inl here ↦
          let same : some l.id ≡ some keep = rw here at e in
          subst (λ n. b < n) (some-injective l.id keep same) h.0
      | inr later ↦
          let rest : link_of item folder links ≡ some keep = rw later at e in
          link_of-lt b item folder keep links h.1 rest
    ]

-- Links that all have other ids are dropped.
keep_only-others :
    (item keep : ℕ) (links : List Link)
    → All (λ m. m.id ≢ keep) links
    → parents_of item (keep_only item keep links) ≡ []
unfolding parents_of keep_only
keep_only-others item keep [] h = refl
keep_only-others item keep (l ∷ links) h = ground (arith, h.0, keep_only-others item keep links h.1)

-- The one link that is kept leads to the folder.
keep_only-link_of :
    (item folder keep : ℕ) (links : List Link)
    → Ascending links
    → link_of item folder links ≡ some keep
    → parents_of item (keep_only item keep links) ≡ folder ∷ []
unfolding Ascending parents_of keep_only link_of
keep_only-link_of item folder keep [] a e = cc
keep_only-link_of item folder keep (l ∷ links) a e =
    elim (Bool-cases ((l.child == item) && (l.parent == folder))) [
      | inl here ↦
          let same : some l.id ≡ some keep = rw here at e in
          let kept = some-injective l.id keep same in
          ground (
            arith,
            here,
            kept,
            keep_only-others item keep links
                (All-weaken (λ m h q. omega (arith, h, q, kept)) links a.0),
          )
      | inr later ↦
          let rest : link_of item folder links ≡ some keep = rw later at e in
          ground (
            arith,
            link_of-lt l.id item folder keep links a.0 rest,
            keep_only-link_of item folder keep links a.1 rest,
          )
    ]

keep_only-new :
    (item folder next : ℕ) (links : List Link)
    → All (λ l. l.id < next) links
    → parents_of item
        (keep_only item next (links ++ record { id = next; parent = folder; child = item } ∷ []))
      ≡ folder ∷ []
unfolding parents_of keep_only
keep_only-new item folder next [] h = ground arith
keep_only-new item folder next (l ∷ links) h =
    ground (arith, h.0, keep_only-new item folder next links h.1)

state_eq :
    (id id' : ℕ) (name name' : List ℕ) (comment comment' : Option (List ℕ)) (hash hash' : List ℕ)
    → (folders folders' : List ℕ) → id ≡ id'
    → name ≡ name'
    → comment ≡ comment'
    → hash ≡ hash'
    → folders ≡ folders'
    → ◌≡◌ {A = Option ItemState}
        (some
          (record { id = id; name = name; comment = comment; hash = hash; folder_ids = folders }))
        (some (record {
          id = id';
          name = name';
          comment = comment';
          hash = hash';
          folder_ids = folders';
        }))
state_eq id id' name name' comment comment' hash hash' folders folders' a b c d e = cc

moved_links :
    (db : Database) (item : Item) (folder : ℕ)
    → IsValid db
    → parents_of item.id (set_item_folder db item.id folder).links ≡ folder ∷ []
unfolding set_item_folder
moved_links db item folder v = elim (Option-cases (link_of item.id folder db.links)) [
  | inr (keep, e) ↦
      rw (set_item_folder, e) (keep_only-link_of item.id folder keep db.links v.ascending e)
  | inl e ↦ rw (set_item_folder, e) (keep_only-new item.id folder db.next_link db.links v.given_out)
]

moved_item :
    (db : Database) (key : List ℕ) (item : Item) (folder : ℕ)
    → find_item key db.items ≡ some item
    → (item' : Item) × (find_item key (set_item_folder db item.id folder).items ≡ some item')
      × (item'.id ≡ item.id)
      × (item'.name ≡ item.name)
      × (item'.comment ≡ item.comment)
      × (item'.hash ≡ item.hash)
unfolding set_item_folder
moved_item db key item folder h = elim (Option-cases (link_of item.id folder db.links)) [
  | inr (keep, e) ↦ (item, rw (set_item_folder, e) h, refl, refl, refl, refl)
  | inl e ↦ (
    untrashed item,
    rw (set_item_folder, e)
        (find_item-update_where key item.id untrashed (λ i. refl) db.items item h
          ∙ ap some (at_id_same untrashed item)),
    refl,
    refl,
    refl,
    refl,
  )
]

-- An item that is put into a folder is there and nowhere else, with its old columns.
pub get_item_state-set_item_folder :
    (db : Database) (key : List ℕ) (folder : ℕ) (s : ItemState)
    → IsValid db
    → get_item_state db key ≡ some s
    → get_item_state (set_item_folder db s.id folder) key
      ≡ some (record {
        id = s.id;
        name = s.name;
        comment = s.comment;
        hash = s.hash;
        folder_ids = folder ∷ [];
      })
unfolding get_item_state state_of
get_item_state-set_item_folder db key folder s v h =
    let (item, found, e) = state_of_inv db (find_item key db.items) s h in
    subst
      (λ s.
        get_item_state (set_item_folder db s.id folder) key
        ≡ some (record {
          id = s.id;
          name = s.name;
          comment = s.comment;
          hash = s.hash;
          folder_ids = folder ∷ [];
        }))
      e
      (let (item', found', id, name, comment, hash) = moved_item db key item folder found in
        let folders : sorted (parents_of item'.id (set_item_folder db item.id folder).links)
            ≡ folder ∷ [] =
          ap (λ n. sorted (parents_of n (set_item_folder db item.id folder).links)) id
          ∙ ap sorted (moved_links db item folder v)
          ∙ sorted_one folder in
        rw found' (state_eq _ _ _ _ _ _ _ _ _ _ id name comment hash folders))
