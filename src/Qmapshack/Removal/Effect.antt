-- ===== src/Qmapshack/Removal/Effect.antt =====
-- What the removal pass of src/server/qmapshack/reconcile.rs unlinks, and what it leaves alone.
use gps_trips.Prelude.{
  ℕ, ◌≡◌, ◌≢◌, refl, sym, ap, subst, ◌∙◌, Bool, true, false, All-weaken, List, [], ◌∷◌, arith, All,
  Bool-cases, inl, inr, ◌⊎◌,
}
use gps_trips.Prelude.Int.{ℤ}
use gps_trips.Text.{starts_with}
use gps_trips.Qmapshack.Target.{
  Database, Item, Link, ExporterItem, parents_of, has_link, without, unlink_item, exporter_items,
  list_exporter_items,
}
use gps_trips.Qmapshack.Removal.{
  ExportOutcome, count_removed, count_failed, is_stale, remove_items, remove_stale_items,
}
use gps_trips.Qmapshack.Removal.Gone.{Gone, Gone-is_stale, is_stale-Gone}

parents_of-without_same : (n : ℕ) (links : List Link) → parents_of n (without n links) ≡ []
unfolding parents_of without
parents_of-without_same n [] = refl
parents_of-without_same n (l ∷ links) = ground (arith, parents_of-without_same n links)

parents_of-without_other :
    (n m : ℕ) (links : List Link) → m ≢ n → parents_of n (without m links) ≡ parents_of n links
unfolding parents_of without
parents_of-without_other n m [] h = refl
parents_of-without_other n m (l ∷ links) h = ground (arith, h, parents_of-without_other n m links h)

-- Links of nobody stay nobody's.
parents_of-without_none :
    (n m : ℕ) (links : List Link) → parents_of n links ≡ [] → parents_of n (without m links) ≡ []
unfolding parents_of without
parents_of-without_none n m [] h = refl
parents_of-without_none n m (l ∷ links) h = ground (arith, h, parents_of-without_none n m links)

-- A row of the table.
unfoldable pub Among : Item → List Item → Type 0
Among item [] = ⊥
Among item (i ∷ items) = (i ≡ item) ⊎ Among item items

module _ (prefix : List ℕ) (live_ids : ℤ → Bool) (fails : ℕ → Bool) where
  -- What has no folder gets none.
  remove_items-none :
      (items : List ExporterItem) (db : Database) (outcome : ExportOutcome) (n : ℕ)
      → parents_of n db.links ≡ []
      → parents_of n (remove_items prefix live_ids fails items db outcome).0.links ≡ []
  unfolding remove_items unlink_item
  remove_items-none [] db outcome n h = h
  remove_items-none (i ∷ items) db outcome n h =
      let kept = remove_items-none items db outcome n h in
      let dropped =
        remove_items-none items (unlink_item db i.id) (count_removed outcome) n
          (parents_of-without_none n i.id db.links h) in
      let refused = remove_items-none items db (count_failed outcome) n h in
      elim (Bool-cases (is_stale prefix live_ids i.keyqms)) [
        | inr live ↦ rw live kept
        | inl stale ↦ elim (Bool-cases i.linked) [
          | inl linked ↦ elim (Bool-cases (fails i.id)) [
            | inl failing ↦ rw stale (rw linked (rw failing refused))
            | inr done ↦ rw stale (rw linked (rw done dropped))
          ]
          | inr unlinked ↦ rw stale (rw unlinked kept)
        ]
      ]

  remove_items-others :
      (items : List ExporterItem) (db : Database) (outcome : ExportOutcome) (n : ℕ)
      → All (λ i. is_stale prefix live_ids i.keyqms ≡ true → i.id ≢ n) items
      → parents_of n (remove_items prefix live_ids fails items db outcome).0.links
        ≡ parents_of n db.links
  unfolding remove_items unlink_item
  remove_items-others [] db outcome n h = refl
  remove_items-others (i ∷ items) db outcome n h =
      let kept = remove_items-others items db outcome n h.1 in
      elim (Bool-cases (is_stale prefix live_ids i.keyqms)) [
        | inr live ↦ rw live kept
        | inl stale ↦ elim (Bool-cases i.linked) [
          | inl linked ↦ elim (Bool-cases (fails i.id)) [
            | inl failing ↦
                rw stale (
                  rw linked
                    (rw failing (remove_items-others items db (count_failed outcome) n h.1)))
            | inr done ↦ rw stale (
                rw linked (
                  rw done (
                    remove_items-others items (unlink_item db i.id) (count_removed outcome) n h.1
                    ∙ parents_of-without_other n i.id db.links (h.0 stale))))
          ]
          | inr unlinked ↦ rw stale (rw unlinked kept)
        ]
      ]

  -- A stale item that is linked is on the list.
  Listed : ℕ → List ExporterItem → Type 0
  Listed n [] = ⊥
  Listed n (i ∷ items) =
      ((i.id ≡ n) × (is_stale prefix live_ids i.keyqms ≡ true) × (i.linked ≡ true)) ⊎ Listed n items

  remove_items-Listed :
      (items : List ExporterItem) (db : Database) (outcome : ExportOutcome) (n : ℕ)
      → fails n ≡ false
      → Listed n items
      → parents_of n (remove_items prefix live_ids fails items db outcome).0.links ≡ []
  unfolding Listed remove_items unlink_item
  remove_items-Listed [] db outcome n f h = absurd h
  remove_items-Listed (i ∷ items) db outcome n f (inl (same, stale, linked)) =
      let done : fails i.id ≡ false = ap fails same ∙ f in
      rw stale (
        rw linked (
          rw done (
            remove_items-none items (unlink_item db i.id) (count_removed outcome) n (
              subst (λ m. parents_of n (without m db.links) ≡ []) (sym same)
                (parents_of-without_same n db.links)))))
  remove_items-Listed (i ∷ items) db outcome n f (inr later) =
      let kept = remove_items-Listed items db outcome n f later in
      let refused = remove_items-Listed items db (count_failed outcome) n f later in
      let dropped =
        remove_items-Listed items (unlink_item db i.id) (count_removed outcome) n f later in
      elim (Bool-cases (is_stale prefix live_ids i.keyqms)) [
        | inr live ↦ rw live kept
        | inl stale ↦ elim (Bool-cases i.linked) [
          | inl linked ↦ elim (Bool-cases (fails i.id)) [
            | inl failing ↦ rw stale (rw linked (rw failing refused))
            | inr done ↦ rw stale (rw linked (rw done dropped))
          ]
          | inr unlinked ↦ rw stale (rw unlinked kept)
        ]
      ]

  listed :
      (links : List Link) (item : Item) (items : List Item)
      → Among item items
      → starts_with prefix item.keyqms ≡ true
      → is_stale prefix live_ids item.keyqms ≡ true
      → has_link item.id links ≡ true
      → Listed item.id (exporter_items links prefix items)
  unfolding Among Listed exporter_items
  listed links item [] a h k l = absurd a
  listed links item (i ∷ items) (inl same) h k l =
      let ours : starts_with prefix i.keyqms ≡ true =
        subst (λ j. starts_with prefix j.keyqms ≡ true) (sym same) h in
      rw ours (
        inl (
          ap (λ j. j.id) same,
          subst (λ j. is_stale prefix live_ids j.keyqms ≡ true) (sym same) k,
          subst (λ j. has_link j.id links ≡ true) (sym same) l,
        ))
  listed links item (i ∷ items) (inr later) h k l =
      let rest = listed links item items later h k l in
      elim (Bool-cases (starts_with prefix i.keyqms)) [
        | inl ours ↦ rw ours (inr rest)
        | inr other ↦ rw other rest
      ]

  no_parents : (n : ℕ) (links : List Link) → has_link n links ≡ false → parents_of n links ≡ []
  unfolding has_link parents_of
  no_parents n [] h = refl
  no_parents n (l ∷ links) h = ground (arith, h, no_parents n links)

  -- After the removal pass no item of the namespace whose record is gone is in a folder, unless
  -- its removal was an error: one whose key goes on with no id, or with the id of no record.
  pub remove_stale_items-removes :
      (db : Database) (outcome : ExportOutcome) (item : Item)
      → Among item db.items
      → Gone prefix live_ids item.keyqms
      → fails item.id ≡ false
      → parents_of item.id (remove_stale_items db prefix live_ids fails outcome).0.links ≡ []
  unfolding remove_stale_items list_exporter_items
  remove_stale_items-removes db outcome item a gone f =
      let (h, k) = Gone-is_stale prefix live_ids item.keyqms gone in
      elim (Bool-cases (has_link item.id db.links)) [
        | inl linked ↦
            remove_items-Listed (exporter_items db.links prefix db.items) db outcome item.id f
              (listed db.links item db.items a h k linked)
        | inr unlinked ↦
            remove_items-none (exporter_items db.links prefix db.items) db outcome item.id
              (no_parents item.id db.links unlinked)
      ]

  only_stale :
      (links : List Link) (n : ℕ) (items : List Item)
      → All
          (λ i.
            starts_with prefix i.keyqms ≡ true
            → is_stale prefix live_ids i.keyqms ≡ true
            → i.id ≢ n)
          items
      → All
          (λ i. is_stale prefix live_ids i.keyqms ≡ true → i.id ≢ n)
          (exporter_items links prefix items)
  unfolding exporter_items
  only_stale links n [] h = tt
  only_stale links n (i ∷ items) h = elim (Bool-cases (starts_with prefix i.keyqms)) [
    | inl ours ↦ rw ours (h.0 ours, only_stale links n items h.1)
    | inr other ↦ rw other (only_stale links n items h.1)
  ]

  -- The removal pass leaves every other item in its folders: those whose record is there, and
  -- whatever is outside the namespace.
  pub remove_stale_items-spares :
      (db : Database) (outcome : ExportOutcome) (n : ℕ)
      → All (λ i. Gone prefix live_ids i.keyqms → i.id ≢ n) db.items
      → parents_of n (remove_stale_items db prefix live_ids fails outcome).0.links
        ≡ parents_of n db.links
  unfolding remove_stale_items list_exporter_items
  remove_stale_items-spares db outcome n h =
      remove_items-others (exporter_items db.links prefix db.items) db outcome n (
        only_stale db.links n db.items (
          All-weaken (λ i k ours stale. k (is_stale-Gone prefix live_ids i.keyqms ours stale))
            db.items h))
