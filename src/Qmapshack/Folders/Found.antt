-- ===== src/Qmapshack/Folders/Found.antt =====
-- What src/server/qmapshack/target.rs finds at a path, before and after folders are created.
use gps_trips.Prelude.{
  ℕ, ◌<◌, ◌≡◌, ◌≢◌, refl, sym, ap, ap₂, subst, ◌∙◌, true, ◌&&◌, List, [], ◌∷◌, ◌++◌, Option, none,
  some, inl, inr, arith, ◌==◌, ==_iff, if_true, if_false, text_eq, text_eq_refl, any-append_right,
  All, All-snoc, All-weaken, Bool-cases, Option-cases, some-injective,
}
use gps_trips.Qmapshack.Folders.{
  Folder, Edge, Tree, is_under, find_folder, existing, type_for, insert_folder, found_or,
  ensure_folder_path,
}

-- The ids were given out before.
abbrev pub IsNumbered : Tree → Type 0
IsNumbered tree = All (λ (f : Folder). f.id < tree.next_folder) tree.folders

abbrev pub and_then : Option ℕ → (ℕ → Option ℕ) → Option ℕ
and_then none f = none
and_then (some id) f = f id

-- What is at a path, without creating anything.
unfoldable pub resolve : Tree → ℕ → List (List ℕ) → Option ℕ
resolve tree root [] = some root
resolve tree root (name ∷ segments) =
    and_then (existing tree root name) (λ id. resolve tree id segments)

is_under-other :
    (edges : List Edge) (parent child at id : ℕ)
    → id ≢ child
    → is_under (edges ++ record { parent = at; child = child } ∷ []) parent id
      ≡ is_under edges parent id
is_under-other [] parent child at id h = elim (Bool-cases (child == id)) [
  | inl e ↦ absurd (h (sym ((==_iff child id).0 e)))
  | inr e ↦ elim (Bool-cases (at == parent)) [ inl d ↦ rw (d, e) refl | inr d ↦ rw d refl ]
]
is_under-other (e ∷ edges) parent child at id h =
    elim (Bool-cases (e.parent == parent && e.child == id)) [
      | inl d ↦ if_true _ _ d ∙ sym (if_true _ _ d)
      | inr d ↦ if_false _ _ d ∙ is_under-other edges parent child at id h ∙ sym (if_false _ _ d)
    ]

abbrev new_folder : ℕ → List ℕ → ℕ → Folder
new_folder id name folder_type = record { id = id; folder_type = folder_type; name = name }

-- What is found stays what is found when a folder is created.
find_folder-stays :
    (folders : List Folder) (edges : List Edge) (parent : ℕ) (name : List ℕ) (found : ℕ)
    → (at child : ℕ) (added : List ℕ) (folder_type : ℕ) → All (λ (f : Folder). f.id < child) folders
    → find_folder folders edges parent name ≡ some found
    → find_folder
        (folders ++ new_folder child added folder_type ∷ [])
        (edges ++ record { parent = at; child = child } ∷ [])
        parent
        name
      ≡ some found
unfolding find_folder
find_folder-stays [] edges parent name found at child added t h k = cc
find_folder-stays (f ∷ folders) edges parent name found at child added t h k =
    let same : is_under (edges ++ record { parent = at; child = child } ∷ []) parent f.id
        ≡ is_under edges parent f.id =
      is_under-other edges parent child at f.id (λ e. omega (arith, e, h.0)) in
    elim (Bool-cases (is_under edges parent f.id && text_eq f.name name)) [
      | inl e ↦
          if_true _ _ (ap (λ b. b && text_eq f.name name) same ∙ e) ∙ (sym (if_true _ _ e) ∙ k)
      | inr e ↦
          if_false _ _ (ap (λ b. b && text_eq f.name name) same ∙ e)
          ∙ find_folder-stays folders edges parent name found at child added t h.1
              (sym (if_false _ _ e) ∙ k)
    ]

is_under-new :
    (edges : List Edge) (parent child : ℕ)
    → is_under (edges ++ record { parent = parent; child = child } ∷ []) parent child ≡ true
is_under-new edges parent child =
    any-append_right _ edges _
      (if_true _ _ (ap₂ ◌&&◌ ((==_iff parent parent).1 refl) ((==_iff child child).1 refl)))

-- Where nothing is found, the folder that is created there is found.
find_folder-new :
    (folders : List Folder) (edges : List Edge) (parent : ℕ) (name : List ℕ) (child folder_type : ℕ)
    → All (λ (f : Folder). f.id < child) folders
    → find_folder folders edges parent name ≡ none
    → find_folder
        (folders ++ new_folder child name folder_type ∷ [])
        (edges ++ record { parent = parent; child = child } ∷ [])
        parent
        name
      ≡ some child
unfolding find_folder
find_folder-new [] edges parent name child t h k =
    if_true _ _ (ap₂ ◌&&◌ (is_under-new edges parent child) (text_eq_refl name))
find_folder-new (f ∷ folders) edges parent name child t h k =
    let same : is_under (edges ++ record { parent = parent; child = child } ∷ []) parent f.id
        ≡ is_under edges parent f.id =
      is_under-other edges parent child parent f.id (λ e. omega (arith, e, h.0)) in
    elim (Bool-cases (is_under edges parent f.id && text_eq f.name name)) [
      | inl e ↦ let bad : some f.id ≡ none = sym (if_true _ _ e) ∙ k in cc
      | inr e ↦
          if_false _ _ (ap (λ b. b && text_eq f.name name) same ∙ e)
          ∙ find_folder-new folders edges parent name child t h.1 (sym (if_false _ _ e) ∙ k)
    ]

pub insert-IsNumbered :
    (tree : Tree) (parent : ℕ) (name : List ℕ) (folder_type : ℕ)
    → IsNumbered tree
    → IsNumbered (insert_folder tree parent name folder_type)
unfolding insert_folder
insert-IsNumbered tree parent name t v =
    All-snoc _ tree.folders _
      (All-weaken (λ f h. let h' : f.id < tree.next_folder = h in omega (arith, h')) tree.folders v)
      (omega arith)

-- What is at a path stays there when a folder is created.
pub resolve-insert :
    (path : List (List ℕ)) (tree : Tree) (root id parent : ℕ) (name : List ℕ) (folder_type : ℕ)
    → IsNumbered tree
    → resolve tree root path ≡ some id
    → resolve (insert_folder tree parent name folder_type) root path ≡ some id
unfolding resolve existing insert_folder
resolve-insert [] tree root id parent name t v h = h
resolve-insert (segment ∷ path) tree root id parent name t v h =
    elim (Option-cases (existing tree root segment)) [
      | inl missing ↦ let bad : none ≡ some id = rw missing at h in cc
      | inr (found, there) ↦
          ap (λ o. and_then o (λ i. resolve (insert_folder tree parent name t) i path))
            (find_folder-stays tree.folders tree.edges root segment found parent tree.next_folder
              name t v there)
          ∙ resolve-insert path tree found id parent name t v (rw there at h)
    ]

-- A path whose folders are there is found, and nothing is created.
pub ensure-resolved :
    (path : List (List ℕ)) (tree : Tree) (root id : ℕ)
    → resolve tree root path ≡ some id
    → ensure_folder_path tree root path ≡ (id, tree)
unfolding resolve ensure_folder_path
ensure-resolved [] tree root id h = ap (λ i. (i, tree)) (some-injective root id h)
ensure-resolved (segment ∷ path) tree root id h = elim (Option-cases (existing tree root segment)) [
  | inl missing ↦ let bad : none ≡ some id = rw missing at h in cc
  | inr (found, there) ↦
      ap
        (λ o.
          let (parent, after) = found_or tree root segment path o in
          ensure_folder_path after parent path)
        there
      ∙ ensure-resolved path tree found id (rw there at h)
]

-- Walking a path keeps what was at another, and what it answers is at its own afterwards.
pub record Walked (tree : Tree) (root : ℕ) (path : List (List ℕ)) (r : ℕ × Tree) : Type 0 where
  pub numbered : IsNumbered r.1
  pub found : resolve r.1 root path ≡ some r.0
  pub kept :
      (from id : ℕ) (other : List (List ℕ))
      → resolve tree from other ≡ some id
      → resolve r.1 from other ≡ some id
  pub kept_existing :
      (parent id : ℕ) (name : List ℕ)
      → existing tree parent name ≡ some id
      → existing r.1 parent name ≡ some id

-- One segment is there, and the rest of the path is walked.
segment-Walked :
    (segment : List ℕ) (path : List (List ℕ)) (tree mid : Tree) (root id : ℕ) (r : ℕ × Tree)
    → existing mid root segment ≡ some id
    → ((from at : ℕ) (other : List (List ℕ))
        → resolve tree from other ≡ some at
        → resolve mid from other ≡ some at)
    → ((parent at : ℕ) (name : List ℕ)
        → existing tree parent name ≡ some at
        → existing mid parent name ≡ some at)
    → Walked mid id path r
    → Walked tree root (segment ∷ path) r
unfolding resolve
segment-Walked segment path tree mid root id r there kept kept_existing w = record {
  numbered = w.numbered;
  found =
      ap (λ o. and_then o (λ i. resolve r.1 i path)) (w.kept_existing root id segment there)
      ∙ w.found;
  kept = λ from at other h. w.kept from at other (kept from at other h);
  kept_existing =
      λ parent at name h. w.kept_existing parent at name (kept_existing parent at name h);
}

pub ensure-Walked :
    (path : List (List ℕ)) (tree : Tree) (root : ℕ)
    → IsNumbered tree
    → Walked tree root path (ensure_folder_path tree root path)
unfolding ensure_folder_path resolve existing insert_folder
ensure-Walked [] tree root v = record {
  numbered = v;
  found = refl;
  kept = λ from id other h. h;
  kept_existing = λ parent id name h. h;
}
ensure-Walked (segment ∷ path) tree root v = elim (Option-cases (existing tree root segment)) [
  | inr (found, there) ↦
      subst
        (λ o. Walked tree root (segment ∷ path) (
          let (parent, after) = found_or tree root segment path o in
          ensure_folder_path after parent path))
        (sym there)
        (segment-Walked segment path tree tree root found (ensure_folder_path tree found path) there
          (λ from at other h. h) (λ parent at name h. h) (ensure-Walked path tree found v))
  | inl missing ↦
      let t = type_for path in
      let mid = insert_folder tree root segment t in
      subst
        (λ o. Walked tree root (segment ∷ path) (
          let (parent, after) = found_or tree root segment path o in
          ensure_folder_path after parent path))
        (sym missing)
        (segment-Walked segment path tree mid root tree.next_folder
          (ensure_folder_path mid tree.next_folder path)
          (find_folder-new tree.folders tree.edges root segment tree.next_folder t v missing)
          (λ from at other h. resolve-insert other tree from at root segment t v h)
          (λ parent at name h.
            find_folder-stays tree.folders tree.edges parent name at root tree.next_folder segment t
              v h)
          (ensure-Walked path mid tree.next_folder (insert-IsNumbered tree root segment t v)))
]
