-- ===== src/Qmapshack/Folders/Cached.antt =====
-- That the folders which a run of src/server/qmapshack/reconcile.rs remembers are those that it would
-- find again.
use gps_trips.Prelude.{
  ℕ, ◌≡◌, refl, sym, ap, ap₂, subst, ◌∙◌, true, false, List, [], ◌∷◌, some, inl, inr, Bool-cases,
  Option-cases, text_eq, text_eq→eq, All, All-weaken,
}
use gps_trips.Qmapshack.Folders.{
  Tree, ensure_folder_path, Folders, path_eq, get, remembered, folder_id, folder_ids, walked_ids,
}
use gps_trips.Qmapshack.Folders.Found.{IsNumbered, resolve, ensure-resolved, ensure-Walked}

-- Each remembered folder is the one at its path.
abbrev pub IsKnown : Folders → Tree → Type 0
IsKnown folders tree = All (λ e. resolve tree folders.root e.0 ≡ some e.1) folders.ids

path_eq→eq : (s t : List (List ℕ)) → path_eq s t ≡ true → s ≡ t
path_eq→eq [] [] h = refl
path_eq→eq [] (t ∷ ts) h = cc
path_eq→eq (s ∷ ss) [] h = cc
path_eq→eq (s ∷ ss) (t ∷ ts) h = elim (Bool-cases (text_eq s t)) [
  | inl e ↦ ap₂ (λ x xs. x ∷ xs) (text_eq→eq s t e) (path_eq→eq ss ts (rw e at h))
  | inr e ↦ let bad : false ≡ true = rw e at h in cc
]

get-resolved :
    (ids : List (List (List ℕ) × ℕ)) (tree : Tree) (root id : ℕ) (path : List (List ℕ))
    → All (λ e. resolve tree root e.0 ≡ some e.1) ids
    → get ids path ≡ some id
    → resolve tree root path ≡ some id
get-resolved [] tree root id path h k = cc
get-resolved (e ∷ ids) tree root id path h k = elim (Bool-cases (path_eq e.0 path)) [
  | inl here ↦
      let same : some e.1 ≡ some id = rw here at k in
      ap (resolve tree root) (sym (path_eq→eq e.0 path here)) ∙ h.0 ∙ same
  | inr there ↦ get-resolved ids tree root id path h.1 (rw there at k)
]

-- One folder: the answer and the tree are those of the walk, and what is remembered stays known.
record Agrees (root : ℕ) (walk : ℕ × Tree) (r : ℕ × (Folders × Tree)) : Type 0 where
  same : r.0 ≡ walk.0
  same_tree : r.1.1 ≡ walk.1
  same_root : r.1.0.root ≡ root
  known : IsKnown r.1.0 r.1.1
  numbered : IsNumbered r.1.1

folder_id-Agrees :
    (folders : Folders) (tree : Tree) (path : List (List ℕ))
    → IsNumbered tree
    → IsKnown folders tree
    → Agrees folders.root (ensure_folder_path tree folders.root path) (folder_id folders tree path)
unfolding folder_id
folder_id-Agrees folders tree path v k = elim (Option-cases (get folders.ids path)) [
  | inr (id, found) ↦
      let walk =
        ensure-resolved path tree folders.root id
          (get-resolved folders.ids tree folders.root id path k found) in
      subst
        (λ o.
          Agrees folders.root (ensure_folder_path tree folders.root path)
            (remembered folders tree path o))
        (sym found)
        (record {
          same = sym (ap (λ w. w.0) walk);
          same_tree = sym (ap (λ w. w.1) walk);
          same_root = refl;
          known = k;
          numbered = v;
        })
  | inl missing ↦
      let walked = ensure-Walked path tree folders.root v in
      subst
        (λ o.
          Agrees folders.root (ensure_folder_path tree folders.root path)
            (remembered folders tree path o))
        (sym missing)
        (record {
          same = refl;
          same_tree = refl;
          same_root = refl;
          known =
              (walked.found, All-weaken (λ e h. walked.kept folders.root e.1 e.0 h) folders.ids k);
          numbered = walked.numbered;
        })
]

-- The folders which a run gets are those it would get by walking each path, and the tree it leaves
-- is the same: for a tree whose ids were all given out before, and remembered folders that are
-- each at their path, the ids and the tree after any list of paths are those of the walks from the
-- root.
pub folder_ids-walked_ids :
    (paths : List (List (List ℕ))) (folders : Folders) (tree : Tree)
    → IsNumbered tree
    → IsKnown folders tree
    → folder_ids folders tree paths ≡ walked_ids tree folders.root paths
unfolding folder_ids walked_ids
folder_ids-walked_ids [] folders tree v k = refl
folder_ids-walked_ids (path ∷ paths) folders tree v k =
    let a = folder_id-Agrees folders tree path v k in
    let r = folder_id folders tree path in
    let w = ensure_folder_path tree folders.root path in
    let later : folder_ids r.1.0 r.1.1 paths ≡ walked_ids w.1 folders.root paths =
      folder_ids-walked_ids paths r.1.0 r.1.1 a.numbered a.known
      ∙ ap₂ (λ t at. walked_ids t at paths) a.same_tree a.same_root in
    ap₂ (λ id (rest : List ℕ × Tree). (id ∷ rest.0, rest.1)) a.same later
