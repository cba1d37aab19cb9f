-- ===== src/Qmapshack/Folders.antt =====
-- The folders of a QMapShack database: `ensure_folder_path` of src/server/qmapshack/target.rs, and the
-- `Folders` of reconcile.rs, which remember what it found. The tables are lists in the order of their
-- ids, which SQLite gives out in ascending order; a fault of the database is left out.
pub mod Found
pub mod Cached
mod Runs
use gps_trips.Prelude.{
  ℕ, ◌+◌, Bool, true, false, ◌&&◌, List, [], ◌∷◌, ◌++◌, Option, none, some, ◌==◌, if◌then◌else◌,
  text_eq, any,
}

-- A row of `folders`.
pub record Folder : Type 0 where
  pub id : ℕ
  pub folder_type : ℕ
  pub name : List ℕ

-- A row of `folder2folder`.
pub record Edge : Type 0 where
  pub parent : ℕ
  pub child : ℕ

pub record Tree : Type 0 where
  pub folders : List Folder
  pub edges : List Edge
  pub next_folder : ℕ

abbrev pub folder_group : ℕ
folder_group = 3

abbrev pub folder_project : ℕ
folder_project = 4

-- `JOIN folder2folder ff ON ff.child = f.id … WHERE ff.parent = ?`
abbrev pub is_under : List Edge → ℕ → ℕ → Bool
is_under edges parent child = any (λ (e : Edge). e.parent == parent && e.child == child) edges

-- `ORDER BY f.id LIMIT 1`
unfoldable pub find_folder : List Folder → List Edge → ℕ → List ℕ → Option ℕ
find_folder [] edges parent name = none
find_folder (f ∷ folders) edges parent name =
    let rest = find_folder folders edges parent name in
    if is_under edges parent f.id && text_eq f.name name then some f.id else rest

unfoldable pub existing : Tree → ℕ → List ℕ → Option ℕ
unfolding find_folder
existing tree parent name = find_folder tree.folders tree.edges parent name

-- A project at the end of a path, a group before it.
abbrev pub type_for : List (List ℕ) → ℕ
type_for [] = folder_project
type_for (name ∷ segments) = folder_group

unfoldable pub insert_folder : Tree → ℕ → List ℕ → ℕ → Tree
insert_folder tree parent name folder_type = record {
  folders =
      tree.folders ++ record { id = tree.next_folder; folder_type = folder_type; name = name } ∷ [];
  edges = tree.edges ++ record { parent = parent; child = tree.next_folder } ∷ [];
  next_folder = tree.next_folder + 1;
}

-- The folder at one segment, created if it is missing.
abbrev pub found_or : Tree → ℕ → List ℕ → List (List ℕ) → Option ℕ → ℕ × Tree
found_or tree parent name segments (some id) = (id, tree)
found_or tree parent name segments none =
    (tree.next_folder, insert_folder tree parent name (type_for segments))

unfoldable pub ensure_folder_path : Tree → ℕ → List (List ℕ) → ℕ × Tree
ensure_folder_path tree root [] = (root, tree)
ensure_folder_path tree root (name ∷ segments) =
    let (parent, after) = found_or tree root name segments (existing tree root name) in
    ensure_folder_path after parent segments

pub record Folders : Type 0 where
  pub root : ℕ
  pub ids : List (List (List ℕ) × ℕ)

unfoldable pub new : ℕ → Folders
new root = record { root = root; ids = [] }

abbrev pub path_eq : List (List ℕ) → List (List ℕ) → Bool
path_eq [] [] = true
path_eq [] (t ∷ ts) = false
path_eq (s ∷ ss) [] = false
path_eq (s ∷ ss) (t ∷ ts) = text_eq s t && path_eq ss ts

abbrev pub get : List (List (List ℕ) × ℕ) → List (List ℕ) → Option ℕ
get [] path = none
get (entry ∷ ids) path = if path_eq entry.0 path then some entry.1 else get ids path

abbrev pub remembered : Folders → Tree → List (List ℕ) → Option ℕ → ℕ × (Folders × Tree)
remembered folders tree path (some id) = (id, (folders, tree))
remembered folders tree path none =
    let (id, after) = ensure_folder_path tree folders.root path in
    (id, (record folders { ids = (path, id) ∷ folders.ids }, after))

unfoldable pub folder_id : Folders → Tree → List (List ℕ) → ℕ × (Folders × Tree)
folder_id folders tree path = remembered folders tree path (get folders.ids path)

-- The folders of a run's items, one after the other, with what is remembered.
unfoldable pub folder_ids : Folders → Tree → List (List (List ℕ)) → List ℕ × Tree
unfolding folder_id
folder_ids folders tree [] = ([], tree)
folder_ids folders tree (path ∷ paths) =
    let (id, (known, after)) = folder_id folders tree path in
    let (ids, last) = folder_ids known after paths in (id ∷ ids, last)

-- The same, with each path walked.
unfoldable pub walked_ids : Tree → ℕ → List (List (List ℕ)) → List ℕ × Tree
unfolding ensure_folder_path
walked_ids tree root [] = ([], tree)
walked_ids tree root (path ∷ paths) =
    let (id, after) = ensure_folder_path tree root path in
    let (ids, last) = walked_ids after root paths in (id ∷ ids, last)
