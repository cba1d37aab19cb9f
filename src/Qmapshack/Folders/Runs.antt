-- ===== src/Qmapshack/Folders/Runs.antt =====
-- Witnesses of what is proved of a run's folders.
use gps_trips.Prelude.{ℕ, ◌≡◌, refl, arith, List, [], ◌∷◌}
use gps_trips.Qmapshack.Folders.{
  Tree, new, folder_ids, walked_ids, ensure_folder_path, existing, insert_folder,
}
use gps_trips.Qmapshack.Folders.Cached.{folder_ids-walked_ids}

-- "Trips" under the root is there.
abbrev tree : Tree
tree = record {
  folders = record { id = 1; folder_type = 3; name = 84 ∷ 114 ∷ [] } ∷ [];
  edges = record { parent = 0; child = 1 } ∷ [];
  next_folder = 2;
}

abbrev paths : List (List (List ℕ))
paths =
    ((84 ∷ 114 ∷ []) ∷ (65 ∷ []) ∷ [])
    ∷ ((84 ∷ 114 ∷ []) ∷ (66 ∷ []) ∷ [])
    ∷ ((84 ∷ 114 ∷ []) ∷ (65 ∷ []) ∷ [])
    ∷ []

made_once : (folder_ids (new 0) tree paths).0 ≡ 2 ∷ 3 ∷ 2 ∷ []
unfolding folder_ids new ensure_folder_path existing insert_folder
made_once = refl

folder_ids-walked_ids_example : folder_ids (new 0) tree paths ≡ walked_ids tree 0 paths
unfolding new
folder_ids-walked_ids_example = folder_ids-walked_ids paths (new 0) tree (omega arith, tt) tt
