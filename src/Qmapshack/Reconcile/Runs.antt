-- ===== src/Qmapshack/Reconcile/Runs.antt =====
-- A waypoint that is exported into an empty database, changed and exported again.
use gps_trips.Prelude.{ℕ, ◌≡◌, refl, true, List, [], ◌∷◌, some, codes}
use gps_trips.Qmapshack.Target.{
  Database, waypoint, get_item_state, state_of, find_item, insert_item, parents_of, sorted,
}
use gps_trips.Qmapshack.Reconcile.{
  Desired, ItemContent, updated, new_item, content_changed, placement_changed, reconcile_known,
  reconcile_item,
}

abbrev empty : Database
empty = record { items = []; links = []; next_item = 1; next_link = 1 }

abbrev hut : Desired
hut = record {
  keyqms = codes "w1";
  name = codes "Hut";
  comment = codes "";
  hash = some (codes "aa");
}

abbrev renamed : Desired
renamed = record {
  keyqms = codes "w1";
  name = codes "Old hut";
  comment = codes "";
  hash = some (codes "bb");
}

abbrev content_of : List ℕ → ItemContent
content_of hash = record {
  item_type = waypoint;
  icon = [];
  date = [];
  data_blob = 1 ∷ [];
  hash = hash;
}

-- The database with the hut in the folder 7.
abbrev filled : Database
filled = (reconcile_item empty 7 hut (some (content_of (codes "aa")))).1

moved_and_renamed :
    (reconcile_item filled 8 renamed (some (content_of (codes "bb")))).0 ≡ some (updated true true)
unfolding reconcile_item reconcile_known new_item content_changed placement_changed get_item_state
    state_of find_item insert_item parents_of sorted
moved_and_renamed = refl
