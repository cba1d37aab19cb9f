-- ===== src/Qmapshack/Target.antt =====
-- The items of a QMapShack database and how src/server/qmapshack/target.rs reads and writes them. The
-- tables are lists in the order of their ids, which SQLite gives out in ascending order; a
-- transaction is one step. The only error of the database is the one that it is made to give, that
-- `keyqms` is unique. The search index and the dates of change are left out.
pub mod Reads
pub mod Keeps
use gps_trips.Text.{starts_with}
use gps_trips.Prelude.{
  ℕ, ◌+◌, ◌≡◌, Bool, true, false, not, ◌&&◌, ◌||◌, List, [], ◌∷◌, ◌++◌, map, Option, none, some,
  ◌==◌, leb, if◌then◌else◌, text_eq,
}

pub data ItemType : Type 0 where
  waypoint : ItemType
  track : ItemType

-- A row of `items`; `trashed` is whether its `trash` is set.
pub record Item : Type 0 where
  pub id : ℕ
  pub item_type : ItemType
  pub keyqms : List ℕ
  pub icon : List ℕ
  pub name : List ℕ
  pub date : List ℕ
  pub comment : Option (List ℕ)
  pub data_blob : List ℕ
  pub hash : List ℕ
  pub trashed : Bool

-- A row of `folder2item`.
pub record Link : Type 0 where
  pub id : ℕ
  pub parent : ℕ
  pub child : ℕ

pub record Database : Type 0 where
  pub items : List Item
  pub links : List Link
  pub next_item : ℕ
  pub next_link : ℕ

pub record ItemState : Type 0 where
  pub id : ℕ
  pub name : List ℕ
  pub comment : Option (List ℕ)
  pub hash : List ℕ
  pub folder_ids : List ℕ

pub record NewItem : Type 0 where
  pub item_type : ItemType
  pub keyqms : List ℕ
  pub name : List ℕ
  pub icon : List ℕ
  pub date : List ℕ
  pub comment : List ℕ
  pub data_blob : List ℕ
  pub hash : List ℕ

-- `SELECT … WHERE keyqms = ?`
unfoldable pub find_item : List ℕ → List Item → Option Item
find_item key [] = none
find_item key (item ∷ items) =
    let rest = find_item key items in if text_eq item.keyqms key then some item else rest

-- `SELECT parent … WHERE child = ?`
unfoldable pub parents_of : ℕ → List Link → List ℕ
parents_of item [] = []
parents_of item (link ∷ links) =
    let rest = parents_of item links in if link.child == item then link.parent ∷ rest else rest

abbrev pub insert_sorted : ℕ → List ℕ → List ℕ
insert_sorted n [] = n ∷ []
insert_sorted n (m ∷ ms) = if leb n m then n ∷ m ∷ ms else m ∷ insert_sorted n ms

-- `ORDER BY parent`
unfoldable pub sorted : List ℕ → List ℕ
sorted [] = []
sorted (n ∷ ns) = insert_sorted n (sorted ns)

unfoldable pub state_of : Database → Option Item → Option ItemState
state_of db none = none
state_of db (some item) = some (record {
  id = item.id;
  name = item.name;
  comment = item.comment;
  hash = item.hash;
  folder_ids = sorted (parents_of item.id db.links);
})

unfoldable pub get_item_state : Database → List ℕ → Option ItemState
unfolding state_of
get_item_state db key = state_of db (find_item key db.items)

abbrev pub row_of : ℕ → NewItem → Item
row_of id item = record {
  id = id;
  item_type = item.item_type;
  keyqms = item.keyqms;
  icon = item.icon;
  name = item.name;
  date = item.date;
  comment = some item.comment;
  data_blob = item.data_blob;
  hash = item.hash;
  trashed = false;
}

abbrev pub link_to : Database → ℕ → ℕ → Link
link_to db folder item = record { id = db.next_link; parent = folder; child = item }

-- `none` is the error that the key is taken.
unfoldable pub insert_item : Database → NewItem → ℕ → Option Database
insert_item db item folder = elim (find_item item.keyqms db.items) [
  | some taken ↦ none
  | none ↦ some (record {
    items = db.items ++ row_of db.next_item item ∷ [];
    links = db.links ++ link_to db folder db.next_item ∷ [];
    next_item = db.next_item + 1;
    next_link = db.next_link + 1;
  })
]

abbrev pub rewritten : NewItem → Item → Item
rewritten new item = record {
  id = item.id;
  item_type = item.item_type;
  keyqms = item.keyqms;
  icon = new.icon;
  name = new.name;
  date = new.date;
  comment = some new.comment;
  data_blob = new.data_blob;
  hash = new.hash;
  trashed = item.trashed;
}

abbrev pub at_id : ℕ → (Item → Item) → Item → Item
at_id id f item = if item.id == id then f item else item

-- `UPDATE items SET … WHERE id = ?`
unfoldable pub update_where : ℕ → (Item → Item) → List Item → List Item
update_where id f [] = []
update_where id f (item ∷ items) = at_id id f item ∷ update_where id f items

unfoldable pub update_item : Database → ℕ → NewItem → Database
update_item db id new = record {
  items = update_where id (rewritten new) db.items;
  links = db.links;
  next_item = db.next_item;
  next_link = db.next_link;
}

-- The lowest id of a link of the item to the folder.
unfoldable pub link_of : ℕ → ℕ → List Link → Option ℕ
link_of item folder [] = none
link_of item folder (link ∷ links) =
    let rest = link_of item folder links in
    if (link.child == item) && (link.parent == folder) then some link.id else rest

-- `DELETE … WHERE child = ? AND id != ?`
unfoldable pub keep_only : ℕ → ℕ → List Link → List Link
keep_only item keep [] = []
keep_only item keep (link ∷ links) =
    let rest = keep_only item keep links in
    if (link.child == item) && not (link.id == keep) then rest else link ∷ rest

-- What the trigger before an insertion does to the item.
abbrev pub untrashed : Item → Item
untrashed item = record {
  id = item.id;
  item_type = item.item_type;
  keyqms = item.keyqms;
  icon = item.icon;
  name = item.name;
  date = item.date;
  comment = item.comment;
  data_blob = item.data_blob;
  hash = item.hash;
  trashed = false;
}

unfoldable pub set_item_folder : Database → ℕ → ℕ → Database
set_item_folder db id folder = elim (link_of id folder db.links) [
  | some keep ↦ record {
    items = db.items;
    links = keep_only id keep db.links;
    next_item = db.next_item;
    next_link = db.next_link;
  }
  | none ↦ record {
    items = update_where id untrashed db.items;
    links = keep_only id db.next_link (db.links ++ link_to db folder id ∷ []);
    next_item = db.next_item;
    next_link = db.next_link + 1;
  }
]

unfoldable pub has_link : ℕ → List Link → Bool
has_link item [] = false
has_link item (link ∷ links) = link.child == item || has_link item links

-- `DELETE … WHERE child = ?`
unfoldable pub without : ℕ → List Link → List Link
without item [] = []
without item (link ∷ links) =
    let rest = without item links in if link.child == item then rest else link ∷ rest

-- What the trigger after the deletion of an item's last link does to the item.
abbrev pub put_in_trash : Item → Item
put_in_trash item = record {
  id = item.id;
  item_type = item.item_type;
  keyqms = item.keyqms;
  icon = item.icon;
  name = item.name;
  date = item.date;
  comment = item.comment;
  data_blob = item.data_blob;
  hash = item.hash;
  trashed = true;
}

unfoldable pub unlink_item : Database → ℕ → Database
unlink_item db id = record {
  items = if has_link id db.links then update_where id put_in_trash db.items else db.items;
  links = without id db.links;
  next_item = db.next_item;
  next_link = db.next_link;
}

pub record ExporterItem : Type 0 where
  pub id : ℕ
  pub keyqms : List ℕ
  pub linked : Bool

unfoldable pub exporter_items : List Link → List ℕ → List Item → List ExporterItem
exporter_items links prefix [] = []
exporter_items links prefix (item ∷ items) =
    let rest = exporter_items links prefix items in
    if starts_with prefix item.keyqms
    then record { id = item.id; keyqms = item.keyqms; linked = has_link item.id links } ∷ rest
    else rest

unfoldable pub list_exporter_items : Database → List ℕ → List ExporterItem
list_exporter_items db prefix = exporter_items db.links prefix db.items
