-- ===== src/Qmapshack/Reconcile.antt =====
-- `reconcile_item` of src/server/qmapshack/reconcile.rs, for a folder that is found or created.
pub mod Wanted
pub mod Idempotent
pub mod Keeps
mod Runs
use gps_trips.Prelude.{
  ℕ, ◌≡◌, Bool, true, false, not, ◌&&◌, ◌||◌, List, [], ◌∷◌, Option, none, some, ◌==◌,
  if◌then◌else◌, text_eq,
}
use gps_trips.Qmapshack.Target.{
  Database, ItemState, ItemType, NewItem, get_item_state, insert_item, update_item, set_item_folder,
}

pub record Desired : Type 0 where
  pub keyqms : List ℕ
  pub name : List ℕ
  pub comment : List ℕ
  pub hash : Option (List ℕ)

pub record ItemContent : Type 0 where
  pub item_type : ItemType
  pub icon : List ℕ
  pub date : List ℕ
  pub data_blob : List ℕ
  pub hash : List ℕ

-- The folder of an insertion, which only the log names, is left out.
pub data ItemOutcome : Type 0 where
  inserted : ItemOutcome
  updated : (content : Bool) → (relinked : Bool) → ItemOutcome
  skipped : ItemOutcome

unfoldable pub new_item : ItemContent → Desired → NewItem
new_item content desired = record {
  item_type = content.item_type;
  keyqms = desired.keyqms;
  name = desired.name;
  icon = content.icon;
  date = content.date;
  comment = desired.comment;
  data_blob = content.data_blob;
  hash = content.hash;
}

abbrev pub is_text : Option (List ℕ) → List ℕ → Bool
is_text none s = false
is_text (some t) s = text_eq t s

-- Whether a hash is asked for and another is there.
abbrev pub differs : Option (List ℕ) → List ℕ → Bool
differs none s = false
differs (some t) s = not (text_eq t s)

unfoldable pub content_changed : ItemState → Desired → Bool
content_changed state desired =
    not (text_eq state.name desired.name)
    || not (is_text state.comment desired.comment)
    || differs desired.hash state.hash

abbrev pub is_only : List ℕ → ℕ → Bool
is_only [] folder = false
is_only (n ∷ []) folder = n == folder
is_only (n ∷ m ∷ ns) folder = false

unfoldable pub placement_changed : ItemState → ℕ → Bool
placement_changed state folder = not (is_only state.folder_ids folder)

-- The outcome, none of which is an error, and the database after it.
abbrev pub insert_new : Database → Option Database → Option ItemOutcome × Database
insert_new db none = (none, db)
insert_new db (some after) = (some inserted, after)

abbrev pub place : Bool → Database → ℕ → ℕ → Database
place true db id folder = set_item_folder db id folder
place false db id folder = db

-- The content is `none` where building it fails.
unfoldable pub reconcile_known :
    Database → ℕ → Desired → Option ItemContent → ItemState → Option ItemOutcome × Database
unfolding new_item
reconcile_known db folder desired content state =
    let moved = placement_changed state folder in
    if content_changed state desired
    then elim content [
      | none ↦ (none, db)
      | some c ↦ (
        some (updated true moved),
        place moved (update_item db state.id (new_item c desired)) state.id folder,
      )
    ]
    else if moved
    then (some (updated false true), set_item_folder db state.id folder)
    else (some skipped, db)

unfoldable pub reconcile_item :
    Database → ℕ → Desired → Option ItemContent → Option ItemOutcome × Database
unfolding new_item
reconcile_item db folder desired content = elim (get_item_state db desired.keyqms) [
  | some state ↦ reconcile_known db folder desired content state
  | none ↦ elim content [
    | none ↦ (none, db)
    | some c ↦ insert_new db (insert_item db (new_item c desired) folder)
  ]
]
