-- ===== src/Ui/Kinds.antt =====
-- What the trip list shows, crates/ui-dioxus/src/kinds.rs: toggles of which one is always on, and
-- their parameter in the address. The iterators of `Kind::ALL` are written as lists.
pub mod Address
mod Runs
use gps_trips.Prelude.{
  ℕ, zero, suc, ◌+◌, Bool, true, false, ◌&&◌, ◌||◌, not, List, [], ◌∷◌, ◌++◌, map, Option, none,
  some, codes, length, ◌==◌, text_eq, if◌then◌else◌, any,
}
use gps_trips.Text.{split}
use gps_trips.Types.Kind.{TripKind}

pub data Kind : Type 0 where
  recorded : Kind
  planned : Kind
  collections : Kind

abbrev pub all : List Kind
all = recorded ∷ planned ∷ collections ∷ []

abbrev pub as_str : Kind → List ℕ
as_str recorded = codes "recorded"
as_str planned = codes "planned"
as_str collections = codes "collections"

abbrev pub trip_kind : Kind → Option TripKind
trip_kind recorded = some TripKind.recorded
trip_kind planned = some TripKind.planned
trip_kind collections = none

abbrev pub of_trip : TripKind → Kind
of_trip TripKind.recorded = recorded
of_trip TripKind.planned = planned

-- `on: [bool; 3]`, a field for each index.
pub record Kinds : Type 0 where
  pub on_recorded : Bool
  pub on_planned : Bool
  pub on_collections : Bool

abbrev pub none_on : Kinds
none_on = record { on_recorded = false; on_planned = false; on_collections = false }

-- `self.on[kind.index()]`
abbrev pub contains : Kinds → Kind → Bool
contains kinds recorded = kinds.on_recorded
contains kinds planned = kinds.on_planned
contains kinds collections = kinds.on_collections

-- `on[kind.index()] = value`
abbrev pub set_index : Kinds → Kind → Bool → Kinds
set_index kinds recorded value = record kinds { on_recorded = value }
set_index kinds planned value = record kinds { on_planned = value }
set_index kinds collections value = record kinds { on_collections = value }

unfoldable pub only : Kind → Kinds
only kind = set_index none_on kind true

-- `impl Default for Kinds`
abbrev pub default : Kinds
unfolding only
default = only recorded

abbrev pub filter_on : Kinds → List Kind → List Kind
filter_on kinds [] = []
filter_on kinds (kind ∷ rest) =
    let on = filter_on kinds rest in if contains kinds kind then kind ∷ on else on

unfoldable pub iter : Kinds → List Kind
iter kinds = filter_on kinds all

unfoldable pub is_last : Kinds → Kind → Bool
unfolding iter
is_last kinds kind = contains kinds kind && length (iter kinds) == 1

-- `kind` switched on or off, unless it is the last one on.
unfoldable pub toggled : Kinds → Kind → Kinds
unfolding is_last
toggled kinds kind =
    if is_last kinds kind then kinds else set_index kinds kind (not (contains kinds kind))

unfoldable pub has_trips : Kinds → Bool
has_trips kinds = contains kinds recorded || contains kinds planned

unfoldable pub trips_only : Kinds → Option Kinds
unfolding has_trips
trips_only kinds = if has_trips kinds then some (record kinds { on_collections = false }) else none

unfoldable pub has_collections : Kinds → Bool
has_collections kinds = contains kinds collections

abbrev pub one_kind : Bool → Bool → Option TripKind
one_kind true false = some TripKind.recorded
one_kind false true = some TripKind.planned
one_kind true true = none
one_kind false false = none

-- The one kind of trip to ask the archive for: `Kinds::trip_kind`.
unfoldable pub asked_kind : Kinds → Option TripKind
asked_kind kinds = one_kind (contains kinds recorded) (contains kinds planned)

abbrev pub join : List ℕ → List (List ℕ) → List ℕ
join separator [] = []
join separator (part ∷ []) = part
join separator (part ∷ next ∷ parts) = part ++ separator ++ join separator (next ∷ parts)

unfoldable pub param : Kinds → List ℕ
unfolding iter
param kinds = join (b',' ∷ []) (map as_str (iter kinds))

abbrev pub find_named : List Kind → List ℕ → Option Kind
find_named [] name = none
find_named (kind ∷ kinds) name =
    let rest = find_named kinds name in if text_eq (as_str kind) name then some kind else rest

abbrev pub switched : Kinds → Option Kind → Kinds
switched kinds none = kinds
switched kinds (some kind) = set_index kinds kind true

abbrev pub read_names : Kinds → List (List ℕ) → Kinds
read_names kinds [] = kinds
read_names kinds (name ∷ names) = read_names (switched kinds (find_named all name)) names

-- `on.contains(&true)`
abbrev pub any_on : Kinds → Bool
any_on kinds = any (contains kinds) all

-- Unknown names are left out; a value that names no kind is the default.
unfoldable pub from_param : List ℕ → Kinds
unfolding split only
from_param value =
    let kinds = read_names none_on (split b',' value) in if any_on kinds then kinds else default
