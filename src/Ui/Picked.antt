-- ===== src/Ui/Picked.antt =====
-- What is selected on the trip list, crates/ui-dioxus/src/picked.rs. The set is the list of its
-- members in their order.
pub mod Pairs
use gps_trips.Prelude.{
  ℕ, ◌+◌, ◌*◌, Bool, true, false, ◌&&◌, not, List, [], ◌∷◌, map, Option, none, some, ltb, length,
  if◌then◌else◌, any,
}
use gps_trips.Prelude.Int.{ℤ}
use gps_trips.Ui.Kinds.{Kind, recorded, planned, collections, Kinds, contains}

pub data Picked : Type 0 where
  trip : Kind → ℤ → Picked
  collection : ℤ → Picked
  track : ℤ → Picked

-- `Selected` of share.rs
pub data Selected : Type 0 where
  trips : Selected
  collections_of : Selected
  collection_tracks : Selected

abbrev pub kind_of : Picked → Kind
kind_of (trip kind id) = kind
kind_of (collection id) = collections
kind_of (track id) = collections

abbrev pub sort_of : Picked → Selected
sort_of (trip kind id) = trips
sort_of (collection id) = collections_of
sort_of (track id) = collection_tracks

abbrev pub id_of : Picked → ℤ
id_of (trip kind id) = id
id_of (collection id) = id
id_of (track id) = id

abbrev pub same_sort : Selected → Selected → Bool
same_sort trips trips = true
same_sort trips collections_of = false
same_sort trips collection_tracks = false
same_sort collections_of trips = false
same_sort collections_of collections_of = true
same_sort collections_of collection_tracks = false
same_sort collection_tracks trips = false
same_sort collection_tracks collections_of = false
same_sort collection_tracks collection_tracks = true

pub record Target : Type 0 where
  pub of_sort : Selected
  pub ids : List ℤ

-- `none` for nothing selected, or for a mix: one whose sort is not that of the first.
unfoldable pub target : List Picked → Option Target
target [] = none
target (first ∷ picked) =
    if any (λ p. not (same_sort (sort_of p) (sort_of first))) (first ∷ picked)
    then none
    else some (record { of_sort = sort_of first; ids = map id_of (first ∷ picked) })

pub data Action : Type 0 where
  tag : Action
  share : Action
  set_activity : Action
  link : Action

abbrev pub acts_on : Action → Selected → Bool
acts_on tag trips = true
acts_on tag collections_of = true
acts_on tag collection_tracks = false
acts_on share sort = true
acts_on set_activity sort = same_sort sort trips
acts_on link sort = false

abbrev pub is_recorded : Picked → Bool
is_recorded (trip recorded id) = true
is_recorded (trip planned id) = false
is_recorded (trip collections id) = false
is_recorded (collection id) = false
is_recorded (track id) = false

abbrev pub is_planned : Picked → Bool
is_planned (trip recorded id) = false
is_planned (trip planned id) = true
is_planned (trip collections id) = false
is_planned (collection id) = false
is_planned (track id) = false

abbrev pub is_track : Picked → Bool
is_track (trip kind id) = false
is_track (collection id) = false
is_track (track id) = true

abbrev pub is_collection : Picked → Bool
is_collection (trip kind id) = false
is_collection (collection id) = true
is_collection (track id) = false

abbrev pub count : (Picked → Bool) → List Picked → ℕ
count wanted [] = 0
count wanted (p ∷ picked) = let n = count wanted picked in if wanted p then n + 1 else n

unfoldable pub link_pairs : List Picked → ℕ
link_pairs picked =
    let r = count is_recorded picked in
    let p = count is_planned picked in let t = count is_track picked in r * p + (r + p) * t

abbrev pub acts_on_target : Action → Option Target → Bool
acts_on_target action none = false
acts_on_target action (some target) = acts_on action target.of_sort

unfoldable pub active : Action → List Picked → Bool
unfolding target link_pairs
active tag picked = acts_on_target tag (target picked)
active share picked = acts_on_target share (target picked)
active set_activity picked = acts_on_target set_activity (target picked)
active link picked = ltb 0 (link_pairs picked) && not (any is_collection picked)

unfoldable pub retain_kinds : Kinds → List Picked → List Picked
retain_kinds kinds [] = []
retain_kinds kinds (p ∷ picked) =
    let kept = retain_kinds kinds picked in if contains kinds (kind_of p) then p ∷ kept else kept

-- `filter_map` of the trips
abbrev pub trip_ids : List Picked → List ℤ
trip_ids [] = []
trip_ids (trip kind id ∷ picked) = id ∷ trip_ids picked
trip_ids (collection id ∷ picked) = trip_ids picked
trip_ids (track id ∷ picked) = trip_ids picked

-- `filter_map` of the collection tracks
abbrev pub track_ids : List Picked → List ℤ
track_ids [] = []
track_ids (trip kind id ∷ picked) = track_ids picked
track_ids (collection id ∷ picked) = track_ids picked
track_ids (track id ∷ picked) = id ∷ track_ids picked

unfoldable pub link_ends : List Picked → List ℤ × List ℤ
link_ends picked = (trip_ids picked, track_ids picked)
