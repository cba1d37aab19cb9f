-- ===== src/Ui/Picked/Pairs.antt =====
-- The pairs that crates/ui-dioxus/src/picked.rs counts.
mod Runs
use gps_trips.Prelude.{
  ℕ, suc, ◌+◌, ◌*◌, ◌≡◌, refl, ap₂, ◌∙◌, Bool, true, false, List, [], ◌∷◌, ◌++◌, map, arith, length,
  length-append, if◌then◌else◌,
}
use gps_trips.Prelude.Int.{ℤ}
use gps_trips.Ui.Kinds.{recorded, planned, collections}
use gps_trips.Ui.Picked.{
  Picked, trip, collection, track, is_recorded, is_planned, is_track, count, link_pairs,
}

-- Every recorded trip with every planned trip and collection track, every planned trip with every
-- collection track, whichever of the two stands first.
abbrev pub can_link : Picked → Picked → Bool
can_link (trip recorded i) (trip recorded j) = false
can_link (trip recorded i) (trip planned j) = true
can_link (trip recorded i) (trip collections j) = false
can_link (trip recorded i) (collection j) = false
can_link (trip recorded i) (track j) = true
can_link (trip planned i) (trip recorded j) = true
can_link (trip planned i) (trip planned j) = false
can_link (trip planned i) (trip collections j) = false
can_link (trip planned i) (collection j) = false
can_link (trip planned i) (track j) = true
can_link (trip collections i) q = false
can_link (collection i) q = false
can_link (track i) (trip recorded j) = true
can_link (track i) (trip planned j) = true
can_link (track i) (trip collections j) = false
can_link (track i) (collection j) = false
can_link (track i) (track j) = false

-- The members that one can be linked with.
abbrev pub linkable_with : Picked → List Picked → List (Picked × Picked)
linkable_with p [] = []
linkable_with p (q ∷ picked) =
    let pairs = linkable_with p picked in if can_link p q then (p, q) ∷ pairs else pairs

-- The pairs of different members that can be linked, each once.
unfoldable pub linkable : List Picked → List (Picked × Picked)
linkable [] = []
linkable (p ∷ picked) = linkable_with p picked ++ linkable picked

with_recorded :
    (i : ℤ) (picked : List Picked)
    → length (linkable_with (trip recorded i) picked)
      ≡ count is_planned picked + count is_track picked
with_recorded i [] = refl
with_recorded i (trip recorded j ∷ picked) = with_recorded i picked
with_recorded i (trip planned j ∷ picked) = omega (arith, with_recorded i picked)
with_recorded i (trip collections j ∷ picked) = with_recorded i picked
with_recorded i (collection j ∷ picked) = with_recorded i picked
with_recorded i (track j ∷ picked) = omega (arith, with_recorded i picked)

with_planned :
    (i : ℤ) (picked : List Picked)
    → length (linkable_with (trip planned i) picked)
      ≡ count is_recorded picked + count is_track picked
with_planned i [] = refl
with_planned i (trip recorded j ∷ picked) = omega (arith, with_planned i picked)
with_planned i (trip planned j ∷ picked) = with_planned i picked
with_planned i (trip collections j ∷ picked) = with_planned i picked
with_planned i (collection j ∷ picked) = with_planned i picked
with_planned i (track j ∷ picked) = omega (arith, with_planned i picked)

with_track :
    (i : ℤ) (picked : List Picked)
    → length (linkable_with (track i) picked) ≡ count is_recorded picked + count is_planned picked
with_track i [] = refl
with_track i (trip recorded j ∷ picked) = omega (arith, with_track i picked)
with_track i (trip planned j ∷ picked) = omega (arith, with_track i picked)
with_track i (trip collections j ∷ picked) = with_track i picked
with_track i (collection j ∷ picked) = with_track i picked
with_track i (track j ∷ picked) = with_track i picked

with_none :
    (p : Picked) (picked : List Picked)
    → ((q : Picked) → can_link p q ≡ false)
    → length (linkable_with p picked) ≡ 0
with_none p [] h = refl
with_none p (q ∷ picked) h = rw (h q) (with_none p picked h)

-- The number of pairs that the selection is said to have is that of the pairs of its members which
-- can be linked: a recorded trip with a planned one or with a collection's track, or a planned
-- trip with a track, in either order, and each pair once.
pub link_pairs-linkable : (picked : List Picked) → link_pairs picked ≡ length (linkable picked)
unfolding link_pairs linkable
link_pairs-linkable [] = refl
link_pairs-linkable (trip recorded i ∷ picked) =
    let joined = length-append (linkable_with (trip recorded i) picked) (linkable picked) in
    omega (arith, with_recorded i picked, link_pairs-linkable picked, joined)
link_pairs-linkable (trip planned i ∷ picked) =
    let joined = length-append (linkable_with (trip planned i) picked) (linkable picked) in
    omega (arith, with_planned i picked, link_pairs-linkable picked, joined)
link_pairs-linkable (trip collections i ∷ picked) =
    let joined = length-append (linkable_with (trip collections i) picked) (linkable picked) in
    omega
      (arith, with_none (trip collections i) picked (λ q. refl), link_pairs-linkable picked, joined)
link_pairs-linkable (collection i ∷ picked) =
    let joined = length-append (linkable_with (collection i) picked) (linkable picked) in
    omega (arith, with_none (collection i) picked (λ q. refl), link_pairs-linkable picked, joined)
link_pairs-linkable (track i ∷ picked) =
    let joined = length-append (linkable_with (track i) picked) (linkable picked) in
    omega (arith, with_track i picked, link_pairs-linkable picked, joined)
