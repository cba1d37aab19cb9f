-- ===== src/Ui/Picked/Pairs/Runs.antt =====
-- A witness of what is proved of the pairs of a selection.
use gps_trips.Prelude.{◌≡◌, refl, List, [], ◌∷◌, length}
use gps_trips.Prelude.Int.{pos}
use gps_trips.Ui.Kinds.{recorded, planned}
use gps_trips.Ui.Picked.{Picked, trip, collection, track, link_pairs}
use gps_trips.Ui.Picked.Pairs.{linkable, link_pairs-linkable}

abbrev picked : List Picked
picked =
    trip recorded (pos 1)
    ∷ trip recorded (pos 2)
    ∷ trip planned (pos 3)
    ∷ collection (pos 1)
    ∷ track (pos 1)
    ∷ []

five_pairs : link_pairs picked ≡ 5
unfolding link_pairs
five_pairs = refl

link_pairs-linkable_example : link_pairs picked ≡ length (linkable picked)
link_pairs-linkable_example = link_pairs-linkable picked
