-- ===== src/Ui/Kinds/Runs.antt =====
-- Witnesses of what is proved of the toggles.
use gps_trips.Prelude.{◌≡◌, refl, true, List, [], ◌∷◌, codes}
use gps_trips.Text.{split}
use gps_trips.Ui.Kinds.{
  Kind, recorded, planned, collections, any_on, from_param, param, toggled, is_last, iter, only,
}
use gps_trips.Ui.Kinds.Address.{clicked, from_param-param}

-- The third click is refused.
abbrev clicks : List Kind
clicks = recorded ∷ planned ∷ recorded ∷ collections ∷ []

third_refused :
    param (clicked (from_param (codes "planned,all")) clicks) ≡ codes "recorded,collections"
unfolding param clicked from_param toggled is_last iter split only
third_refused = refl

from_param-param_example :
    (any_on (clicked (from_param (codes "planned,all")) clicks) ≡ true)
    × (from_param (param (clicked (from_param (codes "planned,all")) clicks))
        ≡ clicked (from_param (codes "planned,all")) clicks)
from_param-param_example = from_param-param (codes "planned,all") clicks
