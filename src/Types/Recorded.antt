-- ===== src/Types/Recorded.antt =====
-- `RecordedTripFilter` of crates/types/src/link.rs.
use gps_trips.Prelude.{ℕ, List, [], ◌∷◌, Option, none, some, text_eq, codes, if◌then◌else◌}

pub data RecordedTripFilter : Type 0 where
  with_trip : RecordedTripFilter
  without_trip : RecordedTripFilter

abbrev pub as_str : RecordedTripFilter → List ℕ
as_str with_trip = codes "with"
as_str without_trip = codes "without"

abbrev pub all : List RecordedTripFilter
all = with_trip ∷ without_trip ∷ []

abbrev find : List RecordedTripFilter → List ℕ → Option RecordedTripFilter
find [] s = none
find (f ∷ filters) s = if text_eq (as_str f) s then some f else find filters s

-- `none` is an error.
unfoldable pub from_str : List ℕ → Option RecordedTripFilter
from_str s = find all s
