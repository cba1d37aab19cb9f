-- ===== src/Types/Runs.antt =====
-- Concrete names of crates/types/src.
use gps_trips.Prelude.{◌≡◌, refl, some, codes}
use gps_trips.Types.Privacy.{
  private, from_komoot_status, komoot_status, komoot_status-from_komoot_status,
}
use gps_trips.Types.Privacy
use gps_trips.Types.{match_text}

pulled_private : komoot_status (from_komoot_status (codes "private")) ≡ some (codes "private")
unfolding komoot_status from_komoot_status Privacy.from_str match_text
pulled_private = refl

komoot_status-from_komoot_status_example : codes "private" ≡ codes "private"
komoot_status-from_komoot_status_example =
    komoot_status-from_komoot_status (codes "private") (codes "private") pulled_private
