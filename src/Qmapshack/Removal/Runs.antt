-- ===== src/Qmapshack/Removal/Runs.antt =====
-- A removal pass over a database with an item whose record is gone, one whose record is there and
-- one that is the owner's.
use gps_trips.Prelude.{
  ℕ, ◌≡◌, ◌≢◌, refl, sym, ◌∙◌, Bool, false, List, [], ◌∷◌, none, codes, arith, inl, ◌==◌,
}
use mathlib.Core.Bool.{true≢false}
use gps_trips.Prelude.Int.{ℤ, pos, negsuc}
use gps_trips.Text.Decimal.{parse_i64, parse_up_to, from_digits}
use gps_trips.Qmapshack.Target.{Database, Item, track, parents_of}
use gps_trips.Qmapshack.Removal.{ExportOutcome, is_stale, remove_stale_items}
use gps_trips.Qmapshack.Removal.Gone.{Gone, no_record, Gone-is_stale}
use gps_trips.Qmapshack.Removal.Effect.{
  Among, remove_stale_items-removes, remove_stale_items-spares,
}

abbrev row : ℕ → List ℕ → Item
row id key = record {
  id = id;
  item_type = track;
  keyqms = key;
  icon = [];
  name = codes "Tur";
  date = [];
  comment = none;
  data_blob = [];
  hash = [];
  trashed = false;
}

abbrev three : Database
three = record {
  items = row 1 (codes "trip-7") ∷ row 2 (codes "trip-8") ∷ row 3 (codes "own") ∷ [];
  links =
      record { id = 1; parent = 5; child = 1 }
      ∷ record { id = 2; parent = 5; child = 2 }
      ∷ record { id = 3; parent = 6; child = 3 }
      ∷ [];
  next_item = 4;
  next_link = 4;
}

abbrev eight : ℤ → Bool
eight (pos n) = n == 8
eight (negsuc n) = false

abbrev nothing_done : ExportOutcome
nothing_done = record { inserted = 0; updated = 0; removed = 0; skipped = 0; failed = 0 }

first_row : Among (row 1 (codes "trip-7")) three.items
unfolding Among
first_row = inl refl

trip_seven-Gone : Gone (codes "trip-") eight (codes "trip-7")
unfolding parse_i64 parse_up_to from_digits
trip_seven-Gone = no_record (codes "7") (pos 7) refl refl

-- The key of the second row has a record, and that of the third is another's.
eight_there : is_stale (codes "trip-") eight (codes "trip-8") ≡ false
unfolding is_stale parse_i64 parse_up_to from_digits
eight_there = refl

not_gone : Gone (codes "trip-") eight (codes "trip-8") → ◌≢◌ {A = ℕ} 2 2
not_gone gone e = absurd (true≢false (sym (Gone-is_stale _ _ _ gone).1 ∙ eight_there))

-- The removal of the third row would fail.
abbrev third : ℕ → Bool
third n = n == 3

remove_stale_items-removes_example :
    parents_of 1 (remove_stale_items three (codes "trip-") eight third nothing_done).0.links ≡ []
remove_stale_items-removes_example =
    remove_stale_items-removes (codes "trip-") eight third three nothing_done
      (row 1 (codes "trip-7")) first_row trip_seven-Gone refl

remove_stale_items-spares_example :
    parents_of 2 (remove_stale_items three (codes "trip-") eight third nothing_done).0.links
    ≡ parents_of 2 three.links
remove_stale_items-spares_example =
    remove_stale_items-spares (codes "trip-") eight third three nothing_done 2
      ((λ gone. omega arith), (not_gone, ((λ gone. omega arith), tt)))
