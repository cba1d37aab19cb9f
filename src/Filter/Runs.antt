-- ===== src/Filter/Runs.antt =====
-- A concrete query of src/server/filter.rs. A number with a fraction is stood in for by a whole one,
-- lower case by that of ASCII.
use gps_trips.Prelude.{
  ℕ, ◌≡◌, refl, true, false, [], ◌∷◌, none, some, map, codes, leb, ◌&&◌, ◌+◌, if◌then◌else◌,
}
use gps_trips.Prelude.Int.{ℤ, pos, negsuc, ltb_ℤ, ◌*ℤ◌}
use gps_trips.Text.{trim, trim_start, trim_end, is_whitespace, is_empty, contains, split}
use gps_trips.Text.Decimal.{parse_i64, parse_up_to, from_digits}
use gps_trips.Types.{match_text}
use gps_trips.Types.Activity.{hiking}
use gps_trips.Types.Activity
use gps_trips.Types.Kind
use gps_trips.Types.Recorded
use gps_trips.Types.Tag.{normalize_tag_name, any_whitespace}
use gps_trips.Filter.{
  Tables, TripFilterQuery, TripFilter, parsed, ◌>>=◌, given, refuse_if, parse_filter,
  parse_optional_activity, parse_optional_date, parse_optional_distance_km, parse_kind, parse_tags,
  parse_parts, parse_optional_bbox, box_of, parse_coordinate, parse_flag,
  parse_optional_recorded_trip, has_name,
}
use gps_trips.Filter.Valid.{IsValid, parse_filter-IsValid}

abbrev lower_case : ℕ → ℕ
lower_case c = if leb b'A' c && leb c b'Z' then c + 32 else c

abbrev whole_numbers : Tables
whole_numbers = record {
  F64 = ℤ;
  parse_f64 = parse_i64;
  is_finite = λ x. true;
  lt = ltb_ℤ;
  from_int = λ n. n;
  times = λ a b. a *ℤ b;
  to_lowercase = map lower_case;
  is_date = λ s. true;
}

abbrev query : TripFilterQuery
query = record {
  activity = some (codes "hiking");
  from = some (codes "2025-05-01");
  to = some (codes " 2025-06-01");
  min_dist = some (codes "5");
  max_dist = none;
  q = some (codes "  ");
  kind = none;
  tags = some (codes "Alps, alps,hut");
  bbox = some (codes "10,-46,12,47");
  unnamed = none;
  unplaced = some (codes "true");
  recorded_trip = none;
}

abbrev filter : TripFilter whole_numbers
filter = record {
  activity_type = some hiking;
  from = some (codes "2025-05-01");
  to = some (codes "2025-06-01");
  min_dist_m = some (pos 5000);
  max_dist_m = none;
  name_query = none;
  trip_kind = none;
  tags = codes "alps" ∷ codes "hut" ∷ [];
  region =
      some (record { min_lat = negsuc 45; min_lon = pos 10; max_lat = pos 47; max_lon = pos 12 });
  unnamed = false;
  unplaced_photos = true;
  recorded_trip = none;
}

query_parsed : parse_filter whole_numbers query ≡ parsed filter
unfolding parse_filter parse_optional_activity parse_optional_date parse_optional_distance_km
    parse_kind parse_tags parse_parts parse_optional_bbox box_of parse_coordinate parse_flag
    parse_optional_recorded_trip has_name given refuse_if ◌>>=◌ trim trim_start trim_end
    is_whitespace is_empty contains split parse_i64 parse_up_to from_digits match_text
    Activity.from_str Kind.from_str Recorded.from_str normalize_tag_name any_whitespace ◌*ℤ◌
query_parsed = refl

parse_filter-IsValid_example : IsValid whole_numbers filter
parse_filter-IsValid_example = parse_filter-IsValid whole_numbers query filter query_parsed
