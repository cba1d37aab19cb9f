-- ===== src/Filter.antt =====
-- src/server/filter.rs: from the query's parameters to a filter of the trip list.
mod Outcome
mod Tags
pub mod Valid
mod Runs
unfoldable pub use Outcome.*
use gps_trips.Prelude.{
  ℕ, ◌*◌, ◌≡◌, Bool, true, false, not, ◌&&◌, ◌||◌, List, [], ◌∷◌, ◌++◌, Option, none, some, ltb,
  ◌==◌, if◌then◌else◌, text_eq, codes,
}
use gps_trips.Prelude.Int.{ℤ, pos, negsuc}
use gps_trips.Text.{trim, split, is_empty}
use gps_trips.Types.Activity.{ActivityType}
use gps_trips.Types.Kind.{TripKind}
use gps_trips.Types.Recorded.{RecordedTripFilter}
use gps_trips.Types.Tag.{TagName, name, is_blank, has_spaces, has_comma, normalize_tag_name}
use gps_trips.Types.Activity
use gps_trips.Types.Kind
use gps_trips.Types.Recorded

-- The arithmetic of `f64`, the tables of Unicode and the dates of the crate `time`.
pub record Tables : Type 1 where
  pub F64 : Type 0
  -- `none` is an error
  pub parse_f64 : List ℕ → Option F64
  pub is_finite : F64 → Bool
  pub lt : F64 → F64 → Bool
  pub from_int : ℤ → F64
  pub times : F64 → F64 → F64
  pub to_lowercase : List ℕ → List ℕ
  pub is_date : List ℕ → Bool

pub record TripFilterQuery : Type 0 where
  pub activity : Option (List ℕ)
  pub from : Option (List ℕ)
  pub to : Option (List ℕ)
  pub min_dist : Option (List ℕ)
  pub max_dist : Option (List ℕ)
  pub q : Option (List ℕ)
  pub kind : Option (List ℕ)
  pub tags : Option (List ℕ)
  pub bbox : Option (List ℕ)
  pub unnamed : Option (List ℕ)
  pub unplaced : Option (List ℕ)
  pub recorded_trip : Option (List ℕ)

pub record BoundingBox (T : Tables) : Type 0 where
  pub min_lat : T.F64
  pub min_lon : T.F64
  pub max_lat : T.F64
  pub max_lon : T.F64

pub record TripFilter (T : Tables) : Type 0 where
  pub activity_type : Option ActivityType
  pub from : Option (List ℕ)
  pub to : Option (List ℕ)
  pub min_dist_m : Option T.F64
  pub max_dist_m : Option T.F64
  pub name_query : Option (List ℕ)
  pub trip_kind : Option TripKind
  pub tags : List (List ℕ)
  pub region : Option (BoundingBox T)
  pub unnamed : Bool
  pub unplaced_photos : Bool
  pub recorded_trip : Option RecordedTripFilter

-- A parameter's trimmed value; absent and blank are the same.
unfoldable pub given : Option (List ℕ) → Option (List ℕ)
given none = none
given (some s) = let t = trim s in if is_empty t then none else some t

-- A parsed value, or the error.
abbrev pub or_bad {ℓ} : {A : Type ℓ} → FilterError → Option A → Answer (Option A)
or_bad e none = bad_request e
or_bad e (some a) = parsed (some a)

unfoldable pub parse_optional_recorded_trip : Option (List ℕ) → Answer (Option RecordedTripFilter)
parse_optional_recorded_trip s = elim (given s) [
  | none ↦ parsed none
  | some value ↦ or_bad invalid_recorded_trip (Recorded.from_str value)
]

unfoldable pub parse_flag : Option (List ℕ) → Answer Bool
parse_flag s = elim (given s) [
  | none ↦ parsed false
  | some value ↦ if text_eq value (codes "true") then parsed true else bad_request invalid_flag
]

unfoldable pub parse_optional_activity : Option (List ℕ) → Answer (Option ActivityType)
parse_optional_activity s = elim (given s) [
  | none ↦ parsed none
  | some value ↦ or_bad invalid_activity (Activity.from_str value)
]

unfoldable pub parse_kind : Option (List ℕ) → Answer (Option TripKind)
parse_kind s = elim (given s) [
  | none ↦ parsed none
  | some value ↦ or_bad invalid_kind (Kind.from_str value)
]

-- Whether a list of names has the name.
unfoldable pub has_name : List (List ℕ) → List ℕ → Bool
has_name [] s = false
has_name (t ∷ tags) s = text_eq t s || has_name tags s

abbrev pub push_new : List (List ℕ) → List ℕ → List (List ℕ)
push_new tags s = if has_name tags s then tags else tags ++ s ∷ []

-- The order of texts, which is that of their bytes.
abbrev pub text_lt : List ℕ → List ℕ → Bool
text_lt [] [] = false
text_lt [] (d ∷ t) = true
text_lt (c ∷ s) [] = false
text_lt (c ∷ s) (d ∷ t) = ltb c d || (c == d && text_lt s t)

-- Both ends of a range are given and the first lies above the second.
abbrev pub backwards {ℓ} : {A : Type ℓ} → (A → A → Bool) → Option A → Option A → Bool
backwards lt none b = false
backwards lt (some a) none = false
backwards lt (some a) (some b) = lt b a

unfoldable pub refuse_if : Bool → FilterError → Answer (Unit {0})
refuse_if true e = bad_request e
refuse_if false e = parsed tt

-- What is done with a name, unless it is refused.
abbrev pub with_name : TagName → (List ℕ → Answer (List (List ℕ))) → Answer (List (List ℕ))
with_name (name s) f = f s
with_name is_blank f = bad_request invalid_tag
with_name has_spaces f = bad_request invalid_tag
with_name has_comma f = bad_request invalid_tag

module _ (T : Tables) where
  -- The loop over the parts, with the names so far.
  unfoldable pub parse_parts : List (List ℕ) → List (List ℕ) → Answer (List (List ℕ))
  parse_parts tags [] = parsed tags
  parse_parts tags (part ∷ parts) =
      let skipped = parse_parts tags parts in
      let rest = λ (s : List ℕ). parse_parts (push_new tags s) parts in
      if is_empty (trim part)
      then skipped
      else with_name (normalize_tag_name T.to_lowercase (trim part)) rest

  abbrev pub tags_of : Option (List ℕ) → Answer (List (List ℕ))
  tags_of none = parsed []
  tags_of (some raw) = parse_parts [] (split b',' raw)

  unfoldable pub parse_tags : Option (List ℕ) → Answer (List (List ℕ))
  parse_tags s = tags_of (given s)

  abbrev pub coordinate_of : ℤ → ℤ → Option T.F64 → Answer T.F64
  coordinate_of low high none = bad_request invalid_coordinate
  coordinate_of low high (some value) =
      if not (T.is_finite value) || T.lt value (T.from_int low) || T.lt (T.from_int high) value
      then bad_request coordinate_out_of_range
      else parsed value

  unfoldable pub parse_coordinate : List ℕ → ℤ → ℤ → Answer T.F64
  parse_coordinate s low high = coordinate_of low high (T.parse_f64 (trim s))

  unfoldable pub box_of : List ℕ → List ℕ → List ℕ → List ℕ → Answer (Option (BoundingBox T))
  box_of lon1 lat1 lon2 lat2 = do
    min_lon ← parse_coordinate lon1 (negsuc 179) (pos 180)
    min_lat ← parse_coordinate lat1 (negsuc 89) (pos 90)
    max_lon ← parse_coordinate lon2 (negsuc 179) (pos 180)
    max_lat ← parse_coordinate lat2 (negsuc 89) (pos 90)
    _ ← refuse_if (T.lt max_lon min_lon) longitudes_backwards
    _ ← refuse_if (T.lt max_lat min_lat) latitudes_backwards
    parsed (
        some
          (record { min_lat = min_lat; min_lon = min_lon; max_lat = max_lat; max_lon = max_lon }))

  -- Exactly four parts.
  abbrev pub box_of_parts : List (List ℕ) → Answer (Option (BoundingBox T))
  box_of_parts (a ∷ b ∷ c ∷ d ∷ []) = box_of a b c d
  box_of_parts _ = bad_request invalid_bbox

  abbrev pub box_or_none : Option (List ℕ) → Answer (Option (BoundingBox T))
  box_or_none none = parsed none
  box_or_none (some raw) = box_of_parts (split b',' raw)

  unfoldable pub parse_optional_bbox : Option (List ℕ) → Answer (Option (BoundingBox T))
  parse_optional_bbox s = box_or_none (given s)

  abbrev pub date_of : Option (List ℕ) → Answer (Option (List ℕ))
  date_of none = parsed none
  date_of (some value) = if T.is_date value then parsed (some value) else bad_request invalid_date

  unfoldable pub parse_optional_date : Option (List ℕ) → Answer (Option (List ℕ))
  parse_optional_date s = date_of (given s)

  abbrev pub km_of : Option T.F64 → Answer (Option T.F64)
  km_of none = bad_request invalid_distance
  km_of (some km) =
      if not (T.is_finite km) || T.lt km (T.from_int (pos 0))
      then bad_request distance_out_of_range
      else parsed (some km)

  abbrev pub distance_of : Option (List ℕ) → Answer (Option T.F64)
  distance_of none = parsed none
  distance_of (some value) = km_of (T.parse_f64 value)

  unfoldable pub parse_optional_distance_km : Option (List ℕ) → Answer (Option T.F64)
  parse_optional_distance_km s = distance_of (given s)

  abbrev pub in_metres : Option T.F64 → Option T.F64
  in_metres none = none
  in_metres (some km) = some (T.times km (T.from_int (pos 1000)))

  unfoldable pub parse_filter : TripFilterQuery → Answer (TripFilter T)
  parse_filter query = do
    activity_type ← parse_optional_activity query.activity
    from ← parse_optional_date query.from
    to ← parse_optional_date query.to
    _ ← refuse_if (backwards text_lt from to) from_after_to
    min_dist_km ← parse_optional_distance_km query.min_dist
    max_dist_km ← parse_optional_distance_km query.max_dist
    _ ← refuse_if (backwards T.lt min_dist_km max_dist_km) min_above_max
    trip_kind ← parse_kind query.kind
    tags ← parse_tags query.tags
    region ← parse_optional_bbox query.bbox
    unnamed ← parse_flag query.unnamed
    unplaced_photos ← parse_flag query.unplaced
    recorded_trip ← parse_optional_recorded_trip query.recorded_trip
    parsed (record {
      activity_type = activity_type;
      from = from;
      to = to;
      min_dist_m = in_metres min_dist_km;
      max_dist_m = in_metres max_dist_km;
      name_query = given query.q;
      trip_kind = trip_kind;
      tags = tags;
      region = region;
      unnamed = unnamed;
      unplaced_photos = unplaced_photos;
      recorded_trip = recorded_trip;
    })
