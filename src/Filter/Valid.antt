-- ===== src/Filter/Valid.antt =====
-- What src/server/filter.rs promises of a filter that it parses.
use gps_trips.Prelude.{
  ℕ, ◌≡◌, refl, subst, Bool, true, false, not, ◌||◌, List, [], ◌∷◌, Option, none, some,
  if◌then◌else◌, All,
}
use gps_trips.Prelude.Int.{ℤ, pos, negsuc}
use gps_trips.Text.{split}
use gps_trips.Filter.Tags.{IsTag, Distinct, neither, tags_of_lem}
use gps_trips.Filter.{
  Tables, TripFilterQuery, TripFilter, BoundingBox, parsed, bad_request, FilterError, bind_inv,
  given, refuse_if, backwards, text_lt, in_metres, parse_tags, parse_coordinate, box_of,
  box_of_parts, parse_optional_bbox, parse_optional_date, parse_optional_distance_km, parse_filter,
  date_of, km_of, distance_of, coordinate_of, box_or_none, parsed-injective, invalid_date,
  distance_out_of_range, coordinate_out_of_range, longitudes_backwards, latitudes_backwards,
  from_after_to, min_above_max,
}

-- A finite number between two whole ones.
pub Between : (T : Tables) → ℤ → ℤ → T.F64 → Type 0
Between T low high x =
    (T.is_finite x ≡ true) × (T.lt x (T.from_int low) ≡ false) × (T.lt (T.from_int high) x ≡ false)

pub IsBox : (T : Tables) → Option (BoundingBox T) → Type 0
IsBox T none = Unit {0}
IsBox T (some b) =
    Between T (negsuc 179) (pos 180) b.min_lon
    × Between T (negsuc 89) (pos 90) b.min_lat
    × Between T (negsuc 179) (pos 180) b.max_lon
    × Between T (negsuc 89) (pos 90) b.max_lat
    × (T.lt b.max_lon b.min_lon ≡ false)
    × (T.lt b.max_lat b.min_lat ≡ false)

pub IsDate : Tables → Option (List ℕ) → Type 0
IsDate T none = Unit {0}
IsDate T (some s) = T.is_date s ≡ true

pub IsDistance : (T : Tables) → Option T.F64 → Type 0
IsDistance T none = Unit {0}
IsDistance T (some km) = (T.is_finite km ≡ true) × (T.lt km (T.from_int (pos 0)) ≡ false)

pub record IsValid (T : Tables) (f : TripFilter T) : Type 0 where
  pub from : IsDate T f.from
  pub to : IsDate T f.to
  pub dates : backwards text_lt f.from f.to ≡ false
  pub min_km : Option T.F64
  pub max_km : Option T.F64
  pub min_dist : f.min_dist_m ≡ in_metres T min_km
  pub max_dist : f.max_dist_m ≡ in_metres T max_km
  pub min-IsDistance : IsDistance T min_km
  pub max-IsDistance : IsDistance T max_km
  pub distances : backwards T.lt min_km max_km ≡ false
  pub tags : All (IsTag T) f.tags
  pub tags-Distinct : Distinct f.tags
  pub region : IsBox T f.region

refuse_if_inv : (b : Bool) (e : FilterError) (u : Unit {0}) → refuse_if b e ≡ parsed u → b ≡ false
unfolding refuse_if
refuse_if_inv true e u h = cc
refuse_if_inv false e u h = refl

-- A parsed value behind a test: the test passed, or failed where it refuses.
accepted {ℓ} :
    {A : Type ℓ} (b : Bool) (e : FilterError) (a c : A)
    → (if b then parsed a else bad_request e) ≡ parsed c
    → (b ≡ true) × (a ≡ c)
accepted true e a c h = (refl, parsed-injective a c h)
accepted false e a c h = cc

not_refused {ℓ} :
    {A : Type ℓ} (b : Bool) (e : FilterError) (a c : A)
    → (if b then bad_request e else parsed a) ≡ parsed c
    → (b ≡ false) × (a ≡ c)
not_refused true e a c h = cc
not_refused false e a c h = (refl, parsed-injective a c h)

truly : (b : Bool) → not b ≡ false → b ≡ true
truly true h = refl
truly false h = cc

module _ (T : Tables) where
  date_of_lem : (o : Option (List ℕ)) (d : Option (List ℕ)) → date_of T o ≡ parsed d → IsDate T d
  unfolding IsDate
  date_of_lem none d h = subst (IsDate T) (parsed-injective none d h) tt
  date_of_lem (some v) d h =
      let (holds, e) = accepted (T.is_date v) invalid_date (some v) d h in subst (IsDate T) e holds

  km_of_lem : (o d : Option T.F64) → km_of T o ≡ parsed d → IsDistance T d
  unfolding IsDistance
  km_of_lem none d h = cc
  km_of_lem (some km) d h =
      let (fine, e) =
        not_refused (not (T.is_finite km) || T.lt km (T.from_int (pos 0))) distance_out_of_range
          (some km) d h in
      let (finite, above) = neither (not (T.is_finite km)) (T.lt km (T.from_int (pos 0))) fine in
      subst (IsDistance T) e (truly (T.is_finite km) finite, above)

  distance_of_lem :
      (o : Option (List ℕ)) (d : Option T.F64) → distance_of T o ≡ parsed d → IsDistance T d
  unfolding IsDistance
  distance_of_lem none d h = subst (IsDistance T) (parsed-injective none d h) tt
  distance_of_lem (some v) d h = km_of_lem (T.parse_f64 v) d h

  coordinate_of_lem :
      (low high : ℤ) (o : Option T.F64) (x : T.F64)
      → coordinate_of T low high o ≡ parsed x
      → Between T low high x
  unfolding Between
  coordinate_of_lem low high none x h = cc
  coordinate_of_lem low high (some v) x h =
      let (fine, e) =
        not_refused (not (T.is_finite v) || T.lt v (T.from_int low) || T.lt (T.from_int high) v)
          coordinate_out_of_range v x h in
      let (first, below) =
        neither (not (T.is_finite v) || T.lt v (T.from_int low)) (T.lt (T.from_int high) v) fine in
      let (finite, above) = neither (not (T.is_finite v)) (T.lt v (T.from_int low)) first in
      subst (Between T low high) e (truly (T.is_finite v) finite, above, below)

  box_of_lem :
      (a b c d : List ℕ) (box : Option (BoundingBox T))
      → box_of T a b c d ≡ parsed box
      → IsBox T box
  unfolding box_of parse_coordinate IsBox
  box_of_lem a b c d box h =
      let (lon1, p, h1) = bind_inv _ _ box h in
      let (lat1, q, h2) = bind_inv _ _ box h1 in
      let (lon2, r, h3) = bind_inv _ _ box h2 in
      let (lat2, s, h4) = bind_inv _ _ box h3 in
      let (u, v, h5) = bind_inv _ _ box h4 in
      let (u', w, h6) = bind_inv _ _ box h5 in
      subst (IsBox T) (parsed-injective _ box h6) (
        coordinate_of_lem (negsuc 179) (pos 180) _ lon1 p,
        coordinate_of_lem (negsuc 89) (pos 90) _ lat1 q,
        coordinate_of_lem (negsuc 179) (pos 180) _ lon2 r,
        coordinate_of_lem (negsuc 89) (pos 90) _ lat2 s,
        refuse_if_inv _ longitudes_backwards u v,
        refuse_if_inv _ latitudes_backwards u' w,
      )

  box_of_parts_lem :
      (parts : List (List ℕ)) (box : Option (BoundingBox T))
      → box_of_parts T parts ≡ parsed box
      → IsBox T box
  box_of_parts_lem [] box e = cc
  box_of_parts_lem (a ∷ []) box e = cc
  box_of_parts_lem (a ∷ b ∷ []) box e = cc
  box_of_parts_lem (a ∷ b ∷ c ∷ []) box e = cc
  box_of_parts_lem (a ∷ b ∷ c ∷ d ∷ []) box e = box_of_lem a b c d box e
  box_of_parts_lem (a ∷ b ∷ c ∷ d ∷ x ∷ xs) box e = cc

  box_or_none_lem :
      (o : Option (List ℕ)) (box : Option (BoundingBox T))
      → box_or_none T o ≡ parsed box
      → IsBox T box
  unfolding IsBox
  box_or_none_lem none box e = subst (IsBox T) (parsed-injective none box e) tt
  box_or_none_lem (some raw) box e = box_of_parts_lem (split b',' raw) box e

  -- A filter that is parsed has dates that are dates, distances that are finite and not negative
  -- and a region within the globe, all of them the right way round, and tags that are normalised
  -- names, each of them once.
  pub parse_filter-IsValid :
      (query : TripFilterQuery) (f : TripFilter T) → parse_filter T query ≡ parsed f → IsValid T f
  unfolding parse_filter parse_optional_date parse_optional_distance_km parse_tags
      parse_optional_bbox
  parse_filter-IsValid query f h =
      let (activity, a, h1) = bind_inv _ _ f h in
      let (from, b, h2) = bind_inv _ _ f h1 in
      let (to, c, h3) = bind_inv _ _ f h2 in
      let (u, d, h4) = bind_inv _ _ f h3 in
      let (min_km, e, h5) = bind_inv _ _ f h4 in
      let (max_km, g, h6) = bind_inv _ _ f h5 in
      let (v, i, h7) = bind_inv _ _ f h6 in
      let (kind, j, h8) = bind_inv _ _ f h7 in
      let (tags, k, h9) = bind_inv _ _ f h8 in
      let (region, l, h10) = bind_inv _ _ f h9 in
      let (unnamed, m, h11) = bind_inv _ _ f h10 in
      let (unplaced, n, h12) = bind_inv _ _ f h11 in
      let (recorded, o, h13) = bind_inv _ _ f h12 in
      let named = tags_of_lem T (given query.tags) tags k in
      subst (IsValid T) (parsed-injective _ f h13) (record {
        from = date_of_lem (given query.from) from b;
        to = date_of_lem (given query.to) to c;
        dates = refuse_if_inv _ from_after_to u d;
        min_km = min_km;
        max_km = max_km;
        min_dist = refl;
        max_dist = refl;
        min-IsDistance = distance_of_lem (given query.min_dist) min_km e;
        max-IsDistance = distance_of_lem (given query.max_dist) max_km g;
        distances = refuse_if_inv _ min_above_max v i;
        tags = named.0;
        tags-Distinct = named.1;
        region = box_or_none_lem (given query.bbox) region l;
      })
