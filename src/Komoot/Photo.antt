-- ===== src/Komoot/Photo.antt =====
-- `resolve_photo_url` of src/server/komoot.rs.
use gps_trips.Prelude.{
  ℕ, zero, suc, ◌-◌, Bool, true, false, List, [], ◌∷◌, ◌++◌, codes, if◌then◌else◌, length,
}
use gps_trips.Text.{starts_with}
use gps_trips.Text.Decimal.{digits}

-- `str::replace` with a pattern that is not empty: `skip` characters belong to a match before.
unfoldable pub replace_from : List ℕ → List ℕ → ℕ → List ℕ → List ℕ
replace_from pattern to skip [] = []
replace_from pattern to (suc skip) (c ∷ s) = replace_from pattern to skip s
replace_from pattern to zero (c ∷ s) =
    let skipped = replace_from pattern to (length pattern - 1) s in
    let kept = replace_from pattern to zero s in
    if starts_with pattern (c ∷ s) then to ++ skipped else c ∷ kept

unfoldable pub replace : List ℕ → List ℕ → List ℕ → List ℕ
unfolding replace_from
replace s pattern to = replace_from pattern to zero s

unfoldable pub u32_to_string : ℕ → List ℕ
u32_to_string n = digits 10 n

abbrev pub bool_text : Bool → List ℕ
bool_text true = codes "true"
bool_text false = codes "false"

unfoldable pub resolve_photo_url : List ℕ → ℕ → ℕ → Bool → List ℕ
unfolding replace u32_to_string
resolve_photo_url template width height crop =
    replace
      (replace (replace template (codes "{width}") (u32_to_string width)) (codes "{height}")
        (u32_to_string height))
      (codes "{crop}") (bool_text crop)
