-- ===== src/Types/Tag.antt =====
-- `normalize_tag_name` of crates/types/src/tag.rs. Lower case follows the tables of Unicode, which
-- are a parameter.
use gps_trips.Prelude.{ℕ, Bool, false, ◌||◌, List, [], ◌∷◌, if◌then◌else◌}
use gps_trips.Text.{trim, is_empty, contains, is_whitespace}

pub data TagName : Type 0 where
  name : List ℕ → TagName
  is_blank : TagName
  has_spaces : TagName
  has_comma : TagName

unfoldable pub any_whitespace : List ℕ → Bool
any_whitespace [] = false
any_whitespace (c ∷ s) = is_whitespace c || any_whitespace s

-- The name, or which of the three errors it is.
unfoldable pub normalize_tag_name : (List ℕ → List ℕ) → List ℕ → TagName
normalize_tag_name to_lowercase raw =
    let trimmed = trim raw in
    if is_empty trimmed
    then is_blank
    else if any_whitespace trimmed
    then has_spaces
    else if contains b',' trimmed
    then has_comma
    else name (to_lowercase trimmed)
