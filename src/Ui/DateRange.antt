-- ===== src/Ui/DateRange.antt =====
-- The months of the trip list's date slider and where its handles sit, crates/ui-dioxus/src/date_range.rs.
-- An i32 is an integer: the months of the years that dates have lie far within it.
pub mod Handles
mod Runs
use mathlib.Core.Option
use gps_trips.Prelude.{
  ℕ, suc, ◌+◌, ◌-◌, ◌*◌, ◌/◌, ◌%◌, ◌≤◌, ◌<◌, ◌≡◌, min, Bool, false, List, [], ◌∷◌, Option, none,
  some, ltb, leb, ◌==◌, if◌then◌else◌, All,
}
use gps_trips.Prelude.Int.{ℤ, pos, negsuc, ◌+ℤ◌, ◌-ℤ◌, ◌*ℤ◌}
use gps_trips.Text.{trim, is_whitespace}

-- The dates of the crate `time`, with the format `[year]-[month]-[day]`.
pub record Calendar : Type 1 where
  pub Date : Type 0
  pub year : Date → ℤ
  pub month : Date → ℕ
  pub day : Date → ℕ
  -- `none` is an error
  pub from_calendar_date : ℤ → ℕ → ℕ → Option Date
  pub previous_day : Date → Option Date
  pub to_string : Date → List ℕ
  pub parse : List ℕ → Option Date

-- What the slider relies on, for the years 0 to 9999: the first of a month is a date, the day before
-- it is in the month before, and a date is read back from its text, which has no space in it.
pub record IsCalendar (C : Calendar) : Type 0 where
  pub first_of :
      (y m : ℕ)
      → y ≤ 9999
      → m < 12
      → (d : C.Date) × (C.from_calendar_date (pos y) (m + 1) 1 ≡ some d)
        × (C.year d ≡ pos y)
        × (C.month d ≡ m + 1)
        × (C.day d ≡ 1)
  pub before_first :
      (y m : ℕ) (d : C.Date)
      → C.year d ≡ pos y
      → C.month d ≡ m + 2
      → C.day d ≡ 1
      → (e : C.Date) × (C.previous_day d ≡ some e) × (C.year e ≡ pos y) × (C.month e ≡ m + 1)
  pub before_january :
      (y : ℕ) (d : C.Date)
      → C.year d ≡ pos (suc y)
      → C.month d ≡ 1
      → C.day d ≡ 1
      → (e : C.Date) × (C.previous_day d ≡ some e) × (C.year e ≡ pos y) × (C.month e ≡ 12)
  pub read_back :
      (y : ℕ) (d : C.Date) → C.year d ≡ pos y → y ≤ 9999 → C.parse (C.to_string d) ≡ some d
  pub no_space : (d : C.Date) → All (λ c. is_whitespace c ≡ false) (C.to_string d)
  pub not_a_date : C.parse [] ≡ none

-- `div_euclid` and `rem_euclid`
abbrev pub div_euclid : ℤ → ℕ → ℤ
div_euclid (pos n) d = pos (n / d)
div_euclid (negsuc n) d = negsuc (n / d)

abbrev pub rem_euclid : ℤ → ℕ → ℕ
rem_euclid (pos n) d = n % d
rem_euclid (negsuc n) d = d - 1 - n % d

-- A month is counted from year 0.
pub record Month : Type 0 where
  pub number : ℤ

pub record Span : Type 0 where
  pub first : Month
  pub len : ℕ

unfoldable pub last : Span → ℕ
last span = span.len - 1

unfoldable pub month_at : Span → ℕ → Month
month_at span index = record { number = span.first.number +ℤ pos index }

-- `usize::try_from(month.0 - self.first.0)`
abbrev pub index_in : ℤ → ℕ → ℕ
index_in (pos n) end = min n end
index_in (negsuc n) end = 0

-- The nearer end for a month outside.
unfoldable pub index : Span → Month → ℕ
unfolding last
index span month = index_in (month.number -ℤ span.first.number) (last span)

abbrev pub get_or : ℕ → Option ℕ → ℕ
get_or other none = other
get_or other (some i) = i

module _ (C : Calendar) where
  unfoldable pub of_date : C.Date → Month
  of_date date = record { number = C.year date *ℤ pos 12 +ℤ pos (C.month date) -ℤ pos 1 }

  unfoldable pub parse_month : List ℕ → Option Month
  parse_month date = Option.map of_date (C.parse (trim date))

  -- `none` is a panic of one of the `expect`s.
  unfoldable pub first_day : Month → Option C.Date
  first_day m = C.from_calendar_date (div_euclid m.number 12) (rem_euclid m.number 12 + 1) 1

  abbrev pub day_before : Option C.Date → Option C.Date
  day_before none = none
  day_before (some date) = C.previous_day date

  unfoldable pub last_day : Month → Option C.Date
  last_day m = day_before (first_day (record { number = m.number +ℤ pos 1 }))

  unfoldable pub date_from : Span → ℕ → Option (List ℕ)
  date_from span i =
      if i == 0 then some [] else Option.map C.to_string (first_day (month_at span i))

  unfoldable pub date_to : Span → ℕ → Option (List ℕ)
  date_to span i =
      if leb (last span) i then some [] else Option.map C.to_string (last_day (month_at span i))

  unfoldable pub handles : Span → List ℕ → List ℕ → ℕ × ℕ
  handles span from to = (
    get_or 0 (Option.map (index span) (parse_month from)),
    get_or (last span) (Option.map (index span) (parse_month to)),
  )
