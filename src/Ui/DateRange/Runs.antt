-- ===== src/Ui/DateRange/Runs.antt =====
-- A witness of what is proved of the date slider, with a calendar whose months have 28 days.
use gps_trips.Prelude.{
  ℕ, suc, ◌+◌, ◌-◌, ◌*◌, ◌/◌, ◌%◌, ◌≡◌, refl, ap, ap₂, false, List, [], ◌∷◌, Option, none, some,
  arith, ◌==◌, ==_iff, if◌then◌else◌, if_true,
}
use gps_trips.Prelude.Int.{ℤ, pos, negsuc, pos_part}
use gps_trips.Text.{is_whitespace}
use gps_trips.Ui.DateRange.{Calendar, IsCalendar, date_from, date_to, handles}
use gps_trips.Ui.DateRange.Handles.{span_from, handles-dates}

abbrev made : ℤ → ℕ → ℕ → Option (ℕ × ℕ)
made (pos y) m d = some (y * 12 + (m - 1), d)
made (negsuc y) m d = none

abbrev day_before : ℕ × ℕ → Option (ℕ × ℕ)
day_before (n, d) = if d == 1 then some (n - 1, 28) else some (n, d - 1)

-- A text of two characters, for the month and the day.
abbrev written : ℕ × ℕ → List ℕ
written (n, d) = (n + 100000) ∷ (d + 100000) ∷ []

abbrev read : List ℕ → Option (ℕ × ℕ)
read [] = none
read (a ∷ []) = none
read (a ∷ b ∷ []) = some (a - 100000, b - 100000)
read (a ∷ b ∷ c ∷ s) = none

abbrev even_months : Calendar
even_months = record {
  Date = ℕ × ℕ;
  year = λ d. pos (d.0 / 12);
  month = λ d. d.0 % 12 + 1;
  day = λ d. d.1;
  from_calendar_date = made;
  previous_day = day_before;
  to_string = written;
  parse = read;
}

not_white : (n : ℕ) → is_whitespace (n + 100000) ≡ false
unfolding is_whitespace
not_white n = ground arith

back : (n : ℕ) → n + 100000 - 100000 ≡ n
back n = omega arith

even_months-IsCalendar : IsCalendar even_months
even_months-IsCalendar = record {
  first_of = λ y m h k. (
    (y * 12 + m, 1),
    ap (λ i. some (y * 12 + i, 1)) (omega arith),
    ap pos (omega (arith, k)),
    omega (arith, k),
    refl,
  );
  before_first = λ y m d year month day.
      let same : d.0 / 12 ≡ y = ap pos_part year in
      (
        (d.0 - 1, 28),
        if_true _ _ ((==_iff d.1 1).1 day),
        ap pos (omega (arith, same, month)),
        omega (arith, month),
      );
  before_january = λ y d year month day.
      let same : d.0 / 12 ≡ suc y = ap pos_part year in
      (
        (d.0 - 1, 28),
        if_true _ _ ((==_iff d.1 1).1 day),
        ap pos (omega (arith, same, month)),
        omega (arith, same, month),
      );
  read_back = λ y d h k. ap₂ (λ a b. some (a, b)) (back d.0) (back d.1);
  no_space = λ d. (not_white d.0, (not_white d.1, tt));
  not_a_date = refl;
}

-- From November 2023 on, 14 months.
handles-dates_example :
    (from : List ℕ) × (to : List ℕ) × (date_from even_months (span_from 24286 14) 1 ≡ some from)
    × (date_to even_months (span_from 24286 14) 12 ≡ some to)
    × (handles even_months (span_from 24286 14) from to ≡ (1, 12))
handles-dates_example =
    handles-dates even_months even_months-IsCalendar 24286 14 1 12 (omega arith) (omega arith)
      (omega arith)
