-- ===== src/Ui/DateRange/Handles.antt =====
-- That the handles of crates/ui-dioxus/src/date_range.rs sit where they were put.
use gps_trips.Prelude.{
  ℕ, zero, suc, ◌+◌, ◌-◌, ◌/◌, ◌%◌, ◌≤◌, ◌<◌, ◌≡◌, refl, ap, ap₂, ◌∙◌, false, List, [], none, some,
  arith, leb, ◌==◌, Bool-cases, if_true, if_false, leb→le, inl, inr,
}
use gps_trips.Prelude.Int.{pos, ◌+ℤ◌, ◌-ℤ◌, ◌*ℤ◌}
use gps_trips.Text.{trim}
use gps_trips.Text.Parts.{trim-bare}
use mathlib.Core.Option
use gps_trips.Ui.DateRange.{
  Calendar, IsCalendar, Month, Span, last, month_at, index, get_or, of_date, parse_month, first_day,
  day_before, last_day, date_from, date_to, handles,
}

month_number : (n y m : ℕ) → y ≡ n / 12 → m ≡ n % 12 + 1 → pos y *ℤ pos 12 +ℤ pos m -ℤ pos 1 ≡ pos n
unfolding ◌+ℤ◌ ◌-ℤ◌ ◌*ℤ◌
month_number n y m h k = ground arith

january : (n : ℕ) → suc n % 12 ≡ 0 → (suc n / 12 ≡ suc (n / 12)) × (n % 12 ≡ 11)
january n h = (omega (arith, h), omega (arith, h))

later_month : (n k : ℕ) → suc n % 12 ≡ suc k → (suc n / 12 ≡ n / 12) × (n % 12 ≡ k)
later_month n k h = (omega (arith, h), omega (arith, h))

abbrev month_of : ℕ → Month
month_of n = record { number = pos n }

-- A span whose first month is of a year from 0 on.
abbrev pub span_from : ℕ → ℕ → Span
span_from f len = record { first = month_of f; len = len }

pos_sum : (a b : ℕ) → pos a +ℤ pos b ≡ pos (a + b)
unfolding ◌+ℤ◌
pos_sum a b = ground arith

index-month_of : (f len i : ℕ) → i < len → index (span_from f len) (month_of (f + i)) ≡ i
unfolding index last ◌-ℤ◌
index-month_of f len i h = ground arith

module _ (C : Calendar) (laws : IsCalendar C) where
  first_day_lem :
      (n : ℕ)
      → n < 120000
      → (d : C.Date) × (first_day C (month_of n) ≡ some d)
        × (C.year d ≡ pos (n / 12))
        × (C.month d ≡ n % 12 + 1)
        × (C.day d ≡ 1)
  unfolding first_day
  first_day_lem n h = laws.first_of (n / 12) (n % 12) (omega (arith, h)) (omega arith)

  -- The day before the first of a month, which is January or a later one.
  day_before_first :
      (n k : ℕ) (d : C.Date)
      → suc n % 12 ≡ k
      → C.year d ≡ pos (suc n / 12)
      → C.month d ≡ suc n % 12 + 1
      → C.day d ≡ 1
      → (e : C.Date) × (C.previous_day d ≡ some e)
        × (C.year e ≡ pos (n / 12))
        × (C.month e ≡ n % 12 + 1)
  day_before_first n zero d h year month day =
      let (same_year, same_month) = january n h in
      let (e, before, y, m) =
        laws.before_january (n / 12) d (year ∙ ap pos same_year) (month ∙ ap (λ x. x + 1) h) day in
      (e, before, y, m ∙ omega (arith, same_month))
  day_before_first n (suc k) d h year month day =
      let (same_year, same_month) = later_month n k h in
      let (e, before, y, m) =
        laws.before_first (n / 12) k d (year ∙ ap pos same_year) (omega (arith, month, h)) day in
      (e, before, y, m ∙ omega (arith, same_month))

  last_day_lem :
      (n : ℕ)
      → suc n < 120000
      → (e : C.Date) × (last_day C (month_of n) ≡ some e)
        × (C.year e ≡ pos (n / 12))
        × (C.month e ≡ n % 12 + 1)
  unfolding last_day
  last_day_lem n h =
      let (d, made, year, month, day) = first_day_lem (suc n) h in
      let (e, before, y, m) = day_before_first n (suc n % 12) d refl year month day in
      let next : pos n +ℤ pos 1 ≡ pos (suc n) = pos_sum n 1 ∙ ap pos (omega arith) in
      let later = ap (λ i. first_day C (record { number = i })) next in
      (e, ap (day_before C) (later ∙ made) ∙ before, y, m)

  parse_month-to_string :
      (n : ℕ) (d : C.Date)
      → n < 120000
      → C.year d ≡ pos (n / 12)
      → C.month d ≡ n % 12 + 1
      → parse_month C (C.to_string d) ≡ some (month_of n)
  unfolding parse_month of_date
  parse_month-to_string n d h year month =
      let bare = trim-bare (C.to_string d) (laws.no_space d) in
      let read = laws.read_back (n / 12) d year (omega (arith, h)) in
      ap (λ t. Option.map (of_date C) (C.parse t)) bare
      ∙ ap (Option.map (of_date C)) read
      ∙ ap₂ (λ y m. some (record { number = y *ℤ pos 12 +ℤ pos m -ℤ pos 1 })) year month
      ∙ ap (λ z. some (record { number = z })) (month_number n (n / 12) (n % 12 + 1) refl refl)

  parse_month-none : parse_month C [] ≡ none
  unfolding parse_month trim
  parse_month-none = ap (Option.map (of_date C)) laws.not_a_date

  -- A text that is read as a handle's month puts the handle there.
  sits_at :
      (f len i other : ℕ) (s : List ℕ)
      → i < len
      → parse_month C s ≡ some (month_of (f + i))
      → get_or other (Option.map (index (span_from f len)) (parse_month C s)) ≡ i
  sits_at f len i other s h read =
      ap (λ m. get_or other (Option.map (index (span_from f len)) m)) read
      ∙ index-month_of f len i h

  date_from_sits :
      (f len i : ℕ)
      → f + len ≤ 120000
      → i < len
      → (s : List ℕ) × (date_from C (span_from f len) i ≡ some s)
        × (get_or 0 (Option.map (index (span_from f len)) (parse_month C s)) ≡ i)
  unfolding date_from month_at
  date_from_sits f len zero h k =
      ([], refl, ap (λ m. get_or 0 (Option.map (index (span_from f len)) m)) parse_month-none)
  date_from_sits f len (suc i) h k =
      let (d, made, year, month, day) = first_day_lem (f + suc i) (omega (arith, h, k)) in
      let at = ap (λ z. first_day C (record { number = z })) (pos_sum f (suc i)) in
      let not_first : (suc i == 0) ≡ false = ground arith in
      (
        C.to_string d,
        if_false _ _ not_first ∙ ap (Option.map C.to_string) (at ∙ made),
        sits_at f len (suc i) 0 (C.to_string d) k
            (parse_month-to_string (f + suc i) d (omega (arith, h, k)) year month),
      )

  date_to_sits :
      (f len i : ℕ)
      → f + len ≤ 120000
      → i < len
      → (s : List ℕ) × (date_to C (span_from f len) i ≡ some s)
        × (get_or (last (span_from f len)) (Option.map (index (span_from f len)) (parse_month C s))
            ≡ i)
  unfolding date_to month_at last
  date_to_sits f len i h k = elim (Bool-cases (leb (len - 1) i)) [
    | inl e ↦ (
      [],
      if_true _ _ e,
      ap (λ m. get_or (len - 1) (Option.map (index (span_from f len)) m)) parse_month-none
          ∙ omega (arith, leb→le (len - 1) i e, k),
    )
    | inr e ↦
        let below : suc (f + i) < 120000 = ground (arith, e, h, k) in
        let (d, made, year, month) = last_day_lem (f + i) below in
        let at = ap (λ z. last_day C (record { number = z })) (pos_sum f i) in
        (
          C.to_string d,
          if_false _ _ e ∙ ap (Option.map C.to_string) (at ∙ made),
          sits_at f len i (len - 1) (C.to_string d) k
              (parse_month-to_string (f + i) d (omega (arith, below)) year month),
        )
  ]

  -- The dates that two handles set put the handles there again, wherever they stand in the span,
  -- and no expect panics on the way. The condition: the months of the span are of the years 0 to
  -- 9999.
  pub handles-dates :
      (f len i j : ℕ)
      → f + len ≤ 120000
      → i < len
      → j < len
      → (from : List ℕ) × (to : List ℕ) × (date_from C (span_from f len) i ≡ some from)
        × (date_to C (span_from f len) j ≡ some to)
        × (handles C (span_from f len) from to ≡ (i, j))
  unfolding handles
  handles-dates f len i j h k l =
      let (from, sets_from, left) = date_from_sits f len i h k in
      let (to, sets_to, right) = date_to_sits f len j h l in
      (from, to, sets_from, sets_to, ap₂ (λ a b. (a, b)) left right)
