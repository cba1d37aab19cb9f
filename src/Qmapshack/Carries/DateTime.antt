-- ===== src/Qmapshack/Carries/DateTime.antt =====
-- `qdatetime` on both sides.
use gps_trips.Prelude.{if_false, ℕ, ◌%◌, ◌^◌, ◌<◌, ◌≡◌, refl, false, Option, none, some, arith}
use gps_trips.Prelude.Int.{ℤ, pos, negsuc}
use gps_trips.Qmapshack.Words.{InRange}
use gps_trips.Qmapshack.Crates.{TimeCrate, TimeLaws, day_ms}
use gps_trips.Qmapshack.Qtstream
use gps_trips.Qmapshack.Qtstream.{◌▸◌, nothing}
use gps_trips.Qmapshack.Reader
use gps_trips.Qmapshack.Reader.{
  Reader, pure, ◌>>=◌, to_i32, is_i64_min, is_null_time, date_time, offset_payload,
}
use gps_trips.Qmapshack.Carries.{
  Carries, Carries-bind, Carries-end, Carries-require, Carries-nothing, Carries-pure, Carries-tail,
}
use gps_trips.Qmapshack.Carries.Primitives.{Carries-u8, Carries-u32, Carries-i64}

day_facts :
    (jd : ℤ)
    → InRange (2 ^ 31) jd
    → InRange (2 ^ 63) jd × (to_i32 jd ≡ some jd) × (is_i64_min jd ≡ false)
unfolding to_i32 is_i64_min
day_facts (pos n) h = (omega arith, ground arith, refl)
day_facts (negsuc n) h = (omega arith, ground arith, ground arith)

present_time :
    (jd : ℤ) (ms : ℕ) → is_i64_min jd ≡ false → ms < 86400000 → is_null_time jd ms ≡ false
unfolding is_null_time
present_time jd ms h lt = rw h (ground arith)

module _ (T : TimeCrate) where
  -- What the reader has instead of a date-time without a fraction of a millisecond.
  abbrev pub in_utc : Option T.OffsetDateTime → Option T.OffsetDateTime
  in_utc none = none
  in_utc (some t) = some (T.to_utc t)

  abbrev pub IsWholeMs : Option T.OffsetDateTime → Type 0
  IsWholeMs none = Unit
  IsWholeMs (some t) = T.nanosecond (T.to_utc t) % 1000000 ≡ 0

module _ (T : TimeCrate) (laws : TimeLaws T) where
  day_ms-lt : (t : T.OffsetDateTime) → day_ms T t < 86400000
  day_ms-lt t =
      omega (arith, laws.hour-lt t, laws.minute-lt t, laws.second-lt t, laws.millisecond-lt t)

  -- What the reader makes of the three parts.
  date_time_lem :
      (t : T.OffsetDateTime)
      → T.nanosecond (T.to_utc t) % 1000000 ≡ 0
      → Carries nothing
          (date_time T (T.to_julian_day (T.to_utc t)) (day_ms T (T.to_utc t)) (pos 0))
          (T.to_utc t)
  unfolding date_time
  date_time_lem t whole =
      let (d, o, ed, eo, again) = laws.rebuild t whole in
      let (_, small, _) = day_facts _ (laws.julian_day-InRange (T.to_utc t)) in
      Carries-require _ nothing _ _ _ small (
        Carries-require _ nothing d _ _ ed
          (Carries-require _ nothing o _ _ eo (rw again (Carries-nothing))))

  pub Carries-qdatetime :
      (t : T.OffsetDateTime)
      → T.nanosecond (T.to_utc t) % 1000000 ≡ 0
      → Carries (Qtstream.qdatetime T (some t)) (Reader.qdatetime T) (some (T.to_utc t))
  unfolding Qtstream.qdatetime Reader.qdatetime
  Carries-qdatetime t whole =
      let utc = T.to_utc t in
      let (wide, _, not_min) = day_facts _ (laws.julian_day-InRange utc) in
      let present : is_null_time (T.to_julian_day utc) (day_ms T utc) ≡ false =
        present_time _ _ not_min (day_ms-lt utc) in
      Carries-bind _ _ _ _ (Carries-i64 _ wide) (
        Carries-bind _ _ _ _ (Carries-u32 (day_ms T utc) (omega (arith, day_ms-lt utc))) (
          Carries-tail (Qtstream.u8 1) Reader.u8 _ (Carries-u8 1) (
            Carries-pure nothing (pos 0) _ (
              rw (if_false _ _ present) (
                Carries-end nothing (date_time T (T.to_julian_day utc) (day_ms T utc) (pos 0)) some
                  (date_time_lem t whole))))))

  pub Carries-qdatetime_null : Carries (Qtstream.qdatetime T none) (Reader.qdatetime T) none
  unfolding Qtstream.qdatetime Reader.qdatetime is_null_time
  Carries-qdatetime_null = Carries-bind _ _ _ _ (Carries-i64 _ (omega arith)) (
      Carries-bind _ _ _ _ (Carries-u32 _ (omega arith)) (
        Carries-tail (Qtstream.u8 0) Reader.u8 _ (Carries-u8 0)
          (Carries-pure nothing (pos 0) _ Carries-nothing)))

  pub Carries-qdatetime_option :
      (o : Option T.OffsetDateTime)
      → IsWholeMs T o
      → Carries (Qtstream.qdatetime T o) (Reader.qdatetime T) (in_utc T o)
  Carries-qdatetime_option none h = Carries-qdatetime_null
  Carries-qdatetime_option (some t) h = Carries-qdatetime t h
