-- ===== src/Qmapshack/Crates.antt =====
-- What the export takes from third-party crates: `time` (dates), `flate2` (zlib) and `md5`. The
-- operations are parameters; the laws state the documented behaviour that the code relies on.
use gps_trips.Prelude.{ℕ, ◌+◌, ◌*◌, ◌%◌, ◌^◌, ◌<◌, ◌≡◌, List, Option, some, length, All}
use gps_trips.Prelude.Int.{ℤ, pos}
use gps_trips.Qmapshack.Words.{InRange}

-- `OffsetDateTime` with what is asked of it, and the parts that one is put together from.
pub record TimeCrate : Type 1 where
  pub OffsetDateTime : Type 0
  pub Date : Type 0
  pub Time : Type 0
  pub UtcOffset : Type 0
  -- `to_offset(UtcOffset::UTC)`
  pub to_utc : OffsetDateTime → OffsetDateTime
  -- `date().to_julian_day()`, and the parts of `time()`
  pub to_julian_day : OffsetDateTime → ℤ
  pub hour : OffsetDateTime → ℕ
  pub minute : OffsetDateTime → ℕ
  pub second : OffsetDateTime → ℕ
  pub millisecond : OffsetDateTime → ℕ
  pub nanosecond : OffsetDateTime → ℕ
  -- `none` is an error
  pub from_julian_day : ℤ → Option Date
  pub from_whole_seconds : ℤ → Option UtcOffset
  -- `Time::MIDNIGHT + Duration::milliseconds(ms)`
  pub midnight_plus_ms : ℕ → Time
  -- `date.with_time(time).assume_offset(offset)`
  pub assume_offset : Date → Time → UtcOffset → OffsetDateTime

-- The milliseconds since midnight of the parts.
abbrev pub day_ms : (T : TimeCrate) → T.OffsetDateTime → ℕ
day_ms T t = (T.hour t * 3600 + T.minute t * 60 + T.second t) * 1000 + T.millisecond t

pub record TimeLaws (T : TimeCrate) : Type 0 where
  pub hour-lt : (t : T.OffsetDateTime) → T.hour t < 24
  pub minute-lt : (t : T.OffsetDateTime) → T.minute t < 60
  pub second-lt : (t : T.OffsetDateTime) → T.second t < 60
  pub millisecond-lt : (t : T.OffsetDateTime) → T.millisecond t < 1000
  pub julian_day-InRange : (t : T.OffsetDateTime) → InRange (2 ^ 31) (T.to_julian_day t)
  -- A date-time in UTC without a fraction of a millisecond is put together again from its parts.
  pub rebuild :
      (t : T.OffsetDateTime)
      → T.nanosecond (T.to_utc t) % 1000000 ≡ 0
      → (d : T.Date) × (o : T.UtcOffset) × (T.from_julian_day (T.to_julian_day (T.to_utc t))
          ≡ some d)
        × (T.from_whole_seconds (pos 0) ≡ some o)
        × (T.to_utc (T.assume_offset d (T.midnight_plus_ms (day_ms T (T.to_utc t))) o) ≡ T.to_utc t)

-- A zlib encoder and decoder, and a message digest.
pub record BytesCrate : Type 0 where
  pub deflate : List ℕ → List ℕ
  -- `none` is an error
  pub inflate : List ℕ → Option (List ℕ)
  pub md5 : List ℕ → List ℕ

pub record BytesLaws (B : BytesCrate) : Type 0 where
  pub inflate-deflate : (bytes : List ℕ) → B.inflate (B.deflate bytes) ≡ some bytes
  pub deflate-ne_empty : (bytes : List ℕ) → 0 < length (B.deflate bytes)
  pub length-md5 : (bytes : List ℕ) → length (B.md5 bytes) ≡ 16
  pub md5-bytes : (bytes : List ℕ) → All (λ b. b < 256) (B.md5 bytes)
