-- ===== src/Qmapshack/Runs.antt =====
-- Concrete runs, and the theorems at concrete inputs.
use gps_trips.Prelude.{
  ℕ, ◌*◌, ◌%◌, ◌^◌, ◌<◌, ◌≡◌, ◌≢◌, refl, List, [], ◌∷◌, ◌++◌, Option, none, some, arith, codes,
  length, All,
}
use gps_trips.Prelude.Int.{ℤ, pos, negsuc}
use native.Mathlib.Decide.{ℕ_discrete}
use gps_trips.Qmapshack.Words.{InRange, le_bytes, be_bytes_u32}
use gps_trips.Qmapshack.Utf16.{encode_utf16}
use gps_trips.Qmapshack.Crates.{TimeCrate, TimeLaws, BytesCrate, BytesLaws}
use gps_trips.Qmapshack.Qtstream
use gps_trips.Qmapshack.Qtstream.{◌▸◌, for_each, nothing, fresh, qcompress}
use gps_trips.Qmapshack.Reader.{ok, err, unaccounted}
use gps_trips.Qmapshack.Carries.Primitives.{IsText, ascii-IsText, Fits}
use gps_trips.Qmapshack.Blob.{
  TrackBlobInput, build_inner_fields, write_inner_fields, build_track_chunk, write_chunk,
  build_track_item, write_trkpt, write_wpt_base, write_climit, write_cvalue_double,
  write_cvalue_bool, write_energy_defaults,
}
use gps_trips.Qmapshack.Decode.{decode_track_item, read_all, history}
use gps_trips.Qmapshack.Blob.Waypoint.{
  WaypointBlobInput, build_waypoint_fields, write_waypoint_fields, build_waypoint_chunk,
  build_waypoint_item,
}
use gps_trips.Qmapshack.Decode.Waypoint.{decode_waypoint_item}
use gps_trips.Qmapshack.RoundTrip.Waypoint.{
  IsWaypoint, decoded_waypoint, decode_waypoint_item-build_waypoint_item,
}
use gps_trips.Qmapshack.Strict.{decode_track_item_trailing, history-ne-none}

-- Two instants on two days, put together again from their day.
data Instant : Type 0 where
  early late : Instant

day_of : Instant → ℤ
day_of early = pos 2460462
day_of late = pos 2460463

instant_of : ℤ → Instant
instant_of (pos n) = elim (ℕ_discrete n 2460462) [ yes p ↦ early | no p ↦ late ]
instant_of (negsuc n) = late

abbrev calendar : TimeCrate
calendar = record {
  OffsetDateTime = Instant;
  Date = ℤ;
  Time = ℕ;
  UtcOffset = ℤ;
  to_utc = λ t. t;
  to_julian_day = day_of;
  hour = λ t. 8;
  minute = λ t. 30;
  second = λ t. 15;
  millisecond = λ t. 250;
  nanosecond = λ t. 250000000;
  from_julian_day = λ d. some d;
  from_whole_seconds = λ s. some s;
  midnight_plus_ms = λ ms. ms;
  assume_offset = λ d ms o. instant_of d;
}

calendar_days : (t : Instant) → InRange (2 ^ 31) (day_of t)
unfolding day_of
calendar_days early = omega arith
calendar_days late = omega arith

calendar_again : (t : Instant) → instant_of (day_of t) ≡ t
unfolding day_of instant_of ℕ_discrete
calendar_again early = refl
calendar_again late = refl

abbrev calendar_laws : TimeLaws calendar
calendar_laws = record {
  hour-lt = λ t. omega arith;
  minute-lt = λ t. omega arith;
  second-lt = λ t. omega arith;
  millisecond-lt = λ t. omega arith;
  julian_day-InRange = calendar_days;
  rebuild = λ t whole. (day_of t, pos 0, refl, refl, calendar_again t);
}

-- A frame of one byte before the bytes, and a digest that is the length.
unframe : List ℕ → Option (List ℕ)
unframe [] = none
unframe (b ∷ bytes) = some bytes

abbrev digest : List ℕ → List ℕ
digest bytes =
    (length bytes % 256) ∷ 1 ∷ 2 ∷ 3 ∷ 4 ∷ 5 ∷ 6 ∷ 7 ∷ 8 ∷ 9 ∷ 10 ∷ 11 ∷ 12 ∷ 13 ∷ 14 ∷ 15 ∷ []

abbrev framing : BytesCrate
framing = record { deflate = λ bytes. 0x78 ∷ bytes; inflate = unframe; md5 = digest }

framing_laws : BytesLaws framing
unfolding unframe
framing_laws = record {
  inflate-deflate = λ bytes. refl;
  deflate-ne_empty = λ bytes. omega arith;
  length-md5 = λ bytes. omega arith;
  md5-bytes = λ bytes. omega arith;
}

abbrev tour : TrackBlobInput calendar
tour = record {
  keyqms = codes "trip-archive:trip:42";
  name = codes "Langs";
  desc = none;
  trk_type = codes "hiking";
  color = codes "DarkRed";
  keywords = codes "fjell" ∷ codes "telt" ∷ [];
  points =
      record {
        lat = 0x404d_f47a_e147_ae14;
        lon = 0x4025_8000_0000_0000;
        ele = some (pos 100);
        time = some early;
      }
      ∷ record { lat = 0x404d_f5c2_8f5c_28f6; lon = 0x4025_851e_b851_eb85; ele = none; time = none }
      ∷ [];
}

ascii : (s : List ℕ) → All (λ c. c < 128) s → length s * 2 < 0xffff_ffff → IsText s
ascii = ascii-IsText

-- Sizes, by running the writers.
tour_size : length (build_inner_fields calendar tour) < 60000
unfolding build_inner_fields write_inner_fields write_trkpt write_wpt_base write_climit
    write_cvalue_double write_cvalue_bool write_energy_defaults ◌▸◌ for_each nothing le_bytes
    encode_utf16 day_of Qtstream.u8 Qtstream.i16 Qtstream.u32 Qtstream.i32 Qtstream.u64 Qtstream.i64
    Qtstream.f64 Qtstream.qstring Qtstream.qdatetime
tour_size = omega arith

chunk_size : Fits (build_track_chunk calendar framing tour)
unfolding build_track_chunk write_chunk Qtstream.raw Qtstream.u8 Qtstream.u32 Qtstream.qbytearray
    ◌▸◌ qcompress be_bytes_u32 le_bytes
chunk_size = omega (arith, tour_size)

decode_track_item_trailing_example :
    decode_track_item calendar framing
      ((build_track_item calendar framing tour late).0 ++ 7 ∷ 8 ∷ [])
    ≡ err (unaccounted 2)
decode_track_item_trailing_example =
    decode_track_item_trailing calendar calendar_laws framing framing_laws tour late 7 (8 ∷ []) refl
      chunk_size

history-ne-none_example :
    read_all (history calendar) (build_track_item calendar framing tour late).0 ≢ ok none
history-ne-none_example = history-ne-none calendar (build_track_item calendar framing tour late).0

-- A waypoint whose elevation rounds to 996.
abbrev rounded : ℕ → ℤ
rounded e = pos 996

abbrev lodge : WaypointBlobInput
lodge = record {
  keyqms = codes "trip-archive:waypoint:7";
  name = codes "Gjendebu";
  desc = some (codes "DNT-hytte");
  lat = 0x404e_bd70_a3d7_0a3d;
  lon = 0x4021_3d70_a3d7_0a3d;
  ele = some 0x408f_1ccc_cccc_cccd;
  sym = some (codes "Lodge");
}

lodge-IsWaypoint : IsWaypoint rounded lodge
lodge-IsWaypoint = record {
  keyqms = ascii _ (omega arith) (omega arith);
  name = ascii _ (omega arith) (omega arith);
  desc = ascii _ (omega arith) (omega arith);
  sym = ascii _ (omega arith) (omega arith);
  lat-lt = omega arith;
  lon-lt = omega arith;
  ele = (omega arith, λ e. ground arith);
}

lodge_size : length (build_waypoint_fields calendar rounded lodge) < 60000
unfolding build_waypoint_fields write_waypoint_fields write_wpt_base ◌▸◌ for_each nothing le_bytes
    encode_utf16 Qtstream.u8 Qtstream.u32 Qtstream.i32 Qtstream.i64 Qtstream.f64 Qtstream.qstring
    Qtstream.qdatetime
lodge_size = omega arith

lodge_compressed : Fits (qcompress framing (build_waypoint_fields calendar rounded lodge))
unfolding qcompress be_bytes_u32
lodge_compressed = omega (arith, lodge_size)

lodge_chunk : Fits (build_waypoint_chunk calendar rounded framing lodge)
unfolding build_waypoint_chunk write_chunk Qtstream.raw Qtstream.u8 Qtstream.u32 Qtstream.qbytearray
    ◌▸◌ qcompress be_bytes_u32 le_bytes
lodge_chunk = omega (arith, lodge_size)

decode_waypoint_item-build_waypoint_item_example :
    (decode_waypoint_item calendar framing
        (build_waypoint_item calendar rounded framing lodge early).0
      ≡ ok (decoded_waypoint calendar rounded framing lodge))
    × ((build_waypoint_item calendar rounded framing lodge early).1
        ≡ (decoded_waypoint calendar rounded framing lodge).hash)
decode_waypoint_item-build_waypoint_item_example =
    decode_waypoint_item-build_waypoint_item calendar calendar_laws rounded framing framing_laws
      lodge early lodge-IsWaypoint refl (omega (arith, lodge_size)) lodge_compressed lodge_chunk
