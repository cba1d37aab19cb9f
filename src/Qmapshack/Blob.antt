-- ===== src/Qmapshack/Blob.antt =====
-- The blob of a track item: server/qmapshack/blob.rs. A text is the list of its scalar values and a
-- 64-bit float is its bit pattern.
pub mod Waypoint
use gps_trips.Prelude.{
  ℕ, ◌+◌, ◌-◌, ◌/◌, ◌%◌, ◌^◌, Bool, true, List, [], ◌∷◌, Option, none, some, codes, ltb,
  if◌then◌else◌, length,
}
use gps_trips.Prelude.Int.{ℤ, pos}
use gps_trips.Qmapshack.Crates.{TimeCrate, BytesCrate}
use gps_trips.Qmapshack.Qtstream.{
  Writer, ◌▸◌, for_each, fresh, raw, u8, i16, u32, i32, u64, f64, qstring, qbytearray, qdatetime,
  qcompress,
}

abbrev pub noint : ℤ
noint = pos 0x7fff_ffff

-- 1e12, 0.0, 1.0, 75.0, 15.0, 1.2, 0.65 and 0.005
abbrev pub nofloat : ℕ
nofloat = 0x426d_1a94_a200_0000

abbrev f64_0 : ℕ
f64_0 = 0

abbrev f64_1 : ℕ
f64_1 = 0x3ff0_0000_0000_0000

abbrev f64_75 : ℕ
f64_75 = 0x4052_c000_0000_0000

abbrev f64_15 : ℕ
f64_15 = 0x402e_0000_0000_0000

abbrev f64_1_2 : ℕ
f64_1_2 = 0x3ff3_3333_3333_3333

abbrev f64_0_65 : ℕ
f64_0_65 = 0x3fe4_cccc_cccc_cccd

abbrev f64_0_005 : ℕ
f64_0_005 = 0x3f74_7ae1_47ae_147b

abbrev pub magic_trk : List ℕ
magic_trk = codes "QMTrk     "

abbrev pub ver_trk : ℕ
ver_trk = 7

abbrev pub event_icon : List ℕ
event_icon = codes "://icons/48x48/Start.png"

abbrev pub event_comment : List ℕ
event_comment = codes "Initial version."

abbrev pub who : List ℕ
who = codes "trip-archive"

pub record WptBase (T : TimeCrate) : Type 0 where
  pub lat : ℕ
  pub lon : ℕ
  pub ele : Option ℤ
  pub time : Option T.OffsetDateTime
  pub name : Option (List ℕ)
  pub desc : Option (List ℕ)
  pub src : Option (List ℕ)
  pub sym : Option (List ℕ)

pub record TrackPointIn (T : TimeCrate) : Type 0 where
  pub lat : ℕ
  pub lon : ℕ
  pub ele : Option ℤ
  pub time : Option T.OffsetDateTime

pub record TrackBlobInput (T : TimeCrate) : Type 0 where
  pub keyqms : List ℕ
  pub name : List ℕ
  pub desc : Option (List ℕ)
  pub trk_type : List ℕ
  pub color : List ℕ
  pub keywords : List (List ℕ)
  pub points : List (TrackPointIn T)

unfoldable pub write_climit : Writer
write_climit = u8 1 ▸ u8 2 ▸ qstring none ▸ f64 nofloat ▸ f64 nofloat

unfoldable pub write_cvalue_double : ℕ → Writer
write_cvalue_double value = u8 1 ▸ u8 0 ▸ u32 6 ▸ u8 0 ▸ f64 value

unfoldable pub write_cvalue_bool : Bool → Writer
write_cvalue_bool value = u8 1 ▸ u8 0 ▸ u32 1 ▸ u8 0 ▸ u8 (if value then 1 else 0)

unfoldable pub write_energy_defaults : Writer
write_energy_defaults =
    u8 1
    ▸ f64 f64_75
    ▸ f64 f64_15
    ▸ f64 f64_1_2
    ▸ i32 (pos 5)
    ▸ f64 f64_0
    ▸ i32 (pos 2)
    ▸ f64 f64_0_65
    ▸ f64 f64_1
    ▸ i32 (pos 3)
    ▸ f64 f64_0_005
    ▸ f64 f64_75
    ▸ f64 nofloat

-- `unwrap_or(NOINT)`
unfoldable pub ele_or_noint : Option ℤ → ℤ
ele_or_noint none = noint
ele_or_noint (some e) = e

module _ (T : TimeCrate) where
  unfoldable pub write_wpt_base : WptBase T → Writer
  unfolding ele_or_noint
  write_wpt_base wpt =
      u8 1
      ▸ f64 wpt.lat
      ▸ f64 wpt.lon
      ▸ i32 (ele_or_noint wpt.ele)
      ▸ qdatetime T wpt.time
      ▸ i32 noint
      ▸ i32 noint
      ▸ qstring wpt.name
      ▸ qstring none
      ▸ qstring wpt.desc
      ▸ qstring wpt.src
      ▸ u32 0
      ▸ qstring wpt.sym
      ▸ qstring none
      ▸ qstring none
      ▸ for_each (λ (k : ℕ). i32 noint) (0 ∷ 1 ∷ 2 ∷ 3 ∷ 4 ∷ 5 ∷ [])

  -- A track point as a `wpt_t`: what the archive does not know is not set.
  abbrev pub point_base : TrackPointIn T → WptBase T
  point_base point = record {
    lat = point.lat;
    lon = point.lon;
    ele = point.ele;
    time = point.time;
    name = none;
    desc = none;
    src = none;
    sym = none;
  }

  unfoldable pub write_trkpt : TrackPointIn T → Writer
  write_trkpt point = u8 3 ▸ u32 0 ▸ write_wpt_base (point_base point) ▸ u32 0 ▸ i16 (pos 0)

  -- The writer of `build_inner_fields`.
  unfoldable pub write_inner_fields : TrackBlobInput T → Writer
  write_inner_fields input =
      qstring (some input.keyqms)
      ▸ u32 0
      ▸ qstring (some input.name)
      ▸ qstring none
      ▸ qstring input.desc
      ▸ qstring (some who)
      ▸ u32 0
      ▸ u64 0
      ▸ qstring (some input.trk_type)
      ▸ qstring (some input.color)
      ▸ f64 f64_0
      ▸ u32 (length input.keywords % 2 ^ 32)
      ▸ for_each (λ keyword. qstring (some keyword)) input.keywords
      ▸ write_climit
      ▸ write_cvalue_double f64_1
      ▸ write_cvalue_bool true
      ▸ write_climit
      ▸ write_climit
      ▸ write_climit
      ▸ write_energy_defaults
      ▸ u32 1
      ▸ u8 1
      ▸ u32 (length input.points % 2 ^ 32)
      ▸ for_each write_trkpt input.points

  unfoldable pub build_inner_fields : TrackBlobInput T → List ℕ
  build_inner_fields input = (write_inner_fields input fresh).buf

-- `{b:02x}`
unfoldable pub hex_digit : ℕ → ℕ
hex_digit d = if ltb d 10 then b'0' + d else b'a' + (d - 10)

unfoldable pub hex : List ℕ → List ℕ
unfolding hex_digit
hex [] = []
hex (b ∷ bs) = hex_digit (b / 16) ∷ hex_digit (b % 16) ∷ hex bs

unfoldable pub lowercase_md5 : BytesCrate → List ℕ → List ℕ
lowercase_md5 B bytes = hex (B.md5 bytes)

-- A chunk: magic, version and the compressed fields.
unfoldable pub write_chunk : BytesCrate → List ℕ → ℕ → List ℕ → Writer
write_chunk B magic ver fields = raw magic ▸ u8 ver ▸ qbytearray (qcompress B fields)

module _ (T : TimeCrate) (B : BytesCrate) where
  unfoldable pub build_track_chunk : TrackBlobInput T → List ℕ
  unfolding write_chunk
  build_track_chunk input = (write_chunk B magic_trk ver_trk (build_inner_fields T input) fresh).buf

module _ (T : TimeCrate) where
  -- The writer of `build_history`.
  unfoldable pub write_history : List ℕ → List ℕ → T.OffsetDateTime → Writer
  write_history chunk hash event_time =
      u8 1
      ▸ i32 (pos 0)
      ▸ i32 (pos 0)
      ▸ u32 1
      ▸ u8 3
      ▸ qdatetime T (some event_time)
      ▸ qstring (some event_icon)
      ▸ qstring (some event_comment)
      ▸ qbytearray chunk
      ▸ qstring (some hash)
      ▸ qstring (some who)

  unfoldable pub build_history : List ℕ → List ℕ → T.OffsetDateTime → List ℕ
  build_history chunk hash event_time = (write_history chunk hash event_time fresh).buf

module _ (T : TimeCrate) (B : BytesCrate) where
  unfoldable pub build_track_item : TrackBlobInput T → T.OffsetDateTime → List ℕ × List ℕ
  build_track_item input event_time =
      let chunk = build_track_chunk T B input in
      let hash = lowercase_md5 B chunk in (build_history T chunk hash event_time, hash)
