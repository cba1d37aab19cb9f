-- ===== src/Qmapshack/Blob/Waypoint.antt =====
-- The blob of a waypoint item: server/qmapshack/blob/waypoint.rs. The float's `round() as i32` is a
-- parameter.
use mathlib.Core.Option
use gps_trips.Prelude.{ℕ, List, Option, none, some, codes}
use gps_trips.Prelude.Int.{ℤ, negsuc}
use gps_trips.Qmapshack.Crates.{TimeCrate, BytesCrate}
use gps_trips.Qmapshack.Qtstream.{Writer, ◌▸◌, fresh, u8, u32, i32, f64, qstring}
use gps_trips.Qmapshack.Blob.{
  nofloat, who, WptBase, write_wpt_base, write_chunk, build_history, lowercase_md5,
}

abbrev pub magic_wpt : List ℕ
magic_wpt = codes "QMWpt     "

abbrev pub ver_wpt : ℕ
ver_wpt = 4

pub record WaypointBlobInput : Type 0 where
  pub keyqms : List ℕ
  pub name : List ℕ
  pub desc : Option (List ℕ)
  pub lat : ℕ
  pub lon : ℕ
  pub ele : Option ℕ
  pub sym : Option (List ℕ)

module _ (T : TimeCrate) (round_as_i32 : ℕ → ℤ) where
  abbrev pub waypoint_base : WaypointBlobInput → WptBase T
  waypoint_base input = record {
    lat = input.lat;
    lon = input.lon;
    ele = Option.map round_as_i32 input.ele;
    time = none;
    name = some input.name;
    desc = input.desc;
    src = some who;
    sym = input.sym;
  }

  -- The writer of the waypoint's `build_inner_fields`.
  unfoldable pub write_waypoint_fields : WaypointBlobInput → Writer
  write_waypoint_fields input =
      qstring (some input.keyqms)
      ▸ u32 0
      ▸ f64 nofloat
      ▸ write_wpt_base T (waypoint_base input)
      ▸ u8 3
      ▸ u8 0
      ▸ u32 0
      ▸ i32 (negsuc 319)
      ▸ i32 (negsuc 149)
      ▸ u32 300
      ▸ f64 0
      ▸ u32 0

  unfoldable pub build_waypoint_fields : WaypointBlobInput → List ℕ
  build_waypoint_fields input = (write_waypoint_fields input fresh).buf

  unfoldable pub build_waypoint_chunk : BytesCrate → WaypointBlobInput → List ℕ
  build_waypoint_chunk B input =
      (write_chunk B magic_wpt ver_wpt (build_waypoint_fields input) fresh).buf

  unfoldable pub build_waypoint_item :
      BytesCrate → WaypointBlobInput → T.OffsetDateTime → List ℕ × List ℕ
  build_waypoint_item B input event_time =
      let chunk = build_waypoint_chunk B input in
      let hash = lowercase_md5 B chunk in (build_history T chunk hash event_time, hash)
