-- ===== src/Qmapshack/Decode/Waypoint.antt =====
-- The decoder of waypoint items: server/qmapshack/decode/waypoint.rs.
use gps_trips.Prelude.{ℕ, List, Option, ◌==◌}
use gps_trips.Prelude.Int.{ℤ}
use gps_trips.Qmapshack.Crates.{TimeCrate, BytesCrate}
use gps_trips.Qmapshack.Reader.{
  Reader, Result, ok, unsupported, missing, not_decoded, pure, ensure, require, repeat, ◌>>=◌, ◌>>◌,
  u8, u32, i32, f64, qstring, quncompress,
}
use gps_trips.Qmapshack.Blob.{lowercase_md5}
use gps_trips.Qmapshack.Blob.Waypoint.{magic_wpt, ver_wpt}
use gps_trips.Qmapshack.Decode.{
  CurrentEvent, keyword, wpt_base, DecodedWpt, read_all, and_then, chunk_payload, decode_history,
}

pub record DecodedWaypoint (T : TimeCrate) : Type 0 where
  pub keyqms : List ℕ
  pub name : Option (List ℕ)
  pub desc : Option (List ℕ)
  pub lat : ℕ
  pub lon : ℕ
  pub ele : Option ℤ
  pub time : Option T.OffsetDateTime
  pub sym : Option (List ℕ)
  pub keywords : List (List ℕ)
  pub hash : List ℕ
  pub who : Option (List ℕ)
  pub chunk_md5 : List ℕ

module _ (T : TimeCrate) where
  -- The fields of the chunk, which are the key, the `wpt_t` and the keywords.
  unfoldable pub waypoint_fields : Reader (List ℕ × DecodedWpt T × List (List ℕ))
  waypoint_fields = do
    key ← qstring
    keyqms ← require key (missing "key.item")
    u32
    f64
    wpt ← wpt_base T
    ver_gc ← u8
    ensure (ver_gc == 3) (unsupported "VER_GC_T" ver_gc)
    has_data ← u8
    ensure (has_data == 0) (not_decoded "geocache data")
    images ← u32
    ensure (images == 0) (not_decoded "images")
    i32
    i32
    u32
    f64
    n_keywords ← u32
    keywords ← repeat n_keywords keyword
    pure (keyqms, wpt, keywords)

  abbrev pub waypoint_of :
      BytesCrate → CurrentEvent → List ℕ × DecodedWpt T × List (List ℕ) → DecodedWaypoint T
  waypoint_of B current (keyqms, wpt, keywords) = record {
    keyqms = keyqms;
    name = wpt.name;
    desc = wpt.desc;
    lat = wpt.point.lat;
    lon = wpt.point.lon;
    ele = wpt.point.ele;
    time = wpt.point.time;
    sym = wpt.sym;
    keywords = keywords;
    hash = current.hash;
    who = current.who;
    chunk_md5 = lowercase_md5 B current.chunk;
  }

  unfoldable pub decode_waypoint_item : BytesCrate → List ℕ → Result (DecodedWaypoint T)
  decode_waypoint_item B bytes = and_then (decode_history T bytes) λ current.
      and_then (read_all (chunk_payload magic_wpt ver_wpt) current.chunk) λ compressed.
        and_then (quncompress B compressed) λ inner.
          and_then (read_all waypoint_fields inner) λ fields. ok (waypoint_of B current fields)
