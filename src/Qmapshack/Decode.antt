-- ===== src/Qmapshack/Decode.antt =====
-- The strict decoder of track items: server/qmapshack/decode.rs.
pub mod Waypoint
use mathlib.Core.List.{flatten}
use gps_trips.Prelude.{
  ℕ, zero, suc, ◌+◌, ◌-◌, ◌^◌, Bool, false, List, [], Option, none, some, ◌==◌, ltb, if◌then◌else◌,
  text_eq,
}
use gps_trips.Prelude.Int.{ℤ, pos, negsuc}
use gps_trips.Qmapshack.Crates.{TimeCrate, BytesCrate}
use gps_trips.Qmapshack.Reader.{
  QtReader, Reader, Result, ok, err, unsupported, index_out_of_range, missing, unaccounted,
  bad_magic, panicked, pure, ensure, require, repeat, ◌>>=◌, ◌>>◌, remaining, raw, u8, i16, u32,
  i32, u64, i64, f64, qstring, qbytearray, qdatetime, quncompress,
}
use gps_trips.Qmapshack.Blob.{magic_trk, ver_trk, lowercase_md5}

pub record DecodedPoint (T : TimeCrate) : Type 0 where
  pub lat : ℕ
  pub lon : ℕ
  pub ele : Option ℤ
  pub time : Option T.OffsetDateTime

pub record DecodedTrack (T : TimeCrate) : Type 0 where
  pub keyqms : List ℕ
  pub name : Option (List ℕ)
  pub desc : Option (List ℕ)
  pub trk_type : Option (List ℕ)
  pub color : Option (List ℕ)
  pub keywords : List (List ℕ)
  pub hash : List ℕ
  pub who : Option (List ℕ)
  pub chunk_md5 : List ℕ
  pub points : List (DecodedPoint T)

pub record CurrentEvent : Type 0 where
  pub chunk : List ℕ
  pub hash : List ℕ
  pub who : Option (List ℕ)

pub record DecodedWpt (T : TimeCrate) : Type 0 where
  pub point : DecodedPoint T
  pub name : Option (List ℕ)
  pub desc : Option (List ℕ)
  pub sym : Option (List ℕ)

-- One entry of `links`: uri, text and type.
unfoldable pub link : Reader (Unit {0})
link = do
  ver ← u8
  ensure (ver == 1) (unsupported "VER_LINK" ver)
  qstring
  qstring
  qstring
  pure tt

unfoldable pub links : Reader (Unit {0})
unfolding link
links = do n ← u32; repeat n link; pure tt

-- The payload of a `QVariant` of that type id.
unfoldable pub variant_payload : ℕ → Reader (Unit {0})
variant_payload type_id =
    if type_id == 0
    then pure tt
    else if type_id == 1
    then (do u8; pure tt)
    else if type_id == 2
    then (do i32; pure tt)
    else if type_id == 3
    then (do u32; pure tt)
    else if type_id == 4
    then (do i64; pure tt)
    else if type_id == 5
    then (do u64; pure tt)
    else if type_id == 6
    then (do f64; pure tt)
    else if type_id == 10
    then (do qstring; pure tt)
    else if type_id == 12
    then (do qbytearray; pure tt)
    else λ r. err (unsupported "QVariant type id" type_id)

unfoldable pub qvariant : Reader (Unit {0})
unfolding variant_payload
qvariant = do type_id ← u32; u8; variant_payload type_id

unfoldable pub climit : Reader (Unit {0})
climit = do
  ver ← u8
  ensure (ver == 1) (unsupported "VER_CLIMIT" ver)
  u8
  qstring
  f64
  f64
  pure tt

unfoldable pub cvalue : Reader (Unit {0})
cvalue = do ver ← u8; ensure (ver == 1) (unsupported "VER_CVALUE" ver); u8; qvariant

unfoldable pub energy_set : Reader (Unit {0})
energy_set = do
  ver ← u8
  ensure (ver == 1) (unsupported "VER_ENERGYCYCLE" ver)
  f64
  f64
  f64
  i32
  f64
  i32
  f64
  f64
  i32
  f64
  f64
  f64
  pure tt

unfoldable pub keyword : Reader (List ℕ)
keyword = do s ← qstring; require s (missing "keyword")

-- `(ele != NOINT).then_some(ele)`
unfoldable pub known_ele : ℤ → Option ℤ
known_ele (pos n) = if n == 0x7fff_ffff then none else some (pos n)
known_ele (negsuc n) = some (negsuc n)

module _ (T : TimeCrate) where
  unfoldable pub wpt_base : Reader (DecodedWpt T)
  wpt_base = do
    ver_wpt ← u8
    ensure (ver_wpt == 1) (unsupported "VER_WPT_T" ver_wpt)
    lat ← f64
    lon ← f64
    ele ← i32
    time ← qdatetime T
    i32
    i32
    name ← qstring
    qstring
    desc ← qstring
    qstring
    links
    sym ← qstring
    qstring
    qstring
    repeat 6 i32
    pure (record {
      point = record { lat = lat; lon = lon; ele = known_ele ele; time = time };
      name = name;
      desc = desc;
      sym = sym;
    })

  unfoldable pub extension : Reader (Unit {0})
  extension = do qstring; qvariant

  unfoldable pub trkpt : Reader (DecodedPoint T)
  unfolding extension
  trkpt = do
    ver ← u8
    ensure (ver == 3) (unsupported "VER_TRKPT" ver)
    u32
    wpt ← wpt_base
    n_ext ← u32
    repeat n_ext extension
    i16
    pure wpt.point

  unfoldable pub segment : Reader (List (DecodedPoint T))
  segment = do
    ver_seg ← u8
    ensure (ver_seg == 1) (unsupported "VER_TRKSEG" ver_seg)
    n_pts ← u32
    repeat n_pts trkpt

  -- The fields of a track, and what the decoder keeps of them.
  unfoldable pub inner_fields : Reader (DecodedTrack T)
  unfolding segment keyword
  inner_fields = do
    key ← qstring
    keyqms ← require key (missing "key.item")
    u32
    name ← qstring
    qstring
    desc ← qstring
    qstring
    links
    u64
    trk_type ← qstring
    color ← qstring
    f64
    n_keywords ← u32
    keywords ← repeat n_keywords keyword
    climit
    cvalue
    cvalue
    climit
    climit
    climit
    energy_set
    n_segs ← u32
    segs ← repeat n_segs segment
    pure (record {
      keyqms = keyqms;
      name = name;
      desc = desc;
      trk_type = trk_type;
      color = color;
      keywords = keywords;
      hash = [];
      who = none;
      chunk_md5 = [];
      points = flatten segs;
    })

-- `r.remaining() == 0`
unfoldable pub exhausted : Reader (Unit {0})
exhausted r = if remaining r == 0 then ok (tt, r) else err (unaccounted (remaining r))

abbrev pub value_of {ℓ} : {A : Type ℓ} → Result (A × QtReader) → Result A
value_of (ok (a, r)) = ok a
value_of (err e) = err e

-- A reader of its own over `bytes`, which has to use them up.
unfoldable pub read_all {ℓ} : {A : Type ℓ} → Reader A → List ℕ → Result A
unfolding exhausted
read_all m bytes = value_of ((do a ← m; exhausted; pure a) (record { bytes = bytes; pos = 0 }))

abbrev pub and_then {ℓ κ} : {A : Type ℓ} {B : Type κ} → Result A → (A → Result B) → Result B
and_then (ok a) f = f a
and_then (err e) f = err e

-- The compressed payload of a chunk.
unfoldable pub chunk_payload : List ℕ → ℕ → Reader (List ℕ)
chunk_payload magic_of ver_of = do
  magic ← raw 10
  ensure (text_eq magic magic_of) (bad_magic magic)
  ver ← u8
  ensure (ver == ver_of) (unsupported "chunk version" ver)
  qbytearray

-- `idx_current >= 0 && (idx_current as u32) < n_events`
unfoldable pub index_ok : ℤ → ℕ → Bool
index_ok (pos i) n = ltb i n
index_ok (negsuc i) n = false

unfoldable pub as_u32 : ℤ → ℕ
as_u32 (pos i) = i
as_u32 (negsuc i) = 2 ^ 32 - 1 - i

-- `current.expect(…)`
unfoldable pub expect_current : Option CurrentEvent → Result CurrentEvent
expect_current none = err panicked
expect_current (some e) = ok e

module _ (T : TimeCrate) where
  unfoldable pub event : Reader CurrentEvent
  event = do
    ver_evt ← u8
    ensure (ver_evt == 3) (unsupported "VER_HIST_EVT" ver_evt)
    qdatetime T
    qstring
    qstring
    chunk ← qbytearray
    h ← qstring
    hash ← require h (missing "hash")
    who ← qstring
    pure (record { chunk = chunk; hash = hash; who = who })

  -- `for i in 0..n_events`, with the rounds that are left
  unfoldable pub events : ℕ → ℕ → ℕ → Option CurrentEvent → Reader (Option CurrentEvent)
  events zero i idx current = pure current
  events (suc k) i idx current = do
    e ← event
    events k (i + 1) idx (if i == idx then some e else current)

  unfoldable pub history : Reader (Option CurrentEvent)
  unfolding index_ok as_u32
  history = do
    ver_hist ← u8
    ensure (ver_hist == 1) (unsupported "VER_HIST" ver_hist)
    i32
    idx_current ← i32
    n_events ← u32
    ensure (index_ok idx_current n_events) (index_out_of_range idx_current n_events)
    events n_events 0 (as_u32 idx_current) none

  unfoldable pub decode_history : List ℕ → Result CurrentEvent
  unfolding expect_current
  decode_history bytes = and_then (read_all history bytes) expect_current

module _ (T : TimeCrate) (B : BytesCrate) where
  unfoldable pub decode_track_chunk : List ℕ → Result (DecodedTrack T)
  decode_track_chunk chunk =
      and_then (read_all (chunk_payload magic_trk ver_trk) chunk)
        λ compressed. and_then (quncompress B compressed) λ inner. read_all (inner_fields T) inner

  -- `track.chunk_md5 = …; track.hash = …; track.who = …`
  abbrev pub with_event : CurrentEvent → DecodedTrack T → DecodedTrack T
  with_event current track = record track {
    chunk_md5 = lowercase_md5 B current.chunk;
    hash = current.hash;
    who = current.who;
  }

  unfoldable pub decode_track_item : List ℕ → Result (DecodedTrack T)
  decode_track_item bytes =
      and_then (decode_history T bytes) λ current.
        and_then (decode_track_chunk current.chunk) λ track. ok (with_event current track)
