-- ===== src/Qmapshack/RoundTrip/Waypoint.antt =====
-- `build_waypoint_item` and `decode_waypoint_item`.
use mathlib.Core.Option
use gps_trips.Prelude.{ℕ, ◌^◌, ◌<◌, ◌≡◌, refl, ap, ◌∙◌, List, [], none, some, arith, length}
use gps_trips.Prelude.Int.{ℤ}
use gps_trips.Qmapshack.Crates.{TimeCrate, TimeLaws, BytesCrate, BytesLaws}
use gps_trips.Qmapshack.Qtstream.{qcompress}
use gps_trips.Qmapshack.Reader.{ok, repeat, quncompress}
use gps_trips.Qmapshack.Carries.{
  Carries, Carries-bind, Carries-ensure, Carries-require, Carries-pure, Carries-nothing,
}
use gps_trips.Qmapshack.Carries.Primitives.{Fits, IsText, IsOptionalText, ascii-IsText}
use gps_trips.Qmapshack.Carries.DateTime.{IsWholeMs}
use gps_trips.Qmapshack.Carries.Steps.{
  step_u8, step_u32, step_f64, step_i32, step_qstring-some, last_u32,
}
use gps_trips.Qmapshack.Blob.{who, lowercase_md5}
use gps_trips.Qmapshack.Blob.Waypoint.{
  magic_wpt, ver_wpt, WaypointBlobInput, waypoint_base, write_waypoint_fields,
  build_waypoint_fields, build_waypoint_chunk, build_waypoint_item,
}
use gps_trips.Qmapshack.Decode.{CurrentEvent, DecodedWpt, read_all, and_then, chunk_payload}
use gps_trips.Qmapshack.Decode.Waypoint.{
  DecodedWaypoint, waypoint_fields, waypoint_of, decode_waypoint_item,
}
use gps_trips.Qmapshack.RoundTrip.Points.{IsWpt, IsElevation, decoded_wpt, Carries-wpt_base}
use gps_trips.Qmapshack.RoundTrip.Items.{
  read_all-Carries, quncompress-qcompress, Carries-chunk, decode_history-build_history,
}
use gps_trips.Qmapshack.RoundTrip.Track.{lowercase_md5-IsText}

-- What can be written of a waypoint without loss.
pub record IsWaypoint (round_as_i32 : ℕ → ℤ) (input : WaypointBlobInput) : Type 0 where
  pub keyqms : IsText input.keyqms
  pub name : IsText input.name
  pub desc : IsOptionalText input.desc
  pub sym : IsOptionalText input.sym
  pub lat-lt : input.lat < 2 ^ 64
  pub lon-lt : input.lon < 2 ^ 64
  pub ele : IsElevation (Option.map round_as_i32 input.ele)

module _ (T : TimeCrate) (round_as_i32 : ℕ → ℤ) (B : BytesCrate) where
  pub decoded_waypoint : WaypointBlobInput → DecodedWaypoint T
  decoded_waypoint input =
      let hash = lowercase_md5 B (build_waypoint_chunk T round_as_i32 B input) in
      record {
        keyqms = input.keyqms;
        name = some input.name;
        desc = input.desc;
        lat = input.lat;
        lon = input.lon;
        ele = Option.map round_as_i32 input.ele;
        time = none;
        sym = input.sym;
        keywords = [];
        hash = hash;
        who = some who;
        chunk_md5 = hash;
      }

module _ (T : TimeCrate) (laws : TimeLaws T) (round_as_i32 : ℕ → ℤ) where
  base-IsWpt :
      (input : WaypointBlobInput)
      → IsWaypoint round_as_i32 input
      → IsWpt T (waypoint_base T round_as_i32 input)
  base-IsWpt input h = record {
    lat-lt = h.lat-lt;
    lon-lt = h.lon-lt;
    ele = h.ele;
    time = tt;
    name = h.name;
    desc = h.desc;
    src = ascii-IsText who (omega arith) (omega arith);
    sym = h.sym;
  }

  Carries-waypoint_fields :
      (input : WaypointBlobInput)
      → IsWaypoint round_as_i32 input
      → Carries
          (write_waypoint_fields T round_as_i32 input)
          (waypoint_fields T)
          (input.keyqms, decoded_wpt T (waypoint_base T round_as_i32 input), [])
  unfolding write_waypoint_fields waypoint_fields repeat
  Carries-waypoint_fields input h = step_qstring-some _ _ _ h.keyqms (
      Carries-require _ _ _ _ _ refl (
        step_u32 _ _ _ (omega arith) (
          step_f64 _ _ _ (omega arith) (
            Carries-bind _ _ _ _ (Carries-wpt_base T laws _ (base-IsWpt input h)) (
              step_u8 3 _ _ (
                Carries-ensure _ _ _ _ refl (
                  step_u8 0 _ _ (
                    Carries-ensure _ _ _ _ refl (
                      step_u32 _ _ _ (omega arith) (
                        Carries-ensure _ _ _ _ refl (
                          step_i32 _ _ _ (omega arith) (
                            step_i32 _ _ _ (omega arith) (
                              step_u32 _ _ _ (omega arith) (
                                step_f64 _ _ _ (omega arith) (
                                  last_u32 _ _ (omega arith)
                                    (Carries-pure _ _ _ Carries-nothing))))))))))))))))

module _ (T : TimeCrate) (laws : TimeLaws T) (round_as_i32 : ℕ → ℤ) (B : BytesCrate)
    (bytes : BytesLaws B) where
  -- Decoding an exported waypoint item gives back the waypoint and accounts for every byte: its
  -- texts, its position bit for bit and its elevation rounded to whole metres. The hash in the
  -- history is the digest the decoder computes and the one the exporter returns. The condition:
  -- the texts, the elevation, the time and the sizes are ones that the format can hold without
  -- loss.
  pub decode_waypoint_item-build_waypoint_item :
      (input : WaypointBlobInput) (event_time : T.OffsetDateTime)
      → IsWaypoint round_as_i32 input
      → IsWholeMs T (some event_time)
      → length (build_waypoint_fields T round_as_i32 input) < 2 ^ 32
      → Fits (qcompress B (build_waypoint_fields T round_as_i32 input))
      → Fits (build_waypoint_chunk T round_as_i32 B input)
      → (decode_waypoint_item T B (build_waypoint_item T round_as_i32 B input event_time).0
          ≡ ok (decoded_waypoint T round_as_i32 B input))
        × ((build_waypoint_item T round_as_i32 B input event_time).1
            ≡ (decoded_waypoint T round_as_i32 B input).hash)
  unfolding decode_waypoint_item build_waypoint_item decoded_waypoint
  decode_waypoint_item-build_waypoint_item input event_time h whole small fits chunk_fits =
      let chunk = build_waypoint_chunk T round_as_i32 B input in
      let hash = lowercase_md5 B chunk in
      let fields = build_waypoint_fields T round_as_i32 input in
      let current : CurrentEvent = record { chunk = chunk; hash = hash; who = some who } in
      let finish = λ (f : List ℕ × DecodedWpt T × List (List ℕ)). ok (waypoint_of T B current f) in
      let payload : read_all (chunk_payload magic_wpt ver_wpt) chunk ≡ ok (qcompress B fields) =
        unfold build_waypoint_chunk in
        read_all-Carries _ _ _ (Carries-chunk B magic_wpt ver_wpt fields refl fits) in
      let inner : read_all (waypoint_fields T) fields
          ≡ ok (input.keyqms, decoded_wpt T (waypoint_base T round_as_i32 input), []) =
        unfold build_waypoint_fields in
        read_all-Carries _ (waypoint_fields T) _
          (Carries-waypoint_fields T laws round_as_i32 input h) in
      (
        ap
              (λ x. and_then x λ c.
                and_then (read_all (chunk_payload magic_wpt ver_wpt) c.chunk) λ z.
                  and_then (quncompress B z)
                    λ i. and_then (read_all (waypoint_fields T) i) λ f. ok (waypoint_of T B c f))
              (decode_history-build_history T laws chunk hash event_time chunk_fits
                (lowercase_md5-IsText B bytes chunk) whole)
            ∙ ap
                (λ x. and_then x λ z.
                  and_then (quncompress B z) λ i. and_then (read_all (waypoint_fields T) i) finish)
                payload
            ∙ ap (λ x. and_then x λ i. and_then (read_all (waypoint_fields T) i) finish)
                (quncompress-qcompress B bytes fields small)
            ∙ ap (λ x. and_then x finish) inner,
        refl,
      )
