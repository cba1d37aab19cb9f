-- ===== src/Qmapshack/RoundTrip/Points.antt =====
-- The points of a track, and the base that they share with waypoints.
use gps_trips.Prelude.{ℕ, ◌^◌, ◌<◌, ◌≡◌, refl, subst, [], ◌∷◌, map, Option, none, some, ◌≢◌, arith}
use gps_trips.Prelude.Int.{ℤ, pos, negsuc}
use gps_trips.Qmapshack.Words.{InRange}
use gps_trips.Qmapshack.Crates.{TimeCrate, TimeLaws}
use gps_trips.Qmapshack.Qtstream
use gps_trips.Qmapshack.Qtstream.{◌▸◌, for_each}
use gps_trips.Qmapshack.Reader
use gps_trips.Qmapshack.Reader.{◌>>=◌, pure, repeat}
use gps_trips.Qmapshack.Carries.{
  Carries, Carries-bind, Carries-ensure, Carries-end, Carries-pure, Carries-nothing,
  Carries-for_each,
}
use gps_trips.Qmapshack.Carries.Primitives.{IsOptionalText, Carries-i32}
use gps_trips.Qmapshack.Carries.DateTime.{IsWholeMs, in_utc, Carries-qdatetime_option}
use gps_trips.Qmapshack.Carries.Steps.{
  step_u8, step_u32, step_f64, step_i32, step_qstring_null, step_qstring_option, last_u32, last_i16,
}
use gps_trips.Qmapshack.Blob.{
  noint, WptBase, TrackPointIn, ele_or_noint, write_wpt_base, point_base, write_trkpt,
}
use gps_trips.Qmapshack.Decode.{DecodedPoint, DecodedWpt, links, known_ele, wpt_base, trkpt}

-- An `i32` that is not the sentinel for no elevation.
abbrev pub IsElevation : Option ℤ → Type 0
IsElevation none = Unit
IsElevation (some e) = InRange (2 ^ 31) e × (e ≢ noint)

ele_written :
    (o : Option ℤ)
    → IsElevation o
    → InRange (2 ^ 31) (ele_or_noint o) × (known_ele (ele_or_noint o) ≡ o)
unfolding ele_or_noint known_ele
ele_written none h = (omega arith, refl)
ele_written (some (pos n)) h = (h.0, ground arith)
ele_written (some (negsuc n)) h = (h.0, refl)

-- No entries, where the reader expects a list of links or of extensions.
pub Carries-links : Carries (Qtstream.u32 0) links tt
unfolding links repeat
Carries-links = last_u32 0 _ (omega arith) (Carries-pure _ _ _ Carries-nothing)

sentinels :
    Carries
      (for_each (λ (k : ℕ). Qtstream.i32 noint) (0 ∷ 1 ∷ 2 ∷ 3 ∷ 4 ∷ 5 ∷ []))
      (repeat 6 Reader.i32)
      (map (λ (k : ℕ). noint) (0 ∷ 1 ∷ 2 ∷ 3 ∷ 4 ∷ 5 ∷ []))
sentinels =
    let one : Carries (Qtstream.i32 noint) Reader.i32 noint = Carries-i32 noint (omega arith) in
    Carries-for_each (λ (k : ℕ). Qtstream.i32 noint) Reader.i32 (λ k. noint)
      (0 ∷ 1 ∷ 2 ∷ 3 ∷ 4 ∷ 5 ∷ []) (one, (one, (one, (one, (one, (one, tt))))))

module _ (T : TimeCrate) where
  -- What can be written of a `wpt_t` without loss.
  pub record IsWpt (wpt : WptBase T) : Type 0 where
    pub lat-lt : wpt.lat < 2 ^ 64
    pub lon-lt : wpt.lon < 2 ^ 64
    pub ele : IsElevation wpt.ele
    pub time : IsWholeMs T wpt.time
    pub name : IsOptionalText wpt.name
    pub desc : IsOptionalText wpt.desc
    pub src : IsOptionalText wpt.src
    pub sym : IsOptionalText wpt.sym

  abbrev pub decoded_wpt : WptBase T → DecodedWpt T
  decoded_wpt wpt = record {
    point = record { lat = wpt.lat; lon = wpt.lon; ele = wpt.ele; time = in_utc T wpt.time };
    name = wpt.name;
    desc = wpt.desc;
    sym = wpt.sym;
  }

  pub decoded_point : TrackPointIn T → DecodedPoint T
  decoded_point p = (decoded_wpt (point_base T p)).point

module _ (T : TimeCrate) (laws : TimeLaws T) where
  pub Carries-wpt_base :
      (wpt : WptBase T)
      → IsWpt T wpt
      → Carries (write_wpt_base T wpt) (wpt_base T) (decoded_wpt T wpt)
  unfolding write_wpt_base wpt_base
  Carries-wpt_base wpt h =
      let (range, known) = ele_written wpt.ele h.ele in
      subst
        (λ e.
          Carries (write_wpt_base T wpt) (wpt_base T)
            (record (decoded_wpt T wpt) { point = record (decoded_wpt T wpt).point { ele = e } }))
        known
        (step_u8 1 _ _ (
          Carries-ensure _ _ _ _ refl (
            step_f64 _ _ _ h.lat-lt (
              step_f64 _ _ _ h.lon-lt (
                step_i32 _ _ _ range (
                  Carries-bind _ _ _ _ (Carries-qdatetime_option T laws wpt.time h.time) (
                    step_i32 _ _ _ (omega arith) (
                      step_i32 _ _ _ (omega arith) (
                        step_qstring_option _ _ _ h.name (
                          step_qstring_null _ _ (
                            step_qstring_option _ _ _ h.desc (
                              step_qstring_option _ _ _ h.src (
                                Carries-bind _ _ _ _ Carries-links (
                                  step_qstring_option _ _ _ h.sym (
                                    step_qstring_null _ _ (
                                      step_qstring_null _ _
                                        (Carries-end _ _ _ sentinels)))))))))))))))))

  pub Carries-trkpt :
      (p : TrackPointIn T)
      → IsWpt T (point_base T p)
      → Carries (write_trkpt T p) (trkpt T) (decoded_point T p)
  unfolding write_trkpt trkpt decoded_point repeat
  Carries-trkpt p h = step_u8 3 _ _ (
      Carries-ensure _ _ _ _ refl (
        step_u32 _ _ _ (omega arith) (
          Carries-bind _ _ _ _ (Carries-wpt_base (point_base T p) h) (
            step_u32 _ _ _ (omega arith)
              (Carries-pure _ _ _ (last_i16 _ _ (omega arith) Carries-nothing))))))
