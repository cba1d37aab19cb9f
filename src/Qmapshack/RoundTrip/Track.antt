-- ===== src/Qmapshack/RoundTrip/Track.antt =====
-- `build_track_item` and `decode_track_item`.
use mathlib.Core.List.{flatten}
use gps_trips.Prelude.{
  ℕ, ◌*◌, ◌/◌, ◌%◌, ◌^◌, ◌<◌, ◌≡◌, refl, ap, subst, ◌∙◌, true, List, [], ◌∷◌, none, some, map,
  arith, append-nil, length, All,
}
use gps_trips.Qmapshack.Crates.{TimeCrate, TimeLaws, BytesCrate, BytesLaws}
use gps_trips.Qmapshack.Qtstream
use gps_trips.Qmapshack.Qtstream.{Writer, ◌▸◌, for_each, fresh, qcompress}
use gps_trips.Qmapshack.Reader.{ok, repeat, quncompress}
use gps_trips.Qmapshack.Carries.{
  Carries, Carries-bind, Carries-ensure, Carries-require, Carries-end, Carries-pure,
  Carries-nothing, Carries-tail, Carries-for_each,
}
use gps_trips.Qmapshack.Carries.Primitives.{Fits, IsText, IsOptionalText, ascii-IsText}
use gps_trips.Qmapshack.Carries.Steps.{
  step_u8, step_u32, step_u64, step_f64, step_qstring_null, step_qstring-some, step_qstring_option,
  step_count, Carries-require_last, last_qstring-some,
}
use gps_trips.Qmapshack.Blob.{
  TrackPointIn, point_base, TrackBlobInput, who, magic_trk, ver_trk, write_trkpt,
  write_inner_fields, build_inner_fields, build_track_chunk, hex, hex_digit, lowercase_md5,
}
use gps_trips.Qmapshack.Decode.{
  DecodedTrack, keyword, segment, inner_fields, trkpt, and_then, read_all, decode_track_chunk,
}
use gps_trips.Qmapshack.RoundTrip.Fields.{
  Carries-climit, Carries-cvalue_double, Carries-cvalue_bool, Carries-energy_set,
}
use gps_trips.Qmapshack.RoundTrip.Points.{IsWpt, decoded_point, Carries-links, Carries-trkpt}
use gps_trips.Qmapshack.RoundTrip.Items.{read_all-Carries, quncompress-qcompress, Carries-chunk}

Carries-keywords :
    (keywords : List (List ℕ))
    → All IsText keywords
    → Carries
        (for_each (λ keyword. Qtstream.qstring (some keyword)) keywords)
        (repeat (length keywords) keyword)
        keywords
Carries-keywords keywords h =
    subst
      (λ ks.
        Carries (for_each (λ keyword. Qtstream.qstring (some keyword)) keywords)
          (repeat (length keywords) keyword) ks)
      (map_id keywords) (Carries-for_each _ keyword (λ k. k) keywords (each keywords h))
  where
    map_id : (ks : List (List ℕ)) → map (λ k. k) ks ≡ ks
    map_id [] = refl
    map_id (k ∷ ks) = ap (λ l. k ∷ l) (map_id ks)

    each :
        (ks : List (List ℕ))
        → All IsText ks
        → All (λ k. Carries (Qtstream.qstring (some k)) keyword k) ks
    each [] h = tt
    each (k ∷ ks) h =
        (unfold keyword in last_qstring-some k _ h.0 (Carries-require_last k _), each ks h.1)

module _ (T : TimeCrate) where
  -- What can be written of a track without loss.
  pub record IsTrack (input : TrackBlobInput T) : Type 0 where
    pub keyqms : IsText input.keyqms
    pub name : IsText input.name
    pub desc : IsOptionalText input.desc
    pub trk_type : IsText input.trk_type
    pub color : IsText input.color
    pub keywords : All IsText input.keywords
    pub keywords-lt : length input.keywords < 2 ^ 32
    pub points : All (λ p. IsWpt T (point_base T p)) input.points
    pub points-lt : length input.points < 2 ^ 32

  -- The fields that the decoder finds in a chunk.
  pub decoded_fields : TrackBlobInput T → DecodedTrack T
  decoded_fields input = record {
    keyqms = input.keyqms;
    name = some input.name;
    desc = input.desc;
    trk_type = some input.trk_type;
    color = some input.color;
    keywords = input.keywords;
    hash = [];
    who = none;
    chunk_md5 = [];
    points = map (decoded_point T) input.points;
  }

module _ (T : TimeCrate) (laws : TimeLaws T) where
  Carries-points :
      (points : List (TrackPointIn T))
      → All (λ p. IsWpt T (point_base T p)) points
      → Carries
          (for_each (write_trkpt T) points)
          (repeat (length points) (trkpt T))
          (map (decoded_point T) points)
  Carries-points points h =
      Carries-for_each (write_trkpt T) (trkpt T) (decoded_point T) points (each points h)
    where
      each :
          (ps : List (TrackPointIn T))
          → All (λ p. IsWpt T (point_base T p)) ps
          → All (λ p. Carries (write_trkpt T p) (trkpt T) (decoded_point T p)) ps
      each [] h = tt
      each (p ∷ ps) h = (Carries-trkpt T laws p h.0, each ps h.1)

  Carries-segment :
      (points : List (TrackPointIn T))
      → All (λ p. IsWpt T (point_base T p)) points
      → length points < 2 ^ 32
      → Carries
          (Qtstream.u8 1 ▸ Qtstream.u32 (length points % 2 ^ 32) ▸ for_each (write_trkpt T) points)
          (segment T)
          (map (decoded_point T) points)
  unfolding segment
  Carries-segment points h n =
      step_u8 1 _ _ (Carries-ensure _ _ _ _ refl (step_count _ _ _ n (Carries-points points h)))

  Carries-segments :
      (points : List (TrackPointIn T))
      → All (λ p. IsWpt T (point_base T p)) points
      → length points < 2 ^ 32
      → Carries
          (Qtstream.u8 1 ▸ Qtstream.u32 (length points % 2 ^ 32) ▸ for_each (write_trkpt T) points)
          (repeat 1 (segment T))
          (map (decoded_point T) points ∷ [])
  unfolding repeat
  Carries-segments points h n =
      Carries-tail _ _ _ (Carries-segment points h n) (Carries-pure _ _ _ Carries-nothing)

  Carries-inner_fields :
      (input : TrackBlobInput T)
      → IsTrack T input
      → Carries (write_inner_fields T input) (inner_fields T) (decoded_fields T input)
  unfolding write_inner_fields inner_fields decoded_fields flatten
  Carries-inner_fields input h =
      subst
        (λ ps.
          Carries (write_inner_fields T input) (inner_fields T)
            (record (decoded_fields T input) { points = ps }))
        (append-nil (map (decoded_point T) input.points))
        (step_qstring-some _ _ _ h.keyqms (
          Carries-require _ _ _ _ _ refl (
            step_u32 _ _ _ (omega arith) (
              step_qstring-some _ _ _ h.name (
                step_qstring_null _ _ (
                  step_qstring_option _ _ _ h.desc (
                    step_qstring-some _ _ _ (ascii-IsText who (omega arith) (omega arith)) (
                      Carries-bind _ _ _ _ Carries-links (
                        step_u64 _ _ _ (omega arith) (
                          step_qstring-some _ _ _ h.trk_type (
                            step_qstring-some _ _ _ h.color (
                              step_f64 _ _ _ (omega arith) (
                                step_count _ _ _ h.keywords-lt (
                                  Carries-bind _ _ _ _ (Carries-keywords input.keywords h.keywords)
                                    (Carries-bind _ _ _ _ Carries-climit (
                                      Carries-bind _ _ _ _ (Carries-cvalue_double _ (omega arith)) (
                                        Carries-bind _ _ _ _ (Carries-cvalue_bool true) (
                                          Carries-bind _ _ _ _ Carries-climit (
                                            Carries-bind _ _ _ _ Carries-climit (
                                              Carries-bind _ _ _ _ Carries-climit (
                                                Carries-bind _ _ _ _ Carries-energy_set (
                                                  step_u32 _ _ _ (omega arith) (
                                                    Carries-end _ _ _ (
                                                      Carries-segments input.points h.points
                                                        h.points-lt))))))))))))))))))))))))

hex_digits : (b : ℕ) → b < 256 → (hex_digit (b / 16) < 128) × (hex_digit (b % 16) < 128)
unfolding hex_digit
hex_digits b h = (ground arith, ground arith)

hex-ascii : (bs : List ℕ) → All (λ b. b < 256) bs → All (λ c. c < 128) (hex bs)
unfolding hex
hex-ascii [] h = tt
hex-ascii (b ∷ bs) h = let (x, y) = hex_digits b h.0 in (x, (y, hex-ascii bs h.1))

length-hex : (bs : List ℕ) → length (hex bs) ≡ 2 * length bs
unfolding hex
length-hex [] = refl
length-hex (b ∷ bs) = omega (arith, length-hex bs)

pub lowercase_md5-IsText :
    (B : BytesCrate) → BytesLaws B → (bytes : List ℕ) → IsText (lowercase_md5 B bytes)
unfolding lowercase_md5
lowercase_md5-IsText B laws bytes =
    ascii-IsText _ (hex-ascii _ (laws.md5-bytes bytes))
      (omega (arith, length-hex (B.md5 bytes), laws.length-md5 bytes))

module _ (T : TimeCrate) (B : BytesCrate) where
  -- What the decoder makes of an exported track: its fields, and the hash beside the digest that it
  -- computes itself.
  pub decoded_track : TrackBlobInput T → DecodedTrack T
  decoded_track input =
      let hash = lowercase_md5 B (build_track_chunk T B input) in
      record (decoded_fields T input) { hash = hash; who = some who; chunk_md5 = hash }

module _ (T : TimeCrate) (laws : TimeLaws T) (B : BytesCrate) (bytes : BytesLaws B) where
  -- The chunk of a track decodes to the fields that it was built from.
  pub decode_track_chunk-build_track_chunk :
      (input : TrackBlobInput T)
      → IsTrack T input
      → length (build_inner_fields T input) < 2 ^ 32
      → Fits (qcompress B (build_inner_fields T input))
      → decode_track_chunk T B (build_track_chunk T B input) ≡ ok (decoded_fields T input)
  unfolding decode_track_chunk build_track_chunk
  decode_track_chunk-build_track_chunk input h small fits =
      let fields = build_inner_fields T input in
      let payload = read_all-Carries _ _ _ (Carries-chunk B magic_trk ver_trk fields refl fits) in
      let inner : read_all (inner_fields T) fields ≡ ok (decoded_fields T input) =
        unfold build_inner_fields in
        read_all-Carries _ (inner_fields T) _ (Carries-inner_fields T laws input h) in
      ap (λ x. and_then x λ c. and_then (quncompress B c) λ i. read_all (inner_fields T) i) payload
      ∙ ap (λ x. and_then x λ i. read_all (inner_fields T) i)
          (quncompress-qcompress B bytes fields small)
      ∙ inner
