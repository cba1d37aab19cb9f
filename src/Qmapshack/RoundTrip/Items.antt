-- ===== src/Qmapshack/RoundTrip/Items.antt =====
-- What the two kinds of items share: chunks, the history around them, and readers that have to use
-- up their bytes.
use gps_trips.Prelude.{
  ℕ, ◌+◌, ◌-◌, ◌%◌, ◌^◌, ◌<◌, ◌≡◌, refl, sym, ap, ◌∙◌, true, List, [], ◌++◌, some, arith, ◌==◌,
  append-nil, length, text_eq_refl,
}
use gps_trips.Qmapshack.Words.{be_bytes_u32, from_be_bytes-be_bytes_u32}
use gps_trips.Qmapshack.Crates.{TimeCrate, TimeLaws, BytesCrate, BytesLaws}
use gps_trips.Qmapshack.Qtstream.{Writer, ◌▸◌, fresh, qcompress, u8, qdatetime, qstring, qbytearray}
use gps_trips.Qmapshack.Reader.{Reader, ok, ◌>>=◌, pure, continue, remaining, quncompress}
use gps_trips.Qmapshack.Carries.{
  Carries, Carries-bind, Carries-ensure, Carries-require, Carries-nothing, Carries-tail,
}
use gps_trips.Qmapshack.Carries.Primitives.{
  Fits, IsText, ascii-IsText, Carries-raw_of, Carries-qbytearray,
}
use gps_trips.Qmapshack.Carries.DateTime.{IsWholeMs, Carries-qdatetime}
use gps_trips.Qmapshack.Carries.Steps.{
  step_u8, step_u32, step_i32, step_qstring-some, step_qbytearray, last_qstring-some,
}
use gps_trips.Qmapshack.Blob.{
  who, event_icon, event_comment, write_history, build_history, write_chunk,
}
use gps_trips.Qmapshack.Decode.{
  read_all, exhausted, value_of, and_then, event, events, history, index_ok, as_u32, decode_history,
  chunk_payload, expect_current,
}

==-refl : (n : ℕ) → (n == n) ≡ true
==-refl n = ground arith

-- A reader of its own over what was written into a new writer.
pub read_all-Carries :
    {A : Type 0} (w : Writer) (m : Reader A) (a : A)
    → Carries w m a
    → read_all m (w fresh).buf ≡ ok a
unfolding read_all ◌>>=◌ pure remaining
read_all-Carries w m a c =
    let at : c.bytes ≡ c.bytes ++ [] = sym (append-nil c.bytes) in
    let got = c.reads (record { bytes = c.bytes; pos = 0 }) [] at in
    let left : length c.bytes - (0 + length c.bytes) ≡ 0 = omega arith in
    rw (c.writes fresh)
      (ap (λ x. value_of (continue x (λ b. exhausted >>= λ _. pure b))) got ∙ rw left)

-- The compressed fields of a chunk come back.
pub quncompress-qcompress :
    (B : BytesCrate)
    → BytesLaws B
    → (fields : List ℕ) → length fields < 2 ^ 32
    → quncompress B (qcompress B fields) ≡ ok fields
unfolding quncompress qcompress be_bytes_u32
quncompress-qcompress B laws fields h =
    let n = length fields in
    ground (
      arith,
      laws.inflate-deflate fields,
      laws.deflate-ne_empty fields,
      from_be_bytes-be_bytes_u32 (n % 2 ^ 32) (omega arith),
    )

module _ (B : BytesCrate) where
  -- The payload of a chunk is what was put into it.
  pub Carries-chunk :
      (magic : List ℕ) (ver : ℕ) (fields : List ℕ)
      → length magic ≡ 10
      → Fits (qcompress B fields)
      → Carries (write_chunk B magic ver fields) (chunk_payload magic ver) (qcompress B fields)
  unfolding write_chunk chunk_payload
  Carries-chunk magic ver fields ten h = Carries-bind _ _ _ _ (Carries-raw_of 10 magic ten) (
      Carries-ensure _ _ _ _ (text_eq_refl magic)
        (step_u8 ver _ _ (Carries-ensure _ _ _ _ (==-refl ver) (Carries-qbytearray _ h))))

module _ (T : TimeCrate) (laws : TimeLaws T) where
  -- The writer of the one event of a history.
  write_event : List ℕ → List ℕ → T.OffsetDateTime → Writer
  write_event chunk hash t =
      u8 3
      ▸ qdatetime T (some t)
      ▸ qstring (some event_icon)
      ▸ qstring (some event_comment)
      ▸ qbytearray chunk
      ▸ qstring (some hash)
      ▸ qstring (some who)

  Carries-event :
      (chunk hash : List ℕ) (t : T.OffsetDateTime)
      → Fits chunk
      → IsText hash
      → IsWholeMs T (some t)
      → Carries
          (write_event chunk hash t)
          (event T)
          (record { chunk = chunk; hash = hash; who = some who })
  unfolding write_event event
  Carries-event chunk hash t hc hh ht = step_u8 3 _ _ (
      Carries-ensure _ _ _ _ refl (
        Carries-bind _ _ _ _ (Carries-qdatetime T laws t ht) (
          step_qstring-some _ _ _ (ascii-IsText event_icon (omega arith) (omega arith)) (
            step_qstring-some _ _ _ (ascii-IsText event_comment (omega arith) (omega arith)) (
              step_qbytearray _ _ _ hc (
                step_qstring-some _ _ _ hh (
                  Carries-require _ _ _ _ _ refl (
                    last_qstring-some _ _ (ascii-IsText who (omega arith) (omega arith))
                      Carries-nothing))))))))

  pub Carries-history :
      (chunk hash : List ℕ) (t : T.OffsetDateTime)
      → Fits chunk
      → IsText hash
      → IsWholeMs T (some t)
      → Carries
          (write_history T chunk hash t)
          (history T)
          (some (record { chunk = chunk; hash = hash; who = some who }))
  unfolding write_history history events index_ok as_u32 write_event
  Carries-history chunk hash t hc hh ht = step_u8 1 _ _ (
      Carries-ensure _ _ _ _ refl (
        step_i32 _ _ _ (omega arith) (
          step_i32 _ _ _ (omega arith) (
            step_u32 _ _ _ (omega arith) (
              Carries-ensure _ _ _ _ refl
                (Carries-tail _ _ _ (Carries-event chunk hash t hc hh ht) Carries-nothing))))))

  -- The current event of a history is the one that the exporter wrote.
  pub decode_history-build_history :
      (chunk hash : List ℕ) (t : T.OffsetDateTime)
      → Fits chunk
      → IsText hash
      → IsWholeMs T (some t)
      → decode_history T (build_history T chunk hash t)
        ≡ ok (record { chunk = chunk; hash = hash; who = some who })
  unfolding decode_history build_history
  decode_history-build_history chunk hash t hc hh ht =
      ap (λ x. and_then x expect_current)
        (read_all-Carries (write_history T chunk hash t) (history T) _
          (Carries-history chunk hash t hc hh ht))
