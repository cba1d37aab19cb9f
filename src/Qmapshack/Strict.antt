-- ===== src/Qmapshack/Strict.antt =====
-- The decoder is strict: it refuses bytes behind an item, and the event that it takes for the
-- current one is always there.
use gps_trips.Prelude.{
  ℕ, zero, suc, ◌+◌, ◌-◌, ◌≤◌, ◌<◌, ◌≡◌, ◌≢◌, refl, ap, ◌∙◌, ◌⊎◌, inl, inr, Bool, true, false,
  Bool-cases, List, ◌∷◌, ◌++◌, Option, none, some, arith, ◌==◌, if◌then◌else◌, length,
  length-append,
}
use gps_trips.Prelude.Int.{ℤ, pos, negsuc}
use gps_trips.Qmapshack.Crates.{TimeCrate, TimeLaws, BytesCrate, BytesLaws}
use gps_trips.Qmapshack.Qtstream.{Writer, fresh}
use gps_trips.Qmapshack.Reader
use gps_trips.Qmapshack.Reader.{
  QtReader, Reader, Result, ok, err, DecodeError, unaccounted, panicked, pure, ensure, ◌>>=◌,
  continue, remaining,
}
use gps_trips.Qmapshack.Carries.{Carries}
use gps_trips.Qmapshack.Carries.Primitives.{Fits}
use gps_trips.Qmapshack.Carries.DateTime.{IsWholeMs}
use gps_trips.Qmapshack.Blob.{
  TrackBlobInput, build_history, build_track_chunk, build_track_item, lowercase_md5,
}
use gps_trips.Qmapshack.Decode.{
  CurrentEvent, read_all, value_of, exhausted, and_then, event, events, history, index_ok, as_u32,
  expect_current, decode_history, decode_track_item, decode_track_chunk, with_event,
}
use gps_trips.Qmapshack.RoundTrip.Items.{Carries-history}
use gps_trips.Qmapshack.RoundTrip.Track.{lowercase_md5-IsText}

read_all_trailing :
    {A : Type 0} (w : Writer) (m : Reader A) (a : A) (x : ℕ) (extra : List ℕ)
    → Carries w m a
    → read_all m ((w fresh).buf ++ x ∷ extra) ≡ err (unaccounted (length extra + 1))
unfolding read_all ◌>>=◌ pure remaining
read_all_trailing w m a x extra c =
    let r : QtReader = record { bytes = c.bytes ++ x ∷ extra; pos = 0 } in
    let got = c.reads r (x ∷ extra) refl in
    let left : length (c.bytes ++ x ∷ extra) - (0 + length c.bytes) ≡ length extra + 1 =
      omega (arith, length-append c.bytes (x ∷ extra)) in
    rw (c.writes fresh) (
      ap (λ y. value_of (continue y (λ b. exhausted >>= λ _. pure b))) got ∙ rw left (ground arith))

module _ (T : TimeCrate) (laws : TimeLaws T) (B : BytesCrate) (bytes : BytesLaws B) where
  -- An exported track item with bytes behind it is refused, with the number of those bytes. The
  -- condition: the chunk's size and the time of the event are ones that the format can hold.
  pub decode_track_item_trailing :
      (input : TrackBlobInput T) (event_time : T.OffsetDateTime) (x : ℕ) (extra : List ℕ)
      → IsWholeMs T (some event_time)
      → Fits (build_track_chunk T B input)
      → decode_track_item T B ((build_track_item T B input event_time).0 ++ x ∷ extra)
        ≡ err (unaccounted (length extra + 1))
  unfolding decode_track_item decode_history build_track_item build_history
  decode_track_item_trailing input event_time x extra whole fits =
      let chunk = build_track_chunk T B input in
      let hash = lowercase_md5 B chunk in
      let c =
        Carries-history T laws chunk hash event_time fits (lowercase_md5-IsText B bytes chunk)
          whole in
      ap
        (λ y. and_then (and_then y expect_current) λ current.
          and_then (decode_track_chunk T B current.chunk)
            λ track. ok (with_event T B current track))
        (read_all_trailing _ (history T) _ x extra c)

-- A block that succeeds, taken apart.
bind_inv :
    {A C : Type 0} (m : Reader A) (f : A → Reader C) (r : QtReader) (z : C × QtReader)
    → (m >>= f) r ≡ ok z
    → (a : A) × (s : QtReader) × (m r ≡ ok (a, s)) × (f a s ≡ ok z)
unfolding ◌>>=◌
bind_inv {A} {C} m f r z e = go (m r) refl e
  where
    go :
        (y : Result (A × QtReader))
        → m r ≡ y
        → continue y f ≡ ok z
        → (a : A) × (s : QtReader) × (m r ≡ ok (a, s)) × (f a s ≡ ok z)
    go (ok (a, s)) p q = (a, s, p, q)
    go (err x) p q = cc

ensure_inv :
    (t : Bool) (e : DecodeError) (r : QtReader) (z : Unit {0} × QtReader)
    → ensure t e r ≡ ok z
    → t ≡ true
unfolding ensure
ensure_inv true e r z h = refl
ensure_inv false e r z h = cc

value_inv :
    {A : Type 0} (y : Result (A × QtReader)) (a : A)
    → value_of y ≡ ok a
    → (s : QtReader) × (y ≡ ok (a, s))
value_inv (ok (b, s)) a h = (s, ground arith)
value_inv (err e) a h = cc

-- A successful `read_all` is a successful run of its reader.
read_all_inv :
    {A : Type 0} (m : Reader A) (bytes : List ℕ) (a : A)
    → read_all m bytes ≡ ok a
    → (r s : QtReader) × (m r ≡ ok (a, s))
unfolding read_all pure
read_all_inv m bytes a h =
    let start : QtReader = record { bytes = bytes; pos = 0 } in
    let (s, e) = value_inv _ a h in
    let (b, s1, run, rest) = bind_inv m _ start (a, s) e in
    let (u, s2, _, last) = bind_inv exhausted _ s1 (a, s) rest in (start, s1, ground arith)

-- Taking over the event at `idx` keeps that the current event is met or still to come.
next_found :
    (k i idx : ℕ) (x : CurrentEvent) (current : Option CurrentEvent)
    → (current ≢ none) ⊎ ((i ≤ idx) × (idx < i + suc k))
    → ((if i == idx then some x else current) ≢ none) ⊎ ((i + 1 ≤ idx) × (idx < i + 1 + k))
next_found k i idx x current (inl h) = elim (Bool-cases (i == idx)) [
  | inl here ↦ inl (rw here (λ p. cc))
  | inr other ↦ inl (rw other h)
]
next_found k i idx x current (inr h) = elim (Bool-cases (i == idx)) [
  | inl here ↦ inl (rw here (λ p. cc))
  | inr other ↦ inr (ground arith, ground arith)
]

as_u32-lt : (z : ℤ) (n : ℕ) → index_ok z n ≡ true → as_u32 z < n
unfolding index_ok as_u32
as_u32-lt (pos i) n h = ground arith
as_u32-lt (negsuc i) n h = cc

module _ (T : TimeCrate) where
  -- Enough events are left to meet the current one, or it has been met.
  events_found :
      (k i idx : ℕ) (current o : Option CurrentEvent) (r s : QtReader)
      → events T k i idx current r ≡ ok (o, s)
      → (current ≢ none) ⊎ ((i ≤ idx) × (idx < i + k))
      → o ≢ none
  unfolding events pure
  events_found zero i idx current o r s e (inl h) = λ p. h (ground arith)
  events_found zero i idx current o r s e (inr h) = absurd (omega arith)
  events_found (suc k) i idx current o r s e h =
      let (x, r1, _, rest) = bind_inv (event T) _ r (o, s) e in
      events_found k (i + 1) idx _ o r1 s rest (next_found k i idx x current h)

  history_found : (o : Option CurrentEvent) (r s : QtReader) → history T r ≡ ok (o, s) → o ≢ none
  unfolding history
  history_found o r s e =
      let (ver, r1, _, e1) = bind_inv Reader.u8 _ r (o, s) e in
      let (_, r2, _, e2) = bind_inv (ensure _ _) _ r1 (o, s) e1 in
      let (_, r3, _, e3) = bind_inv Reader.i32 _ r2 (o, s) e2 in
      let (idx, r4, _, e4) = bind_inv Reader.i32 _ r3 (o, s) e3 in
      let (n, r5, _, e5) = bind_inv Reader.u32 _ r4 (o, s) e4 in
      let (u, r6, checked, e6) = bind_inv (ensure (index_ok idx n) _) _ r5 (o, s) e5 in
      let below = as_u32-lt idx n (ensure_inv _ _ r5 (u, r6) checked) in
      events_found n 0 (as_u32 idx) none o r6 s e6 (inr (omega arith, omega arith))

  -- Whatever the bytes are, a history that is read has its current event: the expect behind it
  -- does not panic.
  pub history-ne-none : (bytes : List ℕ) → read_all (history T) bytes ≢ ok none
  history-ne-none bytes e =
      let (r, s, run) = read_all_inv (history T) bytes none e in history_found none r s run refl
