-- ===== src/Qmapshack/Carries/Primitives.antt =====
-- The primitives of `QtWriter` against those of `QtReader`.
use gps_trips.Prelude.{
  ℕ, ◌+◌, ◌*◌, ◌-◌, ◌%◌, ◌^◌, ◌<◌, ◌≡◌, refl, sym, ap, ap₂, subst, append_assoc, append-nil,
  if◌then◌else◌, if_false, ◌∙◌, true, false, List, [], ◌∷◌, ◌++◌, Option, none, some, All, arith,
  ◌==◌, length, length-append, length-drop, take-append_length,
}
use gps_trips.Prelude.Int.{ℤ}
use gps_trips.Qmapshack.Words.{
  le_bytes, from_le_bytes, to_word, from_word, InRange, length-le_bytes, from_le_bytes-le_bytes,
  from_word-to_word, to_word-lt,
}
use mathlib.Core.Path.{fun_ext}
use gps_trips.Qmapshack.Utf16.{
  IsScalar, encode_utf16, from_utf16, from_utf16-encode_utf16, encode_utf16-units,
  encode_utf16-ascii, All-ascii,
}
use gps_trips.Qmapshack.Qtstream
use gps_trips.Qmapshack.Qtstream.{QtWriter, Writer, ◌▸◌, nothing, for_each, push_unit}
use gps_trips.Qmapshack.Reader
use gps_trips.Qmapshack.Reader.{QtReader, ok, pure, ◌>>=◌, remaining, Reader, units_of, string_body}
use gps_trips.Qmapshack.Carries.{
  At, Carries, Carries-bind, Carries-end, Carries-ensure, Carries-require, Carries-nothing,
}

raw_reads :
    (xs back : List ℕ) (r : QtReader)
    → At r (xs ++ back)
    → Reader.raw (length xs) r ≡ ok (xs, record r { pos = r.pos + length xs })
unfolding Reader.raw
raw_reads xs back r at =
    let room : length xs + length back ≡ length r.bytes - r.pos =
      sym (length-append xs back) ∙ sym (ap length at) ∙ length-drop r.pos r.bytes in
    rw at (rw take-append_length (ground (arith, room)))

pub Carries-raw : (xs : List ℕ) → Carries (Qtstream.raw xs) (Reader.raw (length xs)) xs
unfolding Qtstream.raw
Carries-raw xs = record {
  bytes = xs;
  writes = λ s. refl;
  reads = λ r back at. raw_reads xs back r at;
}

-- `raw n` for the length that the writer wrote.
pub Carries-raw_of :
    (n : ℕ) (xs : List ℕ) → length xs ≡ n → Carries (Qtstream.raw xs) (Reader.raw n) xs
Carries-raw_of n xs e = subst (λ k. Carries (Qtstream.raw xs) (Reader.raw k) xs) e (Carries-raw xs)

-- A number of `k` bytes, behind any reading `g` of it that gives `a`.
le-Carries :
    {A : Type 0} (k n : ℕ) (g : List ℕ → A) (a : A)
    → g (le_bytes k n) ≡ a
    → Carries (Qtstream.raw (le_bytes k n)) (do b ← Reader.raw k; pure (g b)) a
le-Carries k n g a e =
    subst (λ x. Carries (Qtstream.raw (le_bytes k n)) (do b ← Reader.raw k; pure (g b)) x) e
      (Carries-end _ _ g (Carries-raw_of k (le_bytes k n) (length-le_bytes k n)))

module _ (v : ℕ) where
  pub Carries-u8 : Carries (Qtstream.u8 v) Reader.u8 v
  unfolding Qtstream.u8 Reader.u8 Qtstream.raw
  Carries-u8 = Carries-end (Qtstream.raw (v ∷ [])) (Reader.raw 1) _ (Carries-raw (v ∷ []))

  pub Carries-u32 : v < 2 ^ 32 → Carries (Qtstream.u32 v) Reader.u32 v
  unfolding Qtstream.u32 Reader.u32 Qtstream.raw
  Carries-u32 h = le-Carries 4 v from_le_bytes v (from_le_bytes-le_bytes 4 v h)

  pub Carries-u64 : v < 2 ^ 64 → Carries (Qtstream.u64 v) Reader.u64 v
  unfolding Qtstream.u64 Reader.u64 Qtstream.raw
  Carries-u64 h = le-Carries 8 v from_le_bytes v (from_le_bytes-le_bytes 8 v h)

  pub Carries-f64 : v < 2 ^ 64 → Carries (Qtstream.f64 v) Reader.f64 v
  unfolding Qtstream.f64 Reader.f64 Qtstream.raw
  Carries-f64 h = le-Carries 8 v from_le_bytes v (from_le_bytes-le_bytes 8 v h)

-- A signed integer of `k` bytes.
signed :
    (k half : ℕ) (z : ℤ)
    → 2 * half ≡ 256 ^ k
    → InRange half z
    → from_word half (from_le_bytes (le_bytes k (to_word half z))) ≡ z
signed k half z e h =
    ap (from_word half) (
      from_le_bytes-le_bytes k (to_word half z)
        (subst (λ n. to_word half z < n) e (to_word-lt half z h)))
    ∙ from_word-to_word half z h

module _ (z : ℤ) where
  pub Carries-i16 : InRange (2 ^ 15) z → Carries (Qtstream.i16 z) Reader.i16 z
  unfolding Qtstream.i16 Reader.i16 Qtstream.raw
  Carries-i16 h =
      le-Carries 2 _ (λ b. from_word (2 ^ 15) (from_le_bytes b)) z (signed 2 (2 ^ 15) z refl h)

  pub Carries-i32 : InRange (2 ^ 31) z → Carries (Qtstream.i32 z) Reader.i32 z
  unfolding Qtstream.i32 Reader.i32 Qtstream.raw
  Carries-i32 h =
      le-Carries 4 _ (λ b. from_word (2 ^ 31) (from_le_bytes b)) z (signed 4 (2 ^ 31) z refl h)

  pub Carries-i64 : InRange (2 ^ 63) z → Carries (Qtstream.i64 z) Reader.i64 z
  unfolding Qtstream.i64 Reader.i64 Qtstream.raw
  Carries-i64 h =
      le-Carries 8 _ (λ b. from_word (2 ^ 63) (from_le_bytes b)) z (signed 8 (2 ^ 63) z refl h)

-- The bytes that `qbytearray` can carry: the length fits and is not the one of a null array.
abbrev pub Fits : List ℕ → Type 0
Fits bytes = length bytes < 0xffff_ffff

-- A length that fits is written as it is, and is not the null length.
written_length : (n : ℕ) → n < 0xffff_ffff → (n % 2 ^ 32 ≡ n) × ((n == 0xffff_ffff) ≡ false)
written_length n h = (omega arith, ground arith)

-- What `qstring` and `qbytearray` have in common: the body behind the length.
Carries-prefixed :
    {A : Type 0} (n : ℕ) (w : Writer) (absent : A) (m : ℕ → Reader A) (a : A)
    → n < 0xffff_ffff
    → Carries w (m n) a
    → Carries
        (Qtstream.u32 (n % 2 ^ 32) ▸ w)
        (do len ← Reader.u32; if len == 0xffff_ffff then pure absent else m len)
        a
Carries-prefixed n w absent m a h c =
    let (e, present) = written_length n h in
    rw e (
      Carries-bind (Qtstream.u32 n) w Reader.u32 _ (Carries-u32 n (omega arith))
        (rw (if_false (pure absent) (m n) present) c))

pub Carries-qbytearray :
    (bytes : List ℕ) → Fits bytes → Carries (Qtstream.qbytearray bytes) Reader.qbytearray bytes
unfolding Qtstream.qbytearray Reader.qbytearray
Carries-qbytearray bytes h =
    Carries-prefixed (length bytes) (Qtstream.raw bytes) [] Reader.raw bytes h (Carries-raw bytes)

-- The bytes of UTF-16 units.
unit_bytes : List ℕ → List ℕ
unit_bytes [] = []
unit_bytes (u ∷ us) = le_bytes 2 u ++ unit_bytes us

push_units : (us : List ℕ) (w : QtWriter) → for_each push_unit us w ≡ Qtstream.raw (unit_bytes us) w
unfolding unit_bytes for_each Qtstream.raw Qtstream.qstring ◌▸◌ nothing
push_units [] w = rw append-nil
push_units (u ∷ us) w = push_units us (push_unit u w) ∙ rw append_assoc

units_of-unit_bytes : (us : List ℕ) → All (λ u. u < 2 ^ 16) us → units_of (unit_bytes us) ≡ us
unfolding unit_bytes Reader.qstring le_bytes from_le_bytes
units_of-unit_bytes [] h = refl
units_of-unit_bytes (u ∷ us) h = ap₂ (λ x xs. x ∷ xs) (omega arith) (units_of-unit_bytes us h.1)

length-unit_bytes : (us : List ℕ) → length (unit_bytes us) ≡ length us * 2
unfolding unit_bytes le_bytes
length-unit_bytes [] = refl
length-unit_bytes (u ∷ us) = omega (arith, length-unit_bytes us)

-- The texts that `qstring` can carry.
pub record IsText (s : List ℕ) : Type 0 where
  pub scalars : All IsScalar s
  pub fits : length (encode_utf16 s) * 2 < 0xffff_ffff

pub ascii-IsText : (s : List ℕ) → All (λ c. c < 128) s → length s * 2 < 0xffff_ffff → IsText s
ascii-IsText s h n = record { scalars = All-ascii s h; fits = rw (encode_utf16-ascii s h) n }

string-Carries :
    (s : List ℕ)
    → IsText s
    → Carries
        (for_each push_unit (encode_utf16 s))
        (string_body (length (encode_utf16 s) * 2))
        (some s)
unfolding string_body ◌▸◌ nothing
string-Carries s h =
    let units : List ℕ = encode_utf16 s in
    let n : ℕ = length units * 2 in
    let even : (n % 2 == 0) ≡ true = ground arith in
    let back : units_of (unit_bytes units) ≡ units =
      units_of-unit_bytes units (encode_utf16-units s h.scalars) in
    let text : from_utf16 (units_of (unit_bytes units)) ≡ some s =
      ap from_utf16 back ∙ from_utf16-encode_utf16 s h.scalars in
    rw (fun_ext (push_units units)) (
      Carries-ensure _ _ _ _ even (
        Carries-bind (Qtstream.raw (unit_bytes units)) nothing (Reader.raw n) _
          (Carries-raw_of n (unit_bytes units) (length-unit_bytes units))
          (Carries-require _ nothing s _ _ text Carries-nothing)))

pub Carries-qstring :
    (s : List ℕ) → IsText s → Carries (Qtstream.qstring (some s)) Reader.qstring (some s)
unfolding Qtstream.qstring Reader.qstring
Carries-qstring s h =
    Carries-prefixed (length (encode_utf16 s) * 2) (for_each push_unit (encode_utf16 s)) none
      string_body (some s) h.fits (string-Carries s h)

-- The null string, and then any optional one.
pub Carries-qstring_null : Carries (Qtstream.qstring none) Reader.qstring none
unfolding Qtstream.qstring Reader.qstring ◌▸◌ nothing
Carries-qstring_null =
    Carries-bind (Qtstream.u32 0xffff_ffff) nothing Reader.u32 _
      (Carries-u32 0xffff_ffff (omega arith)) Carries-nothing

abbrev pub IsOptionalText : Option (List ℕ) → Type 0
IsOptionalText none = Unit
IsOptionalText (some s) = IsText s

pub Carries-qstring_option :
    (o : Option (List ℕ)) → IsOptionalText o → Carries (Qtstream.qstring o) Reader.qstring o
Carries-qstring_option none h = Carries-qstring_null
Carries-qstring_option (some s) h = Carries-qstring s h
