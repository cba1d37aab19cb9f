-- ===== src/Qmapshack/Carries/Steps.antt =====
-- A primitive at the head of a block, with what follows it, or at its end. Here the value that is
-- read stands in the goal, so that `search carry` goes through a block.
use gps_trips.Prelude.{ℕ, ◌^◌, ◌%◌, ◌<◌, ◌≡◌, List, Option, none, some, arith}
use gps_trips.Prelude.Int.{ℤ}
use gps_trips.Qmapshack.Words.{InRange}
use gps_trips.Qmapshack.Qtstream
use gps_trips.Qmapshack.Qtstream.{Writer, ◌▸◌, nothing}
use gps_trips.Qmapshack.Reader
use gps_trips.Qmapshack.Reader.{Reader, ◌>>=◌}
use gps_trips.Qmapshack.Carries.{
  Carries, Carries-bind, Carries-ensure, Carries-require, Carries-pure, Carries-nothing,
  Carries-tail,
}
use gps_trips.Qmapshack.Carries.Primitives.{
  Carries-u8, Carries-u32, Carries-u64, Carries-f64, Carries-i16, Carries-i32, Carries-qstring,
  Carries-qstring_null, Carries-qstring_option, Carries-qbytearray, Fits, IsText, IsOptionalText,
}

module _ {B : Type 0} {b : B} where
  pub step_u8 :
      (v : ℕ) (w : Writer) (f : ℕ → Reader B)
      → Carries w (f v) b
      → Carries (Qtstream.u8 v ▸ w) (Reader.u8 >>= f) b
  step_u8 v w f c = Carries-bind _ w _ f (Carries-u8 v) c

  pub last_u8 :
      (v : ℕ) (f : ℕ → Reader B)
      → Carries nothing (f v) b
      → Carries (Qtstream.u8 v) (Reader.u8 >>= f) b
  last_u8 v f c = Carries-tail _ _ f (Carries-u8 v) c

  pub step_u32 :
      (v : ℕ) (w : Writer) (f : ℕ → Reader B)
      → v < 2 ^ 32
      → Carries w (f v) b
      → Carries (Qtstream.u32 v ▸ w) (Reader.u32 >>= f) b
  step_u32 v w f h c = Carries-bind _ w _ f (Carries-u32 v h) c

  pub last_u32 :
      (v : ℕ) (f : ℕ → Reader B)
      → v < 2 ^ 32
      → Carries nothing (f v) b
      → Carries (Qtstream.u32 v) (Reader.u32 >>= f) b
  last_u32 v f h c = Carries-tail _ _ f (Carries-u32 v h) c

  pub step_u64 :
      (v : ℕ) (w : Writer) (f : ℕ → Reader B)
      → v < 2 ^ 64
      → Carries w (f v) b
      → Carries (Qtstream.u64 v ▸ w) (Reader.u64 >>= f) b
  step_u64 v w f h c = Carries-bind _ w _ f (Carries-u64 v h) c

  pub last_u64 :
      (v : ℕ) (f : ℕ → Reader B)
      → v < 2 ^ 64
      → Carries nothing (f v) b
      → Carries (Qtstream.u64 v) (Reader.u64 >>= f) b
  last_u64 v f h c = Carries-tail _ _ f (Carries-u64 v h) c

  pub step_f64 :
      (v : ℕ) (w : Writer) (f : ℕ → Reader B)
      → v < 2 ^ 64
      → Carries w (f v) b
      → Carries (Qtstream.f64 v ▸ w) (Reader.f64 >>= f) b
  step_f64 v w f h c = Carries-bind _ w _ f (Carries-f64 v h) c

  pub last_f64 :
      (v : ℕ) (f : ℕ → Reader B)
      → v < 2 ^ 64
      → Carries nothing (f v) b
      → Carries (Qtstream.f64 v) (Reader.f64 >>= f) b
  last_f64 v f h c = Carries-tail _ _ f (Carries-f64 v h) c

  pub step_i16 :
      (z : ℤ) (w : Writer) (f : ℤ → Reader B)
      → InRange (2 ^ 15) z
      → Carries w (f z) b
      → Carries (Qtstream.i16 z ▸ w) (Reader.i16 >>= f) b
  step_i16 z w f h c = Carries-bind _ w _ f (Carries-i16 z h) c

  pub last_i16 :
      (z : ℤ) (f : ℤ → Reader B)
      → InRange (2 ^ 15) z
      → Carries nothing (f z) b
      → Carries (Qtstream.i16 z) (Reader.i16 >>= f) b
  last_i16 z f h c = Carries-tail _ _ f (Carries-i16 z h) c

  pub step_i32 :
      (z : ℤ) (w : Writer) (f : ℤ → Reader B)
      → InRange (2 ^ 31) z
      → Carries w (f z) b
      → Carries (Qtstream.i32 z ▸ w) (Reader.i32 >>= f) b
  step_i32 z w f h c = Carries-bind _ w _ f (Carries-i32 z h) c

  pub last_i32 :
      (z : ℤ) (f : ℤ → Reader B)
      → InRange (2 ^ 31) z
      → Carries nothing (f z) b
      → Carries (Qtstream.i32 z) (Reader.i32 >>= f) b
  last_i32 z f h c = Carries-tail _ _ f (Carries-i32 z h) c

  pub step_qstring_null :
      (w : Writer) (f : Option (List ℕ) → Reader B)
      → Carries w (f none) b
      → Carries (Qtstream.qstring none ▸ w) (Reader.qstring >>= f) b
  step_qstring_null w f c = Carries-bind _ w _ f (Carries-qstring_null) c

  pub last_qstring_null :
      (f : Option (List ℕ) → Reader B)
      → Carries nothing (f none) b
      → Carries (Qtstream.qstring none) (Reader.qstring >>= f) b
  last_qstring_null f c = Carries-tail _ _ f (Carries-qstring_null) c

  pub step_qstring-some :
      (s : List ℕ) (w : Writer) (f : Option (List ℕ) → Reader B)
      → IsText s
      → Carries w (f (some s)) b
      → Carries (Qtstream.qstring (some s) ▸ w) (Reader.qstring >>= f) b
  step_qstring-some s w f h c = Carries-bind _ w _ f (Carries-qstring s h) c

  pub last_qstring-some :
      (s : List ℕ) (f : Option (List ℕ) → Reader B)
      → IsText s
      → Carries nothing (f (some s)) b
      → Carries (Qtstream.qstring (some s)) (Reader.qstring >>= f) b
  last_qstring-some s f h c = Carries-tail _ _ f (Carries-qstring s h) c

  pub step_qstring_option :
      (o : Option (List ℕ)) (w : Writer) (f : Option (List ℕ) → Reader B)
      → IsOptionalText o
      → Carries w (f o) b
      → Carries (Qtstream.qstring o ▸ w) (Reader.qstring >>= f) b
  step_qstring_option o w f h c = Carries-bind _ w _ f (Carries-qstring_option o h) c

  pub last_qstring_option :
      (o : Option (List ℕ)) (f : Option (List ℕ) → Reader B)
      → IsOptionalText o
      → Carries nothing (f o) b
      → Carries (Qtstream.qstring o) (Reader.qstring >>= f) b
  last_qstring_option o f h c = Carries-tail _ _ f (Carries-qstring_option o h) c

  pub step_qbytearray :
      (s : List ℕ) (w : Writer) (f : List ℕ → Reader B)
      → Fits s
      → Carries w (f s) b
      → Carries (Qtstream.qbytearray s ▸ w) (Reader.qbytearray >>= f) b
  step_qbytearray s w f h c = Carries-bind _ w _ f (Carries-qbytearray s h) c

  pub last_qbytearray :
      (s : List ℕ) (f : List ℕ → Reader B)
      → Fits s
      → Carries nothing (f s) b
      → Carries (Qtstream.qbytearray s) (Reader.qbytearray >>= f) b
  last_qbytearray s f h c = Carries-tail _ _ f (Carries-qbytearray s h) c

-- A length, written modulo 2^32.
pub step_count :
    {B : Type 0} {b : B} (n : ℕ) (w : Writer) (f : ℕ → Reader B)
    → n < 2 ^ 32
    → Carries w (f n) b
    → Carries (Qtstream.u32 (n % 2 ^ 32) ▸ w) (Reader.u32 >>= f) b
step_count n w f h c = let e : n % 2 ^ 32 ≡ n = omega arith in rw e (step_u32 n w f h c)

-- What is read at the end of a block with no check left.
pub Carries-require_last :
    {A : Type 0} (a : A) (e : Reader.DecodeError) → Carries nothing (Reader.require (some a) e) a
unfolding Reader.require Reader.pure
Carries-require_last a e = Carries-nothing

pub ruleset carry = (
  Carries-nothing, Carries-ensure, Carries-require, Carries-pure, step_u8, last_u8, step_u32,
  last_u32, step_u64, last_u64, step_f64, last_f64, step_i16, last_i16, step_i32, last_i32,
  step_qstring_null, last_qstring_null, step_qstring-some, last_qstring-some, step_qstring_option,
  last_qstring_option, step_qbytearray, last_qbytearray,
)
