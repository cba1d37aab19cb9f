-- ===== src/Qmapshack/Carries.antt =====
-- `Carries w m a`: what the writer `w` appends, the reader `m` reads as `a`, wherever it stands in
-- a stream. One rule for each way to build writers and readers, and one for each primitive.
pub mod Primitives
pub mod DateTime
pub mod Steps
use gps_trips.Prelude.{
  ℕ, ◌+◌, ◌≡◌, ap, ◌∙◌, Bool, true, false, if◌then◌else◌, Option, List, [], ◌∷◌, ◌++◌, map, some,
  All, append-nil, append_assoc, arith, length, length-append, drop, drop-drop, drop-append_length,
}
use gps_trips.Qmapshack.Qtstream.{QtWriter, Writer, ◌▸◌, nothing, for_each}
use gps_trips.Qmapshack.Reader.{
  QtReader, Reader, DecodeError, ok, pure, ensure, require, continue, ◌>>=◌, repeat,
}

-- The reader stands at `front`.
abbrev pub At : QtReader → List ℕ → Type 0
At r front = drop r.pos r.bytes ≡ front

pub record Carries {A : Type 0} (w : Writer) (m : Reader A) (a : A) : Type 0 where
  pub bytes : List ℕ
  pub writes : (s : QtWriter) → (w s).buf ≡ s.buf ++ bytes
  pub reads :
      (r : QtReader) (back : List ℕ)
      → At r (bytes ++ back)
      → m r ≡ ok (a, record r { pos = r.pos + length bytes })

At-skip :
    (r : QtReader) (xs ys : List ℕ) → At r (xs ++ ys) → At (record r { pos = r.pos + length xs }) ys
At-skip r xs ys at =
    drop-drop r.pos (length xs) r.bytes ∙ ap (drop (length xs)) at ∙ drop-append_length xs ys

module _ {A B : Type 0} {a : A} where
  pub Carries-bind :
      {b : B} (w w' : Writer) (m : Reader A) (f : A → Reader B)
      → Carries w m a
      → Carries w' (f a) b
      → Carries (w ▸ w') (m >>= f) b
  unfolding ◌>>=◌ ◌▸◌
  Carries-bind {b} w w' m f c d = record {
    bytes = c.bytes ++ d.bytes;
    writes = λ s. d.writes (w s) ∙ rw (c.writes s, append_assoc);
    reads = λ r back at.
        let at' : At r (c.bytes ++ (d.bytes ++ back)) = at ∙ append_assoc c.bytes d.bytes back in
        let e : r.pos + length c.bytes + length d.bytes ≡ r.pos + length (c.bytes ++ d.bytes) =
          omega (arith, length-append c.bytes d.bytes) in
        ap (λ x. continue x f) (c.reads r _ at')
        ∙ d.reads _ back (At-skip r c.bytes _ at')
        ∙ ap (λ p. ok (b, record { bytes = r.bytes; pos = p })) e;
  }

  -- The last step of a block.
  pub Carries-end :
      (w : Writer) (m : Reader A) (g : A → B)
      → Carries w m a
      → Carries w (m >>= λ x. pure (g x)) (g a)
  unfolding ◌>>=◌ pure
  Carries-end w m g c = record {
    bytes = c.bytes;
    writes = c.writes;
    reads = λ r back at. ap (λ x. continue x (λ y. pure (g y))) (c.reads r back at);
  }

module _ {B : Type 0} {b : B} where
  -- A check that holds reads nothing.
  pub Carries-ensure :
      (t : Bool) (w : Writer) (e : DecodeError) (f : Unit {0} → Reader B)
      → t ≡ true
      → Carries w (f tt) b
      → Carries w (ensure t e >>= f) b
  unfolding ◌>>=◌ ensure
  Carries-ensure t w e f h c = rw h (record { bytes = c.bytes; writes = c.writes; reads = c.reads })

  pub Carries-require :
      {A : Type 0} (o : Option A) (w : Writer) (a : A) (e : DecodeError) (f : A → Reader B)
      → o ≡ some a
      → Carries w (f a) b
      → Carries w (require o e >>= f) b
  unfolding ◌>>=◌ require
  Carries-require o w a e f h c =
      rw h (record { bytes = c.bytes; writes = c.writes; reads = c.reads })

  pub Carries-pure :
      {A : Type 0} (w : Writer) (a : A) (f : A → Reader B)
      → Carries w (f a) b
      → Carries w (pure a >>= f) b
  unfolding ◌>>=◌ pure
  Carries-pure w a f c = record { bytes = c.bytes; writes = c.writes; reads = c.reads }

  pub Carries-nothing : Carries nothing (pure b) b
  unfolding nothing pure
  Carries-nothing = record {
    bytes = [];
    writes = λ s. rw append-nil;
    reads = λ r back at. ap (λ p. ok (b, record { bytes = r.bytes; pos = p })) (omega arith);
  }

-- The last bytes, behind which the reader goes on and reads no more.
pub Carries-tail :
    {A B : Type 0} {a : A} {b : B} (w : Writer) (m : Reader A) (f : A → Reader B)
    → Carries w m a
    → Carries nothing (f a) b
    → Carries w (m >>= f) b
Carries-tail {b = b} w m f c d =
    unfold ◌▸◌ nothing in let e : Carries w (m >>= f) b = Carries-bind w nothing m f c d in e

-- One `for` loop against the other.
pub Carries-for_each :
    {A B : Type 0} (w : A → Writer) (m : Reader B) (f : A → B) (xs : List A)
    → All (λ x. Carries (w x) m (f x)) xs
    → Carries (for_each w xs) (repeat (length xs) m) (map f xs)
unfolding for_each repeat
Carries-for_each w m f [] h = Carries-nothing
Carries-for_each w m f (x ∷ xs) h = Carries-bind (w x) (for_each w xs) m _ h.0 (
    Carries-end (for_each w xs) (repeat (length xs) m) (λ ys. f x ∷ ys)
      (Carries-for_each w m f xs h.1))
