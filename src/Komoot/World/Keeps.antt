-- ===== src/Komoot/World/Keeps.antt =====
-- How what is proved of the single calls of src/server/komoot_sync.rs carries over to their chains.
use gps_trips.Prelude.{◌≡◌, refl, ◌⊎◌, inl, inr}
use gps_trips.Komoot.Archive.{Archive}
use gps_trips.Komoot.World.{
  AppError, Outcome, ok, err, unfinished, World, Action, Call, and_then, called, call, ◌>>=◌,
}

module _ {ℓ κ μ} {R : Type ℓ} {A : Type κ} (Rel : Archive → Archive → Type μ) where
  -- Whatever a call comes to, the archive after it is one that the relation allows.
  abbrev pub Keeps : Action R A → Type (ℓ ⊔ μ)
  Keeps m = (w : World R) → Rel w.db (m w).1.db

-- If a call succeeds, so it ends.
abbrev pub Ends {ℓ κ μ} :
    {R : Type ℓ} {A : Type κ} → (A → Archive → Type μ) → Outcome A × World R → Type μ
Ends Q (ok a, w) = Q a w.db
Ends Q (err e, w) = Unit {_}
Ends Q (unfinished, w) = Unit {_}

-- What a call ends with ends also as what follows from it.
pub Ends-weaken {ℓ κ μ ν} :
    {R : Type ℓ} {A : Type κ} (P : A → Archive → Type μ) (Q : A → Archive → Type ν)
    → (r : Outcome A × World R) → ((a : A) (db : Archive) → P a db → Q a db)
    → Ends P r
    → Ends Q r
Ends-weaken P Q (ok a, w) f h = f a w.db h
Ends-weaken P Q (err e, w) f h = tt
Ends-weaken P Q (unfinished, w) f h = tt

module _ {ℓ κ ν μ} {R : Type ℓ} {A : Type κ} {B : Type ν} where
  pub Keeps-bind :
      (Rel : Archive → Archive → Type μ)
      → ((a b c : Archive) → Rel a b → Rel b c → Rel a c)
      → (m : Action R A) (f : A → Action R B) → Keeps Rel m
      → ((a : A) → Keeps Rel (f a))
      → Keeps Rel (m >>= f)
  Keeps-bind Rel trans m f h k w = go (m w) (h w)
    where
      go : (r : Outcome A × World R) → Rel w.db r.1.db → Rel w.db (and_then r f).1.db
      go (ok a, v) h = trans w.db v.db _ h (k a v)
      go (err e, v) h = h
      go (unfinished, v) h = h

  pub Ends-bind {ξ} :
      (P : A → Archive → Type ξ) (Q : B → Archive → Type μ) (m : Action R A) (f : A → Action R B)
      → (w : World R) → Ends P (m w)
      → ((a : A) (v : World R) → P a v.db → Ends Q (f a v))
      → Ends Q ((m >>= f) w)
  Ends-bind P Q m f w h k = go (m w) h
    where
      go : (r : Outcome A × World R) → Ends P r → Ends Q (and_then r f)
      go (ok a, v) h = k a v h
      go (err e, v) h = tt
      go (unfinished, v) h = tt

module _ {ℓ κ ν} {R : Type ℓ} {A : Type κ} {E : Type ν} where
  pub call-db : (wrap : E → AppError) (c : Call R E A) (w : World R) → (call wrap c w).1.db ≡ w.db
  unfolding call
  call-db wrap c w = go (c w.rest)
    where
      go : (r : (E ⊎ A) × R) → (called wrap w.db r).1.db ≡ w.db
      go (inl e, v) = refl
      go (inr a, v) = refl

  pub call-Ends :
      (wrap : E → AppError) (c : Call R E A) (w : World R)
      → Ends (λ a db. db ≡ w.db) (call wrap c w)
  unfolding call
  call-Ends wrap c w = go (c w.rest)
    where
      go : (r : (E ⊎ A) × R) → Ends (λ a db. db ≡ w.db) (called wrap w.db r)
      go (inl e, v) = tt
      go (inr a, v) = refl
