-- ===== src/Komoot/World.antt =====
-- What src/server/komoot_sync.rs runs in: the archive's tables and whatever is outside of them, and
-- the chain of fallible calls that its `?` makes.
pub mod Keeps
use gps_trips.Prelude.{ℕ, List, ◌++◌, codes, ◌⊎◌, inl, inr, Option, none, some}
use gps_trips.Komoot.Archive.{Archive}

-- What `AppError` says of a failure, for those that a synchronisation meets.
pub data AppError : Type 0 where
  import : List ℕ → AppError
  database : List ℕ → AppError
  storage : List ℕ → AppError
  komoot : List ℕ → AppError

abbrev pub to_string : AppError → List ℕ
to_string (import e) = e
to_string (database e) = codes "Database error: " ++ e
to_string (storage e) = codes "Storage error: " ++ e
to_string (komoot e) = codes "Komoot error: " ++ e

-- `unfinished` is a loop whose fuel is used up.
pub data Outcome {ℓ} (A : Type ℓ) : Type ℓ where
  ok : A → Outcome A
  err : AppError → Outcome A
  unfinished : Outcome A

pub record World {ℓ} (R : Type ℓ) : Type ℓ where
  pub db : Archive
  pub rest : R

abbrev pub Action {ℓ κ} : Type ℓ → Type κ → Type (ℓ ⊔ κ)
Action R A = World R → Outcome A × World R

-- A call of what is outside: an error or its answer, and what is outside after it.
abbrev pub Call {ℓ κ μ} : Type ℓ → Type κ → Type μ → Type (ℓ ⊔ κ ⊔ μ)
Call R E A = R → (E ⊎ A) × R

module _ {ℓ κ} {R : Type ℓ} {A : Type κ} where
  abbrev pub and_then {μ} :
      {B : Type μ} → Outcome A × World R → (A → Action R B) → Outcome B × World R
  and_then (ok a, w) f = f a w
  and_then (err e, w) f = (err e, w)
  and_then (unfinished, w) f = (unfinished, w)

  abbrev pub return : A → Action R A
  return a w = (ok a, w)

  abbrev pub lift : Outcome A → Action R A
  lift r w = (r, w)

  abbrev pub called {μ} :
      {E : Type μ} → (E → AppError) → Archive → (E ⊎ A) × R → Outcome A × World R
  called wrap db (inl e, after) = (err (wrap e), record { db = db; rest = after })
  called wrap db (inr a, after) = (ok a, record { db = db; rest = after })

  -- The archive is not concerned.
  unfoldable pub call {μ} : {E : Type μ} → (E → AppError) → Call R E A → Action R A
  call wrap c w = called wrap w.db (c w.rest)

  -- A transaction that is not committed leaves the archive as it was.
  abbrev pub settle : Archive → Outcome A × World R → Outcome A × World R
  settle db (ok a, w) = (ok a, w)
  settle db (err e, w) = (err e, record w { db = db })
  settle db (unfinished, w) = (unfinished, record w { db = db })

infixl 5 ◌>>=◌
abbrev pub ◌>>=◌ {ℓ κ μ} :
    {R : Type ℓ} {A : Type κ} {B : Type μ} → Action R A → (A → Action R B) → Action R B
(m >>= f) w = and_then (m w) f

-- What is done to the archive, without a statement.
abbrev pub modify {ℓ} : {R : Type ℓ} → (Archive → Archive) → Action R (Unit {0})
modify f w = (ok tt, record w { db = f w.db })

abbrev pub gets {ℓ κ} : {R : Type ℓ} {A : Type κ} → (Archive → A) → Action R A
gets f w = (ok (f w.db), w)
