-- ===== src/Filter/Outcome.antt =====
-- What parsing comes to: a value, or one of the ways a request is bad. The wording of the message
-- is left out.
use gps_trips.Prelude.{◌≡◌, refl, ap}

pub data FilterError : Type 0 where
  invalid_activity : FilterError
  invalid_kind : FilterError
  invalid_recorded_trip : FilterError
  invalid_flag : FilterError
  invalid_date : FilterError
  from_after_to : FilterError
  invalid_distance : FilterError
  distance_out_of_range : FilterError
  min_above_max : FilterError
  invalid_tag : FilterError
  invalid_bbox : FilterError
  invalid_coordinate : FilterError
  coordinate_out_of_range : FilterError
  longitudes_backwards : FilterError
  latitudes_backwards : FilterError

pub data Answer {ℓ} (A : Type ℓ) : Type ℓ where
  parsed : A → Answer A
  bad_request : FilterError → Answer A

infixl 10 ◌>>=◌
unfoldable pub ◌>>=◌ {ℓ κ} : {A : Type ℓ} {B : Type κ} → Answer A → (A → Answer B) → Answer B
parsed a >>= f = f a
bad_request e >>= f = bad_request e

-- What is parsed behind a step was parsed by it.
pub bind_inv {ℓ κ} :
    {A : Type ℓ} {B : Type κ} (m : Answer A) (f : A → Answer B) (b : B)
    → (m >>= f) ≡ parsed b
    → (a : A) × (m ≡ parsed a) × (f a ≡ parsed b)
unfolding ◌>>=◌
bind_inv (parsed a) f b h = (a, refl, h)
bind_inv (bad_request e) f b h = cc

abbrev value_or {ℓ} : {A : Type ℓ} → A → Answer A → A
value_or d (parsed a) = a
value_or d (bad_request e) = d

pub parsed-injective {ℓ} : {A : Type ℓ} (a b : A) → parsed a ≡ parsed b → a ≡ b
parsed-injective a b h = ap (value_or a) h
