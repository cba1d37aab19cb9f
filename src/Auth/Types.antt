-- ===== src/Auth/Types.antt =====
-- Requests and responses as far as the gate of src/server/auth.rs reads and writes them.
use gps_trips.Prelude.{List, Option, ℕ}
use gps_trips.Prelude.Int.{ℤ}
use gps_trips.Auth.Token.{Principal}
use gps_trips.Auth.Headers.{HeaderMap}

pub data Method : Type 0 where
  get : Method
  head : Method
  post : Method
  other : (name : List ℕ) → Method

pub record Request : Type 0 where
  pub method : Method
  pub path : List ℕ
  pub headers : HeaderMap
  -- The principal in the extensions
  pub principal : Option Principal

pub data Caller : Type 0 where
  owner : Caller
  anonymous : Caller
  share : (id : ℤ) → (label : Option (List ℕ)) → Caller
  unknown_link : Caller

-- What is answered: a handler's answer of type `B`, or one of the gate's errors.
pub data Body {ℓ} (B : Type ℓ) : Type ℓ where
  handled : B → Body B
  unauthorized : Body B
  not_found : Body B
  rate_limited : (retry_after : ℕ) → Body B
  database_error : Body B

pub record Response {ℓ} (B : Type ℓ) : Type ℓ where
  pub body : Body B
  -- The values of `Set-Cookie`, in order
  pub set_cookie : List (List ℕ)
  pub caller : Option Caller

pub record ResolvedShare : Type 0 where
  pub id : ℤ
  pub label : Option (List ℕ)

-- The result of the query: an error, no share or a share.
pub data Lookup : Type 0 where
  failed : Lookup
  missing : Lookup
  found : ResolvedShare → Lookup
