-- ===== src/Auth/Gate.antt =====
-- The gate of src/server/auth.rs, layered over the router. The handlers and the database are one
-- state `W`: the router is a parameter that takes and gives it, the lookup of a share reads it.
pub mod Routes
pub mod Safety
pub mod Renewal
pub mod Strangers
use gps_trips.Prelude.{
  ℕ, ◌≡◌, Bool, true, false, not, ◌&&◌, ◌||◌, List, [], ◌∷◌, ◌++◌, Option, none, some,
  if◌then◌else◌, codes, text_eq,
}
use gps_trips.Prelude.Int.{ℤ, pos, ◌-ℤ◌, ltb_ℤ}
use gps_trips.Auth.Crates.{AuthCrates}
use gps_trips.Auth.Token.{
  Auth, VerifiedSession, Principal, mint, session_ttl, session_refresh_after,
}
use gps_trips.Auth.Headers.{
  HeaderMap, Credential, cookie, bearer_header, resolve, session_cookie, cookie_name, and_then,
}
use gps_trips.Auth.Types.{
  Method, Request, Caller, Body, handled, unauthorized, not_found, database_error, Response,
  ResolvedShare, Lookup, failed, missing, found,
}
use gps_trips.Text.{split, strip_prefix, starts_with, is_empty, contains}

abbrev pub path_prefix : List ℕ
path_prefix = codes "/s/"

abbrev pub page_prefix : List ℕ
page_prefix = codes "/app/s/"

-- The path of a trip's page without its prefix.
abbrev pub is_trip_id : Option (List ℕ) → Bool
is_trip_id none = false
is_trip_id (some id) = not (is_empty id) && not (contains b'/' id)

abbrev pub is_public_page : List ℕ → Bool
is_public_page path =
    text_eq path (codes "/app")
    || text_eq path (codes "/")
    || text_eq path (codes "/import")
    || text_eq path (codes "/komoot/sync")
    || starts_with (codes "/app/") path
    || is_trip_id (strip_prefix (codes "/trips/") path)

unfoldable pub is_public : Method → List ℕ → Bool
is_public Method.post path = text_eq path (codes "/api/session")
is_public Method.get path = is_public_page path
is_public Method.head path = is_public_page path
is_public (Method.other name) path = false

-- `split('/').next()`, which a text always has.
abbrev pub first_part : List (List ℕ) → List ℕ
first_part [] = []
first_part (part ∷ parts) = part

abbrev pub nonempty : List ℕ → Option (List ℕ)
nonempty [] = none
nonempty (c ∷ s) = some (c ∷ s)

unfoldable pub token_under : List ℕ → List ℕ → Option (List ℕ)
token_under path prefix =
    and_then (strip_prefix prefix path) (λ rest. nonempty (first_part (split b'/' rest)))

-- Whether one of the values starts as the session's cookie does.
unfoldable pub sets_session : List (List ℕ) → Bool
sets_session [] = false
sets_session (value ∷ values) = starts_with (cookie_name ++ b'=' ∷ []) value || sets_session values

module _ {ℓ} {B : Type ℓ} where
  unfoldable pub naming : Response B → Caller → Response B
  naming response caller = record {
    body = response.body;
    set_cookie = response.set_cookie;
    caller = some caller;
  }

  -- `into_response` of an error.
  unfoldable pub error_response : Body B → Response B
  error_response body = record { body = body; set_cookie = []; caller = none }

  unfoldable pub sets_session_cookie : Response B → Bool
  unfolding sets_session
  sets_session_cookie response = sets_session response.set_cookie

  unfoldable pub append_cookie : Response B → Option (List ℕ) → Response B
  append_cookie response none = response
  append_cookie response (some value) = record {
    body = response.body;
    set_cookie = response.set_cookie ++ value ∷ [];
    caller = response.caller;
  }

unfoldable pub with_principal : Request → Principal → Request
with_principal request principal = record {
  method = request.method;
  path = request.path;
  headers = request.headers;
  principal = some principal;
}

unfoldable pub caller_of : Lookup → Caller
caller_of (found s) = Caller.share s.id s.label
caller_of missing = Caller.unknown_link
caller_of failed = Caller.unknown_link

unfoldable pub principal_of : Option (VerifiedSession × Credential) → Principal
principal_of none = Principal.anonymous
principal_of (some (session, source)) = session.principal

abbrev pub is_anonymous : Principal → Bool
is_anonymous Principal.anonymous = true
is_anonymous Principal.owner = false
is_anonymous (Principal.share id) = false

-- The share whose screens are loaded, unless the owner loads them.
unfoldable pub page_token : Principal → List ℕ → Option (List ℕ)
page_token Principal.owner path = none
page_token Principal.anonymous path = token_under path page_prefix
page_token (Principal.share id) path = token_under path page_prefix

unfoldable pub caller_for : Principal → Option Lookup → Caller
unfolding caller_of
caller_for Principal.owner lookup = Caller.owner
caller_for Principal.anonymous none = Caller.anonymous
caller_for (Principal.share id) none = Caller.anonymous
caller_for Principal.anonymous (some lookup) = caller_of lookup
caller_for (Principal.share id) (some lookup) = caller_of lookup

module _ {ℓ} {B : Type ℓ} where
  -- The renewal of a session that a cookie carries.
  unfoldable pub renew :
      AuthCrates → Auth → ℤ → Option (VerifiedSession × Credential) → Response B → Response B
  renew C auth now none response = response
  renew C auth now (some (session, bearer_header)) response = response
  renew C auth now (some (session, cookie)) response =
      if sets_session_cookie response
      then response
      else if ltb_ℤ (session.expires_at -ℤ now) (pos session_refresh_after)
      then append_cookie response
          (C.header_value (session_cookie (mint C auth now).token session_ttl))
      else response

module _ {ℓ κ} {B : Type ℓ} {W : Type κ} where
  unfoldable pub open_share : Lookup → (Request → W → Response B × W) → Request → W → Response B × W
  open_share (found s) next request w =
      let (response, after) = next (with_principal request (Principal.share s.id)) w in
      (naming response (Caller.share s.id s.label), after)
  open_share missing next request w = (naming (error_response not_found) Caller.unknown_link, w)
  open_share failed next request w = (naming (error_response database_error) Caller.unknown_link, w)

  -- A request that the gate lets through, with what its credential resolved to.
  unfoldable pub let_through :
      AuthCrates
      → Auth
      → (W → List ℕ → ℤ → Lookup)
      → (Request → W → Response B × W)
      → ℤ
      → Option (VerifiedSession × Credential)
      → Request
      → W
      → Response B × W
  unfolding renew
  let_through C auth resolve_share next now resolved request w =
      let principal = principal_of resolved in
      let (response, after) = next (with_principal request principal) w in
      let lookup =
        and_then (page_token principal request.path)
          (λ token. some (resolve_share after token now)) in
      (renew C auth now resolved (naming response (caller_for principal lookup)), after)

  unfoldable pub gate :
      AuthCrates
      → Auth
      → (W → List ℕ → ℤ → Lookup)
      → (Request → W → Response B × W)
      → ℤ
      → Request
      → W
      → Response B × W
  gate C auth resolve_share next now request w = elim (token_under request.path path_prefix) [
    | some token ↦ open_share (resolve_share w token now) next request w
    | none ↦
        let resolved = resolve C auth request.headers now in
        if is_anonymous (principal_of resolved) && not (is_public request.method request.path)
        then (naming (error_response unauthorized) Caller.anonymous, w)
        else let_through C auth resolve_share next now resolved request w
  ]
