-- ===== src/Auth/Gate/Safety.antt =====
-- Theorems on the gate of src/server/auth.rs as a whole.
use gps_trips.Prelude.{
  ℕ, ◌≡◌, ◌⊎◌, refl, ap, ◌∙◌, true, false, List, Option, none, some, some-injective, Bool-cases,
  Option-cases, inl, inr,
}
use gps_trips.Prelude.Int.{ℤ}
use gps_trips.Auth.Crates.{AuthCrates}
use gps_trips.Auth.Token.{Auth, VerifiedSession, Principal, verify}
use gps_trips.Auth.Token.RoundTrip.{verify-principal}
use gps_trips.Auth.Headers.{
  HeaderMap, and_then_inv, Credential, cookie, bearer_header, resolve, and_then, cookie_token,
  bearer_token,
}
use gps_trips.Auth.Types.{
  Request, Response, Caller, ResolvedShare, Lookup, found, missing, failed, unauthorized,
}
use gps_trips.Auth.Gate.{
  gate, let_through, open_share, is_public, token_under, path_prefix, principal_of, naming,
  error_response, with_principal,
}

-- The token that a request's cookie or its `Authorization` header carries.
abbrev pub Presented : AuthCrates → HeaderMap → List ℕ → Type 0
Presented C headers token =
    (cookie_token C headers ≡ some token) ⊎ (bearer_token C headers ≡ some token)

-- Who a request may act as, and what makes it so: an open link, a session's token among its headers
-- or nothing on a public route.
pub data Authorised {κ} {W : Type κ} (C : AuthCrates) (auth : Auth)
    (resolve_share : W → List ℕ → ℤ → Lookup) (now : ℤ) (request : Request) (w : W)
    : Principal → Type 0 where
  by_link :
      (token : List ℕ) (s : ResolvedShare)
      → token_under request.path path_prefix ≡ some token
      → resolve_share w token now ≡ found s
      → Authorised C auth resolve_share now request w (Principal.share s.id)
  by_session :
      (token : List ℕ) (session : VerifiedSession)
      → token_under request.path path_prefix ≡ none
      → Presented C request.headers token
      → verify C auth token now ≡ some session
      → Authorised C auth resolve_share now request w Principal.owner
  by_route :
      token_under request.path path_prefix ≡ none
      → is_public request.method request.path ≡ true
      → Authorised C auth resolve_share now request w Principal.anonymous

-- What `resolve` gives is what `verify` gives for a token that is presented.
pub resolve_verified :
    (C : AuthCrates) (auth : Auth) (headers : HeaderMap) (now : ℤ)
    → (session : VerifiedSession) (source : Credential)
    → resolve C auth headers now ≡ some (session, source)
    → (token : List ℕ) × Presented C headers token × (verify C auth token now ≡ some session)
unfolding resolve
resolve_verified C auth headers now session source h =
    let by_cookie = and_then (cookie_token C headers) (λ token. verify C auth token now) in
    let by_bearer = and_then (bearer_token C headers) (λ token. verify C auth token now) in
    elim (Option-cases by_cookie) [
      | inr (s, e) ↦
          let (token, sent, v) =
            and_then_inv (cookie_token C headers) (λ token. verify C auth token now) s e in
          let same : some (s, cookie) ≡ some (session, source) = rw (resolve, e) at h in
          (
            token,
            inl sent,
            v ∙ ap some (ap (λ r. r.0) (some-injective (s, cookie) (session, source) same)),
          )
      | inl e ↦
          let found : and_then by_bearer (λ s. some (s, bearer_header)) ≡ some (session, source) =
            rw (resolve, e) at h in
          let (s, b, same) =
            and_then_inv by_bearer (λ s. some (s, bearer_header)) (session, source) found in
          let (token, sent, v) =
            and_then_inv (bearer_token C headers) (λ token. verify C auth token now) s b in
          (
            token,
            inr sent,
            v ∙ ap some (ap (λ r. r.0) (some-injective (s, bearer_header) (session, source) same)),
          )
    ]

module _ {ℓ κ} {B : Type ℓ} {W : Type κ} where
  pub gate-refuses :
      (C : AuthCrates) (auth : Auth) (resolve_share : W → List ℕ → ℤ → Lookup)
      → (next : Request → W → Response B × W) → (now : ℤ) (request : Request) (w : W)
      → token_under request.path path_prefix ≡ none
      → resolve C auth request.headers now ≡ none
      → is_public request.method request.path ≡ false
      → gate C auth resolve_share next now request w
        ≡ (naming (error_response unauthorized) Caller.anonymous, w)
  unfolding gate principal_of
  gate-refuses C auth resolve_share next now request w share_path nobody private =
      rw (gate, share_path) (rw (nobody) (rw private refl))

  gate-link :
      (C : AuthCrates) (auth : Auth) (resolve_share : W → List ℕ → ℤ → Lookup)
      → (next : Request → W → Response B × W)
      → (now : ℤ) (request : Request) (w : W) (token : List ℕ)
      → token_under request.path path_prefix ≡ some token
      → gate C auth resolve_share next now request w
        ≡ open_share (resolve_share w token now) next request w
  unfolding gate open_share
  gate-link C auth resolve_share next now request w token link = rw (gate, link) refl

  pub gate-public :
      (C : AuthCrates) (auth : Auth) (resolve_share : W → List ℕ → ℤ → Lookup)
      → (next : Request → W → Response B × W) → (now : ℤ) (request : Request) (w : W)
      → token_under request.path path_prefix ≡ none
      → resolve C auth request.headers now ≡ none
      → is_public request.method request.path ≡ true
      → gate C auth resolve_share next now request w
        ≡ let_through C auth resolve_share next now none request w
  unfolding gate principal_of
  gate-public C auth resolve_share next now request w share_path nobody public =
      rw (gate, share_path) (rw nobody (rw public refl))

  pub gate-known :
      (C : AuthCrates) (auth : Auth) (resolve_share : W → List ℕ → ℤ → Lookup)
      → (next : Request → W → Response B × W)
      → (now : ℤ) (request : Request) (w : W) (session : VerifiedSession) (source : Credential)
      → token_under request.path path_prefix ≡ none
      → resolve C auth request.headers now ≡ some (session, source)
      → session.principal ≡ Principal.owner
      → gate C auth resolve_share next now request w
        ≡ let_through C auth resolve_share next now (some (session, source)) request w
  unfolding gate principal_of
  gate-known C auth resolve_share next now request w session source share_path known who =
      rw (gate, share_path) (rw known (rw who refl))

  pub let_through-state :
      (C : AuthCrates) (auth : Auth) (resolve_share : W → List ℕ → ℤ → Lookup)
      → (next : Request → W → Response B × W)
      → (now : ℤ) (resolved : Option (VerifiedSession × Credential)) (request : Request) (w : W)
      → (let_through C auth resolve_share next now resolved request w).1
        ≡ (next (with_principal request (principal_of resolved)) w).1
  unfolding let_through
  let_through-state C auth resolve_share next now resolved request w = refl

  link_runs :
      (next : Request → W → Response B × W) (request : Request) (w : W) (l : Lookup)
      → ((open_share l next request w).1 ≡ w)
        ⊎ ((s : ResolvedShare) × (l ≡ found s)
            × ((open_share l next request w).1
                ≡ (next (with_principal request (Principal.share s.id)) w).1))
  unfolding open_share
  link_runs next request w (found s) = inr (s, refl, refl)
  link_runs next request w missing = inl refl
  link_runs next request w failed = inl refl

  -- The state after the gate is the one before it, or the one after a single run of the router as
  -- a principal that the request is authorised as: a share by its open link, the owner by a token
  -- of its cookie or its `Authorization` header that verifies, nobody on a public route.
  pub gate-runs :
      (C : AuthCrates) (auth : Auth) (resolve_share : W → List ℕ → ℤ → Lookup)
      → (next : Request → W → Response B × W) → (now : ℤ) (request : Request) (w : W)
      → ((gate C auth resolve_share next now request w).1 ≡ w)
        ⊎ ((p : Principal) × Authorised C auth resolve_share now request w p
            × ((gate C auth resolve_share next now request w).1
                ≡ (next (with_principal request p) w).1))
  unfolding principal_of
  gate-runs C auth resolve_share next now request w =
      elim (Option-cases (token_under request.path path_prefix)) [
        | inr (token, link) ↦
            let e = ap (λ r. r.1) (gate-link C auth resolve_share next now request w token link) in
            elim (link_runs next request w (resolve_share w token now)) [
              | inl unchanged ↦ inl (e ∙ unchanged)
              | inr (s, opened, runs) ↦
                  inr (Principal.share s.id, by_link token s link opened, e ∙ runs)
            ]
        | inl none_shared ↦ elim (Option-cases (resolve C auth request.headers now)) [
          | inr ((session, source), known) ↦
              let (token, sent, v) =
                resolve_verified C auth request.headers now session source known in
              let who = verify-principal C auth token now session v in
              inr (
                Principal.owner,
                by_session token session none_shared sent v,
                ap (λ r. r.1)
                      (gate-known C auth resolve_share next now request w session source none_shared
                        known who)
                    ∙ let_through-state C auth resolve_share next now (some (session, source))
                        request w
                    ∙ ap (λ p. (next (with_principal request p) w).1) who,
              )
          | inl nobody ↦ elim (Bool-cases (is_public request.method request.path)) [
            | inl public ↦ inr (
              Principal.anonymous,
              by_route none_shared public,
              ap (λ r. r.1)
                    (gate-public C auth resolve_share next now request w none_shared nobody public)
                  ∙ let_through-state C auth resolve_share next now none request w,
            )
            | inr private ↦ inl (
                ap (λ r. r.1)
                  (gate-refuses C auth resolve_share next now request w none_shared nobody private))
          ]
        ]
      ]
