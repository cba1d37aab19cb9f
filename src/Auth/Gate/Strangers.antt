-- ===== src/Auth/Gate/Strangers.antt =====
-- What the gate of src/server/auth.rs does with a request that nobody vouches for.
use gps_trips.Prelude.{
  ℕ, ◌≡◌, ◌⊎◌, sym, ap, ◌∙◌, true, false, List, none, some, Bool-cases, Option-cases, inl, inr,
}
use gps_trips.Prelude.Int.{ℤ}
use gps_trips.Auth.Crates.{AuthCrates}
use gps_trips.Auth.Token.{Auth, Principal, verify}
use gps_trips.Auth.Headers.{resolve}
use gps_trips.Auth.Types.{Request, Response, Caller, Lookup, unauthorized}
use gps_trips.Auth.Gate.{
  gate, is_public, token_under, path_prefix, naming, error_response, with_principal, principal_of,
}
use gps_trips.Auth.Gate.Routes.{PublicRoute, is_public_iff}
use gps_trips.Auth.Gate.Safety.{
  Presented, resolve_verified, gate-refuses, gate-public, let_through-state,
}

nobody_resolved :
    (C : AuthCrates) (auth : Auth) (request : Request) (now : ℤ)
    → ((token : List ℕ) → Presented C request.headers token → verify C auth token now ≡ none)
    → resolve C auth request.headers now ≡ none
nobody_resolved C auth request now h = elim (Option-cases (resolve C auth request.headers now)) [
  | inl e ↦ e
  | inr ((session, source), e) ↦
      let (token, sent, v) = resolve_verified C auth request.headers now session source e in
      let bad : none ≡ some session = sym (h token sent) ∙ v in cc
]

module _ {ℓ κ} {B : Type ℓ} {W : Type κ} where
  -- A request that has no share's link and no token in its headers that verifies either goes to a
  -- sign-in, a page of the bundle, the front door or a bookmark of old, and then the router is run
  -- for nobody; or it goes elsewhere, and then it is refused and the state stays as it is.
  pub gate-PublicRoute :
      (C : AuthCrates) (auth : Auth) (resolve_share : W → List ℕ → ℤ → Lookup)
      → (next : Request → W → Response B × W) (now : ℤ) (request : Request) (w : W)
      → token_under request.path path_prefix ≡ none
      → ((token : List ℕ) → Presented C request.headers token → verify C auth token now ≡ none)
      → (PublicRoute request.method request.path
          × ((gate C auth resolve_share next now request w).1
              ≡ (next (with_principal request Principal.anonymous) w).1))
        ⊎ ((¬ PublicRoute request.method request.path)
            × (gate C auth resolve_share next now request w
                ≡ (naming (error_response unauthorized) Caller.anonymous, w)))
  unfolding principal_of
  gate-PublicRoute C auth resolve_share next now request w path unverified =
      let nobody = nobody_resolved C auth request now unverified in
      let listed = is_public_iff request.method request.path in
      elim (Bool-cases (is_public request.method request.path)) [
        | inl public ↦ inl (
          listed.0 public,
          ap (λ r. r.1) (gate-public C auth resolve_share next now request w path nobody public)
              ∙ let_through-state C auth resolve_share next now none request w,
        )
        | inr private ↦ inr (
          λ route. let bad : false ≡ true = sym private ∙ listed.1 route in cc,
          gate-refuses C auth resolve_share next now request w path nobody private,
        )
      ]
