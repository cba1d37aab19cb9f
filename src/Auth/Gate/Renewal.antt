-- ===== src/Auth/Gate/Renewal.antt =====
-- Theorems on the renewal of a session by the gate of src/server/auth.rs.
use gps_trips.Prelude.{
  codes, arith, ℕ, ◌≡◌, refl, ap, ◌∙◌, true, false, List, [], ◌∷◌, ◌++◌, Option, none, some,
}
use gps_trips.Prelude.Int.{ℤ, pos, ◌+ℤ◌, ◌-ℤ◌, ◌≤ℤ◌, ltb_ℤ}
use gps_trips.Auth.Crates.{AuthCrates, AuthLaws, Representable, secs}
use gps_trips.Auth.Token.{
  Auth, VerifiedSession, Principal, mint, session_ttl, session_refresh_after,
}
use gps_trips.Auth.Headers.{Credential, cookie, bearer_header, resolve, session_cookie, cookie_pair}
use gps_trips.Auth.Headers.Cookie.{resolve-session_cookie, resolve-cookie_pair}
use gps_trips.Text.{split}
use gps_trips.Auth.Types.{Request, Response, Caller, Lookup}
use gps_trips.Auth.Gate.{
  gate, let_through, token_under, path_prefix, principal_of, naming, with_principal, renew,
  sets_session_cookie, append_cookie, caller_for,
}
use gps_trips.Auth.Gate.Safety.{gate-known, resolve_verified}
use gps_trips.Auth.Token.RoundTrip.{verify-principal}

half_gone :
    (e end now : ℤ)
    → e ≤ℤ end
    → end +ℤ pos 1 ≤ℤ now +ℤ pos session_refresh_after
    → ltb_ℤ (e -ℤ now) (pos session_refresh_after) ≡ true
unfolding ◌+ℤ◌ ◌-ℤ◌
half_gone e end now h k = ground (arith, h, k)

module _ {ℓ} {B : Type ℓ} where
  renew-own :
      (C : AuthCrates) (auth : Auth) (now : ℤ) (resolved : Option (VerifiedSession × Credential))
      → (response : Response B) → sets_session_cookie response ≡ true
      → renew C auth now resolved response ≡ response
  unfolding renew
  renew-own C auth now none response h = refl
  renew-own C auth now (some (session, bearer_header)) response h = refl
  renew-own C auth now (some (session, cookie)) response h = rw h refl

  renew-bearer :
      (C : AuthCrates) (auth : Auth) (now : ℤ) (session : VerifiedSession) (response : Response B)
      → renew C auth now (some (session, bearer_header)) response ≡ response
  unfolding renew
  renew-bearer C auth now session response = refl

  renew-cookie :
      (C : AuthCrates) (auth : Auth) (now : ℤ) (session : VerifiedSession) (response : Response B)
      → (value : List ℕ) → sets_session_cookie response ≡ false
      → ltb_ℤ (session.expires_at -ℤ now) (pos session_refresh_after) ≡ true
      → C.header_value (session_cookie (mint C auth now).token session_ttl) ≡ some value
      → (renew C auth now (some (session, cookie)) response).set_cookie
        ≡ response.set_cookie ++ value ∷ []
  unfolding renew append_cookie
  renew-cookie C auth now session response value h late e = rw h (rw late (rw e refl))

module _ {ℓ κ} {B : Type ℓ} {W : Type κ} where
  -- What the owner's request is answered with.
  gate-owner :
      (C : AuthCrates) (auth : Auth) (resolve_share : W → List ℕ → ℤ → Lookup)
      → (next : Request → W → Response B × W)
      → (now : ℤ) (request : Request) (w : W) (session : VerifiedSession) (source : Credential)
      → token_under request.path path_prefix ≡ none
      → resolve C auth request.headers now ≡ some (session, source)
      → (gate C auth resolve_share next now request w).0
        ≡ renew C auth now
            (some (session, source))
            (naming (next (with_principal request Principal.owner) w).0 Caller.owner)
  unfolding let_through principal_of caller_for
  gate-owner C auth resolve_share next now request w session source path known =
      let (token, sent, v) = resolve_verified C auth request.headers now session source known in
      let who = verify-principal C auth token now session v in
      ap (λ r. r.0)
        (gate-known C auth resolve_share next now request w session source path known who)
      ∙ rw who refl

  -- The owner's request whose handler sets the session's cookie itself, as a sign-out does, is
  -- answered with the handler's cookies and no renewal.
  pub gate-keeps_cookies :
      (C : AuthCrates) (auth : Auth) (resolve_share : W → List ℕ → ℤ → Lookup)
      → (next : Request → W → Response B × W)
      → (now : ℤ) (request : Request) (w : W) (session : VerifiedSession) (source : Credential)
      → token_under request.path path_prefix ≡ none
      → resolve C auth request.headers now ≡ some (session, source)
      → sets_session_cookie (next (with_principal request Principal.owner) w).0 ≡ true
      → (gate C auth resolve_share next now request w).0.set_cookie
        ≡ (next (with_principal request Principal.owner) w).0.set_cookie
  unfolding naming sets_session_cookie
  gate-keeps_cookies C auth resolve_share next now request w session source path known own =
      ap (λ r. r.set_cookie)
        (gate-owner C auth resolve_share next now request w session source path known
          ∙ renew-own C auth now (some (session, source))
              (naming (next (with_principal request Principal.owner) w).0 Caller.owner) own)

  -- What is set behind the handler's cookies.
  gate-sets_cookie :
      (C : AuthCrates) (auth : Auth) (resolve_share : W → List ℕ → ℤ → Lookup)
      → (next : Request → W → Response B × W)
      → (now : ℤ) (request : Request) (w : W) (session : VerifiedSession) (value : List ℕ)
      → token_under request.path path_prefix ≡ none
      → resolve C auth request.headers now ≡ some (session, cookie)
      → ltb_ℤ (session.expires_at -ℤ now) (pos session_refresh_after) ≡ true
      → C.header_value (session_cookie (mint C auth now).token session_ttl) ≡ some value
      → sets_session_cookie (next (with_principal request Principal.owner) w).0 ≡ false
      → (gate C auth resolve_share next now request w).0.set_cookie
        ≡ (next (with_principal request Principal.owner) w).0.set_cookie ++ value ∷ []
  unfolding naming sets_session_cookie
  gate-sets_cookie C auth resolve_share next now request w session value path known late e bare =
      ap (λ r. r.set_cookie)
        (gate-owner C auth resolve_share next now request w session cookie path known)
      ∙ renew-cookie C auth now session
          (naming (next (with_principal request Principal.owner) w).0 Caller.owner) value bare late
          e

  -- A session is renewed by its use. An owner who signed in at one time, and whose browser sends
  -- the cookie when less than half of the session is left, is answered with a further cookie
  -- behind the handler's; what the browser sends back of it makes the caller the owner until a
  -- second before a whole session from then has passed. The condition: both sessions end between
  -- 1970 and the year 9999, the handler sets no session's cookie itself, and the new one is a
  -- header's value.
  pub gate-renews :
      (C : AuthCrates) (laws : AuthLaws C) (auth : Auth) (resolve_share : W → List ℕ → ℤ → Lookup)
      → (next : Request → W → Response B × W) (request : Request) (w : W) (signed_in now t : ℤ)
      → request.headers ≡ (codes "cookie", cookie_pair (mint C auth signed_in).token) ∷ []
      → token_under request.path path_prefix ≡ none
      → Representable (signed_in +ℤ pos session_ttl)
      → Representable (now +ℤ pos session_ttl)
      → now +ℤ pos (secs 1) ≤ℤ signed_in +ℤ pos session_ttl
      → signed_in +ℤ pos session_ttl +ℤ pos 1 ≤ℤ now +ℤ pos session_refresh_after
      → t +ℤ pos (secs 1) ≤ℤ now +ℤ pos session_ttl
      → sets_session_cookie (next (with_principal request Principal.owner) w).0 ≡ false
      → C.header_value (session_cookie (mint C auth now).token session_ttl)
        ≡ some (session_cookie (mint C auth now).token session_ttl)
      → (value pair : List ℕ) × (rest : List (List ℕ)) × (e : ℤ) × ((gate C auth resolve_share next
            now request w).0.set_cookie
          ≡ (next (with_principal request Principal.owner) w).0.set_cookie ++ value ∷ [])
        × (split b';' value ≡ pair ∷ rest)
        × (resolve C auth ((codes "cookie", pair) ∷ []) t
            ≡ some (record { principal = Principal.owner; expires_at = e }, cookie))
  gate-renews C laws auth resolve_share next request w signed_in now t sent path old new known late
        after bare value =
      let (e, resolved, below) = resolve-cookie_pair C laws auth signed_in now old known in
      let found : resolve C auth request.headers now
          ≡ some (record { principal = Principal.owner; expires_at = e }, cookie) =
        ap (λ headers. resolve C auth headers now) sent ∙ resolved in
      let (pair, rest, f, parts, again) =
        resolve-session_cookie C laws auth now t session_ttl new after in
      (
        session_cookie (mint C auth now).token session_ttl,
        pair,
        rest,
        f,
        gate-sets_cookie C auth resolve_share next now request w
            (record { principal = Principal.owner; expires_at = e })
            (session_cookie (mint C auth now).token session_ttl) path found
            (half_gone e (signed_in +ℤ pos session_ttl) now below late) value bare,
        parts,
        again,
      )
