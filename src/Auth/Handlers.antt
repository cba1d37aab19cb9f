-- ===== src/Auth/Handlers.antt =====
-- The handlers of src/server/session.rs that begin and end a session.
use gps_trips.Prelude.{ℕ, ◌≡◌, refl, true, List, [], ◌∷◌, none, some}
use gps_trips.Prelude.Int.{ℤ}
use gps_trips.Auth.Crates.{AuthCrates}
use gps_trips.Auth.Token.{Auth, Session, VerifiedSession, session_ttl}
use gps_trips.Auth.Login.{LoginOutcome, granted, refused, locked_out, login}
use gps_trips.Auth.Headers.{session_cookie, cleared_cookie, Credential, resolve}
use gps_trips.Auth.Types.{Request, Response, Lookup, handled, unauthorized, rate_limited}
use gps_trips.Auth.Gate.{
  gate, error_response, sets_session_cookie, sets_session, token_under, path_prefix,
}
use gps_trips.Auth.Gate.Renewal.{gate-keeps_cookies}
use gps_trips.Text.{starts_with, strip_prefix}

unfoldable pub session_granted : Session → Response Session
session_granted session = record {
  body = handled session;
  set_cookie = session_cookie session.token session_ttl ∷ [];
  caller = none;
}

unfoldable pub login_response : LoginOutcome → Response Session
unfolding session_granted error_response
login_response (granted session) = session_granted session
login_response refused = error_response unauthorized
login_response (locked_out wait) = error_response (rate_limited wait)

-- The response and the gate's state after it.
unfoldable pub handle_login : AuthCrates → Auth → List ℕ → ℤ → Response Session × Auth
handle_login C auth password now =
    let (outcome, after) = login C auth password now in (login_response outcome, after)

-- The response has no content; `content` stands for that.
unfoldable pub handle_logout {ℓ} : {B : Type ℓ} → B → Response B
handle_logout content = record {
  body = handled content;
  set_cookie = cleared_cookie ∷ [];
  caller = none;
}

clears {ℓ} : {B : Type ℓ} (content : B) → sets_session_cookie (handle_logout content) ≡ true
unfolding handle_logout sets_session_cookie sets_session starts_with strip_prefix cleared_cookie
clears content = refl

-- The owner who signs out is sent the cleared cookie and nothing after it, however much of the
-- session is left: a renewal never signs the owner in again.
pub gate-handle_logout {ℓ κ} :
    {B : Type ℓ} {W : Type κ} (C : AuthCrates) (auth : Auth)
    → (resolve_share : W → List ℕ → ℤ → Lookup) (content : B)
    → (now : ℤ) (request : Request) (w : W) (session : VerifiedSession) (source : Credential)
    → token_under request.path path_prefix ≡ none
    → resolve C auth request.headers now ≡ some (session, source)
    → (gate C auth resolve_share (λ r v. (handle_logout content, v)) now request w).0.set_cookie
      ≡ cleared_cookie ∷ []
unfolding handle_logout
gate-handle_logout C auth resolve_share content now request w session source path known =
    gate-keeps_cookies C auth resolve_share (λ r v. (handle_logout content, v)) now request w
      session source path known (clears content)
