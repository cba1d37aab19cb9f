-- ===== src/Auth/Login.antt =====
-- `Auth::login` of src/server/auth.rs, and the handlers of src/server/session.rs.
pub mod Bound
use gps_trips.Prelude.{
  ℕ, ◌+◌, ◌≡◌, Bool, true, false, List, [], ◌∷◌, Option, none, some, if◌then◌else◌,
}
use gps_trips.Prelude.Int.{ℤ}
use gps_trips.Auth.Crates.{AuthCrates}
use gps_trips.Auth.Lockout.{LoginFailures, locked_for, register_failure, reset}
use gps_trips.Auth.Token.{Auth, Session, mint, password_matches}

pub data LoginOutcome : Type 0 where
  granted : (session : Session) → LoginOutcome
  refused : LoginOutcome
  locked_out : (wait : ℕ) → LoginOutcome

unfoldable pub with_failures : Auth → LoginFailures → Auth
with_failures auth failures = record { key = auth.key; salt = auth.salt; failures = failures }

-- The outcome and the gate's state after the attempt.
unfoldable pub login : AuthCrates → Auth → List ℕ → ℤ → LoginOutcome × Auth
unfolding with_failures reset
login C auth password now = elim (locked_for auth.failures now) [
  | some wait ↦ (locked_out wait, auth)
  | none ↦
      if password_matches C auth password
      then (granted (mint C auth now), with_failures auth (reset auth.failures))
      else (refused, with_failures auth (register_failure auth.failures now))
]

-- Attempts one after the other, each a password and the instant of the attempt.
unfoldable pub logins : AuthCrates → Auth → List (List ℕ × ℤ) → List LoginOutcome × Auth
logins C auth [] = ([], auth)
logins C auth ((password, now) ∷ attempts) =
    let (outcome, after) = login C auth password now in
    let (outcomes, last) = logins C after attempts in (outcome ∷ outcomes, last)
