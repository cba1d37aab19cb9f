-- ===== src/Auth/Lockout.antt =====
-- The counter of failed logins of src/server/auth.rs. It stands behind a mutex, so logins are one
-- after the other, each a step of the state.
use gps_trips.Prelude.{ℕ, ◌+◌, ◌*◌, ◌%◌, ◌^◌, Option, none, some, leb, if◌then◌else◌}
use gps_trips.Prelude.Int.{ℤ, pos, pos_part, neg_part, ◌+ℤ◌, ◌-ℤ◌, ltb_ℤ}
use gps_trips.Auth.Crates.{secs}

abbrev pub login_failure_limit : ℕ
login_failure_limit = 5

abbrev pub login_lockout : ℕ
login_lockout = secs (15 * 60)

pub record LoginFailures : Type 0 where
  pub consecutive : ℕ
  pub locked_until : Option ℤ

abbrev pub default_failures : LoginFailures
default_failures = record { consecutive = 0; locked_until = none }

-- `unsigned_abs` of a duration.
unfoldable pub unsigned_abs : ℤ → ℕ
unsigned_abs d = pos_part d + neg_part d

unfoldable pub locked_for : LoginFailures → ℤ → Option ℕ
unfolding unsigned_abs
locked_for failures now = elim failures.locked_until [
  | none ↦ none
  | some until ↦ if ltb_ℤ now until then some (unsigned_abs (until -ℤ now)) else none
]

unfoldable pub register_failure : LoginFailures → ℤ → LoginFailures
register_failure failures now =
    let consecutive = (failures.consecutive + 1) % 2 ^ 32 in
    if leb login_failure_limit consecutive
    then record { consecutive = 0; locked_until = some (now +ℤ pos login_lockout) }
    else record { consecutive = consecutive; locked_until = failures.locked_until }

unfoldable pub reset : LoginFailures → LoginFailures
reset failures = record { consecutive = 0; locked_until = none }
