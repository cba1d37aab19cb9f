-- ===== src/Komoot/Throttle.antt =====
-- src/server/komoot/rate_limit.rs. The throttle's state is `next_allowed`; an `Instant` is its
-- nanoseconds since some start, without the bound of the platform. What other threads do between two
-- calls is the other calls of the sequence, since each takes the mutex; a sleep is no call.
pub mod Spacing
use gps_trips.Prelude.{
  ℕ, ◌+◌, ◌-◌, ◌*◌, max, Bool, true, false, List, [], ◌∷◌, Option, none, some, ◌==◌, if◌then◌else◌,
}
use gps_trips.Text.{trim}
use gps_trips.Text.Decimal.{parse_u64}

abbrev pub from_secs : ℕ → ℕ
from_secs n = n * 1000000000

abbrev pub min_request_interval : ℕ
min_request_interval = 350 * 1000000

abbrev pub default_rate_limit_backoff : ℕ
default_rate_limit_backoff = from_secs 5

-- How long to sleep, and the next allowed instant.
unfoldable pub wait_and_advance : ℕ → ℕ → ℕ → ℕ × ℕ
wait_and_advance now next_allowed min_interval =
    (next_allowed - now, max now next_allowed + min_interval)

unfoldable pub parse_retry_after : Option (List ℕ) → Option ℕ
parse_retry_after none = none
parse_retry_after (some v) = elim (parse_u64 (trim v)) [ none ↦ none | some n ↦ some (from_secs n) ]

abbrev pub unwrap_or : Option ℕ → ℕ → ℕ
unwrap_or none d = d
unwrap_or (some a) d = a

unfoldable pub backoff_after_response : ℕ → ℕ → Option (List ℕ) → ℕ
backoff_after_response now current_next_allowed retry_after =
    let advance = unwrap_or (parse_retry_after retry_after) default_rate_limit_backoff in
    max current_next_allowed (now + advance)

-- The sleep before the request, and the state after the call.
unfoldable pub wait_before_request : ℕ → ℕ → ℕ × ℕ
unfolding wait_and_advance
wait_before_request now next_allowed = wait_and_advance now next_allowed min_request_interval

unfoldable pub record_response : ℕ → ℕ → Option (List ℕ) → ℕ → ℕ
record_response now status retry_after next_allowed =
    if status == 429 then backoff_after_response now next_allowed retry_after else next_allowed

-- A call of the throttle, with the instant at which it is made. A request is sent some time after its
-- sleep: `thread::sleep` lasts at least as long as it is asked to, and other threads may run first.
pub data Call : Type 0 where
  request : (now : ℕ) → (overslept : ℕ) → Call
  response : (now : ℕ) → (status : ℕ) → (retry_after : Option (List ℕ)) → Call

-- What became of a request: the instant that it was told to wait for, and the one it was sent at.
pub record Sent : Type 0 where
  pub slot : ℕ
  pub at : ℕ

-- The requests of a sequence of calls. The mutex is held by a reservation, not by the sleep, so a
-- request may be sent after later calls of the sequence.
unfoldable pub sends : ℕ → List Call → List Sent
unfolding record_response
sends next_allowed [] = []
sends next_allowed (request now overslept ∷ calls) =
    let (wait, after) = wait_before_request now next_allowed in
    record { slot = now + wait; at = now + wait + overslept } ∷ sends after calls
sends next_allowed (response now status retry_after ∷ calls) =
    sends (record_response now status retry_after next_allowed) calls
