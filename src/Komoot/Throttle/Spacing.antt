-- ===== src/Komoot/Throttle/Spacing.antt =====
-- How far the throttle of src/server/komoot/rate_limit.rs keeps requests apart.
use gps_trips.Prelude.{ℕ, ◌+◌, ◌-◌, ◌≤◌, max, List, [], ◌∷◌, Option, arith, map, All, All-weaken}
use gps_trips.Komoot.Throttle.{
  Call, request, response, Sent, sends, wait_before_request, wait_and_advance, record_response,
  backoff_after_response, parse_retry_after, unwrap_or, min_request_interval,
  default_rate_limit_backoff,
}

-- Each is at least the interval after the one before it.
pub Spaced : List ℕ → Type 0
Spaced [] = Unit {0}
Spaced (s ∷ []) = Unit {0}
Spaced (s ∷ t ∷ rest) = (s + min_request_interval ≤ t) × Spaced (t ∷ rest)

-- A response never brings the next request forward.
later_after_response :
    (now status next : ℕ) (retry_after : Option (List ℕ))
    → next ≤ record_response now status retry_after next
unfolding record_response backoff_after_response
later_after_response now status next retry_after = ground arith

-- No slot is before the next allowed instant, and no request is sent before its slot.
sends-from :
    (next : ℕ) (calls : List Call)
    → All (λ (s : Sent). (next ≤ s.slot) × (s.slot ≤ s.at)) (sends next calls)
unfolding sends wait_before_request wait_and_advance
sends-from next [] = tt
sends-from next (request now overslept ∷ calls) = (
  (omega arith, omega arith),
  All-weaken (λ s h. (omega (arith, h.0), h.1)) (sends (max now next + min_request_interval) calls)
      (sends-from (max now next + min_request_interval) calls),
)
sends-from next (response now status retry_after ∷ calls) =
    let after = record_response now status retry_after next in
    All-weaken (λ s h. (omega (arith, h.0, later_after_response now status next retry_after), h.1))
      (sends after calls) (sends-from after calls)

Spaced-behind :
    (s : ℕ) (rest : List ℕ)
    → All (λ t. s + min_request_interval ≤ t) rest
    → Spaced rest
    → Spaced (s ∷ rest)
unfolding Spaced
Spaced-behind s [] h k = tt
Spaced-behind s (t ∷ rest) h k = (h.0, k)

abbrev pub slots : List Sent → List ℕ
slots sent = map (λ (s : Sent). s.slot) sent

All-slots :
    (bound : ℕ) (sent : List Sent)
    → All (λ (s : Sent). (bound ≤ s.slot) × (s.slot ≤ s.at)) sent
    → All (λ t. bound ≤ t) (slots sent)
All-slots bound [] h = tt
All-slots bound (s ∷ sent) h = (h.0.0, All-slots bound sent h.1)

slots-Spaced : (next : ℕ) (calls : List Call) → Spaced (slots (sends next calls))
unfolding sends wait_before_request wait_and_advance Spaced
slots-Spaced next [] = tt
slots-Spaced next (request now overslept ∷ calls) =
    let after = max now next + min_request_interval in
    Spaced-behind (now + (next - now)) (slots (sends after calls))
      (All-weaken (λ s h. omega (arith, h)) (slots (sends after calls))
        (All-slots after (sends after calls) (sends-from after calls)))
      (slots-Spaced after calls)
slots-Spaced next (response now status retry_after ∷ calls) =
    slots-Spaced (record_response now status retry_after next) calls

-- However calls of the throttle follow each other, the instants that requests are told to wait for
-- are the minimum interval apart at least, in the order of the calls, and no request is sent
-- before its own, however long it oversleeps.
pub sends-Spaced :
    (next : ℕ) (calls : List Call)
    → Spaced (slots (sends next calls)) × All (λ (s : Sent). s.slot ≤ s.at) (sends next calls)
sends-Spaced next calls =
    (slots-Spaced next calls, All-weaken (λ s h. h.1) (sends next calls) (sends-from next calls))

-- Once a response with the status 429 is recorded, no request that asks the throttle after it is
-- sent before the time that Retry-After names, or before the default time, where it names none,
-- whatever other calls there are. One that has asked before is not held back.
pub sends-backed_off :
    (next now : ℕ) (retry_after : Option (List ℕ)) (calls : List Call)
    → All
        (λ (s : Sent).
          now + unwrap_or (parse_retry_after retry_after) default_rate_limit_backoff ≤ s.at)
        (sends next (response now 429 retry_after ∷ calls))
unfolding sends record_response backoff_after_response
sends-backed_off next now retry_after calls =
    let after = record_response now 429 retry_after next in
    All-weaken (λ s h. omega (arith, h.0, h.1)) (sends after calls) (sends-from after calls)
