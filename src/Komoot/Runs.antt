-- ===== src/Komoot/Runs.antt =====
-- Concrete runs of the throttle.
use gps_trips.Prelude.{◌+◌, ◌≤◌, ◌≡◌, refl, List, [], ◌∷◌, none, some, codes, All}
use gps_trips.Komoot.Throttle.{
  Call, request, response, Sent, sends, wait_before_request, wait_and_advance, record_response,
  backoff_after_response, parse_retry_after, unwrap_or, default_rate_limit_backoff,
}
use gps_trips.Komoot.Throttle.Spacing.{Spaced, slots, sends-Spaced, sends-backed_off}
use gps_trips.Text.{trim, trim_start, trim_end, is_whitespace}
use gps_trips.Text.Decimal.{parse_u64, parse_up_to, from_digits}

abbrev calls : List Call
calls =
    request 5 0
    ∷ request 6 20
    ∷ response 7 429 (some (codes " 2 "))
    ∷ request 8 0
    ∷ response 9 200 none
    ∷ []

-- The second was told to wait before the 429 and is sent after it.
sent :
    sends 0 calls
    ≡ record { slot = 5; at = 5 }
      ∷ record { slot = 350000005; at = 350000025 }
      ∷ record { slot = 2000000007; at = 2000000007 }
      ∷ []
unfolding sends wait_before_request wait_and_advance record_response backoff_after_response
    parse_retry_after trim trim_start trim_end is_whitespace parse_u64 parse_up_to from_digits
sent = refl

sends-Spaced_example :
    Spaced (slots (sends 0 calls)) × All (λ (s : Sent). s.slot ≤ s.at) (sends 0 calls)
sends-Spaced_example = sends-Spaced 0 calls

sends-backed_off_example :
    All
      (λ (s : Sent).
        7 + unwrap_or (parse_retry_after (some (codes " 2 "))) default_rate_limit_backoff ≤ s.at)
      (sends 350000005 (response 7 429 (some (codes " 2 ")) ∷ request 8 3 ∷ []))
sends-backed_off_example = sends-backed_off 350000005 7 (some (codes " 2 ")) (request 8 3 ∷ [])
