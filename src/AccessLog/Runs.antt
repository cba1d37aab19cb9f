-- ===== src/AccessLog/Runs.antt =====
-- Concrete runs of the access log.
use gps_trips.Prelude.{ℕ, ◌≡◌, refl, true, List, ◌++◌, none, some, inr, codes, arith}
use gps_trips.Prelude.Int.{pos}
use gps_trips.Text.{split, strip_prefix}
use gps_trips.Auth.Types.{Caller}
use gps_trips.Auth.Gate.{page_prefix, token_under}
use gps_trips.AccessLog.{AccessRecord, after_token, redact}
use gps_trips.AccessLog.Redaction.{redact-token_under}
use gps_trips.AccessLog.Writer.{
  Log, spawn_with_capacity, record_entry, flush, take_message, take_from, write,
}
use gps_trips.AccessLog.Writer.Order.{
  IsOrdered, IsReached, spawned, after_step, recording, flushing, taking,
}
use gps_trips.AccessLog.Writer.Order.Task.{IsReached-IsOrdered}
use gps_trips.AccessLog.Writer.Drain.Ends.{IsDrained, write-IsDrained}

abbrev request : List ℕ → AccessRecord
request path = record {
  at = pos 0;
  method = codes "GET";
  path = path;
  status = 200;
  duration_ms = 12;
  caller = Caller.anonymous;
  ip = none;
  user_agent = none;
}

abbrev queued : Log
queued = record_entry (request (codes "/")) (spawn_with_capacity 2)

asked : (log : Log) × (flush queued ≡ some log)
unfolding flush record_entry spawn_with_capacity
asked = (_, refl)

-- The queue is full: a third message is dropped.
dropped : record_entry (request (codes "/api/trips")) asked.0 ≡ asked.0
unfolding asked flush record_entry spawn_with_capacity
dropped = refl

taken : (log : Log) × (take_message asked.0 ≡ some log)
unfolding asked flush record_entry spawn_with_capacity take_message take_from
taken = (_, refl)

history : IsReached 2 taken.0
history =
    after_step
      (after_step (after_step spawned (recording (request (codes "/")))) (flushing asked.1))
      (taking taken.1)

IsReached-IsOrdered_example : IsOrdered taken.0
IsReached-IsOrdered_example = IsReached-IsOrdered history

abbrev one_queued : Log
one_queued = record_entry (request (codes "/")) (spawn_with_capacity 2)

write-IsDrained_example : IsDrained one_queued (write 6 (λ round. true) one_queued)
unfolding record_entry spawn_with_capacity
write-IsDrained_example =
    write-IsDrained (λ round. true) one_queued
      (IsReached-IsOrdered {capacity = 2} (after_step spawned (recording (request (codes "/"))))) 6
      (omega arith)

read_token : token_under (codes "/app/s/ab12/trips/3") page_prefix ≡ some (codes "ab12")
unfolding token_under strip_prefix split
read_token = refl

redact-token_under_example :
    (behind : List ℕ) × (codes "/app/s/ab12/trips/3" ≡ page_prefix ++ (codes "ab12" ++ behind))
    × (redact (codes "/app/s/ab12/trips/3") ≡ page_prefix ++ codes "…" ++ behind)
redact-token_under_example =
    redact-token_under (codes "/app/s/ab12/trips/3") (codes "ab12") page_prefix (inr refl)
      read_token

unchanged_path : redact (codes "/sx/abc") ≡ codes "/sx/abc"
unfolding redact strip_prefix after_token
unchanged_path = refl
