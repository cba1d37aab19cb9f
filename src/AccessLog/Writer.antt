-- ===== src/AccessLog/Writer.antt =====
-- The writer of the access log, src/server/access_log/writer.rs: requests put messages into a queue,
-- one task takes them from it and stores them in batches. A step of either is a function; what
-- follows what is up to the scheduler. A flush stands for the sender that it is answered through.
pub mod Order
pub mod Drain
use gps_trips.Prelude.{
  ℕ, zero, suc, ◌+◌, Bool, true, false, not, List, [], ◌∷◌, ◌++◌, map, Option, none, some, ltb,
  if◌then◌else◌, length,
}
use gps_trips.AccessLog.{AccessRecord}

abbrev pub queue_capacity : ℕ
queue_capacity = 10000

abbrev pub batch_size : ℕ
batch_size = 500

-- A flush has the number of the records that were queued before it.
pub data Message : Type 0 where
  entry : AccessRecord → Message
  flush_asked : ℕ → Message

-- Where the task is: at `recv`, in the loop of `try_recv`, or behind it.
pub data Phase : Type 0 where
  receiving : Phase
  collecting : Phase
  writing : Phase

-- `settled` is what the task has finished with, and whether it is stored; `accepted` and `answered`
-- are the history of the queue and of the flushes.
pub record Log : Type 0 where
  pub capacity : ℕ
  pub queue : List Message
  pub phase : Phase
  pub batch : List AccessRecord
  pub waiting : List ℕ
  pub settled : List (AccessRecord × Bool)
  pub answered : List ℕ
  pub accepted : List AccessRecord

unfoldable pub spawn_with_capacity : ℕ → Log
spawn_with_capacity capacity = record {
  capacity = capacity;
  queue = [];
  phase = receiving;
  batch = [];
  waiting = [];
  settled = [];
  answered = [];
  accepted = [];
}

unfoldable pub spawn : Log
unfolding spawn_with_capacity
spawn = spawn_with_capacity queue_capacity

-- A full queue drops the record.
unfoldable pub record_entry : AccessRecord → Log → Log
record_entry r log =
    if ltb (length log.queue) log.capacity
    then record log { queue = log.queue ++ entry r ∷ []; accepted = log.accepted ++ r ∷ [] }
    else log

-- A flush waits for room in the queue; `none` while there is none.
unfoldable pub flush : Log → Option Log
flush log =
    if ltb (length log.queue) log.capacity
    then some (record log { queue = log.queue ++ flush_asked (length log.accepted) ∷ [] })
    else none

abbrev pub handle : Message → Log → Log
handle (entry r) log = record log { batch = log.batch ++ r ∷ [] }
handle (flush_asked n) log = record log { waiting = log.waiting ++ n ∷ [] }

-- Whether the task asks for a message.
abbrev pub asks : Phase → List AccessRecord → Bool
asks receiving batch = true
asks collecting batch = ltb (length batch) batch_size
asks writing batch = false

unfoldable pub take_from : List Message → Log → Option Log
take_from [] log = none
take_from (message ∷ queue) log =
    if asks log.phase log.batch
    then some (handle message (record log { queue = queue; phase = collecting }))
    else none

-- `recv` or `try_recv`, and the `match` on the message
unfoldable pub take_message : Log → Option Log
unfolding take_from
take_message log = take_from log.queue log

abbrev pub nothing_there : List Message → Bool
nothing_there [] = true
nothing_there (m ∷ queue) = false

abbrev pub ends_batch : Phase → List AccessRecord → List Message → Bool
ends_batch receiving batch queue = false
ends_batch collecting batch queue =
    if ltb (length batch) batch_size then nothing_there queue else true
ends_batch writing batch queue = false

-- The inner loop ends: the batch is full, or there is no message.
unfoldable pub end_batch : Log → Option Log
end_batch log =
    if ends_batch log.phase log.batch log.queue then some (record log { phase = writing }) else none

abbrev pub write_in : Phase → Bool → Log → Option Log
write_in receiving stored log = none
write_in collecting stored log = none
write_in writing stored log = some (record log {
  phase = receiving;
  batch = [];
  waiting = [];
  settled = log.settled ++ map (λ r. (r, stored)) log.batch;
  answered = log.answered ++ log.waiting;
})

-- The batch is stored, or lost as a whole, and then the flushes are answered.
unfoldable pub write_batch : Bool → Log → Option Log
write_batch stored log = write_in log.phase stored log

abbrev pub or_else : Option Log → Option Log → Option Log
or_else none other = other
or_else (some log) other = some log

-- What the task does next by itself; `none` while it waits at `recv`.
unfoldable pub work : Bool → Log → Option Log
unfolding take_message end_batch write_batch
work stored log = or_else (take_message log) (or_else (end_batch log) (write_batch stored log))

abbrev pub kept_on : (Log → Log) → Log → Option Log → Log
kept_on rest log none = log
kept_on rest log (some next) = rest next

-- The task alone, with fuel; `stores` says of each round whether a write succeeds.
unfoldable pub write : ℕ → (ℕ → Bool) → Log → Log
unfolding work
write zero stores log = log
write (suc fuel) stores log = kept_on (write fuel stores) log (work (stores fuel) log)
