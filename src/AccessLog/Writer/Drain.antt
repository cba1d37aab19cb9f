-- ===== src/AccessLog/Writer/Drain.antt =====
-- That the task of the access log, src/server/access_log/writer.rs, empties the queue when nothing is
-- put into it, and answers every flush.
pub mod Ends
use gps_trips.Prelude.{
  ℕ, zero, suc, ◌+◌, ◌*◌, ◌≤◌, ◌<◌, ◌≡◌, ◌≢◌, refl, sym, ap, subst, ◌∙◌, Bool, true, false, List,
  [], ◌∷◌, ◌++◌, append-nil, append_assoc, map, Option, none, some, ◌⊎◌, inl, inr, arith, ltb,
  length, Bool-cases, Option-cases, some-injective, if◌then◌else◌,
}
use gps_trips.AccessLog.{AccessRecord}
use gps_trips.AccessLog.Writer.{
  batch_size, Message, entry, flush_asked, Phase, receiving, collecting, writing, Log, handle, asks,
  take_from, take_message, nothing_there, ends_batch, end_batch, write_in, write_batch, or_else,
  work, write, kept_on,
}
use gps_trips.AccessLog.Writer.Order.{
  settled_records, IsIdle, IsOrdered, Step, taking, ending, storing,
}
use gps_trips.AccessLog.Writer.Order.Task.{Step-IsOrdered}

abbrev pub flushes : List Message → List ℕ
flushes [] = []
flushes (entry r ∷ queue) = flushes queue
flushes (flush_asked n ∷ queue) = n ∷ flushes queue

-- The flushes that are answered and those that are still to be.
abbrev pub all_flushes : Log → List ℕ
all_flushes log = log.answered ++ (log.waiting ++ flushes log.queue)

abbrev pub weight : Phase → ℕ
weight receiving = 0
weight collecting = 2
weight writing = 1

-- How many rounds the task has left at most.
abbrev pub load : Log → ℕ
load log = 3 * length log.queue + weight log.phase

pub record Worked (log after : Log) : Type 0 where
  pub step : Step log after
  pub less : load after < load log
  pub same_accepted : after.accepted ≡ log.accepted
  pub same_flushes : all_flushes after ≡ all_flushes log

handled :
    (message : Message) (queue : List Message) (log : Log)
    → log.queue ≡ message ∷ queue
    → let after = handle message (record log { queue = queue; phase = collecting }) in
      (load after < load log)
      × (after.accepted ≡ log.accepted)
      × (all_flushes after ≡ all_flushes log)
handled (entry r) queue log e =
    (omega (arith, ap length e), refl, ap (λ q. log.answered ++ (log.waiting ++ flushes q)) (sym e))
handled (flush_asked n) queue log e = (
  omega (arith, ap length e),
  refl,
  ap (λ l. log.answered ++ l) (append_assoc log.waiting (n ∷ []) (flushes queue))
      ∙ ap (λ q. log.answered ++ (log.waiting ++ flushes q)) (sym e),
)

Worked-take :
    (queue : List Message) (log after : Log)
    → log.queue ≡ queue
    → take_from queue log ≡ some after
    → (load after < load log)
      × (after.accepted ≡ log.accepted)
      × (all_flushes after ≡ all_flushes log)
unfolding take_from
Worked-take [] log after e h = cc
Worked-take (message ∷ queue) log after e h = elim (Bool-cases (asks log.phase log.batch)) [
  | inr no_more ↦ let bad : none ≡ some after = rw no_more at h in cc
  | inl more ↦
      let same : some (handle message (record log { queue = queue; phase = collecting }))
          ≡ some after =
        rw more at h in
      subst
        (λ a. (load a < load log) × (a.accepted ≡ log.accepted) × (all_flushes a ≡ all_flushes log))
        (some-injective _ after same) (handled message queue log e)
]

Worked-end :
    (log after : Log) (phase : Phase)
    → log.phase ≡ phase
    → (if ends_batch phase log.batch log.queue then some (record log { phase = writing }) else none)
      ≡ some after
    → (load after < load log)
      × (after.accepted ≡ log.accepted)
      × (all_flushes after ≡ all_flushes log)
Worked-end log after receiving e h = cc
Worked-end log after writing e h = cc
Worked-end log after collecting e h =
    elim (Bool-cases (ends_batch collecting log.batch log.queue)) [
      | inr goes_on ↦ let bad : none ≡ some after = rw goes_on at h in cc
      | inl ends ↦
          let same : some (record log { phase = writing }) ≡ some after = rw ends at h in
          subst
            (λ a.
              (load a < load log) × (a.accepted ≡ log.accepted) × (all_flushes a ≡ all_flushes log))
            (some-injective _ after same) (omega (arith, ap weight e), refl, refl)
    ]

Worked-write :
    (stored : Bool) (log after : Log) (phase : Phase)
    → log.phase ≡ phase
    → write_in phase stored log ≡ some after
    → (load after < load log)
      × (after.accepted ≡ log.accepted)
      × (all_flushes after ≡ all_flushes log)
Worked-write stored log after receiving e h = cc
Worked-write stored log after collecting e h = cc
Worked-write stored log after writing e h =
    subst
      (λ a. (load a < load log) × (a.accepted ≡ log.accepted) × (all_flushes a ≡ all_flushes log))
      (some-injective _ after h)
      (omega (arith, ap weight e), refl, append_assoc log.answered log.waiting (flushes log.queue))

pub worked : (stored : Bool) (log after : Log) → work stored log ≡ some after → Worked log after
unfolding work take_message end_batch write_batch
worked stored log after h = elim (Option-cases (take_message log)) [
  | inr (next, taken) ↦
      let same : some next ≡ some after = rw taken at h in
      let t = taken ∙ same in
      let w = Worked-take log.queue log after refl t in
      record { step = taking t; less = w.0; same_accepted = w.1; same_flushes = w.2 }
  | inl none_taken ↦ elim (Option-cases (end_batch log)) [
    | inr (next, ended) ↦
        let same : some next ≡ some after = rw (none_taken, ended) at h in
        let t = ended ∙ same in
        let w = Worked-end log after log.phase refl t in
        record { step = ending t; less = w.0; same_accepted = w.1; same_flushes = w.2 }
    | inl none_ended ↦
        let t : write_batch stored log ≡ some after = rw (none_taken, none_ended) at h in
        let w = Worked-write stored log after log.phase refl t in
        record { step = storing stored t; less = w.0; same_accepted = w.1; same_flushes = w.2 }
  ]
]
