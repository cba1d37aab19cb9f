-- ===== src/AccessLog/Writer/Drain/Ends.antt =====
-- How the task of the access log, src/server/access_log/writer.rs, comes to rest.
use gps_trips.Prelude.{
  ℕ, zero, suc, ◌+◌, ◌*◌, ◌≤◌, ◌<◌, ◌≡◌, ◌≢◌, refl, sym, ap₂, subst, ◌∙◌, Bool, true, false, List,
  [], ◌∷◌, ◌++◌, append-nil, none, some, ◌⊎◌, inl, inr, arith, ltb, length, Bool-cases,
  Option-cases,
}
use gps_trips.AccessLog.{AccessRecord}
use gps_trips.AccessLog.Writer.{
  batch_size, Message, Phase, receiving, collecting, writing, Log, handle, asks, take_from,
  take_message, ends_batch, end_batch, write_in, write_batch, work, write,
}
use gps_trips.AccessLog.Writer.Order.{entries, settled_records, IsIdle, IsOrdered}
use gps_trips.AccessLog.Writer.Order.Task.{Step-IsOrdered}
use gps_trips.AccessLog.Writer.Drain.{flushes, all_flushes, load, weight, worked}

take-none :
    (queue : List Message) (log : Log)
    → take_from queue log ≡ none
    → (queue ≡ []) ⊎ (asks log.phase log.batch ≡ false)
unfolding take_from
take-none [] log h = inl refl
take-none (message ∷ queue) log h = elim (Bool-cases (asks log.phase log.batch)) [
  | inl more ↦
      let bad : some (handle message (record log { queue = queue; phase = collecting })) ≡ none =
        rw more at h in
      cc
  | inr no_more ↦ inr no_more
]

end-none : (log : Log) → end_batch log ≡ none → ends_batch log.phase log.batch log.queue ≡ false
unfolding end_batch
end-none log h = elim (Bool-cases (ends_batch log.phase log.batch log.queue)) [
  | inl ends ↦ let bad : some (record log { phase = writing }) ≡ none = rw ends at h in cc
  | inr goes_on ↦ goes_on
]

write-none :
    (stored : Bool) (log : Log) (phase : Phase) → write_in phase stored log ≡ none → phase ≢ writing
write-none stored log receiving h = λ e. cc
write-none stored log collecting h = λ e. cc
write-none stored log writing h = cc

-- A task that does nothing waits at an empty queue.
at_rest :
    (phase : Phase) (batch : List AccessRecord) (queue : List Message)
    → (queue ≡ []) ⊎ (asks phase batch ≡ false)
    → ends_batch phase batch queue ≡ false
    → phase ≢ writing
    → (queue ≡ []) × (phase ≡ receiving)
at_rest receiving batch queue (inl h) k m = (h, refl)
at_rest receiving batch queue (inr h) k m = cc
at_rest writing batch queue h k m = absurd (m refl)
at_rest collecting batch [] h k m = elim (Bool-cases (ltb (length batch) batch_size)) [
  | inl e ↦ let bad : true ≡ false = rw e at k in cc
  | inr e ↦ let bad : true ≡ false = rw e at k in cc
]
at_rest collecting batch (message ∷ queue) (inl h) k m = cc
at_rest collecting batch (message ∷ queue) (inr h) k m = let bad : true ≡ false = rw h at k in cc

work-none :
    (stored : Bool) (log : Log)
    → work stored log ≡ none
    → (log.queue ≡ []) × (log.phase ≡ receiving)
unfolding work take_message write_batch
work-none stored log h = elim (Option-cases (take_message log)) [
  | inr (next, taken) ↦ let bad : some next ≡ none = rw taken at h in cc
  | inl none_taken ↦ elim (Option-cases (end_batch log)) [
    | inr (next, ended) ↦ let bad : some next ≡ none = rw (none_taken, ended) at h in cc
    | inl none_ended ↦
        let none_written : write_batch stored log ≡ none = rw (none_taken, none_ended) at h in
        at_rest log.phase log.batch log.queue (take-none log.queue log none_taken)
          (end-none log none_ended) (write-none stored log log.phase none_written)
  ]
]

-- Everything is settled, and every flush is answered.
pub record IsDrained (before after : Log) : Type 0 where
  pub emptied : after.queue ≡ []
  pub settled : settled_records after ≡ before.accepted
  pub answered : after.answered ≡ all_flushes before

rested :
    (log : Log) → IsOrdered log → (log.queue ≡ []) × (log.phase ≡ receiving) → IsDrained log log
rested log v h =
    let idle : (log.batch ≡ []) × (log.waiting ≡ []) =
      subst (λ p. IsIdle p log.batch log.waiting) h.1 v.idle in
    record {
      emptied = h.0;
      settled = sym (
          v.order
          ∙ ap₂ (λ b q. settled_records log ++ (b ++ entries q)) idle.0 h.0
          ∙ append-nil (settled_records log));
      answered =
          sym (ap₂ (λ w q. log.answered ++ (w ++ flushes q)) idle.1 h.0 ∙ append-nil log.answered);
    }

weight-le : (phase : Phase) → weight phase ≤ 2
weight-le receiving = omega arith
weight-le collecting = omega arith
weight-le writing = omega arith

drains :
    (fuel : ℕ) (stores : ℕ → Bool) (log : Log)
    → IsOrdered log
    → load log < fuel
    → IsDrained log (write fuel stores log)
unfolding write
drains zero stores log v h = absurd (omega (arith, h))
drains (suc fuel) stores log v h = elim (Option-cases (work (stores fuel) log)) [
  | inl none_left ↦ rw none_left (rested log v (work-none (stores fuel) log none_left))
  | inr (next, more) ↦
      let w = worked (stores fuel) log next more in
      let d = drains fuel stores next (Step-IsOrdered w.step v) (omega (arith, h, w.less)) in
      rw more (record {
        emptied = d.emptied;
        settled = d.settled ∙ w.same_accepted;
        answered = d.answered ∙ w.same_flushes;
      })
]

-- Left to itself, the task of an access log that is in order empties the queue, with every record
-- that was accepted settled in its order and every flush answered, whichever writes fail. Three
-- rounds for a message are enough, and two more for a batch that was begun.
pub write-IsDrained :
    (stores : ℕ → Bool) (log : Log)
    → IsOrdered log
    → (fuel : ℕ) → 3 * length log.queue + 2 < fuel
    → IsDrained log (write fuel stores log)
write-IsDrained stores log v fuel h =
    drains fuel stores log v (omega (arith, h, weight-le log.phase))
