-- ===== src/AccessLog/Writer/Order/Task.antt =====
-- That the steps of the access log's task, src/server/access_log/writer.rs, keep its order.
use gps_trips.Prelude.{
  ℕ, ◌+◌, ◌≤◌, ◌<◌, ◌≡◌, refl, sym, ap, subst, ◌∙◌, Bool, true, List, [], ◌∷◌, ◌++◌, append_assoc,
  map, none, some, inl, inr, arith, ltb→lt, length, length-append, Bool-cases, All-append, All-snoc,
  All-weaken, some-injective,
}
use gps_trips.AccessLog.{AccessRecord}
use gps_trips.AccessLog.Writer.{
  batch_size, Message, entry, flush_asked, Phase, receiving, collecting, writing, Log,
  spawn_with_capacity, handle, asks, take_from, take_message, ends_batch, end_batch, write_in,
  write_batch,
}
use gps_trips.AccessLog.Writer.Order.{
  entries, Numbered, settled_records, IsIdle, IsOrdered, Step, recording, flushing, taking, ending,
  storing, IsReached, spawned, after_step, length-map, record_entry-IsOrdered, flush-IsOrdered,
}

-- The batch has room for the message that the task asks for.
asks-lt :
    (phase : Phase) (batch : List AccessRecord) (waiting : List ℕ)
    → IsIdle phase batch waiting
    → asks phase batch ≡ true
    → length batch < batch_size
asks-lt receiving batch waiting idle h = omega (arith, ap length idle.0)
asks-lt collecting batch waiting idle h = ltb→lt (length batch) batch_size h
asks-lt writing batch waiting idle h = cc

handle-IsOrdered :
    (message : Message) (queue : List Message) (log : Log)
    → log.queue ≡ message ∷ queue
    → asks log.phase log.batch ≡ true
    → IsOrdered log
    → IsOrdered (handle message (record log { queue = queue; phase = collecting }))
handle-IsOrdered (entry r) queue log e h v =
    let room = asks-lt log.phase log.batch log.waiting v.idle h in
    let longer = length-append log.batch (r ∷ []) in
    let order : log.accepted ≡ settled_records log ++ (log.batch ++ entries (entry r ∷ queue)) =
      rw e at v.order in
    let bounded : length (entry r ∷ queue) ≤ log.capacity = rw e at v.bounded in
    let asked : Numbered (length log.settled + length log.batch) (entry r ∷ queue) =
      rw e at v.asked in
    record {
      order =
          order
          ∙ ap (λ l. settled_records log ++ l)
              (sym (append_assoc log.batch (r ∷ []) (entries queue)));
      bounded = omega (arith, bounded);
      batched = omega (arith, room, longer);
      idle = tt;
      asked = subst (λ k. Numbered k queue) (omega (arith, longer)) asked;
      held = All-weaken (λ n k. omega (arith, k, longer)) log.waiting v.held;
      answered_late = v.answered_late;
    }
handle-IsOrdered (flush_asked n) queue log e h v =
    let order : log.accepted
        ≡ settled_records log ++ (log.batch ++ entries (flush_asked n ∷ queue)) =
      rw e at v.order in
    let bounded : length (flush_asked n ∷ queue) ≤ log.capacity = rw e at v.bounded in
    let asked : Numbered (length log.settled + length log.batch) (flush_asked n ∷ queue) =
      rw e at v.asked in
    record {
      order = order;
      bounded = omega (arith, bounded);
      batched = v.batched;
      idle = tt;
      asked = asked.1;
      held = All-snoc _ log.waiting n v.held (omega (arith, asked.0));
      answered_late = v.answered_late;
    }

take-IsOrdered :
    (queue : List Message) (log after : Log)
    → log.queue ≡ queue
    → take_from queue log ≡ some after
    → IsOrdered log
    → IsOrdered after
unfolding take_from
take-IsOrdered [] log after e h v = cc
take-IsOrdered (message ∷ queue) log after e h v = elim (Bool-cases (asks log.phase log.batch)) [
  | inr no_more ↦ let bad : none ≡ some after = rw no_more at h in cc
  | inl more ↦
      let same : some (handle message (record log { queue = queue; phase = collecting }))
          ≡ some after =
        rw more at h in
      subst IsOrdered (some-injective _ after same) (handle-IsOrdered message queue log e more v)
]

end_batch-IsOrdered :
    (log after : Log) → end_batch log ≡ some after → IsOrdered log → IsOrdered after
unfolding end_batch
end_batch-IsOrdered log after h v = elim (Bool-cases (ends_batch log.phase log.batch log.queue)) [
  | inr goes_on ↦ let bad : none ≡ some after = rw goes_on at h in cc
  | inl ends ↦
      let same : some (record log { phase = writing }) ≡ some after = rw ends at h in
      subst IsOrdered (some-injective _ after same) (record {
        order = v.order;
        bounded = v.bounded;
        batched = v.batched;
        idle = tt;
        asked = v.asked;
        held = v.held;
        answered_late = v.answered_late;
      })
]

map-records :
    (settled : List (AccessRecord × Bool)) (batch : List AccessRecord) (stored : Bool)
    → map (λ (p : AccessRecord × Bool). p.0) (settled ++ map (λ r. (r, stored)) batch)
      ≡ map (λ (p : AccessRecord × Bool). p.0) settled ++ batch
map-records [] [] stored = refl
map-records [] (r ∷ batch) stored = ap (λ l. r ∷ l) (map-records [] batch stored)
map-records (p ∷ settled) batch stored = ap (λ l. p.0 ∷ l) (map-records settled batch stored)

-- The log after a write, whatever the database has made of it.
settled-IsOrdered :
    (stored : Bool) (log : Log)
    → IsOrdered log
    → IsOrdered (record log {
      phase = receiving;
      batch = [];
      waiting = [];
      settled = log.settled ++ map (λ r. (r, stored)) log.batch;
      answered = log.answered ++ log.waiting;
    })
settled-IsOrdered stored log v =
    let longer : length (log.settled ++ map (λ r. (r, stored)) log.batch)
        ≡ length log.settled + length log.batch =
      length-append log.settled (map (λ r. (r, stored)) log.batch)
      ∙ ap (λ n. length log.settled + n) (length-map (λ r. (r, stored)) log.batch) in
    record {
      order =
          v.order
          ∙ sym (append_assoc (settled_records log) log.batch (entries log.queue))
          ∙ ap (λ l. l ++ entries log.queue) (sym (map-records log.settled log.batch stored));
      bounded = v.bounded;
      batched = omega arith;
      idle = (refl, refl);
      asked = subst (λ k. Numbered k log.queue) (omega (arith, longer)) v.asked;
      held = tt;
      answered_late =
          All-append _ log.answered log.waiting
            (All-weaken (λ n k. omega (arith, k, longer)) log.answered v.answered_late)
            (All-weaken (λ n k. omega (arith, k, longer)) log.waiting v.held);
    }

write_batch-IsOrdered :
    (stored : Bool) (log after : Log)
    → write_batch stored log ≡ some after
    → IsOrdered log
    → IsOrdered after
unfolding write_batch
write_batch-IsOrdered stored log after h v = go log.phase h
  where
    go : (phase : Phase) → write_in phase stored log ≡ some after → IsOrdered after
    go receiving h = cc
    go collecting h = cc
    go writing h = subst IsOrdered (some-injective _ after h) (settled-IsOrdered stored log v)

pub Step-IsOrdered : {log after : Log} → Step log after → IsOrdered log → IsOrdered after
unfolding take_message
Step-IsOrdered (recording r) v = record_entry-IsOrdered r _ v
Step-IsOrdered (flushing h) v = flush-IsOrdered _ _ h v
Step-IsOrdered {log = log} (taking h) v = take-IsOrdered log.queue log _ refl h v
Step-IsOrdered (ending h) v = end_batch-IsOrdered _ _ h v
Step-IsOrdered (storing stored h) v = write_batch-IsOrdered stored _ _ h v

-- In whatever order requests and the task run, the records that were accepted are those that are
-- settled, stored or lost with their batch, those of the batch and those of the queue, in the
-- order in which they came; queue and batch keep within their sizes; and a flush is answered no
-- sooner than every record that was queued before it is settled.
pub IsReached-IsOrdered : {capacity : ℕ} {log : Log} → IsReached capacity log → IsOrdered log
unfolding spawn_with_capacity
IsReached-IsOrdered spawned = record {
  order = refl;
  bounded = omega arith;
  batched = omega arith;
  idle = (refl, refl);
  asked = tt;
  held = tt;
  answered_late = tt;
}
IsReached-IsOrdered (after_step before step) = Step-IsOrdered step (IsReached-IsOrdered before)
