-- ===== src/AccessLog/Writer/Order.antt =====
-- What holds of the access log's queue and its task, src/server/access_log/writer.rs, whatever order
-- requests and the task run in.
pub mod Task
use gps_trips.Prelude.{
  ℕ, zero, suc, ◌+◌, ◌≤◌, ◌<◌, ◌≡◌, refl, sym, ap, subst, ◌∙◌, Bool, true, false, List, [], ◌∷◌,
  ◌++◌, append-nil, append_assoc, map, Option, none, some, inl, inr, arith, ltb, ltb→lt, length,
  length-append, Bool-cases, All, All-append, All-snoc, All-weaken, some-injective, if◌then◌else◌,
}
use gps_trips.AccessLog.{AccessRecord}
use gps_trips.AccessLog.Writer.{
  batch_size, Message, entry, flush_asked, Phase, receiving, collecting, writing, Log,
  spawn_with_capacity, record_entry, flush, handle, asks, take_from, take_message, ends_batch,
  end_batch, write_in, write_batch,
}

abbrev pub entries : List Message → List AccessRecord
entries [] = []
entries (entry r ∷ queue) = r ∷ entries queue
entries (flush_asked n ∷ queue) = entries queue

-- Each flush has the number of the records before it, `k` of which are before the queue.
abbrev pub Numbered : ℕ → List Message → Type 0
Numbered k [] = Unit {0}
Numbered k (entry r ∷ queue) = Numbered (suc k) queue
Numbered k (flush_asked n ∷ queue) = (n ≡ k) × Numbered k queue

abbrev pub settled_records : Log → List AccessRecord
settled_records log = map (λ (p : AccessRecord × Bool). p.0) log.settled

abbrev pub IsIdle : Phase → List AccessRecord → List ℕ → Type 0
IsIdle receiving batch waiting = (batch ≡ []) × (waiting ≡ [])
IsIdle collecting batch waiting = Unit {0}
IsIdle writing batch waiting = Unit {0}

pub record IsOrdered (log : Log) : Type 0 where
  -- No record is lost on the way or overtaken
  pub order : log.accepted ≡ settled_records log ++ (log.batch ++ entries log.queue)
  pub bounded : length log.queue ≤ log.capacity
  pub batched : length log.batch ≤ batch_size
  pub idle : IsIdle log.phase log.batch log.waiting
  pub asked : Numbered (length log.settled + length log.batch) log.queue
  -- A flush is answered once what was queued before it is settled
  pub held : All (λ n. n ≤ length log.settled + length log.batch) log.waiting
  pub answered_late : All (λ n. n ≤ length log.settled) log.answered

-- The steps of requests and of the task, in any order.
pub data Step : Log → Log → Type 0 where
  recording : {log : Log} (r : AccessRecord) → Step log (record_entry r log)
  flushing : {log after : Log} → flush log ≡ some after → Step log after
  taking : {log after : Log} → take_message log ≡ some after → Step log after
  ending : {log after : Log} → end_batch log ≡ some after → Step log after
  storing : {log after : Log} (stored : Bool) → write_batch stored log ≡ some after → Step log after

pub data IsReached (capacity : ℕ) : Log → Type 0 where
  spawned : IsReached capacity (spawn_with_capacity capacity)
  after_step :
      {log after : Log} → IsReached capacity log → Step log after → IsReached capacity after

pub entries-append : (xs ys : List Message) → entries (xs ++ ys) ≡ entries xs ++ entries ys
entries-append [] ys = refl
entries-append (entry r ∷ xs) ys = ap (λ l. r ∷ l) (entries-append xs ys)
entries-append (flush_asked n ∷ xs) ys = entries-append xs ys

Numbered-entry :
    (k : ℕ) (queue : List Message) (r : AccessRecord)
    → Numbered k queue
    → Numbered k (queue ++ entry r ∷ [])
Numbered-entry k [] r h = tt
Numbered-entry k (entry s ∷ queue) r h = Numbered-entry (suc k) queue r h
Numbered-entry k (flush_asked n ∷ queue) r h = (h.0, Numbered-entry k queue r h.1)

Numbered-flush :
    (k n : ℕ) (queue : List Message)
    → n ≡ k + length (entries queue)
    → Numbered k queue
    → Numbered k (queue ++ flush_asked n ∷ [])
Numbered-flush k n [] e h = (omega (arith, e), tt)
Numbered-flush k n (entry s ∷ queue) e h = Numbered-flush (suc k) n queue (omega (arith, e)) h
Numbered-flush k n (flush_asked m ∷ queue) e h = (h.0, Numbered-flush k n queue e h.1)

pub length-map {ℓ κ} :
    {A : Type ℓ} {B : Type κ} (f : A → B) (xs : List A) → length (map f xs) ≡ length xs
length-map f [] = refl
length-map f (x ∷ xs) = ap suc (length-map f xs)

pub length_accepted :
    (log : Log)
    → IsOrdered log
    → length log.accepted ≡ length log.settled + length log.batch + length (entries log.queue)
length_accepted log v = omega (
  arith,
  ap length v.order,
  length-append (settled_records log) (log.batch ++ entries log.queue),
  length-append log.batch (entries log.queue),
  length-map (λ (p : AccessRecord × Bool). p.0) log.settled,
)

pub record_entry-IsOrdered :
    (r : AccessRecord) (log : Log) → IsOrdered log → IsOrdered (record_entry r log)
unfolding record_entry
record_entry-IsOrdered r log v = elim (Bool-cases (ltb (length log.queue) log.capacity)) [
  | inr full ↦ rw full v
  | inl room ↦ rw room (record {
    order =
        ap (λ l. l ++ r ∷ []) v.order
        ∙ append_assoc (settled_records log) (log.batch ++ entries log.queue) (r ∷ [])
        ∙ ap (λ l. settled_records log ++ l)
            (append_assoc log.batch (entries log.queue) (r ∷ [])
              ∙ ap (λ l. log.batch ++ l) (sym (entries-append log.queue (entry r ∷ []))));
    bounded = omega (
      arith,
      ltb→lt (length log.queue) log.capacity room,
      length-append log.queue (entry r ∷ []),
    );
    batched = v.batched;
    idle = v.idle;
    asked = Numbered-entry _ log.queue r v.asked;
    held = v.held;
    answered_late = v.answered_late;
  })
]

pub flush-IsOrdered : (log after : Log) → flush log ≡ some after → IsOrdered log → IsOrdered after
unfolding flush
flush-IsOrdered log after h v = elim (Bool-cases (ltb (length log.queue) log.capacity)) [
  | inr full ↦ let bad : none ≡ some after = rw full at h in cc
  | inl room ↦
      let n = length log.accepted in
      let e : some (record log { queue = log.queue ++ flush_asked n ∷ [] }) ≡ some after =
        rw room at h in
      subst IsOrdered (some-injective _ after e) (record {
        order =
            v.order
            ∙ ap (λ l. settled_records log ++ (log.batch ++ l))
                (sym (entries-append log.queue (flush_asked n ∷ []) ∙ append-nil _));
        bounded = omega (
          arith,
          ltb→lt (length log.queue) log.capacity room,
          length-append log.queue (flush_asked n ∷ []),
        );
        batched = v.batched;
        idle = v.idle;
        asked = Numbered-flush _ n log.queue (length_accepted log v) v.asked;
        held = v.held;
        answered_late = v.answered_late;
      })
]
