-- ===== src/Flush/Worker.antt =====
-- internal/flush/worker.go: the queue of batches, what a finished cycle does to it, and what a waiter is
-- told. The mutex makes each of these one step. The channels that wake goroutines are left out: a woken
-- waiter asks `answer` again.
pub mod Queue
pub mod Waiting
mod Tests
use icelake.Prelude.{
  ℕ, suc, Bool, true, false, not, ◌&&◌, Option, none, some, List, [], ◌∷◌, ◌++◌, if◌then◌else◌, ltb,
  ◌==◌,
}
use icelake.Errdef.{Bytes, FlushError}
use icelake.Staging.Index.{PendingRow}

pub record Batch : Type 0 where
  pub key : Bytes
  pub rows : List PendingRow

pub record Job : Type 0 where
  pub batch : Batch
  pub seq : ℕ
  pub replayed : Bool
  pub attempts : ℕ
  pub attempted : Bool

-- How one cycle ended: `result`.
pub record CycleResult : Type 0 where
  pub err : Option FlushError
  pub quarantined : Bool
  pub report : Bool

-- The fields under the mutex.
pub record Worker : Type 0 where
  pub queue : List Job
  pub enqueued : ℕ
  pub completed : ℕ
  pub failure : Option FlushError
  pub failures : ℕ
  pub failure_seq : ℕ
  pub quarantined : Option FlushError
  pub quarantined_seq : ℕ
  pub stopping : Bool

abbrev pub new_worker : Worker
new_worker = record {
  queue = [];
  enqueued = 0;
  completed = 0;
  failure = none;
  failures = 0;
  failure_seq = 0;
  quarantined = none;
  quarantined_seq = 0;
  stopping = false;
}

abbrev pub new_job : Batch → ℕ → Bool → Job
new_job b seq replayed = record {
  batch = b;
  seq = seq;
  replayed = replayed;
  attempts = 0;
  attempted = false;
}

unfoldable pub enqueue : Batch → Bool → Worker → ℕ × Worker
enqueue b replayed w = (
  suc w.enqueued,
  record {
    queue = w.queue ++ new_job b (suc w.enqueued) replayed ∷ [];
    enqueued = suc w.enqueued;
    completed = w.completed;
    failure = w.failure;
    failures = w.failures;
    failure_seq = w.failure_seq;
    quarantined = w.quarantined;
    quarantined_seq = w.quarantined_seq;
    stopping = w.stopping;
  },
)

-- `Sequence`.
abbrev sequence : Worker → ℕ
sequence w = w.enqueued

abbrev pub is_some : Option FlushError → Bool
is_some none = false
is_some (some e) = true

-- The cases of `answer` in turn: `none` is a wait that goes on, and the error inside is Go's.
unfoldable pub answer : ℕ → ℕ → Worker → Option (Option FlushError) × Worker
answer since seq w =
    if is_some w.quarantined && not (ltb seq w.quarantined_seq)
    then (
      some w.quarantined,
      record {
        queue = w.queue;
        enqueued = w.enqueued;
        completed = w.completed;
        failure = w.failure;
        failures = w.failures;
        failure_seq = w.failure_seq;
        quarantined = none;
        quarantined_seq = 0;
        stopping = w.stopping;
      },
    )
    else if ltb since w.failures && is_some w.failure && not (ltb seq w.failure_seq)
    then (some w.failure, w)
    else if not (ltb w.completed seq)
    then (some none, w)
    else (none, w)

-- `Close` up to its wait for the goroutine.
unfoldable pub stop : Worker → Worker
stop w = record {
  queue = w.queue;
  enqueued = w.enqueued;
  completed = w.completed;
  failure = w.failure;
  failures = w.failures;
  failure_seq = w.failure_seq;
  quarantined = w.quarantined;
  quarantined_seq = w.quarantined_seq;
  stopping = true;
}

-- `head`: no job and the flag that says whether to go on.
pub head : Bool → Worker → Option Job × Bool
head cancelled w =
    if cancelled
    then (none, false)
    else elim w.queue [ [] ↦ (none, not w.stopping) | j ∷ queue ↦ (some j, true) ]

-- `w.queue[0] == j` compares pointers, of which each sequence number has one.
abbrev pub without : Job → List Job → List Job
without j [] = []
without j (i ∷ queue) = if i.seq == j.seq then queue else i ∷ queue

-- A transient failure stays at the head of the queue.
abbrev pub failed : Job → FlushError → Worker → Worker
failed j e w = record {
  queue = w.queue;
  enqueued = w.enqueued;
  completed = w.completed;
  failure = some e;
  failures = suc w.failures;
  failure_seq = j.seq;
  quarantined = w.quarantined;
  quarantined_seq = w.quarantined_seq;
  stopping = w.stopping;
}

-- Every other outcome takes the job out.
abbrev pub settled : Job → CycleResult → Worker → Worker
settled j res w = record {
  queue = without j w.queue;
  enqueued = w.enqueued;
  completed = suc w.completed;
  failure = if is_some res.err then w.failure else none;
  failures = w.failures;
  failure_seq = if is_some res.err then w.failure_seq else 0;
  quarantined = if res.quarantined then res.err else w.quarantined;
  quarantined_seq = if res.quarantined then j.seq else w.quarantined_seq;
  stopping = w.stopping;
}

unfoldable pub finish : Job → CycleResult → Worker → Worker
finish j res w =
    if res.quarantined
    then settled j res w
    else elim res.err [ none ↦ settled j res w | some e ↦ failed j e w ]
