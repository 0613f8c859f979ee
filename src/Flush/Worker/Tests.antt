-- ===== src/Flush/Worker/Tests.antt =====
-- Concrete runs of the queue of internal/flush/worker.go, and its theorems at a queue of two batches.
use icelake.Prelude.{
  ◌≡◌, ◌<◌, ◌&&◌, refl, true, false, not, none, some, All, [], ◌∷◌, Option, ltb, arith,
}
use icelake.Errdef.{FlushError, staging_error, write}
use icelake.Flush.Worker.{
  Batch, CycleResult, Worker, new_worker, new_job, enqueue, is_some, answer, stop, head, finish,
}
use icelake.Flush.Worker.Queue.{
  IsQueued, Reached, started, after, enqueued, finished, Reached-IsQueued,
}
use icelake.Flush.Worker.Waiting.{
  run_cycles, finals, answer_nil, answer-run_cycles, answer-finish-finish,
}

unfoldable worker_code : Unit {0}
unfolding enqueue answer stop head finish run_cycles finals
worker_code = tt

abbrev batch : Batch
batch = record { key = []; rows = [] }

abbrev cause : FlushError
cause = record {
  namespace = b'n' ∷ [];
  table = b't' ∷ [];
  batch_key = b'k' ∷ [];
  records = 1;
  attempts = 3;
  quarantined = false;
  cause = staging_error write;
}

abbrev landed : CycleResult
landed = record { err = none; quarantined = false; report = false }

abbrev given_up : CycleResult
given_up = record { err = some cause; quarantined = false; report = true }

abbrev marked_end : CycleResult
marked_end = record { err = some cause; quarantined = true; report = true }

abbrev two : Worker
two = record {
  queue = new_job batch 1 false ∷ new_job batch 2 false ∷ [];
  enqueued = 2;
  completed = 0;
  failure = none;
  failures = 0;
  failure_seq = 0;
  quarantined = none;
  quarantined_seq = 0;
  stopping = false;
}

two_enqueued : (enqueue batch false (enqueue batch false new_worker).1).1 ≡ two
unfolding worker_code
two_enqueued = refl

two-Reached : Reached two
unfolding worker_code
two-Reached =
    after (after started (enqueued batch false new_worker))
      (enqueued batch false (enqueue batch false new_worker).1)

head_of_two : head false two ≡ (some (new_job batch 1 false), true)
unfolding worker_code
head_of_two = refl

failure_stays_queued : (run_cycles (given_up ∷ []) two).queue ≡ two.queue
unfolding worker_code
failure_stays_queued = refl

failure_told : (answer 0 1 (run_cycles (given_up ∷ []) two)).0 ≡ some (some cause)
unfolding worker_code
failure_told = refl

old_failure_not_told : (answer 1 1 (run_cycles (given_up ∷ []) two)).0 ≡ none
unfolding worker_code
old_failure_not_told = refl

quarantine_told_once : (answer 0 1 (answer 0 1 (run_cycles (marked_end ∷ []) two)).1).0 ≡ some none
unfolding worker_code
quarantine_told_once = refl

Reached-IsQueued_example : IsQueued two
Reached-IsQueued_example = Reached-IsQueued two-Reached

-- The first batch has landed.
abbrev one_left : Worker
one_left = record {
  queue = new_job batch 2 false ∷ [];
  enqueued = 2;
  completed = 1;
  failure = none;
  failures = 0;
  failure_seq = 0;
  quarantined = none;
  quarantined_seq = 0;
  stopping = false;
}

one_left-Reached : Reached one_left
unfolding worker_code
one_left-Reached =
    after two-Reached
      (finished (new_job batch 1 false) (new_job batch 2 false ∷ []) landed two refl)

one_left_answered : (answer 0 1 one_left).0 ≡ some none
unfolding worker_code
one_left_answered = refl

answer_nil_example :
    All (λ j. 1 < j.seq) one_left.queue
    × ((is_some one_left.quarantined && not (ltb 1 one_left.quarantined_seq)) ≡ false)
    × ((answer 0 1 one_left).1 ≡ one_left)
answer_nil_example = answer_nil 0 1 one_left one_left-Reached one_left_answered

two_final : finals (given_up ∷ landed ∷ given_up ∷ marked_end ∷ []) ≡ 2
unfolding worker_code
two_final = refl

answer-run_cycles_example :
    (e : Option FlushError) × ((answer 0 2
        (run_cycles (given_up ∷ landed ∷ given_up ∷ marked_end ∷ []) two)).0
      ≡ some e)
answer-run_cycles_example =
    answer-run_cycles 0 2 (given_up ∷ landed ∷ given_up ∷ marked_end ∷ []) two two-Reached
      (omega arith) (omega (arith, two_final))

answer-finish-finish_example :
    (answer 0 1
      (finish (new_job batch 2 false) marked_end (finish (new_job batch 1 false) marked_end two))).0
    ≡ some none
unfolding worker_code
answer-finish-finish_example =
    answer-finish-finish (new_job batch 1 false) (new_job batch 2 false) [] marked_end marked_end
      two two-Reached refl refl refl
