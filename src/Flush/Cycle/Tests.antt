-- ===== src/Flush/Cycle/Tests.antt =====
-- Concrete runs of the cycle of internal/flush/worker.go, and its theorems at a budget of three attempts.
use icelake.Prelude.{
  ℕ, suc, ◌≡◌, ◌<◌, ◌≤◌, refl, pos, true, false, some, [], ◌∷◌, ltb, if◌then◌else◌, arith,
}
use icelake.Errdef.{FlushError, staging_error, write, ok}
use icelake.Flush.Retry.{attempts}
use icelake.Flush.Worker.{Job, CycleResult, new_job}
use icelake.Flush.Cycle.{
  failure_none, failure_transient, Options, quarantine, landed, attempts_from, cycle,
}
use icelake.Flush.Cycle.Budget.{budget, cycle_ends, cycle-Lands}

unfoldable cycle_code : Unit {0}
unfolding attempts budget quarantine attempts_from cycle
cycle_code = tt

abbrev cause : FlushError
cause = record {
  namespace = b'n' ∷ [];
  table = b't' ∷ [];
  batch_key = [];
  records = 0;
  attempts = 1;
  quarantined = false;
  cause = staging_error write;
}

abbrev job : Job
job = new_job (record { key = []; rows = [] }) 1 false

-- The state counts the sleeps. The attempts before number `good` fail for now.
abbrev options : ℕ → Options ℕ
options good = record {
  namespace = b'n' ∷ [];
  table = b't' ∷ [];
  retry = record { max_attempts = pos 3; base_delay = pos 1; max_delay = pos 8 };
  process = λ j s. record {
    kind = if ltb j.attempts good then failure_transient cause else failure_none;
    key = b'k' ∷ [];
    state = s;
  };
  quarantine_rows = λ ids e s. (ok tt, s);
  cancelled = λ s. false;
  sleep = λ n s. (true, suc s);
}

budget_three : budget (options 2).retry ≡ 3
unfolding cycle_code
budget_three = refl

cycle_ends_example :
    (out : CycleResult) × (i : Job) × (t : ℕ) × (cycle (options 5) (budget (options 5).retry) job 0
      ≡ some (out, i, t))
    × (0 < i.attempts)
    × (i.attempts ≤ budget (options 5).retry)
cycle_ends_example = cycle_ends (options 5) job 0

before_two :
    (j : Job) (s : ℕ)
    → j.attempts < 2
    → (e : FlushError) × (((options 2).process j s).kind ≡ failure_transient e)
before_two j s h = (cause, ground (arith, h))

at_two : (j : Job) (s : ℕ) → j.attempts ≡ 2 → ((options 2).process j s).kind ≡ failure_none
at_two j s h = ground (arith, h)

cycle-Lands_example :
    (i : Job) × (t : ℕ) × (cycle (options 2) (budget (options 2).retry) job 0
      ≡ some (landed (options 2), i, t))
    × (i.attempts ≡ 2)
unfolding cycle_code
cycle-Lands_example =
    cycle-Lands (options 2) 2 before_two at_two (λ s. refl) (λ n s. refl) job 0 (omega arith)
      (omega arith)
