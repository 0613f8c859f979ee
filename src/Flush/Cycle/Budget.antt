-- ===== src/Flush/Cycle/Budget.antt =====
-- internal/flush/worker.go: a cycle ends, and within its budget of attempts.
use icelake.Prelude.{
  ℕ, zero, suc, ◌+◌, ◌≤◌, ◌<◌, ◌≡◌, refl, sym, subst, ℤ, pos, negsuc, Bool-cases, true, false,
  Option, some, inl, inr, ◌⊎◌, ltb, ltb_ℤ, pos_part, if◌then◌else◌, arith,
}
use icelake.Errdef.{FlushError}
use icelake.Flush.Retry.{Retry, attempts}
use icelake.Flush.Worker.{Job, CycleResult}
use icelake.Flush.Cycle.{
  FailureKind, failure_none, failure_encode, failure_transient, Attempt, Options, counted, tried,
  reset, landed, is_spent, after_attempt, attempts_from, cycle,
}

-- The attempt budget, which is at least one.
unfoldable pub budget : Retry → ℕ
budget r = pos_part (attempts r)

attempts-budget : (r : Retry) → (attempts r ≡ pos (budget r)) × (1 ≤ budget r)
unfolding attempts budget
attempts-budget r = go r.max_attempts
  where
    go :
        (m : ℤ)
        → let a : ℤ = if ltb_ℤ m (pos 1) then pos 1 else m in
          (a ≡ pos (pos_part a)) × (1 ≤ pos_part a)
    go (pos zero) = (refl, omega arith)
    go (pos (suc n)) = elim (Bool-cases (ltb_ℤ (pos (suc n)) (pos 1))) [
      | inl low ↦ absurd (ground (arith, low))
      | inr high ↦ rw high (refl, omega arith)
    ]
    go (negsuc n) = elim (Bool-cases (ltb_ℤ (negsuc n) (pos 1))) [
      | inl low ↦ rw low (refl, omega arith)
      | inr high ↦ absurd (ground (arith, high))
    ]

kind_cases :
    (k : FailureKind)
    → (k ≡ failure_none)
      ⊎ (((e : FlushError) × (k ≡ failure_encode e))
          ⊎ ((e : FlushError) × (k ≡ failure_transient e)))
kind_cases failure_none = inl refl
kind_cases (failure_encode e) = inr (inl (e, refl))
kind_cases (failure_transient e) = inr (inr (e, refl))

module _ {S : Type 0} (opts : Options S) where
  is_spent_cases :
      (j : Job)
      → ((is_spent opts j ≡ true) × (budget opts.retry ≤ j.attempts))
        ⊎ ((is_spent opts j ≡ false) × (j.attempts < budget opts.retry))
  is_spent_cases j = elim (Bool-cases (is_spent opts j)) [
    | inl s ↦ inl (s, ground (arith, rw (attempts-budget opts.retry).0 at s))
    | inr s ↦ inr (s, ground (arith, rw (attempts-budget opts.retry).0 at s))
  ]

  -- The loop ended, with a number of attempts.
  abbrev Ends : ℕ → Option (CycleResult × Job × S) → Type 0
  Ends n o =
      (out : CycleResult) × (j : Job) × (s : S) × (o ≡ some (out, j, s))
      × (n < j.attempts)
      × (j.attempts ≤ budget opts.retry)

  after_attempt-Ends :
      (a : Attempt S) (j : Job) (rest : S → Option (CycleResult × Job × S)) (n : ℕ)
      → j.attempts ≡ suc n
      → j.attempts ≤ budget opts.retry
      → ((s : S) → j.attempts < budget opts.retry → Ends n (rest s))
      → Ends n (after_attempt opts a j rest)
  after_attempt-Ends a j rest n e low again = elim (kind_cases a.kind) [
    | inl k ↦ rw k (_, j, _, refl, omega (arith, e), low)
    | inr (inl (cause, k)) ↦ rw k (_, j, _, refl, omega (arith, e), low)
    | inr (inr (cause, k)) ↦ rw k (elim (Bool-cases (opts.cancelled a.state)) [
      | inl c ↦ rw c (_, j, _, refl, omega (arith, e), low)
      | inr c ↦ rw c (elim (is_spent_cases j) [
        | inl (s, spent) ↦ rw s (_, j, _, refl, omega (arith, e), low)
        | inr (s, left) ↦ rw s (elim (Bool-cases (opts.sleep j.attempts a.state).0) [
          | inl slept ↦ rw slept (again (opts.sleep j.attempts a.state).1 left)
          | inr woken ↦ rw woken (_, j, _, refl, omega (arith, e), low)
        ])
      ])
    ])
  ]

  attempts_from-Ends :
      (fuel : ℕ) (j : Job) (s : S)
      → j.attempts + suc fuel ≡ budget opts.retry
      → Ends j.attempts (attempts_from opts (suc fuel) j s)
  unfolding attempts_from
  attempts_from-Ends zero j s e =
      after_attempt-Ends (opts.process (counted j) s)
        (tried (opts.process (counted j) s).key (counted j))
        (attempts_from opts zero (tried (opts.process (counted j) s).key (counted j))) j.attempts
        refl (omega (arith, e)) (λ s' left. absurd (omega (arith, left, e)))
  attempts_from-Ends (suc fuel) j s e =
      let a = opts.process (counted j) s in
      let j' = tried a.key (counted j) in
      after_attempt-Ends a j' (attempts_from opts (suc fuel) j') j.attempts refl (omega (arith, e))
        (λ s' left.
          let (out, i, t, h, low, high) = attempts_from-Ends fuel j' s' (omega (arith, e)) in
          (out, i, t, h, omega (arith, low), high))

  -- Whatever the attempts, the quarantine, the context and the clock do, a cycle with as much fuel as its
  -- budget of attempts ends, after at least one attempt and no more than the budget.
  pub cycle_ends :
      (j : Job) (s : S)
      → (out : CycleResult) × (i : Job) × (t : S) × (cycle opts (budget opts.retry) j s
          ≡ some (out, i, t))
        × (0 < i.attempts)
        × (i.attempts ≤ budget opts.retry)
  unfolding cycle
  cycle_ends j s = go (budget opts.retry) refl
    where
      go : (n : ℕ) → n ≡ budget opts.retry → Ends 0 (attempts_from opts n (reset j) s)
      go zero e = absurd (omega (arith, e, (attempts-budget opts.retry).1))
      go (suc n) e = attempts_from-Ends n (reset j) s (omega (arith, e))

  -- An attempt that fails for now, is not the last, and is not interrupted leads to the next.
  after_attempt_again :
      (a : Attempt S) (j : Job) (rest : S → Option (CycleResult × Job × S)) (cause : FlushError)
      → a.kind ≡ failure_transient cause
      → opts.cancelled a.state ≡ false
      → (opts.sleep j.attempts a.state).0 ≡ true
      → j.attempts < budget opts.retry
      → after_attempt opts a j rest ≡ rest (opts.sleep j.attempts a.state).1
  after_attempt_again a j rest cause k c slept left =
      rw (k, c)
        (elim (is_spent_cases j) [
          | inl (s, spent) ↦ absurd (omega (arith, spent, left))
          | inr (s, more) ↦ rw (s, slept) refl
        ])

  module _ (last : ℕ)
      (before : (j : Job) (s : S)
        → j.attempts < last
        → (e : FlushError) × ((opts.process j s).kind ≡ failure_transient e))
      (at_last : (j : Job) (s : S) → j.attempts ≡ last → (opts.process j s).kind ≡ failure_none)
      (running : (s : S) → opts.cancelled s ≡ false)
      (sleeps : (n : ℕ) (s : S) → (opts.sleep n s).0 ≡ true) where
    abbrev Lands : Option (CycleResult × Job × S) → Type 0
    Lands o = (i : Job) × (t : S) × (o ≡ some (landed opts, i, t)) × (i.attempts ≡ last)

    after_attempt-Lands :
        (j : Job) (s : S) (rest : S → Option (CycleResult × Job × S))
        → suc j.attempts ≡ last
        → Lands (
            after_attempt opts
              (opts.process (counted j) s)
              (tried (opts.process (counted j) s).key (counted j))
              rest)
    after_attempt-Lands j s rest same =
        let a = opts.process (counted j) s in
        (tried a.key (counted j), a.state, rw (at_last (counted j) s same) refl, same)

    -- The loop after the next attempt.
    abbrev next : ℕ → Job → S → S → Option (CycleResult × Job × S)
    next fuel j s = attempts_from opts fuel (tried (opts.process (counted j) s).key (counted j))

    attempts_from-Lands :
        (fuel : ℕ) (j : Job) (s : S)
        → j.attempts + suc fuel ≡ budget opts.retry
        → j.attempts < last
        → last ≤ budget opts.retry
        → Lands (attempts_from opts (suc fuel) j s)
    unfolding attempts_from
    attempts_from-Lands zero j s e low high =
        after_attempt-Lands j s (next zero j s) (omega (arith, e, low, high))
    attempts_from-Lands (suc fuel) j s e low high = elim (Bool-cases (ltb (suc j.attempts) last)) [
      | inr here ↦ after_attempt-Lands j s (next (suc fuel) j s) (ground (arith, here, low))
      | inl later ↦
          let more : suc j.attempts < last = ground (arith, later) in
          let a = opts.process (counted j) s in
          let j' = tried a.key (counted j) in
          let slept = opts.sleep j'.attempts a.state in
          subst Lands
            (sym (
              after_attempt_again a j' (attempts_from opts (suc fuel) j')
                (before (counted j) s more).0 (before (counted j) s more).1 (running a.state)
                (sleeps j'.attempts a.state) (omega (arith, more, high))))
            (attempts_from-Lands fuel j' slept.1 (omega (arith, e)) more high)
    ]

    -- Where every attempt before the `last`-th fails for now and the `last`-th succeeds, with the
    -- `last`-th within the budget and nothing interrupting the worker, the cycle absorbs the failures:
    -- it ends without an error, after exactly that many attempts.
    pub cycle-Lands :
        (j : Job) (s : S)
        → 0 < last
        → last ≤ budget opts.retry
        → (i : Job) × (t : S) × (cycle opts (budget opts.retry) j s ≡ some (landed opts, i, t))
          × (i.attempts ≡ last)
    unfolding cycle
    cycle-Lands j s low high = go (budget opts.retry) refl
      where
        go : (n : ℕ) → n ≡ budget opts.retry → Lands (attempts_from opts n (reset j) s)
        go zero e = absurd (omega (arith, e, low, high))
        go (suc n) e = attempts_from-Lands n (reset j) s (omega (arith, e)) low high
