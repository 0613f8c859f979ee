-- ===== src/Flush/Worker/Queue.antt =====
-- internal/flush/worker.go: the states of the queue.
use icelake.Prelude.{
  ℕ, suc, ◌≤◌, ◌≡◌, refl, sym, ap, ◌∙◌, subst, Bool, Bool-cases, true, false, not, ◌&&◌, Option,
  none, some, inl, inr, List, [], ◌∷◌, ◌++◌, ltb, ==_iff, ◌⊎◌, if◌then◌else◌, arith,
}
use icelake.Errdef.{FlushError}
use icelake.Flush.Worker.{
  Batch, Job, CycleResult, Worker, new_worker, enqueue, is_some, answer, stop, without, failed,
  settled, finish,
}

-- The jobs have the numbers after the completed one, up to the last that was given.
abbrev pub Consecutive : ℕ → List Job → ℕ → Type 0
Consecutive c [] e = c ≡ e
Consecutive c (j ∷ queue) e = (j.seq ≡ suc c) × Consecutive (suc c) queue e

pub record IsQueued (w : Worker) : Type 0 where
  pub order : Consecutive w.completed w.queue w.enqueued
  failing : is_some w.failure ≡ true → w.failure_seq ≤ suc w.completed
  pub noticed : is_some w.quarantined ≡ true → w.quarantined_seq ≤ w.completed

-- One step under the mutex. A cycle ends on the job at the head.
pub data Step : Worker → Worker → Type 0 where
  enqueued : (b : Batch) (replayed : Bool) (w : Worker) → Step w (enqueue b replayed w).1
  finished :
      (j : Job) (queue : List Job) (res : CycleResult) (w : Worker)
      → w.queue ≡ j ∷ queue
      → Step w (finish j res w)
  answered : (since seq : ℕ) (w : Worker) → Step w (answer since seq w).1
  stopped : (w : Worker) → Step w (stop w)

pub data Reached : Worker → Type 0 where
  started : Reached new_worker
  after : {w w' : Worker} → Reached w → Step w w' → Reached w'

Consecutive-append :
    (c : ℕ) (queue : List Job) (e : ℕ) (j : Job)
    → j.seq ≡ suc e
    → Consecutive c queue e
    → Consecutive c (queue ++ j ∷ []) (suc e)
Consecutive-append c [] e j h k = (h ∙ ap suc (sym k), ap suc k)
Consecutive-append c (i ∷ queue) e j h k = (k.0, Consecutive-append (suc c) queue e j h k.1)

enqueue-IsQueued :
    (b : Batch) (replayed : Bool) (w : Worker) → IsQueued w → IsQueued (enqueue b replayed w).1
unfolding enqueue
enqueue-IsQueued b replayed w h = record {
  order = Consecutive-append w.completed w.queue w.enqueued _ refl h.order;
  failing = h.failing;
  noticed = h.noticed;
}

settled-IsQueued :
    (j : Job) (queue : List Job) (res : CycleResult) (w : Worker)
    → w.queue ≡ j ∷ queue
    → IsQueued w
    → IsQueued (settled j res w)
settled-IsQueued j queue res w e h =
    let (number, rest) = subst (λ q. Consecutive w.completed q w.enqueued) e h.order in
    record {
      order =
          subst (λ q. Consecutive (suc w.completed) (without j q) w.enqueued) (sym e)
            (without-head j queue rest);
      failing = λ k. elim (Bool-cases (is_some res.err)) [
        | inl kept ↦ rw kept (omega (arith, h.failing (rw kept at k)))
        | inr cleared ↦ rw cleared (omega arith)
      ];
      noticed = λ k. elim (Bool-cases res.quarantined) [
        | inl new ↦ rw new (omega (arith, number))
        | inr old ↦ rw old (omega (arith, h.noticed (rw old at k)))
      ];
    }
  where
    without-head :
        (j : Job) (queue : List Job)
        → Consecutive (suc w.completed) queue w.enqueued
        → Consecutive (suc w.completed) (without j (j ∷ queue)) w.enqueued
    without-head j queue k = rw ((==_iff j.seq j.seq).1 refl) k

-- A cycle that committed its batch or quarantined it.
abbrev final_as : Bool → Option FlushError → Bool
final_as true o = true
final_as false none = true
final_as false (some e) = false

abbrev pub is_final : CycleResult → Bool
is_final res = final_as res.quarantined res.err

-- The job leaves the queue exactly where the cycle is final.
pub finish_cases :
    (j : Job) (res : CycleResult) (w : Worker)
    → ((is_final res ≡ true) × (finish j res w ≡ settled j res w))
      ⊎ ((e : FlushError) × (is_final res ≡ false)
          × (res.err ≡ some e)
          × (finish j res w ≡ failed j e w))
unfolding finish
finish_cases j res w = go res.quarantined res.err (settled j res w)
  where
    go :
        (b : Bool) (o : Option FlushError) (s : Worker)
        → let out : Worker = if b then s else elim o [ none ↦ s | some c ↦ failed j c w ] in
          ((final_as b o ≡ true) × (out ≡ s))
          ⊎ ((e : FlushError) × (final_as b o ≡ false) × (o ≡ some e) × (out ≡ failed j e w))
    go true o s = inl (refl, refl)
    go false none s = inl (refl, refl)
    go false (some e) s = inr (e, refl, refl, refl)

finish-IsQueued :
    (j : Job) (queue : List Job) (res : CycleResult) (w : Worker)
    → w.queue ≡ j ∷ queue
    → IsQueued w
    → IsQueued (finish j res w)
finish-IsQueued j queue res w e h = elim (finish_cases j res w) [
  | inl (f, same) ↦ subst IsQueued (sym same) (settled-IsQueued j queue res w e h)
  | inr (cause, f, there, same) ↦
      let (number, rest) = subst (λ q. Consecutive w.completed q w.enqueued) e h.order in
      subst IsQueued (sym same)
        (record { order = h.order; failing = λ k. omega (arith, number); noticed = h.noticed })
]

answer-IsQueued : (since seq : ℕ) (w : Worker) → IsQueued w → IsQueued (answer since seq w).1
unfolding answer
answer-IsQueued since seq w h =
    elim (Bool-cases (is_some w.quarantined && not (ltb seq w.quarantined_seq))) [
      | inl took ↦
          rw took (record { order = h.order; failing = h.failing; noticed = λ k. absurd (cc k) })
      | inr left ↦
          rw left
            (elim (Bool-cases
              (ltb since w.failures && is_some w.failure && not (ltb seq w.failure_seq))) [
                | inl failed_now ↦ rw failed_now h
                | inr not_failed ↦ rw not_failed (elim (Bool-cases (not (ltb w.completed seq))) [
                  | inl done ↦ rw done h
                  | inr waits ↦ rw waits h
                ])
              ])
    ]

-- In every state that the worker's steps reach, the queue holds the batches that are numbered after the
-- last completed one, in the order of their numbers and without a gap, up to the last that was enqueued;
-- a held failure is not of a later batch than the one at the head, and a held quarantine is of a batch
-- that has left the queue.
pub Reached-IsQueued : {w : Worker} → Reached w → IsQueued w
unfolding stop
Reached-IsQueued started = record {
  order = refl;
  failing = λ k. absurd (cc k);
  noticed = λ k. absurd (cc k);
}
Reached-IsQueued (after r (enqueued b replayed w)) =
    enqueue-IsQueued b replayed w (Reached-IsQueued r)
Reached-IsQueued (after r (finished j queue res w e)) =
    finish-IsQueued j queue res w e (Reached-IsQueued r)
Reached-IsQueued (after r (answered since seq w)) = answer-IsQueued since seq w (Reached-IsQueued r)
Reached-IsQueued (after r (stopped w)) =
    let h = Reached-IsQueued r in
    record { order = h.order; failing = h.failing; noticed = h.noticed }
