-- ===== src/Flush/Worker/Waiting.antt =====
-- internal/flush/worker.go: what a waiter is told.
use icelake.Prelude.{
  ℕ, suc, ◌+◌, ◌≤◌, ◌<◌, ◌≡◌, refl, sym, ap, ◌∙◌, subst, Bool, Bool-cases, true, false, not, ◌&&◌,
  Option, none, some, inl, inr, ◌⊎◌, List, [], ◌∷◌, All, ltb, ==_iff, if◌then◌else◌, arith,
}
use mathlib.Core.Option.{some-injective}
use icelake.Errdef.{FlushError}
use icelake.Flush.Worker.{Job, CycleResult, Worker, is_some, answer, without, finish}
use icelake.Flush.Worker.Queue.{
  Consecutive, Reached, Reached-IsQueued, is_final, finish_cases, finished, after,
}

Consecutive-All :
    (n c : ℕ) (queue : List Job) (e : ℕ)
    → n ≤ c
    → Consecutive c queue e
    → All (λ j. n < j.seq) queue
Consecutive-All n c [] e l k = tt
Consecutive-All n c (j ∷ queue) e l k =
    (omega (arith, l, k.0), Consecutive-All n (suc c) queue e (omega (arith, l)) k.1)

-- The quarantine, the failure, the batches all gone, or none of these.
abbrev noticed : ℕ → Worker → Bool
noticed seq w = is_some w.quarantined && not (ltb seq w.quarantined_seq)

abbrev failing : ℕ → ℕ → Worker → Bool
failing since seq w = ltb since w.failures && is_some w.failure && not (ltb seq w.failure_seq)

data Answered (since seq : ℕ) (w : Worker) : Type 0 where
  notice : noticed seq w ≡ true → (answer since seq w).0 ≡ some w.quarantined → Answered since seq w
  failure :
      failing since seq w ≡ true → (answer since seq w).0 ≡ some w.failure → Answered since seq w
  gone :
      noticed seq w ≡ false
      → seq ≤ w.completed
      → answer since seq w ≡ (some none, w)
      → Answered since seq w
  waits : w.completed < seq → (answer since seq w).0 ≡ none → Answered since seq w

answer_cases : (since seq : ℕ) (w : Worker) → Answered since seq w
unfolding answer
answer_cases since seq w = elim (Bool-cases (noticed seq w)) [
  | inl n ↦ notice n (rw n refl)
  | inr n ↦ elim (Bool-cases (failing since seq w)) [
    | inl f ↦ failure f (rw (n, f) refl)
    | inr f ↦ elim (Bool-cases (not (ltb w.completed seq))) [
      | inl c ↦ gone n (ground (arith, c)) (rw (n, f, c) refl)
      | inr c ↦ waits (ground (arith, c)) (rw (n, f, c) refl)
    ]
  ]
]

-- In every state that the worker's steps reach, where a wait for a sequence number is answered without
-- an error, every batch up to it has left the queue, no quarantine of one of them is held any more, and
-- the answer changes nothing.
pub answer_nil :
    (since seq : ℕ) (w : Worker)
    → Reached w
    → (answer since seq w).0 ≡ some none
    → All (λ j. seq < j.seq) w.queue
      × ((is_some w.quarantined && not (ltb seq w.quarantined_seq)) ≡ false)
      × ((answer since seq w).1 ≡ w)
answer_nil since seq w r h = elim (answer_cases since seq w) [
  | notice n told ↦ absurd (cc (n, ap is_some (some-injective w.quarantined none (sym told ∙ h))))
  | failure f told ↦
      let none_held = ap is_some (some-injective w.failure none (sym told ∙ h)) in
      absurd (ground (arith, f, none_held))
  | gone n c same ↦ (
    Consecutive-All seq w.completed w.queue w.enqueued c (Reached-IsQueued r).order,
    n,
    ap (λ out. out.1) same,
  )
  | waits c told ↦ absurd (cc (told, h))
]

-- The body of `run` over the outcomes of its cycles, while there are batches.
unfoldable pub run_cycles : List CycleResult → Worker → Worker
run_cycles [] w = w
run_cycles (res ∷ results) w = elim w.queue [
  | [] ↦ w
  | j ∷ queue ↦ run_cycles results (finish j res w)
]

-- How many of them are final.
unfoldable pub finals : List CycleResult → ℕ
finals [] = 0
finals (res ∷ results) = if is_final res then suc (finals results) else finals results

run_cycles_cases :
    (res : CycleResult) (results : List CycleResult) (w : Worker)
    → ((w.queue ≡ []) × (run_cycles (res ∷ results) w ≡ w))
      ⊎ ((j : Job) × (queue : List Job) × (w.queue ≡ j ∷ queue)
          × (run_cycles (res ∷ results) w ≡ run_cycles results (finish j res w)))
unfolding run_cycles
run_cycles_cases res results w = go w.queue
  where
    go :
        (q : List Job)
        → let out : Worker = elim q [ [] ↦ w | j ∷ queue ↦ run_cycles results (finish j res w) ] in
          ((q ≡ []) × (out ≡ w))
          ⊎ ((j : Job) × (queue : List Job) × (q ≡ j ∷ queue)
              × (out ≡ run_cycles results (finish j res w)))
    go [] = inl (refl, refl)
    go (j ∷ queue) = inr (j, queue, refl, refl)

finish-counts :
    (j : Job) (res : CycleResult) (results : List CycleResult) (w : Worker)
    → ((finish j res w).enqueued ≡ w.enqueued)
      × (w.completed + finals (res ∷ results) ≡ (finish j res w).completed + finals results)
unfolding finals
finish-counts j res results w = elim (finish_cases j res w) [
  | inl (fin, out) ↦ (
    ap (λ (x : Worker). x.enqueued) out,
    rw fin (omega (arith, ap (λ (x : Worker). x.completed) out)),
  )
  | inr (cause, fin, there, out) ↦ (
    ap (λ (x : Worker). x.enqueued) out,
    rw fin (omega (arith, ap (λ (x : Worker). x.completed) out)),
  )
]

run_cycles-completed :
    (results : List CycleResult) (w : Worker) (seq : ℕ)
    → Reached w
    → seq ≤ w.enqueued
    → seq ≤ w.completed + finals results
    → seq ≤ (run_cycles results w).completed
unfolding run_cycles finals
run_cycles-completed [] w seq r e f = omega (arith, f)
run_cycles-completed (res ∷ results) w seq r e f = elim (run_cycles_cases res results w) [
  | inl (empty, out) ↦
      let all_done =
        subst (λ q. Consecutive w.completed q w.enqueued) empty (Reached-IsQueued r).order in
      omega (arith, e, all_done, ap (λ (x : Worker). x.completed) out)
  | inr (j, queue, here, out) ↦
      let (kept, moved) = finish-counts j res results w in
      let ih =
        run_cycles-completed results (finish j res w) seq (after r (finished j queue res w here))
          (omega (arith, e, kept)) (omega (arith, f, moved)) in
      omega (arith, ih, ap (λ (x : Worker). x.completed) out)
]

-- In every state that the worker's steps reach, whatever cycles fail in between, once as many of its
-- cycles have committed or quarantined a batch as there are batches left up to a sequence number that
-- was given out, a wait for that number is answered.
pub answer-run_cycles :
    (since seq : ℕ) (results : List CycleResult) (w : Worker)
    → Reached w
    → seq ≤ w.enqueued
    → seq ≤ w.completed + finals results
    → (e : Option FlushError) × ((answer since seq (run_cycles results w)).0 ≡ some e)
answer-run_cycles since seq results w r e f =
    let w' = run_cycles results w in
    elim (answer_cases since seq w') [
      | notice n told ↦ (w'.quarantined, told)
      | failure k told ↦ (w'.failure, told)
      | gone n c same ↦ (none, ap (λ out. out.0) same)
      | waits c told ↦ absurd (omega (arith, c, run_cycles-completed results w seq r e f))
    ]

-- A quarantine takes the head out and leaves its notice.
finish-quarantined :
    (j : Job) (queue : List Job) (res : CycleResult) (w : Worker)
    → w.queue ≡ j ∷ queue
    → res.quarantined ≡ true
    → ((finish j res w).queue ≡ queue)
      × ((finish j res w).completed ≡ suc w.completed)
      × ((finish j res w).quarantined_seq ≡ j.seq)
unfolding finish
finish-quarantined j queue res w here q =
    rw q (ap (without j) here ∙ rw ((==_iff j.seq j.seq).1 refl) refl, refl, refl)

-- Where the batch at the head and the one behind it are quarantined with no wait answered in between, a
-- wait for the first that starts then is answered without an error: one notice is held, the later one.
pub answer-finish-finish :
    (j k : Job) (queue : List Job) (first second : CycleResult) (w : Worker)
    → Reached w
    → w.queue ≡ j ∷ k ∷ queue
    → first.quarantined ≡ true
    → second.quarantined ≡ true
    → let w' : Worker = finish k second (finish j first w) in
      (answer w'.failures j.seq w').0 ≡ some none
answer-finish-finish j k queue first second w r q one two =
    let w1 = finish j first w in
    let w2 = finish k second w1 in
    let (j_seq, (k_seq, later)) =
      subst (λ q. Consecutive w.completed q w.enqueued) q (Reached-IsQueued r).order in
    let (queue1, completed1, notice1) = finish-quarantined j (k ∷ queue) first w q one in
    let (queue2, completed2, notice2) = finish-quarantined k queue second w1 queue1 two in
    elim (answer_cases w2.failures j.seq w2) [
      | notice n told ↦ absurd (ground (arith, n, notice2, j_seq, k_seq))
      | failure f told ↦ absurd (ground (arith, f))
      | gone n c same ↦ ap (λ out. out.0) same
      | waits c told ↦ absurd (omega (arith, c, completed1, completed2, j_seq))
    ]
