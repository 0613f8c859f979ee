-- ===== src/Writer/Registry/Exclusive.antt =====
-- store.go and drain.go: a table has one that works on it.
use icelake.Prelude.{
  ℕ, suc, ◌-◌, ◌≤◌, ◌≡◌, refl, sym, ap, ◌∙◌, subst, Bool-cases, true, false, inl, inr, List, [],
  ◌∷◌, if◌then◌else◌, ◌↔◌, arith,
}
use icelake.Errdef.{Result, ok}
use icelake.Staging.Store.{TableId, same_table}
use icelake.Staging.Store.Gathered.{same_table→eq}
use icelake.Writer.Whole.{if-cases}
use icelake.Writer.Registry.{
  Owner, table_claim, writer_of, Registry, is_live, put, drop_slot, attach, claim_table, detach,
  release_table, swap_claim, close_store, holders, slots, leave, Process, started, Step, claimed,
  released, swapped, store_closed, Reached, opens, steps, IsExclusive,
}

agree_lem :
    (v t u : TableId)
    → (same_table v t ≡ true → same_table v u ≡ same_table t u)
      × (same_table v t ≡ false → same_table t u ≡ true → same_table v u ≡ false)
agree_lem v t u = (
  λ h. ap (λ x. same_table x u) (same_table→eq v t h),
  λ h e. subst (λ x. same_table v x ≡ false) (same_table→eq t u e) h,
)

is_live-slots : (t : TableId) (ws : List (TableId × Owner)) → is_live t ws ≡ false → slots t ws ≡ 0
unfolding is_live slots
is_live-slots t [] h = refl
is_live-slots t ((u, w) ∷ ws) h = ground (arith, is_live-slots t ws, Bool-cases (same_table u t))

slots-is_live : (t : TableId) (ws : List (TableId × Owner)) → is_live t ws ≡ true → 1 ≤ slots t ws
unfolding is_live slots
slots-is_live t [] h = cc
slots-is_live t ((u, w) ∷ ws) h = ground (arith, slots-is_live t ws, Bool-cases (same_table u t))

-- A table's slots after an assignment and after a deletion.
slots-put :
    (t u : TableId) (w : Owner) (ws : List (TableId × Owner))
    → slots u (put t w ws) ≡ (
        if same_table t u
        then (if is_live t ws then slots u ws else suc (slots u ws))
        else slots u ws)
unfolding put slots is_live
slots-put t u w [] = ground (arith, Bool-cases (same_table t u))
slots-put t u w ((v, x) ∷ ws) = elim (Bool-cases (same_table v t)) [
  | inl e ↦ rw e (
      ground
        (arith, (agree_lem v t u).0 e, Bool-cases (same_table t u), Bool-cases (same_table v u)))
  | inr e ↦ rw e (
      ground (
        arith,
        slots-put t u w ws,
        Bool-cases (is_live t ws),
        (agree_lem v t u).1 e,
        Bool-cases (same_table t u),
        Bool-cases (same_table v u),
      ))
]

slots-drop :
    (t u : TableId) (ws : List (TableId × Owner))
    → slots u (drop_slot t ws) ≡ (if same_table t u then slots u ws - 1 else slots u ws)
unfolding drop_slot slots
slots-drop t u [] = ground (arith, Bool-cases (same_table t u))
slots-drop t u ((v, x) ∷ ws) = elim (Bool-cases (same_table v t)) [
  | inl e ↦ rw e (
      ground
        (arith, (agree_lem v t u).0 e, Bool-cases (same_table t u), Bool-cases (same_table v u)))
  | inr e ↦ rw e (
      ground (
        arith,
        slots-drop t u ws,
        (agree_lem v t u).1 e,
        Bool-cases (same_table t u),
        Bool-cases (same_table v u),
      ))
]

holders-leave :
    (t u : TableId) (ts : List TableId)
    → holders u (leave t ts) ≡ (if same_table t u then holders u ts - 1 else holders u ts)
unfolding leave holders
holders-leave t u [] = ground (arith, Bool-cases (same_table t u))
holders-leave t u (v ∷ ts) = elim (Bool-cases (same_table v t)) [
  | inl e ↦ rw e (
      ground
        (arith, (agree_lem v t u).0 e, Bool-cases (same_table t u), Bool-cases (same_table v u)))
  | inr e ↦ rw e (
      ground (
        arith,
        holders-leave t u ts,
        (agree_lem v t u).1 e,
        Bool-cases (same_table t u),
        Bool-cases (same_table v u),
      ))
]

started-IsExclusive :
    (t : TableId) (p : Process)
    → IsExclusive p
    → IsExclusive (started t p (claim_table t p.registry))
unfolding attach holders
started-IsExclusive t p h =
    if-cases After p.registry.closed (λ e. same)
      (λ open_.
        if-cases After (is_live t p.registry.writers) (λ e. same)
          (λ free.
            let none_works : holders t p.at_work ≡ 0 =
              sym (h.slot open_ t) ∙ is_live-slots t p.registry.writers free in
            let nobody = λ (u : TableId) (e : same_table t u ≡ true).
              subst (λ x. holders x p.at_work ≡ 0) (same_table→eq t u e) none_works in
            record {
              once = λ u. ground (arith, h.once u, nobody u, Bool-cases (same_table t u));
              slot = λ e u. ground (
                arith,
                slots-put t u table_claim p.registry.writers,
                free,
                h.slot open_ u,
                Bool-cases (same_table t u),
              );
            }))
  where
    After : Result (Unit {0}) × Registry → Type 0
    After out = IsExclusive (started t p out)

    same : IsExclusive (record { registry = p.registry; at_work = p.at_work })
    same = record { once = h.once; slot = h.slot }

released-IsExclusive :
    (t : TableId) (p : Process)
    → 1 ≤ holders t p.at_work
    → IsExclusive p
    → IsExclusive (record { registry = release_table t p.registry; at_work = leave t p.at_work })
unfolding detach
released-IsExclusive t p works h = record {
  once = λ u. ground (arith, holders-leave t u p.at_work, h.once u);
  slot = λ open_ u.
      slots-drop t u p.registry.writers
      ∙ ap (λ n. if same_table t u then n - 1 else n) (h.slot open_ u)
      ∙ sym (holders-leave t u p.at_work);
}

swapped-IsExclusive :
    (n : ℕ) (t : TableId) (p : Process)
    → 1 ≤ holders t p.at_work
    → IsExclusive p
    → IsExclusive
        (record { registry = (swap_claim (writer_of n) t p.registry).1; at_work = p.at_work })
unfolding swap_claim
swapped-IsExclusive n t p works h =
    if-cases After p.registry.closed (λ e. record { once = h.once; slot = h.slot })
      (λ open_. record {
        once = h.once;
        slot = λ e u.
            slots-put t u (writer_of n) p.registry.writers
            ∙ ground (
              arith,
              works,
              h.slot open_ t,
              is_live-slots t p.registry.writers,
              Bool-cases (is_live t p.registry.writers),
              Bool-cases (same_table t u),
            )
            ∙ h.slot open_ u;
      })
  where
    After : Result (Unit {0}) × Registry → Type 0
    After out = IsExclusive (record { registry = out.1; at_work = p.at_work })

closed-IsExclusive :
    (p : Process)
    → IsExclusive p
    → IsExclusive (record { registry = (close_store p.registry).1; at_work = p.at_work })
unfolding close_store
closed-IsExclusive p h =
    if-cases After p.registry.closed (λ e. record { once = h.once; slot = h.slot })
      (λ open_. record { once = h.once; slot = λ e. absurd (cc e) })
  where
    After : Result (Unit {0}) × Registry → Type 0
    After out = IsExclusive (record { registry = out.1; at_work = p.at_work })

step-IsExclusive : (p q : Process) → Step p q → IsExclusive p → IsExclusive q
step-IsExclusive _ _ (claimed t p) h = started-IsExclusive t p h
step-IsExclusive _ _ (released t p works) h = released-IsExclusive t p works h
step-IsExclusive _ _ (swapped n t p works) h = swapped-IsExclusive n t p works h
step-IsExclusive _ _ (store_closed p) h = closed-IsExclusive p h

reached_lem : (p : Process) → Reached p → IsExclusive p
unfolding holders slots
reached_lem _ opens = record { once = λ t. omega arith; slot = λ e t. refl }
reached_lem q (steps p _ before step) = step-IsExclusive p q step (reached_lem p before)

-- When `claimTable` succeeds.
abbrev pub IsFree : TableId → Process → Type 0
IsFree t p = (p.registry.closed ≡ false) × (holders t p.at_work ≡ 0)

claim_table_iff :
    (t : TableId) (p : Process)
    → IsExclusive p
    → ((claim_table t p.registry).0 ≡ ok tt) ↔ IsFree t p
unfolding attach
claim_table_iff t p h = elim (Bool-cases p.registry.closed) [
  | inl e ↦ rw e (λ h. absurd (cc h), λ f. absurd (cc f.0))
  | inr e ↦ elim (Bool-cases (is_live t p.registry.writers)) [
    | inl f ↦
        rw (e, f)
          (
            λ h. absurd (cc h),
            λ k. absurd (omega (arith, k.1, h.slot e t, slots-is_live t p.registry.writers f)),
          )
    | inr f ↦
        rw (e, f) (λ g. (refl, sym (h.slot e t) ∙ is_live-slots t p.registry.writers f), λ k. refl)
  ]
]

-- Whatever opens, drains, handovers and closings a store sees, where only one that works on a table
-- gives its slot back or hands it over: no table ever has two that work on it; until the store closes,
-- a table has as many slots as there are that work on it; and a claim of a table succeeds exactly where
-- the store is open and nothing works on the table.
pub Reached-IsExclusive :
    (p : Process)
    → Reached p
    → IsExclusive p × ((t : TableId) → ((claim_table t p.registry).0 ≡ ok tt) ↔ IsFree t p)
Reached-IsExclusive p r = let h = reached_lem p r in (h, λ t. claim_table_iff t p h)
