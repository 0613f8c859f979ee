-- ===== src/Flush/Process/Durable.antt =====
-- internal/flush/flush.go: nothing leaves the staging store before its batch has landed.
use icelake.Prelude.{
  ℕ, ◌≡◌, refl, sym, ap, ◌∙◌, subst, Bool, Bool-cases, true, false, not, ◌&&◌, ◌||◌, Option, none,
  some, inl, inr, ◌⊎◌, List, if◌then◌else◌,
}
use icelake.Errdef.{Bytes, ok}
use icelake.Canon.Shape.{Descriptor}
use icelake.Staging.Store.{StagingStore}
use icelake.Staging.Store.Leaving.{delete, prune_schemas}
use icelake.Flush.Worker.{Job}
use icelake.Flush.Cycle.{failure_none, Attempt}
use icelake.Flush.Prepare.{
  unencodable, failed, Tried, halt, went, Held, Run, follow, content, Faults, Prepared, prepare,
}
use icelake.Flush.Prepare.Sealing.{SealedOr, prepare-SealedOr, tried_as-went}
use icelake.Flush.Process.{
  Spooling, Destination, World, PruneFaults, calls, on_store, prune, mark_in, mark_spooled,
  write_in, settle, deliver, mirrored, write_file, check_committed, land, attempt_of, landing,
  process,
}

-- What the other parties are relied on for. A commit that succeeds puts the file in the table, the check
-- finds only files that are in it, and marking the cached file takes none out. A writer that only writes
-- locally has a cache directory, where a write that succeeds leaves the file.
pub record IsDurable {E : Type 0} (dest : Destination E) (InTable InCache : Bytes → E → Type 0)
    : Type 0 where
  pub checked :
      (key : Bytes) (e : E)
      → (dest.already_committed key e).0 ≡ ok true
      → InTable key (dest.already_committed key e).1
  pub landed :
      (key : Bytes) (e : E) (u : Unit {0})
      → (dest.commit key e).0 ≡ ok u
      → InTable key (dest.commit key e).1
  pub kept :
      (s : Spooling E) (key other : Bytes) (e : E)
      → dest.spool ≡ some s
      → InTable key e
      → InTable key (s.mark_committed other e).1
  pub local : dest.local_only ≡ true → (s : Spooling E) × (dest.spool ≡ some s)
  pub cached :
      (s : Spooling E) (key body : Bytes) (e : E) (u : Unit {0})
      → dest.spool ≡ some s
      → (s.write key body e).0 ≡ ok u
      → InCache key (s.write key body e).1

module _ {E : Type 0} (dest : Destination E) (faults : PruneFaults)
    (InTable InCache : Bytes → E → Type 0) (laws : IsDurable dest InTable InCache) where
  -- Where the batch is safe without its staged rows.
  abbrev pub IsSafe : Bytes → E → Type 0
  IsSafe key e = InTable key e ⊎ ((dest.local_only ≡ true) × InCache key e)

  -- The store stands as it did, or the batch is safe; and it is where the step succeeded.
  record Post (st : StagingStore) (key : Bytes) (out : Tried (Unit {0}) × World E) : Type 0 where
    kept : (out.1.held.store ≡ st) ⊎ IsSafe key out.1.env
    safe : (u : Unit {0}) → out.0 ≡ went u → IsSafe key out.1.env

  safe-Post :
      (st : StagingStore) (key : Bytes) (out : Tried (Unit {0}) × World E)
      → IsSafe key out.1.env
      → Post st key out
  safe-Post st key out s = record { kept = inr s; safe = λ u h. s }

  follow-Post :
      {A : Type 0} (st : StagingStore) (key : Bytes) (next : A → Run (World E) (Unit {0}))
      (out : Tried A × World E)
      → out.1.held.store ≡ st
      → ((a : A) → out.0 ≡ went a → Post st key (next a out.1))
      → Post st key (follow next out)
  follow-Post st key next (halt f, w) e k = record { kept = inl e; safe = λ u h. absurd (cc h) }
  follow-Post st key next (went a, w) e k = k a refl

  if-Post :
      (st : StagingStore) (key : Bytes) (b : Bool) (m k : Run (World E) (Unit {0})) (w : World E)
      → (b ≡ true → Post st key (m w))
      → (b ≡ false → Post st key (k w))
      → Post st key ((if b then m else k) w)
  if-Post st key true m k w x y = x refl
  if-Post st key false m k w x y = y refl

  follow_env :
      {A B : Type 0} (P : E → Type 0) (next : A → Run (World E) B) (out : Tried A × World E)
      → P out.1.env
      → ((a : A) (w : World E) → P w.env → P (next a w).1.env)
      → P (follow next out).1.env
  follow_env P next (halt f, w) p k = p
  follow_env P next (went a, w) p k = k a w p

  prune_env :
      (P : E → Type 0) (ids : List ℕ) (w : World E) → P w.env → P (prune dest faults ids w).1.env
  unfolding prune
  prune_env P ids w p =
      follow_env P (λ deleted. on_store dest faults (prune_schemas faults.prune_fails))
        (on_store dest faults (delete faults.delete_fails ids) w) p (λ a w' q. q)

  mark_in_table :
      (o : Option (Spooling E)) (key other : Bytes) (w : World E)
      → dest.spool ≡ o
      → InTable key w.env
      → InTable key (mark_in dest faults o other w).1.env
  mark_in_table none key other w e t = t
  mark_in_table (some s) key other w e t = laws.kept s key other w.env e t

  settle-IsSafe :
      (p : Prepared) (w : World E)
      → InTable p.key w.env
      → IsSafe p.key (settle dest faults p w).1.env
  unfolding settle
  settle-IsSafe p w t = inl (
      follow_env (InTable p.key) (λ marked. prune dest faults p.ids)
        (mark_spooled dest faults p.key w) (mark_in_table dest.spool p.key p.key w refl t)
        (λ u w' t'. prune_env (InTable p.key) p.ids w' t'))

  deliver-Post :
      (p : Prepared) (body : Bytes) (st : StagingStore) (w : World E)
      → w.held.store ≡ st
      → Post st p.key (deliver dest faults p body w)
  unfolding deliver
  deliver-Post p body st w e =
      follow-Post st p.key _ (calls dest faults (dest.upload p.key body) w) e (λ u uploaded.
        let w1 = (calls dest faults (dest.upload p.key body) w).1 in
        let out = calls dest faults (dest.commit p.key) w1 in
        follow-Post st p.key (λ committed. settle dest faults p) out e
          (λ v committed. safe-Post st p.key (settle dest faults p out.1) (
            settle-IsSafe p out.1 (
              laws.landed p.key w1.env v
                (tried_as-went failed (dest.commit p.key w1.env).0 committed)))))

  write_in_store :
      (o : Option (Spooling E)) (key body : Bytes) (w : World E)
      → (write_in dest faults o key body w).1.held.store ≡ w.held.store
  write_in_store none key body w = refl
  write_in_store (some s) key body w = refl

  write_in-cached :
      (o : Option (Spooling E)) (key body : Bytes) (w : World E) (u : Unit {0})
      → dest.spool ≡ o
      → dest.local_only ≡ true
      → (write_in dest faults o key body w).0 ≡ went u
      → InCache key (write_in dest faults o key body w).1.env
  write_in-cached none key body w u e l h = let (s, found) = laws.local l in absurd (cc (e, found))
  write_in-cached (some s) key body w u e l h =
      laws.cached s key body w.env u e (tried_as-went failed (s.write key body w.env).0 h)

  write_file-Post :
      (p : Prepared) (w : World E) → Post w.held.store p.key (write_file dest faults p w)
  unfolding write_file
  write_file-Post p w =
      let w1 = (mirrored dest faults p w).1 in
      follow-Post w.held.store p.key _ (content (dest.encode_file p.rows) w) refl (λ body encoded.
        let out = write_in dest faults dest.spool p.key body w1 in
        let same = write_in_store dest.spool p.key body w1 in
        follow-Post w.held.store p.key
          (λ spooled.
            if dest.local_only then prune dest faults p.ids else deliver dest faults p body)
          out same
          (λ u spooled.
            if-Post w.held.store p.key dest.local_only (prune dest faults p.ids)
              (deliver dest faults p body) out.1
              (λ l. safe-Post w.held.store p.key (prune dest faults p.ids out.1) (
                inr (
                  l,
                  prune_env (InCache p.key) p.ids out.1
                      (write_in-cached dest.spool p.key body w1 u refl l spooled),
                )))
              (λ l. deliver-Post p body w.held.store out.1 same)))

  check_committed-store :
      (j : Job) (p : Prepared) (w : World E)
      → (check_committed dest faults j p w).1.held.store ≡ w.held.store
  unfolding check_committed
  check_committed-store j p w =
      elim (Bool-cases (not dest.local_only && (j.attempted || j.replayed))) [
        | inl c ↦ rw c refl
        | inr c ↦ rw c refl
      ]

  check_committed-InTable :
      (j : Job) (p : Prepared) (w : World E)
      → (check_committed dest faults j p w).0 ≡ went true
      → InTable p.key (check_committed dest faults j p w).1.env
  unfolding check_committed
  check_committed-InTable j p w h =
      elim (Bool-cases (not dest.local_only && (j.attempted || j.replayed))) [
        | inl c ↦ rw c (laws.checked p.key w.env (tried_as-went failed _ (rw c at h)))
        | inr c ↦ absurd (cc (rw c at h))
      ]

  land-Post :
      (j : Job) (p : Prepared) (w : World E) → Post w.held.store p.key (land dest faults j p w)
  unfolding land
  land-Post j p w =
      let out = check_committed dest faults j p w in
      follow-Post w.held.store p.key
        (λ done. if done then settle dest faults p else write_file dest faults p) out
        (check_committed-store j p w)
        (λ done checked.
          if-Post w.held.store p.key done (settle dest faults p) (write_file dest faults p) out.1
            (λ yes.
              safe-Post w.held.store p.key (settle dest faults p out.1)
                (settle-IsSafe p out.1 (check_committed-InTable j p w (checked ∙ ap went yes))))
            (λ no.
              subst (λ st. Post st p.key (write_file dest faults p out.1))
                (check_committed-store j p w) (write_file-Post p out.1)))

  module _ (sha256_hex : Bytes → Bytes) (namespace table : Bytes) (current : Descriptor)
      (read_faults : Faults) where
    abbrev Kept : StagingStore → Attempt (World E) → Type 0
    Kept st a =
        (SealedOr sha256_hex namespace table current read_faults st a.state.held.store
          ⊎ IsSafe a.key a.state.env)
        × (a.kind ≡ failure_none → IsSafe a.key a.state.env)

    attempt_of-Kept :
        (j : Job) (key : Bytes) (st : StagingStore) (out : Tried (Unit {0}) × World E)
        → SealedOr sha256_hex namespace table current read_faults st out.1.held.store
          ⊎ IsSafe key out.1.env
        → ((u : Unit {0}) → out.0 ≡ went u → IsSafe key out.1.env)
        → Kept st (attempt_of dest faults sha256_hex namespace table current read_faults j key out)
    attempt_of-Kept j key st (halt (unencodable e), w) k s = (k, λ h. absurd (cc h))
    attempt_of-Kept j key st (halt (failed e), w) k s = (k, λ h. absurd (cc h))
    attempt_of-Kept j key st (went u, w) k s = (k, λ h. s u refl)

    landing-Kept :
        (j : Job) (e : E) (st : StagingStore) (out : Tried Prepared × Held)
        → SealedOr sha256_hex namespace table current read_faults st out.1.store
        → Kept st (landing dest faults sha256_hex namespace table current read_faults j e out)
    landing-Kept j e st (halt f, h) s =
        attempt_of-Kept j j.batch.key st (halt f, record { held = h; env = e }) (inl s)
          (λ u h'. absurd (cc h'))
    landing-Kept j e st (went p, h) s =
        let w : World E = record { held = h; env = e } in
        let post = land-Post j p w in
        attempt_of-Kept j p.key st (land dest faults j p w)
          (elim post.kept [
            | inl same ↦
                inl
                  (subst (SealedOr sha256_hex namespace table current read_faults st) (sym same) s)
            | inr gone ↦ inr gone
          ])
          post.safe

    process-Kept :
        (j : Job) (w : World E)
        → Kept w.held.store (process dest faults sha256_hex namespace table current read_faults j w)
    unfolding process
    process-Kept j w =
        landing-Kept j w.env w.held.store
          (prepare sha256_hex namespace table current read_faults j.batch w.held)
          (prepare-SealedOr sha256_hex namespace table current read_faults j.batch w.held)

    -- Whatever fails in an attempt at a batch, the staging store is then as it was, or as one seal leaves it,
    -- or the batch is in the table or, for a writer that only writes locally, in the cache.
    pub process_durable :
        (j : Job) (w : World E)
        → let a : Attempt (World E) =
            process dest faults sha256_hex namespace table current read_faults j w in
          SealedOr sha256_hex namespace table current read_faults w.held.store a.state.held.store
          ⊎ IsSafe a.key a.state.env
    process_durable j w = (process-Kept j w).0

    -- Where an attempt at a batch succeeds, the batch is in the table or, for a writer that only writes
    -- locally, in the cache.
    pub process-IsSafe :
        (j : Job) (w : World E)
        → (process dest faults sha256_hex namespace table current read_faults j w).kind
          ≡ failure_none
        → let a : Attempt (World E) =
            process dest faults sha256_hex namespace table current read_faults j w in
          IsSafe a.key a.state.env
    process-IsSafe j w h = (process-Kept j w).1 h
