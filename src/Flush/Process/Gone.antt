-- ===== src/Flush/Process/Gone.antt =====
-- internal/flush/flush.go: an attempt at a batch whose rows have left the staging store.
use icelake.Prelude.{
  ℕ, ◌≡◌, refl, sym, ap, subst, Bool, Bool-cases, true, false, none, inl, inr, List, [], ◌∷◌, arith,
}
use icelake.Errdef.{Bytes, Error, FlushError, err, staging_error, read, state, write}
use icelake.Canon.Shape.{Descriptor}
use icelake.Staging.Index.{PendingRow}
use icelake.Staging.Store.{StagingRow, StagingStore, get_row, rows}
use icelake.Staging.Store.Leaving.{delete_row, delete_rows, delete, prune_schemas, with_rows}
use icelake.Flush.Worker.{Job}
use icelake.Flush.Cycle.{failure_transient, ids_of, flush_error}
use icelake.Flush.Prepare.{failed, follow, tried_as, halt, Faults, prepare}
use icelake.Flush.Process.{Destination, World, PruneFaults, prune, landing, process}

get_row-delete_row_self : (id : ℕ) (rs : List StagingRow) → get_row id (delete_row id rs) ≡ none
unfolding get_row delete_row
get_row-delete_row_self id [] = refl
get_row-delete_row_self id (r ∷ rs) = ground (arith, get_row-delete_row_self id rs)

get_row-delete_row-none :
    (id i : ℕ) (rs : List StagingRow) → get_row id rs ≡ none → get_row id (delete_row i rs) ≡ none
unfolding get_row delete_row
get_row-delete_row-none id i [] h = refl
get_row-delete_row-none id i (r ∷ rs) h = ground (arith, get_row-delete_row-none id i rs)

get_row-delete_rows-none :
    (id : ℕ) (ids : List ℕ) (rs : List StagingRow)
    → get_row id rs ≡ none
    → get_row id (delete_rows ids rs) ≡ none
unfolding delete_rows
get_row-delete_rows-none id [] rs h = h
get_row-delete_rows-none id (i ∷ ids) rs h =
    get_row-delete_rows-none id ids (delete_row i rs) (get_row-delete_row-none id i rs h)

rows-gone :
    (fails : ℕ → Bool) (id : ℕ) (ids : List ℕ) (st : StagingStore)
    → get_row id st.staging ≡ none
    → (e : Error) × (rows fails (id ∷ ids) st ≡ err e)
unfolding rows
rows-gone fails id ids st h = elim (Bool-cases (fails id)) [
  | inl f ↦ (staging_error read, rw f refl)
  | inr f ↦ (staging_error state, rw (f, h) refl)
]

module _ {E : Type 0} (dest : Destination E) (faults : PruneFaults) (sha256_hex : Bytes → Bytes)
    (namespace table : Bytes) (current : Descriptor) (read_faults : Faults) where
  -- An attempt that fails for now and changes nothing.
  abbrev pub Stands : Job → World E → Type 0
  Stands j w =
      (e : FlushError) × ((process dest faults sha256_hex namespace table current read_faults j
          w).kind
        ≡ failure_transient e)
      × ((process dest faults sha256_hex namespace table current read_faults j w).state ≡ w)

  process_gone :
      (j : Job) (p : PendingRow) (rest : List PendingRow) (w : World E)
      → j.batch.rows ≡ p ∷ rest
      → get_row p.id w.held.store.staging ≡ none
      → Stands j w
  unfolding process prepare
  process_gone j p rest w same gone =
      let (e, refused) = rows-gone read_faults.row_fails p.id (ids_of rest) w.held.store gone in
      let read' : rows read_faults.row_fails (ids_of j.batch.rows) w.held.store ≡ err e =
        subst (λ ps. rows read_faults.row_fails (ids_of ps) w.held.store ≡ err e) (sym same)
          refused in
      let stopped : prepare sha256_hex namespace table current read_faults j.batch w.held
          ≡ (halt (failed e), w.held) =
        ap (follow _) (ap (λ r. (tried_as failed r, w.held)) read') in
      let landed =
        ap (landing dest faults sha256_hex namespace table current read_faults j w.env) stopped in
      (flush_error namespace table j e, ap (λ a. a.kind) landed, ap (λ a. a.state) landed)

  -- Where the prune of a batch with rows deletes them and PruneSchemas then fails, the prune fails, and every
  -- later attempt at a batch of these rows fails for now and changes nothing, whatever its key.
  pub prune_gone :
      (f : PruneFaults) (p : PendingRow) (rest : List PendingRow) (w : World E) (j : Job)
      → f.delete_fails ≡ false
      → f.prune_fails ≡ true
      → j.batch.rows ≡ p ∷ rest
      → ((prune dest f (ids_of (p ∷ rest)) w).0 ≡ halt (failed (staging_error write)))
        × Stands j (prune dest f (ids_of (p ∷ rest)) w).1
  unfolding prune delete prune_schemas delete_rows
  prune_gone f p rest w j deletes breaks same =
      let left = delete_rows (ids_of rest) (delete_row p.id w.held.store.staging) in
      let after : World E = record {
        held = record { store = with_rows left w.held.store; shapes = w.held.shapes };
        env = w.env;
      } in
      let step : prune dest f (ids_of (p ∷ rest)) w ≡ (halt (failed (staging_error write)), after) =
        rw (prune, deletes, breaks) refl in
      let gone =
        get_row-delete_rows-none p.id (ids_of rest) (delete_row p.id w.held.store.staging)
          (get_row-delete_row_self p.id w.held.store.staging) in
      (
        ap (λ r. r.0) step,
        subst (Stands j) (sym (ap (λ r. r.1) step)) (process_gone j p rest after same gone),
      )
