-- ===== src/Staging/Store/Quarantined.antt =====
-- internal/staging/store.go: what a quarantine does to the rows, and why it marks whole batches.
use icelake.Prelude.{
  ℕ, ◌≡◌, refl, sym, ap, ◌∙◌, ℤ, Bool, Bool-cases, true, false, ◌||◌, ◌==◌, Option-cases, inl, inr,
  List, [], ◌∷◌, if◌then◌else◌, arith,
}
use mathlib.Core.Path.{ap₂}
use icelake.Errdef.{Bytes}
use icelake.Staging.Store.{StagingRow, table_of, is_quarantined}
use icelake.Staging.Store.Leaving.{has_id, quarantined_row, mark_row, mark_rows}
use icelake.Staging.Store.Related.{Pointwise, Pointwise_refl, Pointwise_trans}

-- A row and what becomes of it: only the mark moves, to rows that are named.
pub record MarkedBy (ids : List ℕ) (r t : StagingRow) : Type 0 where
  pub id : t.id ≡ r.id
  pub table : table_of t ≡ table_of r
  pub key : t.batch_key ≡ r.batch_key
  pub shape : t.schema_fp ≡ r.schema_fp
  pub payload : t.payload ≡ r.payload
  pub size : t.byte_len ≡ r.byte_len
  pub mark : is_quarantined t ≡ (is_quarantined r || has_id r.id ids)

quarantined_row_marks :
    (at : ℤ) (cause : Bytes) (r : StagingRow) → is_quarantined (quarantined_row at cause r) ≡ true
quarantined_row_marks at cause r = elim (Option-cases r.quarantined_at) [
  | inl e ↦ rw e refl
  | inr (t, e) ↦ rw e refl
]

has_id_one : (i id : ℕ) (b : Bool) → (i == id) ≡ b → has_id i (id ∷ []) ≡ b
unfolding has_id
has_id_one i id true h = ground (arith, h)
has_id_one i id false h = ground (arith, h)

or_true : (b : Bool) → (b || true) ≡ true
or_true true = refl
or_true false = refl

or_false : (b : Bool) → (b || false) ≡ b
or_false true = refl
or_false false = refl

or_if : (q c b : Bool) → ((q || (if c then true else false)) || b) ≡ (q || (if c then true else b))
or_if true c b = refl
or_if false true b = refl
or_if false false b = refl

mark_row-Pointwise :
    (at : ℤ) (cause : Bytes) (id : ℕ) (rows : List StagingRow)
    → Pointwise (MarkedBy (id ∷ [])) rows (mark_row at cause id rows)
unfolding mark_row has_id
mark_row-Pointwise at cause id [] = tt
mark_row-Pointwise at cause id (r ∷ rows) = (
  elim (Bool-cases (r.id == id)) [
    | inl e ↦ rw e (record {
      id = refl;
      table = refl;
      key = refl;
      shape = refl;
      payload = refl;
      size = refl;
      mark =
          quarantined_row_marks at cause r
          ∙ sym (
              ap (λ c. is_quarantined r || c) (has_id_one r.id id true e)
              ∙ or_true (is_quarantined r));
    })
    | inr e ↦ rw e (record {
      id = refl;
      table = refl;
      key = refl;
      shape = refl;
      payload = refl;
      size = refl;
      mark = sym (
          ap (λ c. is_quarantined r || c) (has_id_one r.id id false e)
          ∙ or_false (is_quarantined r));
    })
  ],
  mark_row-Pointwise at cause id rows,
)

MarkedBy-then :
    (id : ℕ) (ids : List ℕ) (r s t : StagingRow)
    → MarkedBy (id ∷ []) r s
    → MarkedBy ids s t
    → MarkedBy (id ∷ ids) r t
unfolding has_id
MarkedBy-then id ids r s t h k = record {
  id = k.id ∙ h.id;
  table = k.table ∙ h.table;
  key = k.key ∙ h.key;
  shape = k.shape ∙ h.shape;
  payload = k.payload ∙ h.payload;
  size = k.size ∙ h.size;
  mark =
      k.mark
      ∙ ap₂ (λ b c. b || c) h.mark (ap (λ i. has_id i ids) h.id)
      ∙ or_if (is_quarantined r) (id == r.id) (has_id r.id ids);
}

pub mark_rows-Pointwise :
    (at : ℤ) (cause : Bytes) (ids : List ℕ) (rows : List StagingRow)
    → Pointwise (MarkedBy ids) rows (mark_rows at cause ids rows)
unfolding mark_rows has_id
mark_rows-Pointwise at cause [] rows = Pointwise_refl (MarkedBy []) rows (λ r. record {
  id = refl;
  table = refl;
  key = refl;
  shape = refl;
  payload = refl;
  size = refl;
  mark = sym (or_false (is_quarantined r));
})
mark_rows-Pointwise at cause (id ∷ ids) rows =
    Pointwise_trans (MarkedBy (id ∷ [])) (MarkedBy ids) (MarkedBy (id ∷ ids)) rows
      (mark_row at cause id rows) (mark_rows at cause ids (mark_row at cause id rows))
      (MarkedBy-then id ids) (mark_row-Pointwise at cause id rows)
      (mark_rows-Pointwise at cause ids (mark_row at cause id rows))
