-- ===== src/Chmirror/Opening.antt =====
-- internal/chmirror/table.go: NewTable, which prepares the mirror of a table without a network call.
use icelake.Prelude.{
  ◌≡◌, ◌≢◌, refl, sym, ap, ◌∙◌, subst, true, false, Bool-cases, inl, inr, Option, List, [], ◌∷◌,
  ◌++◌, All, bytes_eq, bytes_eq_refl, arith,
}
use icelake.Errdef.{Bytes, Result, ok, ◌>>=◌, >>=-eq-ok, ok-injective}
use icelake.Canon.Shape.{Field, Descriptor}
use icelake.Chmirror.Ddl.{
  Column, Ttl, batch_key_column, key_column, column_type, columns_of, columns_for, table_name,
}
use icelake.Chmirror.Table.{Table, validate_ttl}

-- What remains after the name: the columns, the expiry and the table.
abbrev with_columns : Bytes → Bytes → Bytes → Option Ttl → List Column → Table
with_columns database name target ttl cols = record {
  database = database;
  name = name;
  target = target;
  cols = cols;
  ready = false;
  ttl = ttl;
}

abbrev named : Bytes → Bytes → Descriptor → Option Ttl → Result Table
named database name d ttl =
    let target = database ++ b'.' ∷ name in
    do
      cols ← columns_for target d
      valid ← validate_ttl target d ttl
      ok (with_columns database name target ttl cols)

unfoldable pub new_table : Bytes → Bytes → Bytes → Descriptor → Option Ttl → Result Table
new_table database namespace table d ttl = do
  name ← table_name namespace table
  named database name d ttl

-- The declared columns with their types, in the order of the shape.
unfoldable pub declared_columns : List Field → List Column
declared_columns [] = []
declared_columns (f ∷ fs) = record { name = f.name; typ = column_type f } ∷ declared_columns fs

abbrev pub DistinctColumns : List Column → Type 0
DistinctColumns [] = Unit
DistinctColumns (c ∷ cs) = All (λ d. d.name ≢ c.name) cs × DistinctColumns cs

abbrev pub DistinctNames : List Field → Type 0
DistinctNames [] = Unit
DistinctNames (f ∷ fs) = All (λ g. g.name ≢ f.name) fs × DistinctNames fs

differs : (a b : Bytes) → bytes_eq a b ≡ false → a ≢ b
differs a b h same = ground (arith, h, subst (λ x. bytes_eq a x ≡ true) same (bytes_eq_refl a))

columns_of-inv :
    (target : Bytes) (fs : List Field) (cols : List Column)
    → columns_of target fs ≡ ok cols
    → (cols ≡ declared_columns fs ++ key_column ∷ []) × All (λ f. f.name ≢ batch_key_column) fs
unfolding columns_of declared_columns
columns_of-inv target [] cols h = (sym (ok-injective h), tt)
columns_of-inv target (f ∷ fs) cols h = elim (Bool-cases (bytes_eq f.name batch_key_column)) [
  | inl e ↦ absurd (ground (arith, e, h))
  | inr e ↦
      let first : Column = record { name = f.name; typ = column_type f } in
      let step : columns_of target (f ∷ fs) ≡ (columns_of target fs >>= λ cs. ok (first ∷ cs)) =
        rw (columns_of, e) refl in
      let (cs, made, last) =
        >>=-eq-ok (columns_of target fs) (λ cs. ok (first ∷ cs)) (sym step ∙ h) in
      let (all, key) = columns_of-inv target fs cs made in
      (
        sym (ok-injective last) ∙ ap (λ x. first ∷ x) all,
        (λ same. differs f.name batch_key_column e same, key),
      )
]

key_apart :
    (f : Field) (fs : List Field)
    → f.name ≢ batch_key_column
    → All (λ g. g.name ≢ f.name) fs
    → All (λ d. d.name ≢ f.name) (declared_columns fs ++ key_column ∷ [])
unfolding declared_columns
key_apart f [] key apart = (λ e. key (sym e), tt)
key_apart f (g ∷ fs) key apart = (apart.0, key_apart f fs key apart.1)

columns-Distinct :
    (fs : List Field)
    → DistinctNames fs
    → All (λ f. f.name ≢ batch_key_column) fs
    → DistinctColumns (declared_columns fs ++ key_column ∷ [])
unfolding declared_columns
columns-Distinct [] apart key = (tt, tt)
columns-Distinct (f ∷ fs) apart key =
    (key_apart f fs key.0 apart.0, columns-Distinct fs apart.1 key.1)

-- What a caller may rely on of a prepared table.
abbrev Prepares : Bytes → Bytes → Descriptor → Table → Type 0
Prepares namespace table d t =
    (t.ready ≡ false)
    × (t.cols ≡ declared_columns d.fields ++ key_column ∷ [])
    × DistinctColumns t.cols
    × (table_name namespace table ≡ ok t.name)
    × (validate_ttl t.target d t.ttl ≡ ok tt)

-- Where NewTable succeeds for a shape whose columns have different names, the table is not ready, its columns
-- are the declared ones with their types, in their order, and then the batch key, and they have different
-- names; the table's name is the one that TableName gives, and its expiry is one that validateTTL accepts.
pub new_table_inv :
    (database namespace table : Bytes) (d : Descriptor) (ttl : Option Ttl) (t : Table)
    → DistinctNames d.fields
    → new_table database namespace table d ttl ≡ ok t
    → Prepares namespace table d t
unfolding new_table columns_for
new_table_inv database namespace table d ttl t apart h =
    let (name, given, h1) =
      >>=-eq-ok (table_name namespace table) (λ x. named database x d ttl) h in
    let target = database ++ b'.' ∷ name in
    let (cols, made, h2) = >>=-eq-ok (columns_for target d) _ h1 in
    let (u, valid, h3) = >>=-eq-ok (validate_ttl target d ttl) _ h2 in
    let e : with_columns database name target ttl cols ≡ t = ok-injective h3 in
    let (all, key) = columns_of-inv target d.fields cols made in
    subst (Prepares namespace table d) e (
      refl,
      all,
      subst DistinctColumns (sym all) (columns-Distinct d.fields apart key),
      given,
      valid,
    )
