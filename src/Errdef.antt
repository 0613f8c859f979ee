-- ===== src/Errdef.antt =====
-- internal/errdef/errdef.go: the typed errors of the modelled packages, and Go's `(value, error)`.
-- An error keeps the fields that a caller branches on. The prose of `Detail` is left out.
use icelake.Prelude.{ℤ, ℕ, List, ◌≡◌, refl, ap, Option, none, some, Bool, true, false}

-- A byte slice or a string: its bytes.
abbrev pub Bytes : Type 0
Bytes = List ℕ

pub data EncodingKind : Type 0 where
  unsupported_type value format empty_batch : EncodingKind

pub data StagingSchemaKind : Type 0 where
  field_removed field_required field_retyped : StagingSchemaKind

pub data PoisonReason : Type 0 where
  invalid_utf8 decimal_range too_long : PoisonReason

pub data NameKind : Type 0 where
  namespace table : NameKind

pub data StagingKind : Type 0 where
  read write state : StagingKind

pub data SpoolKind : Type 0 where
  write_failed record_failed mark_failed : SpoolKind

pub data ClickHouseKind : Type 0 where
  connect_failed schema_failed conflict insert_failed : ClickHouseKind

-- Table, then the column's name and permanent id where the refusal is about one column.
pub data Error : Type 0 where
  encoding_error : EncodingKind → Bytes → Bytes → ℤ → Error
  staging_schema_error : Bytes → ℤ → StagingSchemaKind → Error
  poison_error : PoisonReason → Bytes → Bytes → Error
  name_error : NameKind → Bytes → Error
  staging_error : StagingKind → Error
  spool_error : SpoolKind → Bytes → Error
  -- The untyped error of a file that the sweep could not delete, with the file's batch key.
  evict_error : Bytes → Error
  -- The target, `database.table`, then the column of a conflict.
  clickhouse_error : ClickHouseKind → Bytes → Bytes → Error
  -- ErrClosed, ErrStagingFull and ErrTableInUse.
  err_closed err_staging_full err_table_in_use : Error
  -- The index of the record of a batch that is refused, with the record's own error.
  batch_error : ℕ → Error → Error
  -- Table and namespace, with the error of the callback.
  mirror_error : Bytes → Bytes → Error → Error

-- A batch that a cycle did not land, with what stopped it.
pub record FlushError : Type 0 where
  pub namespace : Bytes
  pub table : Bytes
  pub batch_key : Bytes
  pub records : ℕ
  pub attempts : ℕ
  pub quarantined : Bool
  pub cause : Error

pub data Result {ℓ} (A : Type ℓ) : Type ℓ where
  err : Error → Result A
  ok : A → Result A

module _ {ℓ κ} {V : Type ℓ} {W : Type κ} where
  infixl 5 ◌>>=◌
  -- `v, err := r; if err != nil { return err }`, and what follows it.
  abbrev pub ◌>>=◌ : Result V → (V → Result W) → Result W
  err cause >>= next = err cause
  ok v >>= next = next v

  -- A run that succeeds does so step by step.
  pub >>=-eq-ok :
      (r : Result V) (next : V → Result W) {w : W}
      → (r >>= next) ≡ ok w
      → (v : V) × (r ≡ ok v) × (next v ≡ ok w)
  >>=-eq-ok (err cause) next h = cc
  >>=-eq-ok (ok v) next h = (v, refl, h)

infixl 5 ◌>>◌
-- The same where there is no value to keep.
abbrev pub ◌>>◌ {κ} : {W : Type κ} → Result (Unit {0}) → Result W → Result W
first >> second = first >>= λ nothing. second

-- `if !ok { return err }` and `if bad { return err }`.
abbrev pub need {ℓ} : {A : Type ℓ} → Option A → Error → Result A
need (some a) e = ok a
need none e = err e

abbrev pub refuse_if : Bool → Error → Result (Unit {0})
refuse_if true e = err e
refuse_if false e = ok tt

pub need-eq-ok {ℓ} : {A : Type ℓ} (o : Option A) (e : Error) {a : A} → need o e ≡ ok a → o ≡ some a
need-eq-ok (some x) e h = cc
need-eq-ok none e h = cc

pub refuse_if-eq-ok : (b : Bool) (e : Error) {u : Unit {0}} → refuse_if b e ≡ ok u → b ≡ false
refuse_if-eq-ok false e h = refl
refuse_if-eq-ok true e h = cc

abbrev value_or {ℓ} : {A : Type ℓ} → A → Result A → A
value_or d (ok x) = x
value_or d (err e) = d

pub ok-injective {ℓ} : {A : Type ℓ} {a b : A} → ok a ≡ ok b → a ≡ b
ok-injective {a} h = ap (value_or a) h
