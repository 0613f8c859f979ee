-- ===== src/Chmirror/Tests.antt =====
-- Concrete runs of internal/chmirror, and its theorems at a server that holds the columns of one table.
use icelake.Prelude.{
  ◌≡◌, ◌≢◌, refl, sym, ◌↔◌, true, false, Bool-cases, Option-cases, inl, inr, none, some, pos, ◌++◌,
  [], ◌∷◌, All, bytes_eq, bytes_eq→eq, bytes_eq_refl, if◌then◌else◌, arith,
}
use icelake.Errdef.{Bytes, ok, err, clickhouse_error, conflict, table}
use icelake.Canon.Shape.{Field, Descriptor, long, timestamp_tz, decimal}
use icelake.Schemamap.Name.{accepts, validate_name, check_bytes}
use icelake.Chmirror.Ddl.{
  Column, Ttl, text, has_prefix, contains, table_name, decimal_text, plain_type, column_type,
  is_nullable, key_column, columns_of, columns_for, quote_bytes, quote_ident, ttl_expr, place_of,
  column_def, create_database, column_defs, create_table, modify_ttl, add_column,
  strip_ident_quotes,
}
use icelake.Chmirror.Naming.{table_name-injective}
use icelake.Chmirror.Columns.{Accepted, validate_ttl_iff}
use icelake.Chmirror.Table.{
  answered, Server, Table, live_type, ready_of, live_columns, reconcile_column, reconcile,
  ensure_ttl, prepare_table, ensure, check_ttl, validate_ttl,
}
use icelake.Chmirror.Opening.{DistinctNames, declared_columns, new_table}
use icelake.Chmirror.Reconcile.{Catalog, Keeps, Has, Adds, Documented, ensure-new_table}

unfoldable mirror_code : Unit {0}
unfolding columns_of columns_for new_table declared_columns bytes_eq has_prefix contains table_name
    decimal_text plain_type column_type is_nullable quote_bytes quote_ident ttl_expr place_of
    column_def create_database column_defs create_table modify_ttl add_column strip_ident_quotes
    live_type live_columns reconcile_column reconcile ensure_ttl prepare_table ensure check_ttl
    validate_ttl validate_name check_bytes accepts
mirror_code = tt

fills_named : table_name (text "market") (text "fills") ≡ ok (text "market__fills")
unfolding mirror_code
fills_named = refl

fills_refused :
    table_name (text "a__b") (text "c") ≡ err (clickhouse_error conflict (text "a__b__c") [])
unfolding mirror_code
fills_refused = refl

fills_accepted : validate_name table (text "fills") ≡ ok tt
unfolding mirror_code
fills_accepted = refl

table_name-injective_example : (text "market" ≡ text "market") × (text "fills" ≡ text "fills")
table_name-injective_example =
    table_name-injective table (text "market") (text "fills") (text "market") (text "fills")
      (text "market__fills") fills_accepted fills_accepted fills_named fills_named

abbrev price : Field
price = record {
  id = pos 1;
  name = text "price";
  kind = decimal;
  precision = pos 18;
  scale = pos 4;
  required = false;
}

price_type : column_type price ≡ text "Nullable(Decimal(18, 4))"
unfolding mirror_code
price_type = refl

one_created :
    create_table
      (text "db")
      (text "m__t")
      (key_column ∷ [])
      (some (record { column = text "ts"; seconds = pos 60 }))
    ≡ text
        "CREATE TABLE IF NOT EXISTS `db`.`m__t` (\n  `_batch_key` String\n) ENGINE = MergeTree\nORDER BY tuple()\nTTL `ts` + toIntervalSecond(60)\nSETTINGS non_replicated_deduplication_window = 1000"
unfolding mirror_code
one_created = refl

abbrev dated : Field
dated = record {
  id = pos 2;
  name = text "ts";
  kind = timestamp_tz;
  precision = pos 0;
  scale = pos 0;
  required = true;
}

abbrev shape : Descriptor
shape = record { fields = price ∷ dated ∷ []; encoded = []; fp = [] }

abbrev minute : Ttl
minute = record { column = text "ts"; seconds = pos 60 }

validate_ttl_iff_example :
    (validate_ttl [] shape (some minute) ≡ ok tt)
    ↔ ((e : Ttl) → some minute ≡ some e → Accepted shape.fields e)
validate_ttl_iff_example = validate_ttl_iff [] shape (some minute)

abbrev size_field : Field
size_field = record {
  id = pos 1;
  name = text "size";
  kind = long;
  precision = pos 0;
  scale = pos 0;
  required = false;
}

abbrev sized : Descriptor
sized = record { fields = size_field ∷ dated ∷ []; encoded = []; fp = [] }

-- A server whose state is the columns of the one table.
abbrev size : Column
size = record { name = text "size"; typ = text "Nullable(Int64)" }

abbrev ts : Column
ts = record { name = text "ts"; typ = text "DateTime64(6, 'UTC')" }

abbrev declared : Table
declared = record {
  database = text "db";
  name = text "m__t";
  target = text "db.m__t";
  cols = size ∷ ts ∷ key_column ∷ [];
  ready = false;
  ttl = some minute;
}

abbrev with_column : Column → Catalog → Catalog
with_column c s = elim (live_type c.name s) [ some typ ↦ s | none ↦ (c.name, c.typ) ∷ s ]

abbrev of_column : Column → Bytes
of_column c = add_column (text "db") (text "m__t") c

abbrev after : Bytes → Catalog → Catalog
after st s =
    if bytes_eq st (of_column size)
    then with_column size s
    else if bytes_eq st (of_column ts)
    then with_column ts s
    else if bytes_eq st (of_column key_column)
    then with_column key_column s
    else s

abbrev memory : Server Catalog
memory = record {
  exec = λ st s. (none, after st s);
  columns = λ database name s. answered s;
  engine_full = λ database name s. answered [];
}

with_column-Keeps : (c : Column) (s : Catalog) → Keeps s (with_column c s)
unfolding live_type
with_column-Keeps c s name typ h = elim (Option-cases (live_type c.name s)) [
  | inl e ↦ rw (with_column, e, h) refl
  | inr (t, e) ↦ rw (with_column, e) h
]

after-Keeps : (st : Bytes) (s : Catalog) → Keeps s (after st s)
after-Keeps st s name typ h = elim (Bool-cases (bytes_eq st (of_column size))) [
  | inl e ↦ rw e (with_column-Keeps size s name typ h)
  | inr e ↦ elim (Bool-cases (bytes_eq st (of_column ts))) [
    | inl f ↦ rw (e, f) (with_column-Keeps ts s name typ h)
    | inr f ↦ elim (Bool-cases (bytes_eq st (of_column key_column))) [
      | inl g ↦ rw (e, f, g) (with_column-Keeps key_column s name typ h)
      | inr g ↦ rw (e, f, g) h
    ]
  ]
]

with_column-Has : (c : Column) (s : Catalog) → live_type c.name s ≡ none → Has (with_column c s) c
unfolding live_type
with_column-Has c s h = rw (with_column, h, h, bytes_eq_refl c.name) refl

bytes_eq_other : (a b : Bytes) → a ≢ b → bytes_eq b a ≡ false
bytes_eq_other a b h = elim (Bool-cases (bytes_eq b a)) [
  | inl e ↦ absurd (h (sym (bytes_eq→eq b a e)))
  | inr e ↦ e
]

with_column-other :
    (c : Column) (s : Catalog) (name : Bytes)
    → name ≢ c.name
    → live_type name (with_column c s) ≡ live_type name s
unfolding live_type
with_column-other c s name h = elim (Option-cases (live_type c.name s)) [
  | inl e ↦ elim (Option-cases (live_type name s)) [
    | inl f ↦ rw (with_column, e, f, bytes_eq_other name c.name h) refl
    | inr (t, f) ↦ rw (with_column, e, f) refl
  ]
  | inr (t, e) ↦ rw (with_column, e) refl
]

size-Adds : Adds memory (λ s. s) declared size
unfolding mirror_code
size-Adds s = (
  λ done missing. with_column-Has size s missing,
  with_column-Keeps size s,
  with_column-other size s,
)

ts-Adds : Adds memory (λ s. s) declared ts
unfolding mirror_code
ts-Adds s =
    (λ done missing. with_column-Has ts s missing, with_column-Keeps ts s, with_column-other ts s)

key-Adds : Adds memory (λ s. s) declared key_column
unfolding mirror_code
key-Adds s = (
  λ done missing. with_column-Has key_column s missing,
  with_column-Keeps key_column s,
  with_column-other key_column s,
)

documented : Documented memory (λ s. s) declared
documented = record {
  reads = λ s rows h. cc;
  creates_database = λ s. after-Keeps (create_database declared.database) s;
  creates_table =
      λ s. after-Keeps (create_table declared.database declared.name declared.cols declared.ttl) s;
  adds = (size-Adds, (ts-Adds, (key-Adds, tt)));
  expires = λ ttl s. after-Keeps (modify_ttl declared.database declared.name ttl) s;
}

-- The table was made by an earlier process, which did not declare `size`.
abbrev before : Catalog
before = (text "ts", text "DateTime64(6, 'UTC')") ∷ (text "_batch_key", text "String") ∷ []

abbrev grown : Catalog
grown = (text "size", text "Nullable(Int64)") ∷ before

before_ensured : ensure memory declared before ≡ (ok (ready_of declared), grown)
unfolding mirror_code
before_ensured = refl

declared_made : new_table (text "db") (text "m") (text "t") sized (some minute) ≡ ok declared
unfolding mirror_code
declared_made = refl

apart : DistinctNames sized.fields
apart = ((λ h. ground (arith, h), tt), (tt, tt))

ensure-new_table_example :
    (ready_of declared ≡ ready_of declared)
    × All (Has grown) (declared_columns sized.fields ++ key_column ∷ [])
    × Keeps before grown
ensure-new_table_example =
    ensure-new_table memory (λ s. s) declared (text "db") (text "m") (text "t") sized (some minute)
      documented apart declared_made (ready_of declared) before grown before_ensured
