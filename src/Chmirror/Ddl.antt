-- ===== src/Chmirror/Ddl.antt =====
-- internal/chmirror/ddl.go and quoteIdent of chmirror.go: names, column types and statements.
use Prim.Native.Char.{code}
use Prim.Native.String.{String}
use icelake.Prelude.{
  ℕ, zero, suc, ◌/◌, ◌%◌, ◌+◌, ℤ, pos, negsuc, Bool, true, false, ◌&&◌, ◌||◌, Option, none, some,
  List, [], ◌∷◌, ◌++◌, length, ltb, ◌==◌, bytes_eq, if◌then◌else◌,
}
use icelake.Errdef.{Bytes, clickhouse_error, conflict, Result, ok, refuse_if, ◌>>=◌, ◌>>◌}
use icelake.Canon.Shape.{
  Kind, boolean, int, long, float, double, decimal, timestamp_tz, string, binary, unknown, Field,
  Descriptor,
}

-- The bytes of an ASCII text.
abbrev pub text : String → Bytes
text String.[] = []
text (String.◌∷◌ c s) = code c ∷ text s

-- `strings.HasPrefix(s, prefix)`, with the prefix first, and `strings.Contains`.
unfoldable pub has_prefix : Bytes → Bytes → Bool
has_prefix [] s = true
has_prefix (c ∷ cs) [] = false
has_prefix (c ∷ cs) (b ∷ bs) = (b == c) && has_prefix cs bs

unfoldable pub contains : Bytes → Bytes → Bool
contains [] part = has_prefix part []
contains (b ∷ bs) part = has_prefix part (b ∷ bs) || contains bs part

abbrev pub name_separator : Bytes
name_separator = b'_' ∷ b'_' ∷ []

abbrev pub batch_key_column : Bytes
batch_key_column = text "_batch_key"

-- The loop over the two parts, then the name. The database is not in the target yet.
unfoldable pub table_name : Bytes → Bytes → Result Bytes
table_name namespace table =
    let name = namespace ++ name_separator ++ table in
    do
      refuse_if (contains namespace name_separator) (clickhouse_error conflict name [])
      refuse_if (contains table name_separator) (clickhouse_error conflict name [])
      ok name

-- `%d`: the digits of a number, with fuel.
digits : ℕ → ℕ → Bytes
digits zero n = []
digits (suc fuel) n =
    let rest = digits fuel (n / 10) in (if ltb n 10 then [] else rest) ++ (b'0' + n % 10) ∷ []

unfoldable pub decimal_text : ℤ → Bytes
unfolding digits
decimal_text (pos n) = digits (suc n) n
decimal_text (negsuc n) = b'-' ∷ digits (suc (suc n)) (suc n)

-- The switch of `columnType`; a tag that is not one of the nine leaves the empty text.
unfoldable pub plain_type : Kind → ℤ → ℤ → Bytes
plain_type boolean precision scale = text "Bool"
plain_type int precision scale = text "Int32"
plain_type long precision scale = text "Int64"
plain_type float precision scale = text "Float32"
plain_type double precision scale = text "Float64"
plain_type decimal precision scale =
    text "Decimal(" ++ decimal_text precision ++ text ", " ++ decimal_text scale ++ text ")"
plain_type timestamp_tz precision scale = text "DateTime64(6, 'UTC')"
plain_type string precision scale = text "String"
plain_type binary precision scale = text "String"
plain_type (unknown t) precision scale = []

unfoldable pub column_type : Field → Bytes
column_type f =
    let t = plain_type f.kind f.precision f.scale in
    if f.required then t else text "Nullable(" ++ t ++ text ")"

-- `t[:9] == "Nullable("` where more bytes follow.
unfoldable pub is_nullable : Bytes → Bool
is_nullable t = ltb 9 (length t) && has_prefix (text "Nullable(") t

-- A column of the mirror. The declared field that it carries is read by the insert only.
pub record Column : Type 0 where
  pub name : Bytes
  pub typ : Bytes

abbrev pub key_column : Column
key_column = record { name = batch_key_column; typ = text "String" }

-- The loop over the fields, with the batch key last.
unfoldable pub columns_of : Bytes → List Field → Result (List Column)
columns_of target [] = ok (key_column ∷ [])
columns_of target (f ∷ fs) = do
  refuse_if (bytes_eq f.name batch_key_column) (clickhouse_error conflict target f.name)
  cols ← columns_of target fs
  ok (record { name = f.name; typ = column_type f } ∷ cols)

unfoldable pub columns_for : Bytes → Descriptor → Result (List Column)
columns_for target d = columns_of target d.fields

-- The text of every statement that changes the server.
unfoldable pub quote_bytes : Bytes → Bytes
quote_bytes [] = []
quote_bytes (c ∷ cs) =
    let rest = quote_bytes cs in if (c == b'\\') || (c == b'`') then b'\\' ∷ c ∷ rest else c ∷ rest

unfoldable pub quote_ident : Bytes → Bytes
quote_ident s = b'`' ∷ quote_bytes s ++ b'`' ∷ []

pub record Ttl : Type 0 where
  pub column : Bytes
  pub seconds : ℤ

unfoldable pub ttl_expr : Ttl → Bytes
ttl_expr ttl =
    quote_ident ttl.column ++ text " + toIntervalSecond(" ++ decimal_text ttl.seconds ++ text ")"

-- database.table
unfoldable pub place_of : Bytes → Bytes → Bytes
place_of database table = quote_ident database ++ b'.' ∷ quote_ident table

unfoldable pub column_def : Column → Bytes
column_def c = quote_ident c.name ++ b' ' ∷ c.typ

unfoldable pub create_database : Bytes → Bytes
create_database database = text "CREATE DATABASE IF NOT EXISTS " ++ quote_ident database

-- The loop that writes the columns, from the one at index `i`.
unfoldable pub column_defs : ℕ → List Column → Bytes
column_defs i [] = []
column_defs i (c ∷ cs) =
    (if ltb 0 i then text ",\n" else []) ++ text "  " ++ column_def c ++ column_defs (suc i) cs

unfoldable pub create_table : Bytes → Bytes → List Column → Option Ttl → Bytes
create_table database table cols ttl =
    text "CREATE TABLE IF NOT EXISTS "
    ++ place_of database table
    ++ text " (\n"
    ++ column_defs 0 cols
    ++ text "\n) ENGINE = MergeTree\nORDER BY tuple()"
    ++ (elim ttl [ none ↦ [] | some e ↦ text "\nTTL " ++ ttl_expr e ])
    ++ text "\nSETTINGS non_replicated_deduplication_window = 1000"

unfoldable pub modify_ttl : Bytes → Bytes → Ttl → Bytes
modify_ttl database table ttl =
    text "ALTER TABLE " ++ place_of database table ++ text " MODIFY TTL " ++ ttl_expr ttl

unfoldable pub add_column : Bytes → Bytes → Column → Bytes
add_column database table c =
    text "ALTER TABLE "
    ++ place_of database table
    ++ text " ADD COLUMN IF NOT EXISTS "
    ++ column_def c

-- `strings.ReplaceAll(s, "`", "")`.
unfoldable pub strip_ident_quotes : Bytes → Bytes
strip_ident_quotes [] = []
strip_ident_quotes (c ∷ cs) =
    let rest = strip_ident_quotes cs in if c == b'`' then rest else c ∷ rest
