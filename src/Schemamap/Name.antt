-- ===== src/Schemamap/Name.antt =====
-- internal/schemamap/name.go: which namespace and table names are accepted.
pub mod Pattern
mod Tests
use icelake.Prelude.{
  ℕ, suc, Bool, true, false, not, ◌&&◌, ◌||◌, List, [], ◌∷◌, length, ltb, leb, ◌==◌, if◌then◌else◌,
}
use icelake.Errdef.{Bytes, Error, NameKind, name_error, Result, ok, refuse_if, ◌>>=◌, ◌>>◌}

abbrev pub max_name_length : ℕ
max_name_length = 63

-- The switch on the byte `c` at index `i`.
unfoldable pub accepts : ℕ → ℕ → Bool
accepts c i = (leb b'a' c && leb c b'z') || ((leb b'0' c && leb c b'9') || ((c == b'_') && ltb 0 i))

-- The loop from index `i`; `bad` is the error it returns.
unfoldable pub check_bytes : Error → ℕ → Bytes → Result (Unit {0})
check_bytes bad i [] = ok tt
check_bytes bad i (c ∷ cs) = do refuse_if (not (accepts c i)) bad; check_bytes bad (suc i) cs

unfoldable pub validate_name : NameKind → Bytes → Result (Unit {0})
validate_name kind value = do
  refuse_if ((length value == 0) || ltb max_name_length (length value)) (name_error kind value)
  check_bytes (name_error kind value) 0 value
