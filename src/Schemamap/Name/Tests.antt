-- ===== src/Schemamap/Name/Tests.antt =====
-- Concrete runs of internal/schemamap/name.go, and its theorems at concrete names.
use icelake.Prelude.{◌≡◌, refl, ◌≤◌, ◌↔◌, ◌⊎◌, [], ◌∷◌, length}
use icelake.Errdef.{Bytes, namespace, name_error, ok, err}
use icelake.Schemamap.Name.{accepts, check_bytes, validate_name, max_name_length}
use icelake.Schemamap.Name.Pattern.{Matches, name_pattern, validate_name_iff, validate_name_cases}

abbrev fills : Bytes
fills = b'f' ∷ b'i' ∷ b'l' ∷ b'l' ∷ b's' ∷ b'_' ∷ b'2' ∷ []

abbrev hidden : Bytes
hidden = b'_' ∷ b'x' ∷ []

fills_accepted : validate_name namespace fills ≡ ok tt
unfolding validate_name check_bytes accepts
fills_accepted = refl

hidden_refused : validate_name namespace hidden ≡ err (name_error namespace hidden)
unfolding validate_name check_bytes accepts
hidden_refused = refl

validate_name_iff_example :
    (validate_name namespace fills ≡ ok tt)
    ↔ (Matches name_pattern fills × (length fills ≤ max_name_length))
validate_name_iff_example = validate_name_iff namespace fills

validate_name_cases_example :
    (validate_name namespace hidden ≡ ok tt)
    ⊎ (validate_name namespace hidden ≡ err (name_error namespace hidden))
validate_name_cases_example = validate_name_cases namespace hidden
