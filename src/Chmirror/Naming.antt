-- ===== src/Chmirror/Naming.antt =====
-- internal/chmirror/ddl.go: TableName gives different tables different names.
use icelake.Prelude.{◌≡◌, refl, sym, ◌∙◌, subst, true, false, Bool-cases, [], ◌∷◌, ◌++◌, arith}
use icelake.Errdef.{Bytes, ok, NameKind}
use icelake.Schemamap.Name.{validate_name}
use icelake.Schemamap.Name.Pattern.{validate_name_iff, name_pattern_inv}
use icelake.Chmirror.Ddl.{contains, has_prefix, table_name, name_separator}

-- What a name that starts with no underscore, and has no separator, is.
abbrev IsPart : Bytes → Type 0
IsPart t = (has_prefix (b'_' ∷ []) t ≡ false) × (contains t name_separator ≡ false)

contains_append : (xs ys : Bytes) → contains (xs ++ name_separator ++ ys) name_separator ≡ true
unfolding contains has_prefix
contains_append [] ys = refl
contains_append (x ∷ xs) ys = ground (arith, contains_append xs ys)

is_part :
    (kind : NameKind) (t : Bytes)
    → validate_name kind t ≡ ok tt
    → contains t name_separator ≡ false
    → IsPart t
unfolding has_prefix
is_part kind t valid plain =
    let (c, cs, e, first, later) = name_pattern_inv t ((validate_name_iff kind t).0 valid).0 in
    (rw e (ground arith), plain)

starts : (t u : Bytes) → t ≡ b'_' ∷ u → IsPart t → ⊥
unfolding has_prefix
starts t u e h = ground (arith, subst (λ x. has_prefix (b'_' ∷ []) x ≡ false) e h.0)

holds : (t m u : Bytes) → t ≡ m ++ name_separator ++ u → IsPart t → ⊥
holds t m u e h =
    let seen = contains_append m u in
    let unseen = subst (λ x. contains x name_separator ≡ false) e h.1 in cc

-- Two cuts of one text at a separator are at one place.
cut :
    (n m t u : Bytes)
    → n ++ name_separator ++ t ≡ m ++ name_separator ++ u
    → IsPart t
    → IsPart u
    → (n ≡ m) × (t ≡ u)
cut [] [] t u e ht hu = (refl, cc)
cut [] (x ∷ []) t u e ht hu = absurd (starts t u (cc) ht)
cut [] (x ∷ y ∷ m) t u e ht hu = absurd (holds t m u (cc) ht)
cut (x ∷ []) [] t u e ht hu = absurd (starts u t (cc) hu)
cut (x ∷ y ∷ n) [] t u e ht hu = absurd (holds u n t (cc) hu)
cut (x ∷ n) (y ∷ m) t u e ht hu = let (same, same') = cut n m t u (cc) ht hu in (cc, same')

table_name-inv :
    (ns t name : Bytes)
    → table_name ns t ≡ ok name
    → (contains t name_separator ≡ false) × (name ≡ ns ++ name_separator ++ t)
unfolding table_name
table_name-inv ns t name h =
    ground (arith, Bool-cases (contains ns name_separator), Bool-cases (contains t name_separator))

-- Two tables whose names `ValidateName` accepts and which the mirror gives one name are one table:
-- `TableName` is injective.
pub table_name-injective :
    (kind : NameKind) (ns t ns' t' name : Bytes)
    → validate_name kind t ≡ ok tt
    → validate_name kind t' ≡ ok tt
    → table_name ns t ≡ ok name
    → table_name ns' t' ≡ ok name
    → (ns ≡ ns') × (t ≡ t')
table_name-injective kind ns t ns' t' name v w g h =
    let (plain, e) = table_name-inv ns t name g in
    let (plain', e') = table_name-inv ns' t' name h in
    cut ns ns' t t' (sym e ∙ e') (is_part kind t v plain) (is_part kind t' w plain')
