-- ===== src/Schemamap/Name/Pattern.antt =====
-- internal/schemamap/name.go against the pattern that its comment gives, ^[a-z0-9][a-z0-9_]*$.
use icelake.Prelude.{ℕ, suc, ◌≤◌, ◌≡◌, refl, sym, ap, ◌∙◌, subst, ◌↔◌, ◌⊎◌, inl, true, Bool-cases}
use icelake.Prelude.{[], ◌∷◌, ◌++◌, length, ltb, ◌==◌, ◌||◌, All, arith}
use icelake.Errdef.{Bytes, Error, NameKind, name_error, ok, err, refuse_if, ◌>>◌}
use icelake.Schemamap.Name.{accepts, check_bytes, validate_name, max_name_length}

-- Regular expressions over byte ranges, as far as the pattern needs them: one byte of a class, any
-- number of bytes of a class, and one expression after another.
pub data Regex : Type 1 where
  one : (ℕ → Type 0) → Regex
  many : (ℕ → Type 0) → Regex
  seq : Regex → Regex → Regex

abbrev pub Matches : Regex → Bytes → Type 0
Matches (one p) s = (c : ℕ) × (s ≡ c ∷ []) × p c
Matches (many p) s = All p s
Matches (seq r t) s = (xs : Bytes) × (ys : Bytes) × (s ≡ xs ++ ys) × Matches r xs × Matches t ys

abbrev Between : ℕ → ℕ → ℕ → Type 0
Between low high c = (low ≤ c) × (c ≤ high)

-- [a-z0-9]
abbrev Alphanumeric : ℕ → Type 0
Alphanumeric c = Between b'a' b'z' c ⊎ Between b'0' b'9' c

-- [a-z0-9_]
abbrev WordByte : ℕ → Type 0
WordByte c = Alphanumeric c ⊎ (c ≡ b'_')

-- ^[a-z0-9][a-z0-9_]*$
abbrev pub name_pattern : Regex
name_pattern = seq (one Alphanumeric) (many WordByte)

accepts_first : (c : ℕ) → (accepts c 0 ≡ true) ↔ Alphanumeric c
unfolding accepts
accepts_first c = (λ h. ground arith, λ h. ground arith)

accepts_later : (c i : ℕ) → (accepts c (suc i) ≡ true) ↔ WordByte c
unfolding accepts
accepts_later c i = (λ h. ground arith, λ h. ground arith)

check_bytes_later :
    (bad : Error) (i : ℕ) (cs : Bytes) → (check_bytes bad (suc i) cs ≡ ok tt) ↔ All WordByte cs
unfolding check_bytes
check_bytes_later bad i [] = (λ h. tt, λ h. refl)
check_bytes_later bad i (c ∷ cs) =
    let one_ = accepts_later c i in
    let more = check_bytes_later bad (suc i) cs in
    (
      λ h. (one_.0 (ground arith), more.0 (ground arith)),
      λ h. ground (arith, one_.1 h.0, more.1 h.1),
    )

check_bytes_cases :
    (bad : Error) (i : ℕ) (cs : Bytes)
    → (check_bytes bad i cs ≡ ok tt) ⊎ (check_bytes bad i cs ≡ err bad)
unfolding check_bytes
check_bytes_cases bad i [] = inl refl
check_bytes_cases bad i (c ∷ cs) =
    ground (arith, Bool-cases (accepts c i), check_bytes_cases bad (suc i) cs)

-- What the pattern says of a string: its first byte and the others.
pub name_pattern_inv :
    (name : Bytes)
    → Matches name_pattern name
    → (c : ℕ) × (cs : Bytes) × (name ≡ c ∷ cs) × Alphanumeric c × All WordByte cs
name_pattern_inv name (xs, ys, split, (c, single, first), later) =
    (c, ys, split ∙ ap (λ x. x ++ ys) single, first, later)

passes :
    (kind : NameKind) (name : Bytes) (c : ℕ) (cs : Bytes)
    → name ≡ c ∷ cs
    → Alphanumeric c
    → All WordByte cs
    → length name ≤ max_name_length
    → validate_name kind name ≡ ok tt
unfolding validate_name check_bytes
passes kind name c cs e first later short =
    let first' = (accepts_first c).1 first in
    let later' = (check_bytes_later (name_error kind name) 0 cs).1 later in
    let small = subst (λ x. length x ≤ max_name_length) e short in
    subst
      (λ x.
        (refuse_if ((length x == 0) || ltb max_name_length (length x)) (name_error kind name)
          >> check_bytes (name_error kind name) 0 x)
        ≡ ok tt)
      (sym e) (ground (arith, first', later', small))

-- `ValidateName` accepts exactly the names of at most 63 bytes that match ^[a-z0-9][a-z0-9_]*$.
pub validate_name_iff :
    (kind : NameKind) (name : Bytes)
    → (validate_name kind name ≡ ok tt)
      ↔ (Matches name_pattern name × (length name ≤ max_name_length))
unfolding validate_name check_bytes
validate_name_iff kind [] = (
  λ h. cc,
  λ m.
      let (c, cs, e, first, later) = name_pattern_inv [] m.0 in
      passes kind [] c cs e first later m.1,
)
validate_name_iff kind (c ∷ cs) =
    let first = accepts_first c in
    let later = check_bytes_later (name_error kind (c ∷ cs)) 0 cs in
    (
      λ h. (
        (c ∷ [], cs, refl, (c, refl, first.0 (ground arith)), later.0 (ground arith)),
        ground arith,
      ),
      λ m.
          let (b, bs, e, start, end) = name_pattern_inv (c ∷ cs) m.0 in
          passes kind (c ∷ cs) b bs e start end m.1,
    )

-- Every name that `ValidateName` does not accept is refused with the one error that carries the kind
-- and the name as they were given.
pub validate_name_cases :
    (kind : NameKind) (name : Bytes)
    → (validate_name kind name ≡ ok tt) ⊎ (validate_name kind name ≡ err (name_error kind name))
unfolding validate_name
validate_name_cases kind name = ground (
  arith,
  Bool-cases (length name == 0),
  Bool-cases (ltb max_name_length (length name)),
  check_bytes_cases (name_error kind name) 0 name,
)
