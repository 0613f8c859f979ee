-- ===== src/Staging/Spool/Keeps.antt =====
-- internal/staging/spool.go: what the statements on spool_files and spool_schemas leave as it was.
use icelake.Prelude.{
  ◌≡◌, sym, ap, ◌∙◌, subst, ℤ, true, false, Bool-cases, inl, inr, some, List, [], ◌∷◌, In, bytes_eq,
  bytes_eq→eq, bytes_eq_refl, All, arith,
}
use mathlib.Core.Path.{ap₂}
use mathlib.Core.Option.{some-injective}
use icelake.Errdef.{Bytes}
use icelake.Staging.Spool.{
  SpoolEntry, upsert_schema, upsert_file, mark_files, delete_files, is_referenced, keep_referenced,
  find_schema,
}

-- No file of the list has the key.
abbrev pub Apart : Bytes → List SpoolEntry → Type 0
Apart key files = All (λ f. bytes_eq f.batch_key key ≡ false) files

-- The primary key of spool_files.
abbrev pub Unique : List SpoolEntry → Type 0
Unique [] = Unit
Unique (f ∷ files) = Apart f.batch_key files × Unique files

-- The fingerprint has a descriptor.
abbrev pub HasSchema : List (Bytes × Bytes) → Bytes → Type 0
HasSchema ss fp = (d : Bytes) × (find_schema fp ss ≡ some d)

pub bytes_eq_sym : (xs ys : Bytes) → bytes_eq xs ys ≡ false → bytes_eq ys xs ≡ false
bytes_eq_sym xs ys h = elim (Bool-cases (bytes_eq ys xs)) [
  | inl same ↦ absurd (cc (bytes_eq→eq ys xs same, bytes_eq_refl xs))
  | inr other ↦ other
]

pub upsert_schema_keeps :
    (k d fp : Bytes) (ss : List (Bytes × Bytes))
    → HasSchema ss fp
    → HasSchema (upsert_schema k d ss) fp
unfolding upsert_schema find_schema
upsert_schema_keeps k d fp [] (b, h) = absurd (ground arith)
upsert_schema_keeps k d fp (s ∷ ss) (b, h) = elim (Bool-cases (bytes_eq s.0 k)) [
  | inl here ↦ rw here (b, h)
  | inr later ↦ rw later (elim (Bool-cases (bytes_eq s.0 fp)) [
    | inl found ↦ (s.1, rw found)
    | inr other ↦
        let (b', h') = upsert_schema_keeps k d fp ss (b, ground (arith, other)) in (b', rw other h')
  ])
]

pub upsert_schema_has :
    (k d : Bytes) (ss : List (Bytes × Bytes)) → HasSchema (upsert_schema k d ss) k
unfolding upsert_schema find_schema
upsert_schema_has k d [] = (d, rw (bytes_eq_refl k))
upsert_schema_has k d (s ∷ ss) = elim (Bool-cases (bytes_eq s.0 k)) [
  | inl here ↦ (s.1, rw (here, here))
  | inr later ↦ let (b, h) = upsert_schema_has k d ss in (b, rw (later, later) h)
]

upsert_file-Apart :
    (new : SpoolEntry) (key : Bytes) (files : List SpoolEntry)
    → bytes_eq new.batch_key key ≡ false
    → Apart key files
    → Apart key (upsert_file new files)
unfolding upsert_file
upsert_file-Apart new key [] ne a = (ne, tt)
upsert_file-Apart new key (old ∷ files) ne a =
    elim (Bool-cases (bytes_eq old.batch_key new.batch_key)) [
      | inl same ↦ rw same (a.0, a.1)
      | inr other ↦ rw other (a.0, upsert_file-Apart new key files ne a.1)
    ]

pub upsert_file-Unique :
    (new : SpoolEntry) (files : List SpoolEntry) → Unique files → Unique (upsert_file new files)
unfolding upsert_file
upsert_file-Unique new [] u = (tt, tt)
upsert_file-Unique new (old ∷ files) u = elim (Bool-cases (bytes_eq old.batch_key new.batch_key)) [
  | inl same ↦ rw same (u.0, u.1)
  | inr other ↦ rw other (
    upsert_file-Apart new old.batch_key files (bytes_eq_sym old.batch_key new.batch_key other) u.0,
    upsert_file-Unique new files u.1,
  )
]

-- Whatever holds of the shapes of the files and of the new one holds after the upsert.
pub upsert_file-All :
    (P : Bytes → Type 0) (new : SpoolEntry) (files : List SpoolEntry)
    → P new.schema_fp
    → All (λ f. P f.schema_fp) files
    → All (λ f. P f.schema_fp) (upsert_file new files)
unfolding upsert_file
upsert_file-All P new [] p a = (p, tt)
upsert_file-All P new (old ∷ files) p a = elim (Bool-cases (bytes_eq old.batch_key new.batch_key)) [
  | inl same ↦ rw same (p, a.1)
  | inr other ↦ rw other (a.0, upsert_file-All P new files p a.1)
]

pub All-map :
    (P Q : SpoolEntry → Type 0) (files : List SpoolEntry)
    → ((f : SpoolEntry) → P f → Q f)
    → All P files
    → All Q files
All-map P Q [] h a = tt
All-map P Q (f ∷ files) h a = (h f a.0, All-map P Q files h a.1)

pub All-both :
    (P Q R : SpoolEntry → Type 0) (files : List SpoolEntry)
    → ((f : SpoolEntry) → P f → Q f → R f)
    → All P files
    → All Q files
    → All R files
All-both P Q R [] h a b = tt
All-both P Q R (f ∷ files) h a b = (h f a.0 b.0, All-both P Q R files h a.1 b.1)

pub In-All :
    (P : SpoolEntry → Type 0) (files : List SpoolEntry) (f : SpoolEntry)
    → In f files
    → All P files
    → P f
In-All P [] f there a = absurd there
In-All P (g ∷ files) f (inl same) a = subst P (sym same) a.0
In-All P (g ∷ files) f (inr later) a = In-All P files f later a.1

mark_files-Apart :
    (key k : Bytes) (at : ℤ) (files : List SpoolEntry)
    → Apart key files
    → Apart key (mark_files k at files)
unfolding mark_files
mark_files-Apart key k at [] a = tt
mark_files-Apart key k at (f ∷ files) a = elim (Bool-cases (bytes_eq f.batch_key k)) [
  | inl same ↦ rw same (a.0, mark_files-Apart key k at files a.1)
  | inr other ↦ rw other (a.0, mark_files-Apart key k at files a.1)
]

pub mark_files-Unique :
    (k : Bytes) (at : ℤ) (files : List SpoolEntry) → Unique files → Unique (mark_files k at files)
unfolding mark_files
mark_files-Unique k at [] u = tt
mark_files-Unique k at (f ∷ files) u = elim (Bool-cases (bytes_eq f.batch_key k)) [
  | inl same ↦
      rw same (mark_files-Apart f.batch_key k at files u.0, mark_files-Unique k at files u.1)
  | inr other ↦
      rw other (mark_files-Apart f.batch_key k at files u.0, mark_files-Unique k at files u.1)
]

pub mark_files-All :
    (P : Bytes → Type 0) (k : Bytes) (at : ℤ) (files : List SpoolEntry)
    → All (λ f. P f.schema_fp) files
    → All (λ f. P f.schema_fp) (mark_files k at files)
unfolding mark_files
mark_files-All P k at [] a = tt
mark_files-All P k at (f ∷ files) a = elim (Bool-cases (bytes_eq f.batch_key k)) [
  | inl same ↦ rw same (a.0, mark_files-All P k at files a.1)
  | inr other ↦ rw other (a.0, mark_files-All P k at files a.1)
]

pub delete_files-All :
    (P : SpoolEntry → Type 0) (k : Bytes) (files : List SpoolEntry)
    → All P files
    → All P (delete_files k files)
unfolding delete_files
delete_files-All P k [] a = tt
delete_files-All P k (f ∷ files) a = elim (Bool-cases (bytes_eq f.batch_key k)) [
  | inl same ↦ rw same (delete_files-All P k files a.1)
  | inr other ↦ rw other (a.0, delete_files-All P k files a.1)
]

pub delete_files-Unique :
    (k : Bytes) (files : List SpoolEntry) → Unique files → Unique (delete_files k files)
unfolding delete_files
delete_files-Unique k [] u = tt
delete_files-Unique k (f ∷ files) u = elim (Bool-cases (bytes_eq f.batch_key k)) [
  | inl same ↦ rw same (delete_files-Unique k files u.1)
  | inr other ↦ rw other (delete_files-All _ k files u.0, delete_files-Unique k files u.1)
]

-- Every file of a list is one of those that keep its shape.
pub All-is_referenced :
    (files : List SpoolEntry) → All (λ f. is_referenced f.schema_fp files ≡ true) files
unfolding is_referenced
All-is_referenced [] = tt
All-is_referenced (f ∷ files) = (
  rw (bytes_eq_refl f.schema_fp),
  All-map (λ g. is_referenced g.schema_fp files ≡ true)
      (λ g. is_referenced g.schema_fp (f ∷ files) ≡ true) files (λ g h. ground (arith, h))
      (All-is_referenced files),
)

pub keep_referenced_has :
    (files : List SpoolEntry) (fp : Bytes) (ss : List (Bytes × Bytes))
    → is_referenced fp files ≡ true
    → HasSchema ss fp
    → HasSchema (keep_referenced files ss) fp
unfolding keep_referenced find_schema
keep_referenced_has files fp [] r (b, h) = absurd (ground arith)
keep_referenced_has files fp (s ∷ ss) r (b, h) = elim (Bool-cases (bytes_eq s.0 fp)) [
  | inl here ↦
      let kept = ap (λ k. is_referenced k files) (bytes_eq→eq s.0 fp here) ∙ r in
      (s.1, rw kept (rw here))
  | inr other ↦
      let (b', h') = keep_referenced_has files fp ss r (b, ground (arith, other)) in
      elim (Bool-cases (is_referenced s.0 files)) [
        | inl kept ↦ (b', rw kept (rw other h'))
        | inr gone ↦ (b', rw gone h')
      ]
]

pub keep_referenced-All :
    (P : Bytes × Bytes → Type 0) (files : List SpoolEntry) (ss : List (Bytes × Bytes))
    → All P ss
    → All P (keep_referenced files ss)
unfolding keep_referenced
keep_referenced-All P files [] a = tt
keep_referenced-All P files (s ∷ ss) a = elim (Bool-cases (is_referenced s.0 files)) [
  | inl kept ↦ rw kept (a.0, keep_referenced-All P files ss a.1)
  | inr gone ↦ rw gone (keep_referenced-All P files ss a.1)
]

pub upsert_schema-All :
    (P : Bytes × Bytes → Type 0) (fp d : Bytes) (ss : List (Bytes × Bytes))
    → P (fp, d)
    → All P ss
    → All P (upsert_schema fp d ss)
unfolding upsert_schema
upsert_schema-All P fp d [] p a = (p, tt)
upsert_schema-All P fp d (s ∷ ss) p a = elim (Bool-cases (bytes_eq s.0 fp)) [
  | inl same ↦ rw same a
  | inr other ↦ rw other (a.0, upsert_schema-All P fp d ss p a.1)
]

pub find_schema-All :
    (P : Bytes × Bytes → Type 0) (fp : Bytes) (ss : List (Bytes × Bytes)) {d : Bytes}
    → All P ss
    → find_schema fp ss ≡ some d
    → P (fp, d)
unfolding find_schema
find_schema-All P fp [] a h = absurd (ground arith)
find_schema-All P fp (s ∷ ss) {d} a h = elim (Bool-cases (bytes_eq s.0 fp)) [
  | inl here ↦
      subst P (ap₂ (λ x y. (x, y)) (bytes_eq→eq s.0 fp here) (some-injective _ _ (rw here at h)))
        a.0
  | inr other ↦ find_schema-All P fp ss a.1 (rw other at h)
]
