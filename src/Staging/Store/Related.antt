-- ===== src/Staging/Store/Related.antt =====
-- internal/staging/store.go: the rows before and after a statement that adds, deletes or updates rows.
use icelake.Prelude.{
  ℕ, suc, All-append, ◌≤◌, ◌<◌, ◌≡◌, refl, sym, subst, Bool-cases, ◌==◌, inl, inr, List, [], ◌∷◌,
  ◌++◌, In, All, arith,
}
use icelake.Staging.Store.{StagingRow}
use icelake.Staging.Store.Leaving.{delete_row, delete_rows}

-- The two lists have the same length, and the relation holds at every place.
abbrev pub Pointwise :
    (StagingRow → StagingRow → Type 0) → List StagingRow → List StagingRow → Type 0
Pointwise R [] [] = Unit
Pointwise R [] (s ∷ ss) = ⊥
Pointwise R (r ∷ rs) [] = ⊥
Pointwise R (r ∷ rs) (s ∷ ss) = R r s × Pointwise R rs ss

pub Pointwise_refl :
    (R : StagingRow → StagingRow → Type 0) (rs : List StagingRow)
    → ((r : StagingRow) → R r r)
    → Pointwise R rs rs
Pointwise_refl R [] h = tt
Pointwise_refl R (r ∷ rs) h = (h r, Pointwise_refl R rs h)

pub Pointwise_trans :
    (P Q R : StagingRow → StagingRow → Type 0) (rs ss ts : List StagingRow)
    → ((r s t : StagingRow) → P r s → Q s t → R r t)
    → Pointwise P rs ss
    → Pointwise Q ss ts
    → Pointwise R rs ts
Pointwise_trans P Q R [] [] [] h p q = tt
Pointwise_trans P Q R [] [] (t ∷ ts) h p q = q
Pointwise_trans P Q R [] (s ∷ ss) ts h p q = absurd p
Pointwise_trans P Q R (r ∷ rs) [] ts h p q = absurd p
Pointwise_trans P Q R (r ∷ rs) (s ∷ ss) [] h p q = q
Pointwise_trans P Q R (r ∷ rs) (s ∷ ss) (t ∷ ts) h p q =
    (h r s t p.0 q.0, Pointwise_trans P Q R rs ss ts h p.1 q.1)

pub Pointwise-All :
    (R : StagingRow → StagingRow → Type 0) (P Q : StagingRow → Type 0) (rs ss : List StagingRow)
    → ((r s : StagingRow) → R r s → P r → Q s)
    → Pointwise R rs ss
    → All P rs
    → All Q ss
Pointwise-All R P Q [] [] h p a = tt
Pointwise-All R P Q [] (s ∷ ss) h p a = absurd p
Pointwise-All R P Q (r ∷ rs) [] h p a = absurd p
Pointwise-All R P Q (r ∷ rs) (s ∷ ss) h p a = (h r s p.0 a.0, Pointwise-All R P Q rs ss h p.1 a.1)

-- Where a row stands after the statement, one stood before that it comes from.
pub Pointwise-In :
    (R : StagingRow → StagingRow → Type 0) (rs ss : List StagingRow) (s : StagingRow)
    → Pointwise R rs ss
    → In s ss
    → (r : StagingRow) × In r rs × R r s
Pointwise-In R [] [] s p there = absurd there
Pointwise-In R [] (x ∷ ss) s p there = absurd p
Pointwise-In R (r ∷ rs) [] s p there = absurd p
Pointwise-In R (r ∷ rs) (x ∷ ss) s p (inl same) = (r, inl refl, subst (R r) (sym same) p.0)
Pointwise-In R (r ∷ rs) (x ∷ ss) s p (inr later) =
    let (q, there, h) = Pointwise-In R rs ss s p.1 later in (q, inr there, h)

-- And every row that stood before has become one that stands after.
pub Pointwise_forward :
    (R : StagingRow → StagingRow → Type 0) (rs ss : List StagingRow) (r : StagingRow)
    → Pointwise R rs ss
    → In r rs
    → (s : StagingRow) × In s ss × R r s
Pointwise_forward R [] ss r p there = absurd there
Pointwise_forward R (x ∷ rs) [] r p there = absurd p
Pointwise_forward R (x ∷ rs) (s ∷ ss) r p (inl same) =
    (s, inl refl, subst (λ y. R y s) (sym same) p.0)
Pointwise_forward R (x ∷ rs) (s ∷ ss) r p (inr later) =
    let (q, there, h) = Pointwise_forward R rs ss r p.1 later in (q, inr there, h)

-- The primary keys: each row's id is above those before it, and at most the last one given.
abbrev pub Ascends : ℕ → List StagingRow → Type 0
Ascends last [] = Unit
Ascends last (r ∷ rs) = (r.id ≤ last) × All (λ s. r.id < s.id) rs × Ascends last rs

pub Pointwise-Ascends :
    (R : StagingRow → StagingRow → Type 0) (last : ℕ) (rs ss : List StagingRow)
    → ((r s : StagingRow) → R r s → s.id ≡ r.id)
    → Pointwise R rs ss
    → Ascends last rs
    → Ascends last ss
Pointwise-Ascends R last [] [] h p a = tt
Pointwise-Ascends R last [] (s ∷ ss) h p a = absurd p
Pointwise-Ascends R last (r ∷ rs) [] h p a = absurd p
Pointwise-Ascends R last (r ∷ rs) (s ∷ ss) h p a = (
  omega (arith, a.0, h r s p.0),
  Pointwise-All R (λ x. r.id < x.id) (λ x. s.id < x.id) rs ss
      (λ x y q l. omega (arith, l, h x y q, h r s p.0)) p.1 a.1,
  Pointwise-Ascends R last rs ss h p.1 a.2,
)

pub Ascends-append :
    (last : ℕ) (rs : List StagingRow) (new : StagingRow)
    → new.id ≡ suc last
    → Ascends last rs
    → Ascends (suc last) (rs ++ new ∷ [])
Ascends-append last [] new e a = (omega (arith, e), tt, tt)
Ascends-append last (r ∷ rs) new e a = (
  omega (arith, a.0),
  (All-append (λ s. r.id < s.id) rs (new ∷ [])).1 (a.1, (omega (arith, a.0, e), tt)),
  Ascends-append last rs new e a.2,
)

delete_row-All :
    (P : StagingRow → Type 0) (id : ℕ) (rs : List StagingRow) → All P rs → All P (delete_row id rs)
unfolding delete_row
delete_row-All P id [] a = tt
delete_row-All P id (r ∷ rs) a = elim (Bool-cases (r.id == id)) [
  | inl e ↦ rw e (delete_row-All P id rs a.1)
  | inr e ↦ rw e (a.0, delete_row-All P id rs a.1)
]

pub delete_rows-All :
    (P : StagingRow → Type 0) (ids : List ℕ) (rs : List StagingRow)
    → All P rs
    → All P (delete_rows ids rs)
unfolding delete_rows
delete_rows-All P [] rs a = a
delete_rows-All P (id ∷ ids) rs a =
    delete_rows-All P ids (delete_row id rs) (delete_row-All P id rs a)

pub delete_row-Ascends :
    (last id : ℕ) (rs : List StagingRow) → Ascends last rs → Ascends last (delete_row id rs)
unfolding delete_row
delete_row-Ascends last id [] a = tt
delete_row-Ascends last id (r ∷ rs) a = elim (Bool-cases (r.id == id)) [
  | inl e ↦ rw e (delete_row-Ascends last id rs a.2)
  | inr e ↦
      rw e (a.0, delete_row-All (λ s. r.id < s.id) id rs a.1, delete_row-Ascends last id rs a.2)
]

pub delete_rows-Ascends :
    (last : ℕ) (ids : List ℕ) (rs : List StagingRow)
    → Ascends last rs
    → Ascends last (delete_rows ids rs)
unfolding delete_rows
delete_rows-Ascends last [] rs a = a
delete_rows-Ascends last (id ∷ ids) rs a =
    delete_rows-Ascends last ids (delete_row id rs) (delete_row-Ascends last id rs a)

In-tail :
    (r s : StagingRow) (xs ys : List StagingRow)
    → (In s xs → In s ys)
    → In s (r ∷ xs)
    → In s (r ∷ ys)
In-tail r s xs ys h (inl same) = inl same
In-tail r s xs ys h (inr later) = inr (h later)

delete_row-In : (id : ℕ) (rs : List StagingRow) (s : StagingRow) → In s (delete_row id rs) → In s rs
unfolding delete_row
delete_row-In id [] s there = there
delete_row-In id (r ∷ rs) s there = elim (Bool-cases (r.id == id)) [
  | inl e ↦ inr (delete_row-In id rs s (rw e at there))
  | inr e ↦ In-tail r s (delete_row id rs) rs (delete_row-In id rs s) (rw e at there)
]

pub delete_rows-In :
    (ids : List ℕ) (rs : List StagingRow) (s : StagingRow) → In s (delete_rows ids rs) → In s rs
unfolding delete_rows
delete_rows-In [] rs s there = there
delete_rows-In (id ∷ ids) rs s there =
    delete_row-In id rs s (delete_rows-In ids (delete_row id rs) s there)
