-- ===== src/Canon/Cursor/Reads.antt =====
-- canon/descriptor.go: the cursor as a reader of the bytes still ahead of it.
use icelake.Prelude.{ℕ, ◌<◌, ◌≡◌, refl, sym, subst, ◌∙◌, ap, ◌⊎◌, inl, inr, Bool-cases}
use icelake.Prelude.{Option, none, some, [], ◌∷◌, ◌++◌, arith, ltb, ltb→lt, ◌^◌}
use icelake.Prelude.{length, take, drop, All, get_elem?-drop, drop-drop, length-drop}
use icelake.Prelude.{length-append, take_append, drop_append, take-append-drop, length-take}
use icelake.Prelude.{
  IsByte, be32, uint32_of, length-be32, uint32_of-be32, be32-uint32_of, All-append,
}
use icelake.Errdef.{Bytes, Result, ok}
use icelake.Canon.Cursor.{Cursor, advance, remaining, byte_at, bytes, uint32}

-- What the cursor has not read.
abbrev pub rest : Cursor → Bytes
rest c = drop c.at c.buf

-- `m` reads `a` and leaves `r`.
abbrev pub Reads {ℓ} : {A : Type ℓ} → Option (A × Cursor) → A → Bytes → Type ℓ
Reads m a r = (c : Cursor) × (m ≡ some (a, c)) × (rest c ≡ r)

abbrev pub Yields {ℓ} : {A : Type ℓ} → Result (A × Cursor) → A → Bytes → Type ℓ
Yields m a r = (c : Cursor) × (m ≡ ok (a, c)) × (rest c ≡ r)

rest-advance : (c : Cursor) (n : ℕ) → rest (advance c n) ≡ drop n (rest c)
unfolding advance
rest-advance c n = drop-drop c.at n c.buf

pub remaining-eq : (c : Cursor) → remaining c ≡ length (rest c)
unfolding remaining
remaining-eq c = sym (length-drop c.at c.buf)

-- A byte read either finds nothing left and refuses, or returns the first byte left and leaves the
-- others.
pub byte_at_cases :
    (c : Cursor)
    → ((byte_at c ≡ none) × (rest c ≡ []))
      ⊎ ((b : ℕ) × (byte_at c ≡ some (b, advance c 1)) × (rest c ≡ b ∷ rest (advance c 1)))
byte_at_cases c = split (rest c) refl
  where
    split :
        (xs : Bytes)
        → rest c ≡ xs
        → ((byte_at c ≡ none) × (rest c ≡ []))
          ⊎ ((b : ℕ) × (byte_at c ≡ some (b, advance c 1)) × (rest c ≡ b ∷ rest (advance c 1)))
    split [] e = inl (unfold byte_at in rw (remaining-eq c, e) refl, e)
    split (b ∷ r) e = inr (
      b,
      (unfold byte_at in rw (remaining-eq c, e) (rw (get_elem?-drop c.at c.buf, e) (ground arith))),
      e ∙ ap (λ (t : Bytes). b ∷ t) (sym (rest-advance c 1 ∙ ap (drop 1) e)),
    )

-- A read of `n` bytes either finds fewer left and refuses, or returns the first `n` left and leaves
-- the others.
pub bytes_cases :
    (c : Cursor) (n : ℕ)
    → ((bytes c n ≡ none) × (length (rest c) < n))
      ⊎ ((xs : Bytes) × (bytes c n ≡ some (xs, advance c n))
          × (rest c ≡ xs ++ rest (advance c n))
          × (length xs ≡ n))
unfolding bytes
bytes_cases c n = elim (Bool-cases (ltb (remaining c) n)) [
  | inl short ↦ inl (rw short, omega (arith, remaining-eq c, ltb→lt _ _ short))
  | inr enough ↦ inr (
    take n (rest c),
    rw enough,
    sym (rw (rest-advance c n) (take-append-drop n (rest c))),
    length-take n (rest c) (ground (arith, remaining-eq c)),
  )
]

pub byte_at-Reads : (c : Cursor) (b : ℕ) (r : Bytes) → rest c ≡ b ∷ r → Reads (byte_at c) b r
byte_at-Reads c b r h = elim (byte_at_cases c) [
  | inl (_, e) ↦ cc
  | inr (b', e, f) ↦ (advance c 1, cc, cc)
]

pub bytes-Reads :
    (c : Cursor) (xs r : Bytes) (n : ℕ) → rest c ≡ xs ++ r → length xs ≡ n → Reads (bytes c n) xs r
unfolding bytes
bytes-Reads c xs r n h l = (
  advance c n,
  ground (arith, remaining-eq c, ap length h, length-append xs r, take_append xs r),
  rest-advance c n ∙ rw (h, ← l) (drop_append xs r),
)

pub uint32-Reads :
    (c : Cursor) (n : ℕ) (r : Bytes) → rest c ≡ be32 n ++ r → n < 2 ^ 32 → Reads (uint32 c) n r
unfolding uint32
uint32-Reads c n r h lt =
    let (c', e, f) = bytes-Reads c (be32 n) r 4 h (length-be32 n) in
    (c', rw (e, uint32_of-be32 n lt), f)

byte_at_inv : (c : Cursor) {b : ℕ} {c' : Cursor} → byte_at c ≡ some (b, c') → rest c ≡ b ∷ rest c'
byte_at_inv c h = elim (byte_at_cases c) [ inl (e, _) ↦ cc | inr (b', e, f) ↦ cc ]

bytes_inv :
    (c : Cursor) (n : ℕ) {xs : Bytes} {c' : Cursor}
    → bytes c n ≡ some (xs, c')
    → (rest c ≡ xs ++ rest c') × (length xs ≡ n)
bytes_inv c n h = elim (bytes_cases c n) [ inl (e, _) ↦ cc | inr (ys, e, f, g) ↦ (cc, cc) ]

-- Reading a big-endian uint32 takes exactly the four bytes that encode it.
pub uint32_inv :
    (c : Cursor) {n : ℕ} {c' : Cursor}
    → All IsByte (rest c)
    → uint32 c ≡ some (n, c')
    → (rest c ≡ be32 n ++ rest c') × (n < 2 ^ 32)
unfolding uint32
uint32_inv c {n} {c'} bs h = elim (bytes_cases c 4) [
  | inl (e, _) ↦ cc
  | inr (xs, e, f, g) ↦
      let (same, small) =
        be32-uint32_of xs g ((All-append IsByte xs _).0 (subst (All IsByte) f bs)).0 in
      let e' : uint32 c ≡ some (uint32_of xs, advance c 4) = rw e in (cc, ground arith)
]

pub rest-IsByte : (xs ys r : Bytes) → r ≡ xs ++ ys → All IsByte r → All IsByte ys
rest-IsByte xs ys r e h = ((All-append IsByte xs ys).0 (subst (All IsByte) e h)).1

length_zero : (xs : Bytes) → length xs ≡ 0 → xs ≡ []
length_zero [] h = refl
length_zero (x ∷ xs) h = absurd (omega arith)

pub no_rest : (c : Cursor) → remaining c ≡ 0 → rest c ≡ []
no_rest c h = length_zero (rest c) (sym (remaining-eq c) ∙ h)
