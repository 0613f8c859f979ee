-- ===== src/Canon/Descriptor/Identity.antt =====
-- canon/descriptor.go: a fingerprint as an identity, and shapes whose columns are reordered.
use icelake.Prelude.{◌≤◌, ◌≡◌, ◌≢◌, ℤ, pos, negsuc, ◌≤ℤ◌, ◌<ℤ◌, refl, sym, ap, subst, ◌∙◌, ◌⊎◌}
use icelake.Prelude.{List, [], ◌∷◌, ◌++◌, length, inl, inr, arith, Bool-cases, ltb_ℤ}
use icelake.Errdef.{Bytes, ok, ok-injective}
use icelake.Canon.Hash.{Collide, same_or_Collide}
use icelake.Canon.Shape.{Field, Descriptor}
use icelake.Canon.Iceberg.{NestedField}
use icelake.Canon.Iceberg.Inverse.{describe_fields-perm}
use icelake.Canon.Columns.Reading.{Ascends}
use icelake.Canon.Descriptor.{
  insert_field, sort_fields, new_descriptor, parse_descriptor, from_fields,
}
use icelake.Canon.Descriptor.{fingerprint, fingerprint_domain}
use icelake.Canon.Descriptor.Canonical.{
  IsCanonical, parse_descriptor-encoded, from_fields_inv, from_fields_build,
  from_fields-IsCanonical,
}
use mathlib.Core.Path.{ap₂}
use mathlib.Core.List.{Permᴰ}
use mathlib.Core.List.Permᴰ

-- No column has the id.
abbrev Fresh : ℤ → List Field → Type 0
Fresh id [] = Unit
Fresh id (f ∷ fs) = (f.id ≢ id) × Fresh id fs

abbrev Distinct : List Field → Type 0
Distinct [] = Unit
Distinct (f ∷ fs) = Fresh f.id fs × Distinct fs

Fresh-below :
    (id previous : ℤ) (fs : List Field) → id ≤ℤ previous → Ascends previous fs → Fresh id fs
Fresh-below id previous [] le h = tt
Fresh-below id previous (f ∷ fs) le (up, h) =
    ((λ e. bad e up), Fresh-below id f.id fs (omega arith) h)
  where
    bad : f.id ≡ id → previous <ℤ f.id → ⊥
    bad e up = absurd (omega (arith, subst (λ z. previous <ℤ z) e up))

Distinct-of-Ascends : (previous : ℤ) (fs : List Field) → Ascends previous fs → Distinct fs
Distinct-of-Ascends previous [] h = tt
Distinct-of-Ascends previous (f ∷ fs) (up, h) =
    (Fresh-below f.id f.id fs (omega arith) h, Distinct-of-Ascends f.id fs h)

Fresh-perm : (id : ℤ) {fs gs : List Field} → Permᴰ fs gs → Fresh id fs → Fresh id gs
Fresh-perm id Permᴰ.nil h = h
Fresh-perm id (Permᴰ.cons e p) h = (subst (λ f. f.id ≢ id) e h.0, Fresh-perm id p h.1)
Fresh-perm id (Permᴰ.swap e e') h =
    (subst (λ f. f.id ≢ id) e' h.1.0, (subst (λ f. f.id ≢ id) e h.0, h.1.1))
Fresh-perm id (Permᴰ.trans p q) h = Fresh-perm id q (Fresh-perm id p h)

Distinct-perm : {fs gs : List Field} → Permᴰ fs gs → Distinct fs → Distinct gs
Distinct-perm Permᴰ.nil h = h
Distinct-perm (Permᴰ.cons {l₂ = gs} e p) h =
    (subst (λ f. Fresh f.id gs) e (Fresh-perm _ p h.0), Distinct-perm p h.1)
Distinct-perm (Permᴰ.swap {a = a} {b = b} {a' = a'} {b' = b'} {l = l} e e') h =
    let there : Distinct (b ∷ a ∷ l) = (((λ p. h.0.0 (sym p)), h.1.0), (h.0.1, h.1.1)) in
    subst (λ y. Distinct (y ∷ b' ∷ l)) e' (subst (λ x. Distinct (b ∷ x ∷ l)) e there)
Distinct-perm (Permᴰ.trans p q) h = Distinct-perm q (Distinct-perm p h)

insert_field-perm : (f : Field) (fs : List Field) → Permᴰ (insert_field f fs) (f ∷ fs)
unfolding insert_field
insert_field-perm f [] = Permᴰ.cons refl Permᴰ.nil
insert_field-perm f (g ∷ fs) = elim (Bool-cases (ltb_ℤ g.id f.id)) [
  | inl e ↦ rw e (Permᴰ.trans (Permᴰ.cons refl (insert_field-perm f fs)) (Permᴰ.swap refl refl))
  | inr e ↦ rw e (Permᴰ.refl _)
]

apart : (a b : ℤ) → a ≢ b → (a <ℤ b) ⊎ (b <ℤ a)
apart (pos a) (pos b) ne = (let ne' : a ≢ b = (λ e. ne (ap pos e)) in grind arith)
apart (pos a) (negsuc b) ne = inr (omega arith)
apart (negsuc a) (pos b) ne = inl (omega arith)
apart (negsuc a) (negsuc b) ne = (let ne' : a ≢ b = (λ e. ne (ap negsuc e)) in grind arith)

-- Columns with different ids may be inserted in either order.
insert_field_comm :
    (f g : Field) (fs : List Field)
    → f.id ≢ g.id
    → insert_field f (insert_field g fs) ≡ insert_field g (insert_field f fs)
unfolding insert_field
insert_field_comm f g [] ne = ground (arith, apart f.id g.id ne)
insert_field_comm f g (h ∷ fs) ne = ground (arith, apart f.id g.id ne, insert_field_comm f g fs ne)

sort_fields_perm_eq :
    {fs gs : List Field} → Permᴰ fs gs → Distinct fs → sort_fields fs ≡ sort_fields gs
unfolding sort_fields
sort_fields_perm_eq Permᴰ.nil d = refl
sort_fields_perm_eq (Permᴰ.cons e p) d = ap₂ insert_field e (sort_fields_perm_eq p d.1)
sort_fields_perm_eq (Permᴰ.swap {a = a} {b = b} {l = l} e e') d =
    insert_field_comm a b (sort_fields l) (λ p. d.0.0 (sym p))
    ∙ ap₂ insert_field e' (ap (λ f. insert_field f (sort_fields l)) e)
sort_fields_perm_eq (Permᴰ.trans p q) d =
    sort_fields_perm_eq p d ∙ sort_fields_perm_eq q (Distinct-perm p d)

sort_fields-perm : (fs : List Field) → Permᴰ (sort_fields fs) fs
unfolding sort_fields
sort_fields-perm [] = Permᴰ.nil
sort_fields-perm (f ∷ fs) =
    Permᴰ.trans (insert_field-perm f (sort_fields fs)) (Permᴰ.cons refl (sort_fields-perm fs))

append_left_cancel : (xs ys zs : Bytes) → xs ++ ys ≡ xs ++ zs → ys ≡ zs
append_left_cancel [] ys zs e = e
append_left_cancel (x ∷ xs) ys zs e = append_left_cancel xs ys zs (ground arith)

module _ (sha256_hex : Bytes → Bytes) where
  -- Where `FromFields` returns a descriptor, it returns the same one, bytes and fingerprint included,
  -- for every other order of the same columns.
  pub from_fields_perm :
      (table : Bytes) (src src' : List NestedField) (d : Descriptor)
      → Permᴰ src src'
      → from_fields sha256_hex table src ≡ ok d
      → from_fields sha256_hex table src' ≡ ok d
  from_fields_perm table src src' d p h =
      let (fs, described, some_, up, built) = from_fields_inv sha256_hex table src h in
      let (fs', described', q) = describe_fields-perm table p described in
      let distinct =
        Distinct-perm (sort_fields-perm fs) (Distinct-of-Ascends (pos 0) (sort_fields fs) up) in
      let same = sort_fields_perm_eq q distinct in
      from_fields_build sha256_hex table src' fs' described' (subst (λ l. 1 ≤ length l) same some_)
        (subst (Ascends (pos 0)) same up)
        (subst (λ l. new_descriptor sha256_hex table l ≡ ok d) same built)

  -- Canonical descriptors with the same bytes are equal.
  encoded_injective :
      (d d' : Descriptor)
      → IsCanonical sha256_hex d
      → IsCanonical sha256_hex d'
      → d.encoded ≡ d'.encoded
      → d ≡ d'
  encoded_injective d d' c c' e = ok-injective (
      sym (parse_descriptor-encoded sha256_hex d c)
      ∙ ap (parse_descriptor sha256_hex) e
      ∙ parse_descriptor-encoded sha256_hex d' c')

  -- Two shapes that `FromFields` returned with one fingerprint are equal, column for column, unless
  -- the two different byte strings that were hashed for them collide under SHA-256.
  pub fingerprint_identity :
      (table table' : Bytes) (src src' : List NestedField) (d d' : Descriptor)
      → from_fields sha256_hex table src ≡ ok d
      → from_fields sha256_hex table' src' ≡ ok d'
      → d.fp ≡ d'.fp
      → (d ≡ d')
        ⊎ Collide sha256_hex (fingerprint_domain ++ d.encoded) (fingerprint_domain ++ d'.encoded)
  unfolding fingerprint
  fingerprint_identity table table' src src' d d' h h' e =
      let c = from_fields-IsCanonical sha256_hex table src h in
      let c' = from_fields-IsCanonical sha256_hex table' src' h' in
      let digests = sym c.named ∙ e ∙ c'.named in
      elim (same_or_Collide sha256_hex (fingerprint_domain ++ d.encoded)
        (fingerprint_domain ++ d'.encoded) digests) [
          | inl same ↦
              inl (encoded_injective d d' c c' (append_left_cancel fingerprint_domain _ _ same))
          | inr clash ↦ inr clash
        ]
