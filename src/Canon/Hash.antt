-- ===== src/Canon/Hash.antt =====
-- SHA-256 of Go's crypto/sha256, of which canon uses only that it is a function of the bytes: two
-- inputs with one digest are one input, or they collide.
use icelake.Prelude.{◌≡◌, ◌≢◌, ◌⊎◌, inl, inr, bytes_eq, bytes_eq→eq, bytes_eq_refl, Bool-cases}
use icelake.Errdef.{Bytes}

-- Two different inputs of a hash with one digest.
abbrev pub Collide : (Bytes → Bytes) → Bytes → Bytes → Type 0
Collide hash x y = (x ≢ y) × (hash x ≡ hash y)

pub same_or_Collide :
    (hash : Bytes → Bytes) (x y : Bytes) → hash x ≡ hash y → (x ≡ y) ⊎ Collide hash x y
same_or_Collide hash x y e = elim (Bool-cases (bytes_eq x y)) [
  | inl same ↦ inl (bytes_eq→eq x y same)
  | inr other ↦ inr ((λ p. cc (bytes_eq_refl x)), e)
]
