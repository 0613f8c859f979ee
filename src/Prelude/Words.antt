-- ===== src/Prelude/Words.antt =====
-- Go's encoding/binary, big-endian: what `AppendUint32`, `AppendUint64`, `Uint32` and `Uint64`
-- write and read, with the two round trips.
use Prim.Native.Nat.{ℕ, ◌+◌, ◌*◌, ◌/◌, ◌%◌, ◌^◌, ◌<◌}
use icelake.Prelude.Lists.{length, All}
use mathlib.Core.Path.{◌≡◌, refl}
use mathlib.Core.List.{List, [], ◌∷◌, ◌++◌}
use mathlib.Core.Path.{◌∙◌, ap₂}
use native.Mathlib.Omega.{arith}

abbrev pub IsByte : ℕ → Type 0
IsByte b = b < 256

unfoldable pub be32 : ℕ → List ℕ
be32 n = n / 2 ^ 24 % 256 ∷ n / 2 ^ 16 % 256 ∷ n / 2 ^ 8 % 256 ∷ n % 256 ∷ []

-- The high word's bytes, then the low word's.
unfoldable pub be64 : ℕ → List ℕ
unfolding be32
be64 n = be32 (n / 2 ^ 32) ++ be32 n

-- A shorter slice would be an index panic; every call site has just read four or eight bytes.
unfoldable pub uint32_of : List ℕ → ℕ
uint32_of (a ∷ b ∷ c ∷ d ∷ _) = a * 2 ^ 24 + b * 2 ^ 16 + c * 2 ^ 8 + d
uint32_of _ = 0

unfoldable pub uint64_of : List ℕ → ℕ
unfolding uint32_of
uint64_of (a ∷ b ∷ c ∷ d ∷ low) = uint32_of (a ∷ b ∷ c ∷ d ∷ []) * 2 ^ 32 + uint32_of low
uint64_of _ = 0

pub length-be32 : (n : ℕ) → length (be32 n) ≡ 4
unfolding be32
length-be32 n = refl

pub length-be64 : (n : ℕ) → length (be64 n) ≡ 8
unfolding be64
length-be64 n = refl

pub be32-IsByte : (n : ℕ) → All IsByte (be32 n)
unfolding be32
be32-IsByte n = omega arith

pub be64-IsByte : (n : ℕ) → All IsByte (be64 n)
unfolding be64
be64-IsByte n = omega arith

pub uint32_of-be32 : (n : ℕ) → n < 2 ^ 32 → uint32_of (be32 n) ≡ n
unfolding be32 uint32_of
uint32_of-be32 n h = omega arith

pub uint64_of-be64 : (n : ℕ) → n < 2 ^ 64 → uint64_of (be64 n) ≡ n
unfolding be64 uint64_of
uint64_of-be64 n h = omega arith

-- Any four bytes encode the number that they are read as; so for eight.
pub be32-uint32_of :
    (xs : List ℕ)
    → length xs ≡ 4
    → All IsByte xs
    → (be32 (uint32_of xs) ≡ xs) × (uint32_of xs < 2 ^ 32)
unfolding be32 uint32_of
be32-uint32_of (a ∷ b ∷ c ∷ d ∷ []) l h = (ground arith, omega arith)
be32-uint32_of (a ∷ b ∷ c ∷ d ∷ e ∷ xs) l h = absurd (omega arith)
be32-uint32_of (a ∷ b ∷ c ∷ []) l h = absurd (omega arith)
be32-uint32_of (a ∷ b ∷ []) l h = absurd (omega arith)
be32-uint32_of (a ∷ []) l h = absurd (omega arith)
be32-uint32_of [] l h = absurd (omega arith)

be64-be32 : (hi lo : ℕ) → lo < 2 ^ 32 → be64 (hi * 2 ^ 32 + lo) ≡ be32 hi ++ be32 lo
unfolding be64 be32
be64-be32 hi lo h = ground arith

be64_words :
    (xs ys : List ℕ)
    → length xs ≡ 4
    → length ys ≡ 4
    → All IsByte xs
    → All IsByte ys
    → (be64 (uint32_of xs * 2 ^ 32 + uint32_of ys) ≡ xs ++ ys)
      × (uint32_of xs * 2 ^ 32 + uint32_of ys < 2 ^ 64)
be64_words xs ys lx ly hx hy =
    let (ex, sx) = be32-uint32_of xs lx hx in
    let (ey, sy) = be32-uint32_of ys ly hy in (be64-be32 _ _ sy ∙ ap₂ ◌++◌ ex ey, omega arith)

pub be64-uint64_of :
    (xs : List ℕ)
    → length xs ≡ 8
    → All IsByte xs
    → (be64 (uint64_of xs) ≡ xs) × (uint64_of xs < 2 ^ 64)
unfolding uint64_of
be64-uint64_of (a ∷ b ∷ c ∷ d ∷ xs) l h =
    be64_words (a ∷ b ∷ c ∷ d ∷ []) xs refl (omega arith) (omega arith) h.1.1.1.1
be64-uint64_of (a ∷ b ∷ c ∷ []) l h = absurd (omega arith)
be64-uint64_of (a ∷ b ∷ []) l h = absurd (omega arith)
be64-uint64_of (a ∷ []) l h = absurd (omega arith)
be64-uint64_of [] l h = absurd (omega arith)
