-- ===== src/Flush/Retry/Ceiling.antt =====
-- internal/flush/retry.go: the backoff ceilings in closed form.
use icelake.Prelude.{ℕ, zero, suc, ◌*◌, ◌/◌, ◌^◌, ◌≤◌, ◌<◌, ◌≡◌, refl, ℤ, pos, negsuc, ◌≤ℤ◌, ◌<ℤ◌}
use icelake.Prelude.{Bool-cases, ◌⊎◌, inl, inr, if◌then◌else◌, ltb_ℤ, ltb_ℤ_iff, arith}
use native.Mathlib.Nat.{pow-suc}
use icelake.Flush.Retry.{Retry, attempts, half, twice, double, rounds_of, ceiling}

-- A policy with a base delay above zero.
abbrev pub policy : ℤ → ℕ → ℤ → Retry
policy budget b cap = record { max_attempts = budget; base_delay = pos (suc b); max_delay = cap }

abbrev pub min : ℕ → ℤ → ℤ
min a cap = if ltb_ℤ cap (pos a) then cap else pos a

-- Doubling below 2^62 does not wrap around.
twice_pos : (d : ℕ) → d < 2 ^ 62 → twice (pos d) ≡ pos (2 * d)
unfolding twice
twice_pos d h = ground arith

grows : (n d : ℕ) → d ≤ d * 2 ^ n
grows zero d = omega arith
grows (suc n) d = rw (pow-suc 2 n) (omega (arith, grows n d))

shift : (n d : ℕ) → 2 * d * 2 ^ n ≡ d * 2 ^ suc n
shift n d = rw (pow-suc 2 n) (omega arith)

past_cap : (n d m : ℕ) → m / 2 < d → m < d * 2 ^ suc n
past_cap n d m h = omega (arith, grows n (2 * d), shift n d)

-- The capped value does not depend on where the loop stops.
double_pos :
    (rounds d m : ℕ) → m < 2 ^ 63 → double rounds (pos d) (pos m) ≡ min (d * 2 ^ rounds) (pos m)
unfolding double half
double_pos zero d m small = ground arith
double_pos (suc n) d m small = elim (Bool-cases (ltb_ℤ (pos (m / 2)) (pos d))) [
  | inl past ↦
      ground (arith, past_cap n d m (omega (arith, (ltb_ℤ_iff (pos (m / 2)) (pos d)).0 past)))
  | inr below ↦ rw (below, twice_pos d (ground arith), double_pos n (2 * d) m small, shift n d) refl
]

-- A cap below zero is met at once.
double_neg : (rounds d m : ℕ) → double rounds (pos (suc d)) (negsuc m) ≡ negsuc m
unfolding double half
double_neg zero d m = ground arith
double_neg (suc n) d zero = ground arith
double_neg (suc n) d (suc m) = ground arith

-- For a base delay above zero and any cap that is a Go duration, one below zero included, the
-- ceiling after attempt n + 1 is the base delay doubled n times, or the cap where that is less; no
-- doubling overflows.
pub ceiling-doubles :
    (n b : ℕ) (budget cap : ℤ)
    → cap <ℤ pos (2 ^ 63)
    → ceiling (policy budget b cap) (pos (suc n)) ≡ min (suc b * 2 ^ n) cap
unfolding ceiling rounds_of
ceiling-doubles n b budget (pos m) small = ground (arith, double_pos n (suc b) m (ground arith))
ceiling-doubles n b budget (negsuc m) small = ground (arith, double_neg n b m)

-- There is no ceiling before the first attempt, and none for a base delay of zero or less.
ceiling_none :
    (r : Retry) (attempt : ℤ)
    → (attempt <ℤ pos 1) ⊎ (r.base_delay ≤ℤ pos 0)
    → ceiling r attempt ≡ pos 0
unfolding ceiling
ceiling_none r attempt h = ground arith

-- The ceilings do not decrease from one attempt to the next, and none exceeds the cap.
ceiling_rises :
    (n b m : ℕ) (budget : ℤ)
    → m < 2 ^ 63
    → (ceiling (policy budget b (pos m)) (pos (suc n))
        ≤ℤ ceiling (policy budget b (pos m)) (pos (suc (suc n))))
      × (ceiling (policy budget b (pos m)) (pos (suc n)) ≤ℤ pos m)
ceiling_rises n b m budget small =
    let fits : pos m <ℤ pos (2 ^ 63) = ground arith in
    rw (ceiling-doubles n b budget (pos m) fits, ceiling-doubles (suc n) b budget (pos m) fits)
      (ground (arith, shift n (suc b)), ground arith)

-- The attempt budget is the configured one, and never below one.
attempts_positive :
    (r : Retry) → (pos 1 ≤ℤ attempts r) × (pos 1 ≤ℤ r.max_attempts → attempts r ≡ r.max_attempts)
unfolding attempts
attempts_positive r = (ground arith, λ h. ground arith)
