-- ===== src/Flush/Retry.antt =====
-- internal/flush/retry.go: the retry budget and the backoff schedule.
pub mod Ceiling
mod Tests
use icelake.Prelude.{
  ℕ, zero, suc, ◌*◌, ◌/◌, ◌%◌, ◌^◌, ℤ, pos, negsuc, Bool, true, false, not, ◌||◌, if◌then◌else◌,
  ltb_ℤ, to_uint64, to_int64,
}

-- `int` and `time.Duration` are 64-bit integers.
pub record Retry : Type 0 where
  pub max_attempts : ℤ
  pub base_delay : ℤ
  pub max_delay : ℤ

unfoldable pub attempts : Retry → ℤ
attempts r = if ltb_ℤ r.max_attempts (pos 1) then pos 1 else r.max_attempts

-- `d / 2`, which Go rounds towards zero, and `d *= 2`, which wraps around.
pub half : ℤ → ℤ
half (pos n) = pos (n / 2)
half (negsuc zero) = pos 0
half (negsuc (suc n)) = negsuc (n / 2)

pub twice : ℤ → ℤ
twice d = to_int64 (2 * to_uint64 d % 2 ^ 64)

-- The loop of `ceiling` with `rounds` rounds left, and the cap behind it.
pub double : ℕ → ℤ → ℤ → ℤ
double zero d max_delay = if ltb_ℤ max_delay d then max_delay else d
double (suc rounds) d max_delay =
    let rest = double rounds (twice d) max_delay in
    if ltb_ℤ (half max_delay) d then max_delay else rest

-- `range attempt - 1`
pub rounds_of : ℤ → ℕ
rounds_of (pos (suc n)) = n
rounds_of _ = 0

pub ceiling : Retry → ℤ → ℤ
ceiling r attempt =
    if ltb_ℤ attempt (pos 1) || not (ltb_ℤ (pos 0) r.base_delay)
    then pos 0
    else double (rounds_of attempt) r.base_delay r.max_delay
