-- ===== src/Flush/Retry/Tests.antt =====
-- Concrete runs of internal/flush/retry.go, and its theorems at a concrete policy.
use icelake.Prelude.{◌≡◌, refl, ◌*◌, ◌^◌, pos, negsuc, arith}
use icelake.Flush.Retry.{half, twice, double, rounds_of, ceiling}
use icelake.Flush.Retry.Ceiling.{policy, min, ceiling-doubles}

third_ceiling : ceiling (policy (pos 5) 99 (pos 1000)) (pos 3) ≡ pos 400
unfolding half twice double rounds_of ceiling
third_ceiling = refl

capped_ceiling : ceiling (policy (pos 5) 99 (pos 1000)) (pos 60) ≡ pos 1000
unfolding half twice double rounds_of ceiling
capped_ceiling = refl

-- A cap below zero.
negative_ceiling : ceiling (policy (pos 5) 99 (negsuc 0)) (pos 3) ≡ negsuc 0
unfolding half twice double rounds_of ceiling
negative_ceiling = refl

ceiling-doubles_example :
    ceiling (policy (pos 5) 99 (pos 1000)) (pos 3) ≡ min (100 * 2 ^ 2) (pos 1000)
ceiling-doubles_example = ceiling-doubles 2 99 (pos 5) (pos 1000) (ground arith)
