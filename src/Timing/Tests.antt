-- ===== src/Timing/Tests.antt =====
-- src/util_rp2.c: tests of the timers, and the theorem at an input.
use fanpico.Base.{ℕ, ◌≡◌, refl, true, List, [], ◌∷◌, arith}
use fanpico.Timing.{time_elapsed}
use fanpico.Timing.Spacing.{firings, Spaced, firings-Spaced}

-- A time to come counts as elapsed.
to_come : time_elapsed 900 1 100 ≡ true
unfolding time_elapsed
to_come = refl

abbrev times : List ℕ
times = 1500 ∷ 2100 ∷ 2900 ∷ 3200 ∷ []

firings-Spaced_example : Spaced 1000 1 (firings 1000 1 times)
firings-Spaced_example = firings-Spaced 1000 1 times (omega arith) (ground arith)
