-- ===== src/Timing.antt =====
-- src/util_rp2.c and src/util.c: the timers of the two main loops, and the test for a change.
-- A time is a number of microseconds since boot, far from the end of its 64 bits.
pub mod Spacing
mod Tests
use fanpico.Base.{ℕ, ◌+◌, ◌*◌, Bool, true, false, ◌||◌, ltb, ◌==◌, if◌then◌else◌}
use fanpico.Base.Int.{pos, ◌-ℤ◌, ltb_ℤ}
use fanpico.Base.Arith.{Arith}

-- `time_passed(&t, ms)` at the time `now`: whether the timer has run out, and the timer.
unfoldable pub time_passed : ℕ → ℕ → ℕ → Bool × ℕ
time_passed t ms now = if t == 0 || ltb (t + ms * 1000) now then (true, now) else (false, t)

-- `time_elapsed(t, ms)`: the difference is signed, and compared as an unsigned 64-bit number, so
-- that a time to come counts as long ago.
unfoldable pub time_elapsed : ℕ → ℕ → ℕ → Bool
time_elapsed t ms now = if ltb now t then true else ltb_ℤ (pos (ms * 1000)) (pos now -ℤ pos t)

module _ {R : Type 0} ⦃a : Arith R⦄ where
  unfoldable pub check_for_change : R → R → R → Bool
  check_for_change oldval newval threshold = a.le threshold (a.fabs (a.sub oldval newval))
