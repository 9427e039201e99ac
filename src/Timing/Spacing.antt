-- ===== src/Timing/Spacing.antt =====
-- src/util_rp2.c, `time_passed`: how often a part of a main loop runs.
use fanpico.Base.{
  ℕ, ◌+◌, ◌*◌, ◌<◌, ◌≡◌, false, ltb, ◌==◌, if◌then◌else◌, List, [], ◌∷◌, arith, Bool-cases, inl,
  inr,
}
use fanpico.Timing.{time_passed}

-- The times of a loop at which a timer fires, with the timer's value before.
unfoldable pub firings : ℕ → ℕ → List ℕ → List ℕ
firings t ms [] = []
firings t ms (now ∷ later) =
    let (passed, t') = time_passed t ms now in
    let rest = firings t' ms later in if passed then now ∷ rest else rest

-- Each of the times is more than ms milliseconds after the one before it, the first after t.
abbrev pub Spaced : ℕ → ℕ → List ℕ → Type 0
Spaced t ms [] = Unit
Spaced t ms (u ∷ us) = (t + ms * 1000 < u) × Spaced u ms us

-- The times are not 0: boot is over.
abbrev pub Positive : List ℕ → Type 0
Positive [] = Unit
Positive (u ∷ us) = (0 < u) × Positive us

-- A timer that has been started fires at times that are each more than its interval after the one
-- before.
pub firings-Spaced :
    (t ms : ℕ) (times : List ℕ) → 0 < t → Positive times → Spaced t ms (firings t ms times)
unfolding firings time_passed
firings-Spaced t ms [] h p = tt
firings-Spaced t ms (now ∷ later) h (p, ps) =
    let started : (t == 0) ≡ false = ground arith in
    elim (Bool-cases (ltb (t + ms * 1000) now)) [
      | inl fires ↦ rw (started, fires) (ground arith, firings-Spaced now ms later p ps)
      | inr waits ↦ rw (started, waits) (firings-Spaced t ms later h ps)
    ]
