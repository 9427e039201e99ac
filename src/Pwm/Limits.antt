-- ===== src/Pwm/Limits.antt =====
-- src/pwm.c: the duty cycle of an output keeps its limits, and so does the level written for it.
use fanpico.Base.{
  ℕ, ◌+◌, ◌*◌, ◌^◌, ◌≤◌, ◌<◌, ◌≡◌, refl, true, false, ◌⊎◌, inl, inr, Bool-cases, arith,
}
use fanpico.Base.Arith.{IsScaling, Arith, ◌≼◌, IsOrdered, ℕ_arith}
use fanpico.Types.{FanpicoConfig, FanpicoState}
use fanpico.Filters.{Heap}
use fanpico.Pwm.{limited, calculate_pwm_duty, pwm_level}

module _ {R : Type 0} ⦃a : Arith R⦄ (ord : IsOrdered R) where
  open ord use {le_refl, le_trans, lt-eq-not-le, le_total, of_ℕ_mono}

  limited_bounds :
      (low high val : R) → low ≼ high → (low ≼ limited low high val) × (limited low high val ≼ high)
  unfolding limited
  limited_bounds low high val h = ground (
    arith,
    le_refl low,
    le_refl high,
    lt-eq-not-le val low,
    lt-eq-not-le high val,
    lt-eq-not-le high low,
    le_total low val,
    le_total val high,
  )

  limited_inside : (low high val : R) → low ≼ val → val ≼ high → limited low high val ≡ val
  unfolding limited
  limited_inside low high val l h = ground (arith, lt-eq-not-le val low, lt-eq-not-le high val)

  -- Whatever the source, the filter, the map and the coefficient are: the duty cycle of an output
  -- whose limits are in order lies between them.
  -- The comparisons are a total order (no value is NaN).
  pub calculate_pwm_duty_bounds :
      (st : FanpicoState R) (config : FanpicoConfig R) (i now : ℕ) (heap : Heap R)
      → (config.fans i).min_pwm ≤ (config.fans i).max_pwm
      → (a.of_ℕ (config.fans i).min_pwm ≼ (calculate_pwm_duty st config i now heap).0)
        × ((calculate_pwm_duty st config i now heap).0 ≼ a.of_ℕ (config.fans i).max_pwm)
  unfolding calculate_pwm_duty
  calculate_pwm_duty_bounds st config i now heap h =
      limited_bounds (a.of_ℕ (config.fans i).min_pwm) (a.of_ℕ (config.fans i).max_pwm) _
        (of_ℕ_mono _ _ h)

module _ {R : Type 0} ⦃a : Arith R⦄ (ord : IsOrdered R) (scaling : IsScaling R) where
  open ord use {le_total}
  open scaling use {
    mul_mono, div_mono, single_mono, to_uint_mono, mul-of_ℕ, div-of_ℕ, single-of_ℕ, to_uint-of_ℕ,
  }

  -- The level of a duty cycle below 100.
  scaled-le :
      (top : ℕ) (duty : R)
      → (top + 1) * 100 < 2 ^ 24
      → duty ≼ a.of_ℕ 100
      → a.to_uint (a.single (a.div (a.single (a.mul duty (a.of_ℕ (top + 1)))) (a.of_ℕ 100)))
        ≤ top + 1
  scaled-le top duty h d =
      let product = a.mul duty (a.of_ℕ (top + 1)) in
      let big : a.mul (a.of_ℕ 100) (a.of_ℕ (top + 1)) ≡ a.of_ℕ (100 * (top + 1)) =
        mul-of_ℕ 100 (top + 1) (omega arith) in
      let one : a.single product ≼ a.of_ℕ (100 * (top + 1)) =
        rw (big, single-of_ℕ (100 * (top + 1)) (omega arith)) at
          (single_mono _ _ (mul_mono duty (a.of_ℕ 100) (top + 1) d)) in
      let two : a.single (a.div (a.single product) (a.of_ℕ 100)) ≼ a.of_ℕ (top + 1) =
        rw (div-of_ℕ (top + 1) 100 (omega arith) (omega arith), single-of_ℕ (top + 1) (omega arith))
          at (single_mono _ _ (div_mono _ _ 100 (omega arith) one)) in
      rw (to_uint-of_ℕ (top + 1) (omega arith)) at (to_uint_mono _ _ two)

  -- The level written to the PWM hardware, whose counter runs from 0 to `top`, is at most top + 1
  -- (always on). It is top + 1 for a duty cycle from 100 on, and otherwise 0 for one not above 0.
  -- The top is such that (top + 1) * 100 is exact in single precision.
  -- The comparisons are a total order (no NaN), and rounding and scaling keep it.
  pub pwm_level_bounds :
      (top : ℕ) (duty : R)
      → (top + 1) * 100 < 2 ^ 24
      → (pwm_level top duty ≤ top + 1)
        × (((a.of_ℕ 100 ≼ duty) × (pwm_level top duty ≡ top + 1))
            ⊎ ((a.le (a.of_ℕ 100) duty ≡ false)
                × ((a.lt (a.of_ℕ 0) duty ≡ true) ⊎ (pwm_level top duty ≡ 0))))
  unfolding pwm_level
  pwm_level_bounds top duty h = (
    ground (arith, scaled-le top duty h, le_total duty (a.of_ℕ 100)),
    elim (Bool-cases (a.le (a.of_ℕ 100) duty)) [
      | inl full ↦ inl (full, rw full refl)
      | inr part ↦ elim (Bool-cases (a.lt (a.of_ℕ 0) duty)) [
        | inl some_duty ↦ inr (part, inl some_duty)
        | inr off ↦ inr (part, inr (rw (part, off) refl))
      ]
    ],
  )
