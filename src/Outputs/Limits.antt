-- ===== src/Outputs/Limits.antt =====
-- src/fanpico.c, `update_outputs`: the limits of every output, and what the hardware is told.
use fanpico.Base.{
  ℕ, ◌+◌, ◌^◌, ◌<◌, ◌≤◌, ◌≡◌, refl, false, ◌⊎◌, inl, inr, arith, Bool-cases, ◌==◌, update_self, ◌∙◌,
  sym, ap,
}
use mathlib.Core.Path.{subst}
use fanpico.Base.Arith.{Arith, ◌≼◌, IsOrdered, IsScaling}
use fanpico.Base.Loops.{for_range, for_range_inv}
use fanpico.Tacho.{calculate_tacho_freq}
use fanpico.Types.{RpmMode, rmode_tacho, rmode_lra, FanpicoConfig}
use fanpico.Timing.{check_for_change}
use fanpico.Pwm.{pwm_level, calculate_pwm_duty}
use fanpico.Pwm.Limits.{calculate_pwm_duty_bounds}
use fanpico.Outputs.{
  Signals, OutputSetup, World, update_fan, update_mbfan, update_outputs, write_tacho,
}

module _ {R : Type 0} ⦃a : Arith R⦄ (setup : OutputSetup) (cfg config : FanpicoConfig R)
    (now : ℕ) where
  -- The duty cycle of fan i after the loop lies between the limits, and it is the one that the
  -- hardware was told, or differs by less than the hysteresis from that of an unchanged output.
  pub record Driven (old new : World R) (i : ℕ) : Type 0 where
    pub low : a.of_ℕ (config.fans i).min_pwm ≼ new.0.fan_duty i
    pub high : new.0.fan_duty i ≼ a.of_ℕ (config.fans i).max_pwm
    pub told :
        ((new.0.fan_duty_prev i ≡ new.0.fan_duty i)
          × (new.2.gpio_level i ≡ pwm_level setup.pwm_out_top (new.0.fan_duty i)))
        ⊎ ((new.0.fan_duty_prev i ≡ old.0.fan_duty_prev i)
            × (new.2.gpio_level i ≡ old.2.gpio_level i)
            × (check_for_change (old.0.fan_duty_prev i) (new.0.fan_duty i) (cfg.fans i).pwm_hyst
                ≡ false))

  -- The two states have the same output i.
  pub record SameFan (old new : World R) (i : ℕ) : Type 0 where
    pub duty : new.0.fan_duty i ≡ old.0.fan_duty i
    pub prev : new.0.fan_duty_prev i ≡ old.0.fan_duty_prev i
    pub level : new.2.gpio_level i ≡ old.2.gpio_level i

  update_fan_ne :
      (w : World R) (n i : ℕ) → (n == i) ≡ false → SameFan w (update_fan setup cfg config now n w) i
  unfolding update_fan
  update_fan_ne w n i h = record { duty = ground arith; prev = ground arith; level = ground arith }

  Driven-SameFan :
      (old w new : World R) (i : ℕ) → SameFan w new i → Driven old w i → Driven old new i
  Driven-SameFan old w new i s d = record {
    low = rw (s.duty) d.low;
    high = rw (s.duty) d.high;
    told = rw (s.duty, s.prev, s.level) d.told;
  }

  SameFan-trans :
      (old w new : World R) (i : ℕ) → SameFan old w i → SameFan w new i → SameFan old new i
  SameFan-trans old w new i s t = record {
    duty = t.duty ∙ s.duty;
    prev = t.prev ∙ s.prev;
    level = t.level ∙ s.level;
  }

  write_tacho_level :
      (i : ℕ) (freq : R) (m : RpmMode) (hw : Signals)
      → (write_tacho setup.sys_clock (cfg.mbfans i) i freq m hw).gpio_level ≡ hw.gpio_level
  unfolding write_tacho
  write_tacho_level i freq rmode_tacho hw = refl
  write_tacho_level i freq rmode_lra hw = refl

  update_mbfan-SameFan : (w : World R) (n i : ℕ) → SameFan w (update_mbfan setup cfg config n w) i
  unfolding update_mbfan
  update_mbfan-SameFan w n i =
      let freq = a.single (calculate_tacho_freq setup.fan_count w.0 config n) in
      elim (Bool-cases (check_for_change (w.0.mbfan_freq_prev n) freq (a.of_ℕ 1))) [
        | inl change ↦ rw change record {
          duty = refl;
          prev = refl;
          level = ap (λ f. f i) (write_tacho_level n freq (cfg.mbfans n).rpm_mode w.2);
        }
        | inr still ↦ rw still record { duty = refl; prev = refl; level = refl }
      ]

  -- The limits of output i are in order, and are exact in single precision.
  abbrev pub LimitsOf : ℕ → Type 0
  LimitsOf i =
      ((config.fans i).min_pwm ≤ (config.fans i).max_pwm) × ((config.fans i).max_pwm < 2 ^ 24)

  duty_bounds :
      (ord : IsOrdered R) (scaling : IsScaling R) (w : World R) (n : ℕ)
      → LimitsOf n
      → let duty = a.single (calculate_pwm_duty w.0 config n now w.1).0 in
        (a.of_ℕ (config.fans n).min_pwm ≼ duty) × (duty ≼ a.of_ℕ (config.fans n).max_pwm)
  duty_bounds ord scaling w n (h, k) =
      let fan = config.fans n in
      let (lo, hi) = calculate_pwm_duty_bounds ord w.0 config n now w.1 h in
      (
        rw (scaling.single-of_ℕ fan.min_pwm (omega arith)) at (scaling.single_mono _ _ lo),
        rw (scaling.single-of_ℕ fan.max_pwm k) at (scaling.single_mono _ _ hi),
      )

  update_fan_here :
      (ord : IsOrdered R) (scaling : IsScaling R) (old w : World R) (n : ℕ)
      → LimitsOf n
      → SameFan old w n
      → Driven old (update_fan setup cfg config now n w) n
  unfolding update_fan
  update_fan_here ord scaling old w n h s =
      let duty = a.single (calculate_pwm_duty w.0 config n now w.1).0 in
      let (lo, hi) = duty_bounds ord scaling w n h in
      let here = update_self w.0.fan_duty n duty in
      elim (Bool-cases (check_for_change (w.0.fan_duty_prev n) duty (cfg.fans n).pwm_hyst)) [
        | inl change ↦ rw change record {
          low = rw here lo;
          high = rw here hi;
          told = inl (
            update_self w.0.fan_duty_prev n duty ∙ sym here,
            update_self w.2.gpio_level n (pwm_level setup.pwm_out_top duty)
                ∙ ap (pwm_level setup.pwm_out_top) (sym here),
          );
        }
        | inr still ↦ rw still record {
          low = rw here lo;
          high = rw here hi;
          told = inr (s.prev, s.level, rw (here, sym s.prev) still);
        }
      ]

  -- The invariant of the loop over the fans.
  abbrev UpTo : World R → ℕ → World R → Type 0
  UpTo old n w = ((i : ℕ) → i < n → Driven old w i) × ((i : ℕ) → n ≤ i → SameFan old w i)

  update_fan-UpTo :
      (ord : IsOrdered R) (scaling : IsScaling R) (old w : World R) (n : ℕ)
      → LimitsOf n
      → UpTo old n w
      → UpTo old (n + 1) (update_fan setup cfg config now n w)
  update_fan-UpTo ord scaling old w n h (done, rest) =
      let w' = update_fan setup cfg config now n w in
      let here = update_fan_here ord scaling old w n h (rest n (omega arith)) in
      (
        λ i k. elim (Bool-cases (n == i)) [
          | inl e ↦ let e' : n ≡ i = ground arith in subst (Driven old w') e' here
          | inr ne ↦ Driven-SameFan old w w' i (update_fan_ne w n i ne) (done i (ground arith))
        ],
        λ i k. SameFan-trans old w w' i (rest i (omega arith)) (update_fan_ne w n i (ground arith)),
      )

  all_fans-Driven :
      (ord : IsOrdered R) (scaling : IsScaling R) (n : ℕ) (w : World R)
      → ((k : ℕ) → k < n → LimitsOf k)
      → UpTo w n (for_range n (update_fan setup cfg config now) w)
  all_fans-Driven ord scaling n w limits =
      for_range_inv (λ k v. UpTo w k v) (update_fan setup cfg config now) n w
        (λ k v l u.
          subst (λ m. UpTo w m (update_fan setup cfg config now k v)) (omega arith)
            (update_fan-UpTo ord scaling w v k (limits k l) u))
        (λ i l. absurd (omega arith), λ i l. record { duty = refl; prev = refl; level = refl })

  all_mbfans-SameFan :
      (n : ℕ) (w : World R) (i : ℕ) → SameFan w (for_range n (update_mbfan setup cfg config) w) i
  all_mbfans-SameFan n w i =
      for_range_inv (λ k v. SameFan w v i) (update_mbfan setup cfg config) n w
        (λ k v l s.
          SameFan-trans w v (update_mbfan setup cfg config k v) i s (update_mbfan-SameFan v k i))
        (record { duty = refl; prev = refl; level = refl })

  -- After the outputs are updated, every fan of the board has a duty cycle between the limits of
  -- its configuration. Either the hardware is at the level of this duty cycle, which is also noted
  -- as the previous one, or the hardware and the previous duty cycle are as before and that differs
  -- from the new one by less than the hysteresis. The limits of every fan are in order and below
  -- 2 ^ 24, comparisons are a total order (no NaN), and rounding and scaling keep it.
  pub update_outputs-Driven :
      (ord : IsOrdered R) (scaling : IsScaling R) (w : World R) (i : ℕ)
      → ((k : ℕ) → k < setup.fan_count → LimitsOf k)
      → i < setup.fan_count
      → Driven w (update_outputs setup cfg config now w) i
  unfolding update_outputs
  update_outputs-Driven ord scaling w i limits h =
      let mid = for_range setup.fan_count (update_fan setup cfg config now) w in
      Driven-SameFan w mid (update_outputs setup cfg config now w) i
        (all_mbfans-SameFan setup.mbfan_count mid i)
        ((all_fans-Driven ord scaling setup.fan_count w limits).0 i h)
