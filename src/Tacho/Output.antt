-- ===== src/Tacho/Output.antt =====
-- src/tacho.c: the reported and the generated frequencies.
use fanpico.Base.{
  ℕ, ◌+◌, ◌≤◌, ◌<◌, ◌≡◌, refl, false, ◌⊎◌, inl, inr, arith, Bool-cases, ◌==◌, update_self, ◌∙◌, sym,
}
use mathlib.Core.Path.{subst}
use fanpico.Base.Arith.{Arith, ◌≼◌, IsOrdered, IsScaling}
use fanpico.Base.Loops.{for_range_inv}
use fanpico.Types.{FanpicoConfig, FanpicoState}
use fanpico.Timing.{check_for_change}
use fanpico.Tacho.{
  calculate_tacho_freq, limited_rpm, update_fan_freq, update_tacho_input_freq, hundredths,
}

module _ {R : Type 0} ⦃a : Arith R⦄ (ord : IsOrdered R) where
  open ord use {le_refl, lt-eq-not-le, le_total, of_ℕ_mono}

  limited_rpm_bounds :
      (low high val : R)
      → low ≼ high
      → (low ≼ limited_rpm low high val) × (limited_rpm low high val ≼ high)
  unfolding limited_rpm
  limited_rpm_bounds low high val h = ground (
    arith,
    le_refl low,
    le_refl high,
    lt-eq-not-le val low,
    lt-eq-not-le high val,
    lt-eq-not-le high low,
    le_total low val,
    le_total val high,
  )

  -- The frequency of a speed on a connector.
  abbrev pub freq_of : FanpicoConfig R → ℕ → ℕ → R
  freq_of config i rpm =
      a.mul (a.div (a.of_ℕ rpm) (a.of_ℕ 60)) (a.of_ℕ (config.mbfans i).rpm_factor)

  -- Whatever the source, the map and the coefficient are: the frequency for the motherboard lies
  -- between those of the least and the greatest speed of the connector, if these are in order.
  -- The comparisons are a total order (no NaN), and rounding and scaling keep it.
  pub calculate_tacho_freq_bounds :
      (scaling : IsScaling R) (fan_count : ℕ) (st : FanpicoState R) (config : FanpicoConfig R)
      (i : ℕ)
      → (config.mbfans i).min_rpm ≤ (config.mbfans i).max_rpm
      → (freq_of config i (config.mbfans i).min_rpm ≼ calculate_tacho_freq fan_count st config i)
        × (calculate_tacho_freq fan_count st config i ≼ freq_of config i (config.mbfans i).max_rpm)
  unfolding calculate_tacho_freq
  calculate_tacho_freq_bounds scaling fan_count st config i h =
      let mb = config.mbfans i in
      let (lo, hi) =
        limited_rpm_bounds (a.of_ℕ mb.min_rpm) (a.of_ℕ mb.max_rpm) _ (of_ℕ_mono _ _ h) in
      (
        scaling.mul_mono _ _ mb.rpm_factor (scaling.div_mono _ _ 60 (omega arith) lo),
        scaling.mul_mono _ _ mb.rpm_factor (scaling.div_mono _ _ 60 (omega arith) hi),
      )

module _ {R : Type 0} ⦃a : Arith R⦄ (config : FanpicoConfig R) (freq : ℕ → R) where
  -- The reported frequency of fan i, after the loop, for the states before and after.
  abbrev pub Reported : FanpicoState R → FanpicoState R → ℕ → Type 0
  Reported old st i =
      (st.fan_freq i ≡ hundredths (freq i))
      × ((st.fan_freq_prev i ≡ st.fan_freq i)
          ⊎ ((st.fan_freq_prev i ≡ old.fan_freq_prev i)
              × (check_for_change (st.fan_freq_prev i) (st.fan_freq i) (config.fans i).tacho_hyst
                  ≡ false)))

  abbrev Unreported : FanpicoState R → FanpicoState R → ℕ → Type 0
  Unreported old st i =
      (st.fan_freq i ≡ old.fan_freq i) × (st.fan_freq_prev i ≡ old.fan_freq_prev i)

  abbrev UpTo : FanpicoState R → ℕ → FanpicoState R → Type 0
  UpTo old n st = ((i : ℕ) → i < n → Reported old st i) × ((i : ℕ) → n ≤ i → Unreported old st i)

  update_fan_freq_here :
      (old st : FanpicoState R) (n : ℕ)
      → Unreported old st n
      → Reported old (update_fan_freq config freq n st) n
  unfolding update_fan_freq
  update_fan_freq_here old st n (e, f) =
      ground (arith, update_self st.fan_freq n (hundredths (freq n)))

  update_fan_freq_ne :
      (st : FanpicoState R) (n i : ℕ)
      → (n == i) ≡ false
      → ((update_fan_freq config freq n st).fan_freq i ≡ st.fan_freq i)
        × ((update_fan_freq config freq n st).fan_freq_prev i ≡ st.fan_freq_prev i)
  unfolding update_fan_freq
  update_fan_freq_ne st n i h = ground arith

  Reported-transport :
      (old st t : FanpicoState R) (i : ℕ)
      → (t.fan_freq i ≡ st.fan_freq i) × (t.fan_freq_prev i ≡ st.fan_freq_prev i)
      → Reported old st i
      → Reported old t i
  Reported-transport old st t i (e, f) (g, inl h) = (e ∙ g, inl (f ∙ h ∙ sym e))
  Reported-transport old st t i (e, f) (g, inr (h, k)) = (e ∙ g, inr (f ∙ h, rw (e, f) k))

  Unreported-transport :
      (old st t : FanpicoState R) (i : ℕ)
      → (t.fan_freq i ≡ st.fan_freq i) × (t.fan_freq_prev i ≡ st.fan_freq_prev i)
      → Unreported old st i
      → Unreported old t i
  Unreported-transport old st t i (e, f) (g, h) = (e ∙ g, f ∙ h)

  update_fan_freq-UpTo :
      (old st : FanpicoState R) (n : ℕ)
      → UpTo old n st
      → UpTo old (n + 1) (update_fan_freq config freq n st)
  update_fan_freq-UpTo old st n (done, rest) = (
    λ i h. elim (Bool-cases (n == i)) [
      | inl here ↦
          let e : n ≡ i = ground arith in
          subst (Reported old (update_fan_freq config freq n st)) e
            (update_fan_freq_here old st n (rest n (omega arith)))
      | inr before ↦
          let l : i < n = ground arith in
          Reported-transport old st (update_fan_freq config freq n st) i
            (update_fan_freq_ne st n i before) (done i l)
    ],
    λ i h.
        let ne : (n == i) ≡ false = ground arith in
        Unreported-transport old st (update_fan_freq config freq n st) i
          (update_fan_freq_ne st n i ne) (rest i (omega arith)),
  )

  all-UpTo :
      (fan_count : ℕ) (st : FanpicoState R)
      → UpTo st fan_count (update_tacho_input_freq fan_count config freq st)
  unfolding update_tacho_input_freq
  all-UpTo fan_count st =
      for_range_inv (λ n t. UpTo st n t) (update_fan_freq config freq) fan_count st
        (λ i t l h.
          subst (λ n. UpTo st n (update_fan_freq config freq i t)) (omega arith)
            (update_fan_freq-UpTo st t i h))
        (λ i l. absurd (omega arith), λ i l. (refl, refl))

  -- After the loop each fan below the fan count has its measured frequency, rounded to hundredths;
  -- the previous frequency, to which the next one is compared, is either that frequency or the one
  -- before, and then the difference is below the hysteresis.
  pub update_tacho_input_freq-Reported :
      (fan_count : ℕ) (st : FanpicoState R) (i : ℕ)
      → i < fan_count
      → Reported st (update_tacho_input_freq fan_count config freq st) i
  update_tacho_input_freq-Reported fan_count st i h = (all-UpTo fan_count st).0 i h
