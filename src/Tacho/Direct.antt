-- ===== src/Tacho/Direct.antt =====
-- src/tacho.c: counting pulses by interrupts, on a board with no multiplexer.
use fanpico.Base.{
  ℕ, zero, suc, ◌+◌, ◌-◌, ◌%◌, ◌^◌, ◌≤◌, ◌<◌, ◌≡◌, refl, Bool, true, false, inl, inr, arith, ltb,
  ◌==◌, if◌then◌else◌, update, Bool-cases, List, [], ◌∷◌, ◌∙◌, ap,
}
use fanpico.Base.Arith.{Arith}
use fanpico.Base.Loops.{for_range}
use fanpico.Types.{FanpicoConfig, rmode_tacho}
use fanpico.Tacho.{fan_tacho_read_callback, direct_freq, DirectReader, read_tacho_direct}

module _ (gpio_fan_tacho_map : ℕ → ℕ) where
  -- A sequence of interrupts, each by its pin.
  unfoldable pub interrupts : List ℕ → (ℕ → ℕ) → ℕ → ℕ
  interrupts [] counters = counters
  interrupts (gpio ∷ later) counters =
      interrupts later (fan_tacho_read_callback gpio_fan_tacho_map gpio counters)

  -- How many of the interrupts are of fan i.
  unfoldable pub pulses : ℕ → List ℕ → ℕ
  pulses i [] = 0
  pulses i (gpio ∷ later) =
      let rest = pulses i later in
      if gpio_fan_tacho_map (gpio % 32) == i + 1 then rest + 1 else rest

  callback_counts :
      (i gpio : ℕ) (counters : ℕ → ℕ)
      → fan_tacho_read_callback gpio_fan_tacho_map gpio counters i ≡ (
          if gpio_fan_tacho_map (gpio % 32) == i + 1 then (counters i + 1) % 2 ^ 32 else counters i)
  unfolding fan_tacho_read_callback
  callback_counts i gpio counters =
      let fan = gpio_fan_tacho_map (gpio % 32) in
      elim (Bool-cases (fan == i + 1)) [
        | inl e ↦
            let some_fan : ltb 0 fan ≡ true = ground arith in
            let at : fan - 1 ≡ i = ground arith in
            let here : (fan - 1 == i) ≡ true = ground arith in
            rw (some_fan, e, here) (ap (λ j. (counters j + 1) % 2 ^ 32) at)
        | inr other ↦ elim (Bool-cases (ltb 0 fan)) [
          | inl some_fan ↦
              let ne : (fan - 1 == i) ≡ false = ground arith in rw (some_fan, other, ne) refl
          | inr no_fan ↦ rw (no_fan, other) refl
        ]
      ]

  interrupts-pulses :
      (i : ℕ) (gpios : List ℕ) (counters : ℕ → ℕ)
      → counters i < 2 ^ 32
      → interrupts gpios counters i ≡ (counters i + pulses i gpios) % 2 ^ 32
  unfolding interrupts pulses
  interrupts-pulses i [] counters h = omega (arith, h)
  interrupts-pulses i (gpio ∷ later) counters h =
      let next = fan_tacho_read_callback gpio_fan_tacho_map gpio counters in
      let count = callback_counts i gpio counters in
      elim (Bool-cases (gpio_fan_tacho_map (gpio % 32) == i + 1)) [
        | inl e ↦
            let c : next i ≡ (counters i + 1) % 2 ^ 32 = rw e at count in
            rw e (omega (arith, interrupts-pulses i later next (omega (arith, c)), c))
        | inr e ↦
            let c : next i ≡ counters i = rw e at count in
            rw e (omega (arith, interrupts-pulses i later next (omega (arith, c, h)), c))
      ]

module _ {R : Type 0} ⦃a : Arith R⦄ (config : FanpicoConfig R) (pins : ℕ → Bool) where
  -- The loops of the reader over the fans set every entry to a function of its index.
  for_range-update :
      (f : ℕ → R) (n : ℕ) (old : ℕ → R) (i : ℕ)
      → i < n
      → for_range n (λ k l. update l k (f k)) old i ≡ f i
  unfolding for_range
  for_range-update f zero old i h = absurd (omega arith)
  for_range-update f (suc n) old i h = elim (Bool-cases (n == i)) [
    | inl here ↦ let e : n ≡ i = ground arith in rw here (ap f e)
    | inr before ↦ rw before (for_range-update f n old i (ground arith))
  ]

  -- A fan with a tachometer, a second or more after the last reading: its frequency is the number
  -- of its interrupts since then over the time in seconds, even if its counter has wrapped around
  -- between, as long as these are fewer than 2 ^ 32.
  pub read_tacho_direct_counts :
      (gpio_fan_tacho_map : ℕ → ℕ) (gpios : List ℕ) (fan_count i now : ℕ) (d : DirectReader R)
      → i < fan_count
      → (config.fans i).rpm_mode ≡ rmode_tacho
      → 1_000_000 ≤ now - d.last_read
      → d.counters_last i < 2 ^ 32
      → pulses gpio_fan_tacho_map i gpios < 2 ^ 32
      → let counters = interrupts gpio_fan_tacho_map gpios d.counters_last in
        let seconds = a.div (a.of_ℕ (now - d.last_read)) (a.of_ℕ 1_000_000) in
        (read_tacho_direct fan_count config pins counters now d).fan_tacho_freq i
        ≡ a.single (a.div (a.of_ℕ (pulses gpio_fan_tacho_map i gpios)) seconds)
  unfolding read_tacho_direct direct_freq
  read_tacho_direct_counts map gpios fan_count i now d h mode long fits few =
      let counters = interrupts map gpios d.counters_last in
      let due : ltb (now - d.last_read) 1_000_000 ≡ false = ground arith in
      let count : (counters i + 2 ^ 32 - d.counters_last i) % 2 ^ 32 ≡ pulses map i gpios =
        omega (arith, interrupts-pulses map i gpios d.counters_last fits) in
      let seconds = a.div (a.of_ℕ (now - d.last_read)) (a.of_ℕ 1_000_000) in
      let freq : direct_freq config pins counters d.counters_last seconds i
          ≡ a.div (a.of_ℕ (pulses map i gpios)) seconds =
        rw (direct_freq, mode, count) refl in
      rw due (
        for_range-update
          (λ k. a.single (direct_freq config pins counters d.counters_last seconds k)) fan_count
          d.fan_tacho_freq i h
        ∙ ap a.single freq)
