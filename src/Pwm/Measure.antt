-- ===== src/Pwm/Measure.antt =====
-- src/pwm.c: the measurement of the motherboard's signals as a state machine.
use fanpico.Base.{
  sym, ap, ◌∙◌, List, [], ◌∷◌, All, ℕ, suc, ◌-◌, ◌*◌, ◌≤◌, ◌<◌, ◌≡◌, refl, true, false, ◌⊎◌, inl,
  inr, arith, ltb, ◌==◌, update, Bool-cases,
}
use mathlib.Core.Path.{subst}
use fanpico.Base.Arith.{Arith}
use fanpico.Base.Loops.{for_range, for_range_inv}
use fanpico.Types.{FanpicoConfig, filter_none}
use fanpico.Filters.{Heap, apply_filter}
use fanpico.Pwm.{PwmInputs, get_pwm_duty_cycles, read_counter, max_count_of}

-- The slices run exactly in state 1.
abbrev pub IsConsistent : {R : Type 0} → PwmInputs R → Type 0
IsConsistent p = ((p.state ≡ 0) × (p.counting ≡ false)) ⊎ ((p.state ≡ 1) × (p.counting ≡ true))

module _ {R : Type 0} ⦃a : Arith R⦄ (config : FanpicoConfig R) (counters : ℕ → ℕ) where
  -- The duty cycle that a counter stands for, where no filter is set.
  abbrev pub duty_of : R → ℕ → R
  duty_of max_count i = a.single (a.div (a.of_ℕ (counters i * 100)) max_count)

  read_counter_none :
      (max_count : R) (now i : ℕ) (duties : ℕ → R) (heap : Heap R)
      → (config.mbfans i).filter ≡ filter_none
      → read_counter config counters max_count now i (duties, heap)
        ≡ (update duties i (duty_of max_count i), heap)
  unfolding read_counter apply_filter
  read_counter_none max_count now i duties heap e = rw e refl

  -- After the rounds below k: those duty cycles are new, the others as before.
  abbrev Written : R → (ℕ → R) → Heap R → ℕ → (ℕ → R) × Heap R → Type 0
  Written max_count old heap k (duties, heap') =
      ((i : ℕ) → i < k → duties i ≡ duty_of max_count i)
      × ((i : ℕ) → k ≤ i → duties i ≡ old i)
      × (heap' ≡ heap)

  -- The end of a measurement on a board with n connectors.
  abbrev pub Measured : ℕ → R → (ℕ → R) → Heap R → PwmInputs R × Heap R → Type 0
  Measured n max_count old heap (p, heap') =
      ((i : ℕ) → i < n → p.mbfan_pwm_duty i ≡ duty_of max_count i)
      × ((i : ℕ) → n ≤ i → p.mbfan_pwm_duty i ≡ old i)
      × (heap' ≡ heap)
      × (p.state ≡ 0)
      × (p.counting ≡ false)

  write_step :
      (max_count : R) (now : ℕ) (old : ℕ → R) (heap : Heap R) (k : ℕ) (t : (ℕ → R) × Heap R)
      → (config.mbfans k).filter ≡ filter_none
      → Written max_count old heap k t
      → Written max_count old heap (suc k) (read_counter config counters max_count now k t)
  write_step max_count now old heap k (duties, heap') e (new, rest, same) =
      rw (read_counter_none max_count now k duties heap' e) (
        λ i h. elim (Bool-cases (ltb i k)) [
          | inl below ↦ ground (arith, new i)
          | inr here ↦ let i_eq : i ≡ k = ground arith in rw i_eq (ground arith)
        ],
        λ i h. ground (arith, rest i),
        same,
      )

  -- The call that ends a measurement.
  get_pwm_duty_cycles_ends :
      (n : ℕ) (rate : R) (now stopped : ℕ) (p : PwmInputs R) (heap : Heap R)
      → 0 < n
      → p.state ≡ 1
      → 10_000 ≤ now - p.t_start
      → a.le (a.of_ℕ 65535) (max_count_of rate (stopped - p.t_start)) ≡ false
      → get_pwm_duty_cycles n rate config counters now stopped (p, heap) ≡ (
          let (duties, heap') =
            for_range n
              (read_counter config counters (max_count_of rate (stopped - p.t_start)) stopped)
              (p.mbfan_pwm_duty, heap) in
          (record p { state = 0; counting = false; mbfan_pwm_duty = duties }, heap'))
  unfolding get_pwm_duty_cycles
  get_pwm_duty_cycles_ends n rate now stopped p heap pos st long fits =
      let some_connector : (n == 0) ≡ false = ground arith in
      let in_state_1 : (p.state == 0) ≡ false = ground arith in
      let still_1 : (p.state == 1) ≡ true = ground arith in
      let over : ltb (now - p.t_start) 10_000 ≡ false = ground arith in
      rw (some_connector, in_state_1, still_1, over, fits) refl

  get_pwm_duty_cycles-Measured :
      (n : ℕ) (rate : R) (now stopped : ℕ) (p : PwmInputs R) (heap : Heap R)
      → 0 < n
      → p.state ≡ 1
      → 10_000 ≤ now - p.t_start
      → a.le (a.of_ℕ 65535) (max_count_of rate (stopped - p.t_start)) ≡ false
      → ((k : ℕ) → k < n → (config.mbfans k).filter ≡ filter_none)
      → Measured n
          (max_count_of rate (stopped - p.t_start))
          p.mbfan_pwm_duty
          heap
          (get_pwm_duty_cycles n rate config counters now stopped (p, heap))
  get_pwm_duty_cycles-Measured n rate now stopped p heap pos st long fits none_set =
      let max_count = max_count_of rate (stopped - p.t_start) in
      let (new, rest, same) =
        for_range_inv (Written max_count p.mbfan_pwm_duty heap)
          (read_counter config counters max_count stopped) n (p.mbfan_pwm_duty, heap)
          (λ i t l w. write_step max_count stopped p.mbfan_pwm_duty heap i t (none_set i l) w)
          (λ i l. absurd (omega arith), λ i l. refl, refl) in
      rw (get_pwm_duty_cycles_ends n rate now stopped p heap pos st long fits)
        (new, rest, same, refl, refl)

  starts :
      (n : ℕ) (rate : R) (now stopped : ℕ) (p : PwmInputs R) (heap : Heap R)
      → 0 < n
      → p.state ≡ 0
      → get_pwm_duty_cycles n rate config counters now stopped (p, heap)
        ≡ (record p { state = 1; t_start = now; counting = true }, heap)
  unfolding get_pwm_duty_cycles
  starts n rate now stopped p heap pos st =
      let some_connector : (n == 0) ≡ false = ground arith in
      let in_state_0 : (p.state == 0) ≡ true = ground arith in rw (some_connector, in_state_0) refl

  waits :
      (n : ℕ) (rate : R) (now stopped : ℕ) (p : PwmInputs R) (heap : Heap R)
      → p.state ≡ 1
      → now - p.t_start < 10_000
      → get_pwm_duty_cycles n rate config counters now stopped (p, heap) ≡ (p, heap)
  unfolding get_pwm_duty_cycles
  waits n rate now stopped p heap st early =
      let in_state_1 : (p.state == 0) ≡ false = ground arith in
      let still_1 : (p.state == 1) ≡ true = ground arith in
      let not_over : ltb (now - p.t_start) 10_000 ≡ true = ground arith in
      elim (Bool-cases (n == 0)) [
        | inl e ↦ rw (e) refl
        | inr e ↦ rw (e, in_state_1, still_1, not_over) refl
      ]

module _ {R : Type 0} ⦃a : Arith R⦄ (config : FanpicoConfig R) (n : ℕ) (rate : R) where
  -- The calls at some times, with what the counters are then.
  unfoldable pub polls : List (ℕ × (ℕ → ℕ)) → PwmInputs R × Heap R → PwmInputs R × Heap R
  polls [] s = s
  polls ((now, counters) ∷ later) s =
      polls later (get_pwm_duty_cycles n rate config counters now now s)

  polls_wait :
      (calls : List (ℕ × (ℕ → ℕ))) (p : PwmInputs R) (heap : Heap R)
      → p.state ≡ 1
      → All (λ c. c.0 - p.t_start < 10_000) calls
      → polls calls (p, heap) ≡ (p, heap)
  unfolding polls
  polls_wait [] p heap st early = refl
  polls_wait ((now, counters) ∷ later) p heap st (first, rest) =
      ap (polls later) (waits config counters n rate now now p heap st first)
      ∙ polls_wait later p heap st rest

  -- A measurement from its start at t0: with no filter set, calls within 10 ms of it, however many
  -- and whatever the counters are, leave it running; and the first call after that, if the clock
  -- ticks fit 16 bits, stores for each connector of the board the share of the ticks since t0 that
  -- its counter has, in percent, changes no other entry and no filter context, and stops the slices.
  pub get_pwm_duty_cycles_measures :
      (t0 now stopped : ℕ) (first last : ℕ → ℕ) (calls : List (ℕ × (ℕ → ℕ))) (p : PwmInputs R)
      (heap : Heap R)
      → 0 < n
      → p.state ≡ 0
      → All (λ c. c.0 - t0 < 10_000) calls
      → 10_000 ≤ now - t0
      → a.le (a.of_ℕ 65535) (max_count_of rate (stopped - t0)) ≡ false
      → ((k : ℕ) → k < n → (config.mbfans k).filter ≡ filter_none)
      → let running = polls calls (get_pwm_duty_cycles n rate config first t0 t0 (p, heap)) in
        (running ≡ (record p { state = 1; t_start = t0; counting = true }, heap))
        × Measured config last n
            (max_count_of rate (stopped - t0))
            p.mbfan_pwm_duty
            heap
            (get_pwm_duty_cycles n rate config last now stopped running)
  get_pwm_duty_cycles_measures t0 now stopped first last calls p heap pos st early long fits
        none_set =
      let begun = record p { state = 1; t_start = t0; counting = true } in
      let runs =
        ap (polls calls) (starts config first n rate t0 t0 p heap pos st)
        ∙ polls_wait calls begun heap refl early in
      (
        runs,
        subst
            (λ s.
              Measured config last n (max_count_of rate (stopped - t0)) p.mbfan_pwm_duty heap
                (get_pwm_duty_cycles n rate config last now stopped s))
            (sym runs)
            (get_pwm_duty_cycles-Measured config last n rate now stopped begun heap pos refl long
              fits none_set),
      )

module _ {R : Type 0} ⦃a : Arith R⦄ (config : FanpicoConfig R) (counters : ℕ → ℕ) where
  -- Every call keeps the slices running exactly in state 1.
  pub get_pwm_duty_cycles-IsConsistent :
      (n : ℕ) (rate : R) (now stopped : ℕ) (p : PwmInputs R) (heap : Heap R)
      → IsConsistent p
      → IsConsistent (get_pwm_duty_cycles n rate config counters now stopped (p, heap)).0
  unfolding get_pwm_duty_cycles
  get_pwm_duty_cycles-IsConsistent n rate now stopped p heap c = ground arith
