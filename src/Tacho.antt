-- ===== src/Tacho.antt =====
-- src/tacho.c: reading the tachometers of the fans, and the frequency for the motherboard.
-- Pins, counters and the time are arguments; `fan_count` and the like are those of the board.
pub mod Queue
pub mod Multiplexed
pub mod Output
pub mod Direct
mod Tests
use fanpico.Base.{
  ℕ, zero, suc, ◌+◌, ◌-◌, ◌*◌, ◌/◌, ◌%◌, ◌^◌, Bool, true, false, ◌&&◌, ◌||◌, Option, none, some,
  ltb, leb, ◌==◌, not, if◌then◌else◌, update,
}
use fanpico.Base.Arith.{Arith}
use fanpico.Base.Loops.{for_range}
use fanpico.Types.{
  FanpicoConfig, FanpicoState, FanOutput, MbInput, RpmMode, rmode_tacho, rmode_lra, TachoSource,
  tacho_fixed, tacho_fan, tacho_min, tacho_max, tacho_avg, fan_max_count,
}
use fanpico.Timing.{time_passed, check_for_change}
use fanpico.Pulse.{PulseState, pulse_start_measure, pulse_interval}
use fanpico.Curve.{tacho_map}

-- `queue` and `queue_pos`: the queue (0 or 1) of each fan, and the position in each queue.
pub record Queues : Type 0 where
  pub queue : ℕ → ℕ
  pub queue_pos : ℕ → ℕ

-- `while (queue[p] != q) { p++; if (p >= FAN_MAX_COUNT) return -1; }`, with the rounds left.
unfoldable pub scan : (ℕ → ℕ) → ℕ → ℕ → ℕ → Option ℕ
scan queue q zero p = none
scan queue q (suc rounds) p =
    let later = scan queue q rounds (p + 1) in
    if queue p == q then some p else (if leb fan_max_count (p + 1) then none else later)

-- `none` is -1.
unfoldable pub next_in_queue : ℕ → Queues → Option ℕ × Queues
next_in_queue q s =
    let p = s.queue_pos q in
    let wrapped = record s { queue_pos = update s.queue_pos q 0 } in
    if leb fan_max_count p then (none, wrapped) else elim (scan s.queue q fan_max_count p) [
      | none ↦ (none, wrapped)
      | some i ↦ (some i, record s { queue_pos = update s.queue_pos q (i + 1) })
    ]

-- The levels of the select pins S0, S1 and S2 for a port.
unfoldable pub multiplexer_select : ℕ → Bool × Bool × Bool
multiplexer_select port = (not (port % 2 == 0), not (port / 2 % 2 == 0), not (port / 4 % 2 == 0))

-- The interrupt handler: counts the pulses of a fan, in 32 bits. The map has 0 for no fan.
unfoldable pub fan_tacho_read_callback : (ℕ → ℕ) → ℕ → (ℕ → ℕ) → ℕ → ℕ
fan_tacho_read_callback gpio_fan_tacho_map gpio counters =
    let fan = gpio_fan_tacho_map (gpio % 32) in
    if ltb 0 fan then update counters (fan - 1) ((counters (fan - 1) + 1) % 2 ^ 32) else counters

module _ {R : Type 0} ⦃a : Arith R⦄ where
  -- The frequency that stands for the level of a locked rotor alarm.
  unfoldable pub lra_freq : FanOutput R → Bool → R
  lra_freq fan lra =
      let rpm = a.of_ℕ (if lra then fan.lra_high else fan.lra_low) in
      a.mul (a.div rpm (a.of_ℕ 60)) (a.of_ℕ fan.rpm_factor)

  unfoldable pub direct_freq : FanpicoConfig R → (ℕ → Bool) → (ℕ → ℕ) → (ℕ → ℕ) → R → ℕ → R
  unfolding lra_freq
  direct_freq config pins counters last s i = elim ((config.fans i).rpm_mode) [
    | rmode_tacho ↦ let pulses = (counters i + 2 ^ 32 - last i) % 2 ^ 32 in a.div (a.of_ℕ pulses) s
    | rmode_lra ↦ lra_freq (config.fans i) (pins i)
  ]

-- The globals of `read_tacho_inputs` on a board with no multiplexer.
pub record DirectReader (R : Type 0) : Type 0 where
  pub counters_last : ℕ → ℕ
  pub last_read : ℕ
  pub fan_tacho_freq : ℕ → R

module _ {R : Type 0} ⦃a : Arith R⦄ where
  -- `counters` is the copy taken on entry, `now` the time after it.
  unfoldable pub read_tacho_direct :
      ℕ → FanpicoConfig R → (ℕ → Bool) → (ℕ → ℕ) → ℕ → DirectReader R → DirectReader R
  unfolding direct_freq
  read_tacho_direct fan_count config pins counters now d =
      let s = a.div (a.of_ℕ (now - d.last_read)) (a.of_ℕ 1_000_000) in
      let store = λ (i : ℕ) (f : ℕ → R).
        update f i (a.single (direct_freq config pins counters d.counters_last s i)) in
      let save = λ (i : ℕ) (l : ℕ → ℕ). update l i (counters i) in
      if ltb (now - d.last_read) 1_000_000 then d else record {
        counters_last = for_range fan_count save d.counters_last;
        last_read = now;
        fan_tacho_freq = for_range fan_count store d.fan_tacho_freq;
      }

-- The statics of `read_tacho_inputs` on a board with a multiplexer, with the queues and the pulse
-- measurement. `fan` is the static `i`, with `none` for -1.
pub record Reader (R : Type 0) : Type 0 where
  pub state : ℕ
  pub q : ℕ
  pub start_t : ℕ
  pub fan : Option ℕ
  pub queues : Queues
  pub mux : Bool × Bool × Bool
  pub pulse : PulseState
  pub fan_tacho_freq : ℕ → R

module _ {R : Type 0} ⦃a : Arith R⦄ where
  -- State 0, with the fan that the queue gives. `started` is the time when the measurement starts.
  unfoldable pub select_fan : (ℕ → ℕ) → ℕ → Reader R → Option ℕ × Queues → Reader R
  select_fan ports started r (none, qs) = record r {
    fan = none;
    queues = qs;
    q = if leb 2 (r.q + 1) then 0 else r.q + 1;
  }
  select_fan ports started r (some i, qs) = record r {
    fan = some i;
    queues = qs;
    q = if r.q == 1 then 0 else r.q;
    mux = multiplexer_select (ports i);
    pulse = pulse_start_measure r.pulse;
    start_t = started;
    state = r.state + 1;
  }

  -- The end of a measurement of fan i: its frequency, back to state 0.
  unfoldable pub finish : ℕ → R → Reader R → Reader R
  finish i f r = record r { fan_tacho_freq = update r.fan_tacho_freq i (a.single f); state = 0 }

  -- State 1 for a fan with a tachometer, with the time t of its pulse (0: none yet).
  unfoldable pub read_pulse : ℕ → ℕ → ℕ → Reader R → Reader R
  unfolding finish
  read_pulse i t now r =
      let (passed, start) = time_passed r.start_t 600 now in
      let spins = record r.queues { queue = update r.queues.queue i 0 } in
      let stands = record r.queues { queue = update r.queues.queue i 1 } in
      let freq = a.div (a.of_ℕ 1) (a.div (a.of_ℕ t) (a.of_ℕ 1_000_000)) in
      if ltb 0 t
      then finish i freq (record r { queues = spins })
      else (if passed
          then finish i (a.of_ℕ 0) (record r { queues = stands; start_t = start })
          else record r { start_t = start })

  unfoldable pub read_fan : FanpicoConfig R → Bool → ℕ → Reader R → Option ℕ → Reader R
  unfolding read_pulse lra_freq
  read_fan config lra now r none = r
  read_fan config lra now r (some i) = elim ((config.fans i).rpm_mode) [
    | rmode_tacho ↦ read_pulse i (pulse_interval r.pulse) now r
    | rmode_lra ↦ finish i (lra_freq (config.fans i) lra) r
  ]

  unfoldable pub read_tacho_multiplexed : (ℕ → ℕ) → FanpicoConfig R → Bool → ℕ → Reader R → Reader R
  unfolding select_fan read_fan
  read_tacho_multiplexed ports config lra now r =
      if r.state == 0
      then select_fan ports now r (next_in_queue r.q r.queues)
      else (if r.state == 1 then read_fan config lra now r r.fan else r)

  -- `roundf(f * 100) / 100.0`, stored as a float.
  unfoldable pub hundredths : R → R
  hundredths f = a.single (a.div (a.round (a.single (a.mul f (a.of_ℕ 100)))) (a.of_ℕ 100))

  -- One round of the loop of `update_tacho_input_freq`.
  unfoldable pub update_fan_freq : FanpicoConfig R → (ℕ → R) → ℕ → FanpicoState R → FanpicoState R
  unfolding hundredths
  update_fan_freq config fan_tacho_freq i st =
      let freq = hundredths (fan_tacho_freq i) in
      let st' = record st { fan_freq = update st.fan_freq i freq } in
      if check_for_change (st.fan_freq_prev i) freq (config.fans i).tacho_hyst
      then record st' { fan_freq_prev = update st.fan_freq_prev i freq }
      else st'

  unfoldable pub update_tacho_input_freq :
      ℕ → FanpicoConfig R → (ℕ → R) → FanpicoState R → FanpicoState R
  update_tacho_input_freq fan_count config fan_tacho_freq =
      for_range fan_count (update_fan_freq config fan_tacho_freq)

  -- The speed of a fan in revolutions per minute.
  unfoldable pub rpm_of : FanpicoState R → FanpicoConfig R → ℕ → R
  rpm_of st config i = a.div (a.mul (st.fan_freq i) (a.of_ℕ 60)) (a.of_ℕ (config.fans i).rpm_factor)

  -- `sum` after a further selected fan with the speed val, when count fans were seen.
  unfoldable pub combine_rpm : TachoSource → ℕ → R → R → R
  combine_rpm tacho_min count val sum = if count == 0 || a.lt val sum then val else sum
  combine_rpm tacho_max count val sum = if count == 0 || a.lt sum val then val else sum
  combine_rpm _ count val sum = if count == 0 then val else a.add sum val

  unfoldable pub combine_fan : FanpicoState R → FanpicoConfig R → MbInput R → ℕ → ℕ × R → ℕ × R
  unfolding rpm_of combine_rpm
  combine_fan st config mb i (count, sum) =
      if mb.sources i == 0
      then (count, sum)
      else (count + 1, combine_rpm mb.s_type count (rpm_of st config i) sum)

  unfoldable pub group_value : TachoSource → ℕ × R → R
  group_value source (zero, sum) = a.of_ℕ 0
  group_value tacho_avg (suc n, sum) = a.div sum (a.of_ℕ (suc n))
  group_value _ (suc n, sum) = sum

  -- The source value of a motherboard connector, in revolutions per minute.
  unfoldable pub source_rpm : ℕ → FanpicoState R → FanpicoConfig R → MbInput R → TachoSource → R
  unfolding rpm_of combine_fan group_value
  source_rpm fan_count st config mb tacho_fixed = a.of_ℕ mb.s_id
  source_rpm fan_count st config mb tacho_fan = rpm_of st config mb.s_id
  source_rpm fan_count st config mb group =
      group_value group (for_range fan_count (combine_fan st config mb) (0, a.of_ℕ 0))

  unfoldable pub limited_rpm : R → R → R → R
  limited_rpm low high val =
      let raised = if a.lt val low then low else val in if a.lt high raised then high else raised

  unfoldable pub calculate_tacho_freq : ℕ → FanpicoState R → FanpicoConfig R → ℕ → R
  calculate_tacho_freq fan_count st config i =
      let mb = config.mbfans i in
      let val = tacho_map mb.curve (source_rpm fan_count st config mb mb.s_type) in
      let rpm =
        limited_rpm (a.of_ℕ mb.min_rpm) (a.of_ℕ mb.max_rpm) (a.mul val mb.rpm_coefficient) in
      a.mul (a.div rpm (a.of_ℕ 60)) (a.of_ℕ mb.rpm_factor)
