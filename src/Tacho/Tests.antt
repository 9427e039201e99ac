-- ===== src/Tacho/Tests.antt =====
-- src/tacho.c: tests, and the theorems at inputs.
use fanpico.Base.{
  none, List, [], ◌∷◌, ℕ, ◌+◌, ◌*◌, ◌≡◌, refl, true, false, some, [], ◌∷◌, arith, ltb,
  if◌then◌else◌,
}
use fanpico.Base.Arith.{ℕ_arith, ℕ-IsOrdered, ℕ-IsScaling, ◌≼◌}
use fanpico.Samples.{config, start}
use fanpico.Pulse.{PulseState, edges}
use fanpico.Pulse.Interval.{times_on, first_interval}
use fanpico.Tacho.{
  Queues, Reader, DirectReader, read_tacho_direct, scan, next_in_queue, multiplexer_select,
  read_tacho_multiplexed, update_tacho_input_freq, calculate_tacho_freq,
}
use fanpico.Tacho.Queue.{Next, next_in_queue-Next}
use fanpico.Tacho.Multiplexed.{
  after_edges, IsValid, Measured, read_tacho_multiplexed-IsValid, read_tacho_multiplexed_measures,
}
use fanpico.Tacho.Direct.{interrupts, pulses, read_tacho_direct_counts}
use fanpico.Tacho.Output.{
  freq_of, Reported, calculate_tacho_freq_bounds, update_tacho_input_freq-Reported,
}

-- Fans 0 to 2 spin, the others stand.
abbrev queues : Queues
queues = record { queue = λ i. if ltb i 3 then 0 else 1; queue_pos = λ q. 1 }

selected_port : multiplexer_select 5 ≡ (true, false, true)
unfolding multiplexer_select
selected_port = refl

next_standing : (next_in_queue 1 queues).0 ≡ some 3
unfolding next_in_queue scan
next_standing = refl

next_in_queue-Next_example :
    Next 1 queues (next_in_queue 1 queues) × ((next_in_queue 1 queues).1.queue ≡ queues.queue)
next_in_queue-Next_example = next_in_queue-Next 1 queues

abbrev timed : PulseState
timed = record {
  pulse_pin = 3;
  pulse_events = 8;
  pulse_counter = 2;
  measure_complete = true;
  pulse_start = 1000;
  pulse_end = 4000;
  enabled = true;
}

abbrev reader : Reader ℕ
reader = record {
  state = 1;
  q = 0;
  start_t = 500;
  fan = some 2;
  queues = queues;
  mux = (false, true, false);
  pulse = timed;
  fan_tacho_freq = λ i. 0;
}

read_tacho_multiplexed-IsValid_example : IsValid (
    read_tacho_multiplexed
      (λ i. i)
      config
      true
      5000
      (record reader { pulse = edges ((3, 4500) ∷ []) timed }))
read_tacho_multiplexed-IsValid_example =
    read_tacho_multiplexed-IsValid (λ i. i) config true 5000 ((3, 4500) ∷ []) reader
      (record { state_in = omega arith; q_in = omega arith; selected = omega arith })

abbrev waiting : Reader ℕ
waiting = record reader { state = 0; q = 1; fan = none }

abbrev edges_seen : List (ℕ × ℕ)
edges_seen = (3, 6000) ∷ (4, 6500) ∷ (3, 9000) ∷ []

read_tacho_multiplexed_measures_example :
    let begun = read_tacho_multiplexed (λ i. i) config true 5000 waiting in
    (begun.mux ≡ multiplexer_select 3)
    × (begun.start_t ≡ 5000)
    × Measured
        (λ i. i)
        config
        true
        3
        (first_interval (times_on 3 edges_seen))
        10_000
        (after_edges (λ i. i) config true edges_seen begun)
        (read_tacho_multiplexed
          (λ i. i)
          config
          true
          10_000
          (after_edges (λ i. i) config true edges_seen begun))
unfolding next_in_queue scan
read_tacho_multiplexed_measures_example =
    read_tacho_multiplexed_measures (λ i. i) config true 5000 10_000 3 edges_seen
      (next_in_queue 1 queues).1 waiting refl refl refl

calculate_tacho_freq_bounds_example :
    (◌≼◌ {R = ℕ} (freq_of ℕ-IsOrdered config 1 0) (calculate_tacho_freq 8 start config 1))
    × (◌≼◌ {R = ℕ} (calculate_tacho_freq 8 start config 1) (freq_of ℕ-IsOrdered config 1 5000))
calculate_tacho_freq_bounds_example =
    calculate_tacho_freq_bounds ℕ-IsOrdered ℕ-IsScaling 8 start config 1 (omega arith)

abbrev measured : ℕ → ℕ
measured i = i * 10 + 5

update_tacho_input_freq-Reported_example :
    Reported config measured start (update_tacho_input_freq 4 config measured start) 3
update_tacho_input_freq-Reported_example =
    update_tacho_input_freq-Reported config measured 4 start 3 (omega arith)

-- The counters are close to the end of their 32 bits.
abbrev last : DirectReader ℕ
last = record { counters_last = λ i. 4_294_967_295; last_read = 500_000; fan_tacho_freq = λ i. 0 }

abbrev fan_of : ℕ → ℕ
fan_of gpio = if ltb gpio 8 then gpio + 1 else 0

abbrev pins_seen : List ℕ
pins_seen = 2 ∷ 3 ∷ 2 ∷ 9 ∷ 2 ∷ []

three_pulses : pulses fan_of 2 pins_seen ≡ 3
unfolding pulses
three_pulses = refl

read_tacho_direct_counts_example :
    (read_tacho_direct {R = ℕ} 8 config
        (λ i. true)
        (interrupts fan_of pins_seen last.counters_last)
        1_500_000
        last).fan_tacho_freq
      2
    ≡ 3
unfolding pulses
read_tacho_direct_counts_example =
    read_tacho_direct_counts config (λ i. true) fan_of pins_seen 8 2 1_500_000 last (omega arith)
      refl (omega arith) (omega arith) (omega (arith, three_pulses))
