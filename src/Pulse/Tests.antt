-- ===== src/Pulse/Tests.antt =====
-- src/pulse_len.c: tests, and the theorems at inputs.
use fanpico.Base.{ℕ, ◌≡◌, refl, true, false, some, List, [], ◌∷◌, Bool, arith}
use fanpico.Pulse.{
  PulseState, pulse_start_measure, pulse_interval, edges, deliver, pulse_measure_callback,
  pulse_measure, round_of,
}
use fanpico.Pulse.Interval.{times_on, first_interval, pulse_interval-edges}
use fanpico.Pulse.Poll.{first_pulse, pulse_measure_first}

abbrev idle : PulseState
idle = record {
  pulse_pin = 3;
  pulse_events = 8;
  pulse_counter = 2;
  measure_complete = false;
  pulse_start = 0;
  pulse_end = 0;
  enabled = true;
}

abbrev seen : List (ℕ × ℕ)
seen = (3, 100) ∷ (4, 150) ∷ (3, 300) ∷ (3, 900) ∷ []

interval : pulse_interval (edges seen (pulse_start_measure idle)) ≡ 200
unfolding pulse_interval edges deliver pulse_measure_callback pulse_start_measure
interval = refl

pulse_interval-edges_example :
    pulse_interval (edges seen (pulse_start_measure idle)) ≡ first_interval (times_on 3 seen)
pulse_interval-edges_example = pulse_interval-edges seen idle

abbrev polled : List (Bool × ℕ)
polled = (true, 10) ∷ (false, 20) ∷ (true, 30) ∷ (true, 40) ∷ (false, 55) ∷ []

high_pulse : pulse_measure true true 1 5 polled ≡ some 25
unfolding pulse_measure round_of
high_pulse = refl

pulse_measure_first_example : pulse_measure true true 1 5 polled ≡ first_pulse true polled
pulse_measure_first_example = pulse_measure_first true 1 5 polled (omega arith) (ground arith)
