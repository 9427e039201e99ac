-- ===== src/Pulse.antt =====
-- src/pulse_len.c: measuring pulses, by polling a pin and by interrupts.
pub mod Poll
pub mod Interval
mod Tests
use fanpico.Base.{
  ℕ, ◌+◌, ◌-◌, ◌*◌, ◌%◌, ◌^◌, Bool, true, false, not, ◌&&◌, ◌||◌, Option, none, some, List, [], ◌∷◌,
  ltb, leb, ◌==◌, if◌then◌else◌,
}

abbrev pub same : Bool → Bool → Bool
same true b = b
same false b = not b

-- What one round of the loop of `pulse_measure` does: return a length, or go on with a state and
-- the start of the pulse.
pub data Round : Type 0 where
  returns : ℕ → Round
  goes_on : ℕ → ℕ → Round

-- `type` is the level of the pulse, `mode` true for its length and false for the time between two.
unfoldable pub round_of : Bool → Bool → Bool → ℕ → ℕ → ℕ → Round
round_of type mode level now state pulse_start =
    if state == 0 && same level (not type)
    then goes_on 1 pulse_start
    else (if state == 1 && same level type
        then goes_on 2 now
        else (if state == 2 && same level (not type)
            then (if mode then returns (now - pulse_start) else goes_on 3 pulse_start)
            else (if state == 3 && same level type
                then returns (now - pulse_start)
                else goes_on state pulse_start)))

-- The loop over the samples (level, time) of the pin. `none` means that the samples end before the
-- loop does. The times do not decrease.
unfoldable pub measure_from : Bool → Bool → ℕ → ℕ → List (Bool × ℕ) → ℕ → ℕ → Option ℕ
measure_from type mode start timeout [] state pulse_start = none
measure_from type mode start timeout ((level, now) ∷ samples) state pulse_start =
    elim (round_of type mode level now state pulse_start) [
      | returns t ↦ some t
      | goes_on state' pulse_start' ↦
          let rest = measure_from type mode start timeout samples state' pulse_start' in
          if leb (now - start) timeout then rest else some 0
    ]

-- `timeout_ms * 1000` is taken in 32 bits.
unfoldable pub pulse_measure : Bool → Bool → ℕ → ℕ → List (Bool × ℕ) → Option ℕ
unfolding measure_from
pulse_measure type mode timeout_ms start samples =
    measure_from type mode start (timeout_ms * 1000 % 2 ^ 32) samples 0 start

-- The globals of the measurement by interrupts. `enabled` says that the GPIO interrupt is on.
pub record PulseState : Type 0 where
  pub pulse_pin : ℕ
  pub pulse_events : ℕ
  pub pulse_counter : ℕ
  pub measure_complete : Bool
  pub pulse_start : ℕ
  pub pulse_end : ℕ
  pub enabled : Bool

-- The interrupt handler.
unfoldable pub pulse_measure_callback : ℕ → ℕ → PulseState → PulseState
pulse_measure_callback gpio now s =
    if not (gpio == s.pulse_pin) || ltb 1 s.pulse_counter
    then s
    else (if s.pulse_counter == 0
        then record s { pulse_start = now; pulse_counter = s.pulse_counter + 1 }
        else (if s.pulse_counter == 1
            then record s {
              pulse_end = now;
              measure_complete = true;
              pulse_counter = s.pulse_counter + 1;
            }
            else s))

unfoldable pub pulse_setup_interrupt : ℕ → ℕ → PulseState → PulseState
pulse_setup_interrupt gpio events s = record s {
  pulse_pin = gpio;
  pulse_events = events;
  pulse_counter = 2;
  measure_complete = false;
  enabled = true;
}

unfoldable pub pulse_disable_interrupt : PulseState → PulseState
pulse_disable_interrupt s = record s { enabled = false }

unfoldable pub pulse_enable_interrupt : PulseState → PulseState
pulse_enable_interrupt s = record s { enabled = true }

unfoldable pub pulse_start_measure : PulseState → PulseState
unfolding pulse_disable_interrupt pulse_enable_interrupt
pulse_start_measure s =
    let off = pulse_disable_interrupt s in
    pulse_enable_interrupt (record off { pulse_counter = 0; measure_complete = false })

-- The end of a measurement is not before its start.
unfoldable pub pulse_interval : PulseState → ℕ
pulse_interval s = if s.measure_complete then s.pulse_end - s.pulse_start else 0

-- An edge, which the handler sees while the interrupt is enabled.
unfoldable pub deliver : ℕ → ℕ → PulseState → PulseState
deliver gpio now s = if s.enabled then pulse_measure_callback gpio now s else s

-- A sequence of edges (pin, time).
unfoldable pub edges : List (ℕ × ℕ) → PulseState → PulseState
edges [] s = s
edges ((gpio, now) ∷ es) s = edges es (deliver gpio now s)
