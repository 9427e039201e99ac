-- ===== src/Pulse/Interval.antt =====
-- src/pulse_len.c: the measurement by interrupts gives the time between the first two edges.
use fanpico.Base.{
  ℕ, ◌-◌, ◌≤◌, ◌≡◌, refl, true, false, inl, inr, arith, List, [], ◌∷◌, ◌==◌, if◌then◌else◌,
  Bool-cases, ap, ◌∙◌,
}
use fanpico.Pulse.{
  deliver, PulseState, pulse_measure_callback, pulse_start_measure, pulse_interval, edges,
}

-- The times of the edges on a pin.
unfoldable pub times_on : ℕ → List (ℕ × ℕ) → List ℕ
times_on pin [] = []
times_on pin ((gpio, now) ∷ es) = if gpio == pin then now ∷ times_on pin es else times_on pin es

-- The interval between the first two times, 0 if there are fewer.
unfoldable pub first_interval : List ℕ → ℕ
first_interval (t ∷ u ∷ _) = u - t
first_interval _ = 0

deliver_done : (gpio now : ℕ) (s : PulseState) → 2 ≤ s.pulse_counter → deliver gpio now s ≡ s
unfolding deliver pulse_measure_callback
deliver_done gpio now s h = ground arith

deliver_other :
    (gpio now : ℕ) (s : PulseState) → (gpio == s.pulse_pin) ≡ false → deliver gpio now s ≡ s
unfolding deliver pulse_measure_callback
deliver_other gpio now s h = ground arith

deliver_first :
    (gpio now : ℕ) (s : PulseState)
    → (gpio == s.pulse_pin) ≡ true
    → s.enabled ≡ true
    → s.pulse_counter ≡ 0
    → deliver gpio now s ≡ record s { pulse_start = now; pulse_counter = 1 }
unfolding deliver pulse_measure_callback
deliver_first gpio now s h on c = ground arith

deliver_second :
    (gpio now : ℕ) (s : PulseState)
    → (gpio == s.pulse_pin) ≡ true
    → s.enabled ≡ true
    → s.pulse_counter ≡ 1
    → deliver gpio now s ≡ record s { pulse_end = now; measure_complete = true; pulse_counter = 2 }
unfolding deliver pulse_measure_callback
deliver_second gpio now s h on c = ground arith

-- Once two edges are seen, nothing changes.
edges_done : (es : List (ℕ × ℕ)) (s : PulseState) → 2 ≤ s.pulse_counter → edges es s ≡ s
unfolding edges
edges_done [] s h = refl
edges_done ((gpio, now) ∷ es) s h = ap (edges es) (deliver_done gpio now s h) ∙ edges_done es s h

after_second :
    (es : List (ℕ × ℕ)) (s : PulseState) (now : ℕ)
    → pulse_interval
        (edges es (record s { pulse_end = now; measure_complete = true; pulse_counter = 2 }))
      ≡ now - s.pulse_start
unfolding pulse_interval
after_second es s now =
    let t = record s { pulse_end = now; measure_complete = true; pulse_counter = 2 } in
    ap pulse_interval (edges_done es t (omega arith))

after_first :
    (es : List (ℕ × ℕ)) (s : PulseState)
    → s.enabled ≡ true
    → s.pulse_counter ≡ 1
    → s.measure_complete ≡ false
    → pulse_interval (edges es s) ≡ first_interval (s.pulse_start ∷ times_on s.pulse_pin es)
unfolding edges times_on pulse_interval first_interval
after_first [] s on c open_ = empty
  where
    empty : pulse_interval s ≡ first_interval (s.pulse_start ∷ [])
    empty = ground arith
after_first ((gpio, now) ∷ es) s on c open_ = elim (Bool-cases (gpio == s.pulse_pin)) [
  | inl here ↦
      ap (λ t. pulse_interval (edges es t)) (deliver_second gpio now s here on c)
      ∙ after_second es s now
      ∙ rw here refl
  | inr other ↦
      ap (λ t. pulse_interval (edges es t)) (deliver_other gpio now s other)
      ∙ after_first es s on c open_
      ∙ rw other refl
]

from_start :
    (es : List (ℕ × ℕ)) (s : PulseState)
    → s.enabled ≡ true
    → s.pulse_counter ≡ 0
    → s.measure_complete ≡ false
    → pulse_interval (edges es s) ≡ first_interval (times_on s.pulse_pin es)
unfolding edges times_on pulse_interval first_interval
from_start [] s on c open_ = ground arith
from_start ((gpio, now) ∷ es) s on c open_ = elim (Bool-cases (gpio == s.pulse_pin)) [
  | inl here ↦
      ap (λ t. pulse_interval (edges es t)) (deliver_first gpio now s here on c)
      ∙ after_first es (record s { pulse_start = now; pulse_counter = 1 }) on refl open_
      ∙ rw here refl
  | inr other ↦
      ap (λ t. pulse_interval (edges es t)) (deliver_other gpio now s other)
      ∙ from_start es s on c open_
      ∙ rw other refl
]

-- From the start of a measurement on, whatever edges come on whatever pins: the interval read is
-- the time from the first edge on the pin measured to the second, and 0 while there are fewer.
pub pulse_interval-edges :
    (es : List (ℕ × ℕ)) (s : PulseState)
    → pulse_interval (edges es (pulse_start_measure s)) ≡ first_interval (times_on s.pulse_pin es)
unfolding pulse_start_measure
pulse_interval-edges es s =
    from_start es (record s { pulse_counter = 0; measure_complete = false; enabled = true }) refl
      refl refl
