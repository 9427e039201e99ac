-- ===== src/Pulse/Poll.antt =====
-- src/pulse_len.c: the measurement by polling gives the length of the first whole pulse.
use fanpico.Base.{
  ℕ, ◌-◌, ◌*◌, ◌%◌, ◌^◌, ◌≤◌, ◌≡◌, refl, Bool, true, not, Option, none, some, arith, List, [], ◌∷◌,
  leb, if◌then◌else◌, All,
}
use fanpico.Pulse.{same, round_of, measure_from, pulse_measure}

-- The first time at which the pin has a level, and the samples after it.
unfoldable pub wait_for : Bool → List (Bool × ℕ) → Option (ℕ × List (Bool × ℕ))
wait_for b [] = none
wait_for b ((level, now) ∷ samples) =
    let later = wait_for b samples in if same level b then some (now, samples) else later

-- The length from a start to the next change of the level.
unfoldable pub length_from : Bool → ℕ → List (Bool × ℕ) → Option ℕ
length_from type t samples = elim (wait_for (not type) samples) [
  | none ↦ none
  | some (u, rest) ↦ some (u - t)
]

-- The length of the first pulse that begins in the samples.
unfoldable pub pulse_in : Bool → List (Bool × ℕ) → Option ℕ
pulse_in type samples = elim (wait_for type samples) [
  | none ↦ none
  | some (t, rest) ↦ length_from type t rest
]

-- The length of the first whole pulse: one that begins after the pin had the other level.
unfoldable pub first_pulse : Bool → List (Bool × ℕ) → Option ℕ
first_pulse type samples = elim (wait_for (not type) samples) [
  | none ↦ none
  | some (t, rest) ↦ pulse_in type rest
]

module _ (type : Bool) (start timeout : ℕ) where
  -- Every sample is taken in time.
  abbrev pub InTime : List (Bool × ℕ) → Type 0
  InTime = All (λ s. leb (s.1 - start) timeout ≡ true)

  in_state_2 :
      (samples : List (Bool × ℕ)) (t : ℕ)
      → InTime samples
      → measure_from type true start timeout samples 2 t ≡ length_from type t samples
  unfolding measure_from round_of length_from wait_for
  in_state_2 [] t h = refl
  in_state_2 ((level, now) ∷ samples) t (h, hs) = ground (arith, in_state_2 samples t hs)

  in_state_1 :
      (samples : List (Bool × ℕ)) (t : ℕ)
      → InTime samples
      → measure_from type true start timeout samples 1 t ≡ pulse_in type samples
  unfolding measure_from round_of pulse_in wait_for
  in_state_1 [] t h = refl
  in_state_1 ((level, now) ∷ samples) t (h, hs) =
      ground (arith, in_state_1 samples t hs, in_state_2 samples now hs)

  in_state_0 :
      (samples : List (Bool × ℕ)) (t : ℕ)
      → InTime samples
      → measure_from type true start timeout samples 0 t ≡ first_pulse type samples
  unfolding measure_from round_of first_pulse wait_for
  in_state_0 [] t h = refl
  in_state_0 ((level, now) ∷ samples) t (h, hs) =
      ground (arith, in_state_0 samples t hs, in_state_1 samples t hs)

-- With all samples taken before the timeout of up to 4294967 ms, the measurement by polling
-- returns the length of the first whole pulse, once the samples show it, and goes on till then.
pub pulse_measure_first :
    (type : Bool) (timeout_ms start : ℕ) (samples : List (Bool × ℕ))
    → timeout_ms ≤ 4294967
    → InTime type start (timeout_ms * 1000) samples
    → pulse_measure type true timeout_ms start samples ≡ first_pulse type samples
unfolding pulse_measure
pulse_measure_first type timeout_ms start samples h inside =
    let e : timeout_ms * 1000 % 2 ^ 32 ≡ timeout_ms * 1000 = omega arith in
    rw e (in_state_0 type start (timeout_ms * 1000) samples start inside)
