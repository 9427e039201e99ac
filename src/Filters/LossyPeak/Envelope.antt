-- ===== src/Filters/LossyPeak/Envelope.antt =====
-- src/filter_lossypeak.c: the output is an upper envelope of the input.
use fanpico.Base.{
  List, [], ◌∷◌, All, ap, ◌∙◌, Bool-cases, if◌then◌else◌, ℕ, ◌≡◌, refl, false, inl, inr, arith,
  Bool-cases,
}
use fanpico.Base.Int.{ℤ, pos, ◌-ℤ◌, ◌≤ℤ◌}
use fanpico.Base.Arith.{Arith, ◌≼◌, IsOrdered}
use fanpico.Filters.LossyPeak.{LossypeakContext, lossy_peak_filter, hold, lowered, decay_over}

module _ {R : Type 0} ⦃a : Arith R⦄ (ord : IsOrdered R) where
  open ord use {le_refl, le_trans, lt-eq-not-le, le_total}

  le_of_not_lt : (x y : R) → a.lt x y ≡ false → y ≼ x
  le_of_not_lt x y h = ground (arith, lt-eq-not-le x y)

  le_of_not_le : (x y : R) → a.le x y ≡ false → y ≼ x
  le_of_not_le x y h = ground (arith, le_total x y)

  input-le-lowered :
      (c : LossypeakContext R) (input : R) (s : ℕ × ℤ)
      → a.le c.peak input ≡ false
      → input ≼ lowered c input s
  unfolding lowered
  input-le-lowered c input (state, t_d) below = ground (
    arith,
    le_refl input,
    le_of_not_le c.peak input below,
    le_of_not_lt (a.single (a.sub c.peak (decay_over c t_d))) input,
  )

  -- The output of the filter is the peak that it keeps, and it is never below the input.
  -- The comparisons are a total order (no value is NaN).
  pub lossy_peak_filter_envelope :
      (c : LossypeakContext R) (input : R) (now : ℕ)
      → (input ≼ (lossy_peak_filter c input now).0)
        × ((lossy_peak_filter c input now).0 ≡ (lossy_peak_filter c input now).1.peak)
  unfolding lossy_peak_filter
  lossy_peak_filter_envelope c input now = elim (Bool-cases (a.le c.peak input)) [
    | inl up ↦ rw up (le_refl input, refl)
    | inr down ↦ rw down (input-le-lowered c input (hold c now) down, refl)
  ]

module _ {R : Type 0} ⦃a : Arith R⦄ where
  lossy_peak_filter_in_hold :
      (c : LossypeakContext R) (input : R) (now : ℕ)
      → c.state ≡ 0
      → pos 1 ≤ℤ c.delay_us
      → pos now -ℤ pos c.peak_t ≤ℤ c.delay_us
      → lossy_peak_filter c input now ≡ (
          if a.le c.peak input
          then (input, record c { peak = input; state = 0; peak_t = now; last_t = now })
          else (c.peak, record c { last_t = now }))
  unfolding lossy_peak_filter hold lowered
  lossy_peak_filter_in_hold c input now s d t = elim (Bool-cases (a.le c.peak input)) [
    | inl up ↦ rw up refl
    | inr down ↦ rw down (ground arith)
  ]

  -- The outputs for inputs at some times.
  unfoldable pub outputs : LossypeakContext R → List (R × ℕ) → List R
  outputs c [] = []
  outputs c ((input, now) ∷ later) =
      let (y, c') = lossy_peak_filter c input now in y ∷ outputs c' later

  -- The peak, as often as there are inputs.
  unfoldable pub repeated : R → List (R × ℕ) → List R
  repeated x [] = []
  repeated x (e ∷ later) = x ∷ repeated x later

  -- Inputs below x that come while the hold time from t0 on lasts.
  abbrev pub Below : R → ℤ → ℕ → List (R × ℕ) → Type 0
  Below x delay t0 = All (λ e. (a.le x e.0 ≡ false) × (pos e.1 -ℤ pos t0 ≤ℤ delay))

  outputs_in_hold :
      (later : List (R × ℕ)) (c : LossypeakContext R)
      → c.state ≡ 0
      → pos 1 ≤ℤ c.delay_us
      → Below c.peak c.delay_us c.peak_t later
      → outputs c later ≡ repeated c.peak later
  unfolding outputs repeated
  outputs_in_hold [] c s d h = refl
  outputs_in_hold ((input, now) ∷ later) c s d ((below, within), rest) =
      let step : lossy_peak_filter c input now ≡ (c.peak, record c { last_t = now }) =
        lossy_peak_filter_in_hold c input now s d within ∙ rw below refl in
      ap (λ r. r.0 ∷ outputs r.1 later) step
      ∙ ap (λ ys. c.peak ∷ ys) (outputs_in_hold later (record c { last_t = now }) s d rest)

  new_peak :
      (c : LossypeakContext R) (x : R) (t0 : ℕ)
      → c.peak ≼ x
      → lossy_peak_filter c x t0 ≡ (x, record c { peak = x; state = 0; peak_t = t0; last_t = t0 })
  unfolding lossy_peak_filter
  new_peak c x t0 up = rw up refl

  -- Once an input x at or above the peak has come, at time t0, and with a hold time that is not 0:
  -- however many inputs follow, as long as each is below x and comes within the hold time from t0
  -- on, the output is x for each of them.
  pub lossy_peak_filter_hold :
      (c : LossypeakContext R) (x : R) (t0 : ℕ) (later : List (R × ℕ))
      → pos 1 ≤ℤ c.delay_us
      → c.peak ≼ x
      → Below x c.delay_us t0 later
      → outputs c ((x, t0) ∷ later) ≡ x ∷ repeated x later
  unfolding outputs
  lossy_peak_filter_hold c x t0 later d up h =
      ap (λ r. r.0 ∷ outputs r.1 later) (new_peak c x t0 up)
      ∙ ap (λ ys. x ∷ ys)
          (outputs_in_hold later (record c { peak = x; state = 0; peak_t = t0; last_t = t0 }) refl d
            h)
