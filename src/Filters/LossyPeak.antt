-- ===== src/Filters/LossyPeak.antt =====
-- src/filter_lossypeak.c: the "lossy peak detector" with a hold time and a decay.
-- `now` is what `get_absolute_time` returns in the call; `mem` says whether `malloc` succeeds.
pub mod Envelope
use fanpico.Base.{ℕ, Bool, true, false, Option, none, some, List, [], ◌∷◌, ◌==◌, if◌then◌else◌}
use fanpico.Base.Int.{ℤ, pos, ◌-ℤ◌, ltb_ℤ}
use fanpico.Base.Text.{strtok}
use fanpico.Base.Arith.{Arith, of_ℤ}

pub record LossypeakContext (R : Type 0) : Type 0 where
  pub peak : R
  pub delay_us : ℤ
  pub decay : R
  pub last_t : ℕ
  pub peak_t : ℕ
  pub state : ℕ

module _ {R : Type 0} ⦃a : Arith R⦄ where
  -- The context that `lossy_peak_parse_args` fills in.
  abbrev fresh : R → R → ℕ → LossypeakContext R
  fresh decay delay now = record {
    peak = a.of_ℕ 0;
    delay_us = pos (a.to_uint (a.single (a.mul delay (a.of_ℕ 1000000))));
    decay = decay;
    last_t = now;
    peak_t = 0;
    state = 0;
  }

  unfoldable pub parse_delay : R → List (List ℕ) → Bool → ℕ → Option (LossypeakContext R)
  parse_delay decay [] mem now = none
  parse_delay decay (tok ∷ _) mem now = elim (a.strtof tok) [
    | none ↦ none
    | some delay ↦
        if a.lt delay (a.of_ℕ 0) then none else (if mem then some (fresh decay delay now) else none)
  ]

  unfoldable pub parse_decay : List (List ℕ) → Bool → ℕ → Option (LossypeakContext R)
  unfolding parse_delay
  parse_decay [] mem now = none
  parse_decay (tok ∷ toks) mem now = elim (a.strtof tok) [
    | none ↦ none
    | some decay ↦ if a.lt decay (a.of_ℕ 0) then none else parse_delay decay toks mem now
  ]

  unfoldable pub lossy_peak_parse_args : Option (List ℕ) → Bool → ℕ → Option (LossypeakContext R)
  unfolding parse_decay
  lossy_peak_parse_args none mem now = none
  lossy_peak_parse_args (some args) mem now = parse_decay (strtok b',' args) mem now

  -- The state and the time to decay over, when the input is below the peak.
  unfoldable pub hold : LossypeakContext R → ℕ → ℕ × ℤ
  hold c now =
      if c.state == 0
      then (if ltb_ℤ (pos 0) c.delay_us
          then (if ltb_ℤ c.delay_us (pos now -ℤ pos c.peak_t)
              then (1, pos now -ℤ pos c.peak_t -ℤ c.delay_us)
              else (0, pos now -ℤ pos c.peak_t))
          else (1, pos now -ℤ pos c.last_t))
      else (c.state, pos now -ℤ pos c.last_t)

  -- `float decay = (t_d / 1000000.0) * c->decay`.
  abbrev pub decay_over : LossypeakContext R → ℤ → R
  decay_over c t_d = a.single (a.mul (a.div (of_ℤ t_d) (a.of_ℕ 1000000)) c.decay)

  -- The peak after the branch for an input below it.
  unfoldable pub lowered : LossypeakContext R → R → ℕ × ℤ → R
  lowered c input (state, t_d) =
      let left = a.single (a.sub c.peak (decay_over c t_d)) in
      if state == 1 then (if a.lt left input then input else left) else c.peak

  unfoldable pub lossy_peak_filter : LossypeakContext R → R → ℕ → R × LossypeakContext R
  unfolding hold lowered
  lossy_peak_filter c input now =
      let next = lowered c input (hold c now) in
      if a.le c.peak input
      then (input, record c { peak = input; state = 0; peak_t = now; last_t = now })
      else (next, record c { peak = next; state = (hold c now).0; last_t = now })
