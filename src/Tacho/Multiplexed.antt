-- ===== src/Tacho/Multiplexed.antt =====
-- src/tacho.c: the state machine that measures one fan at a time through the multiplexer.
use fanpico.Base.{
  ℕ, ◌+◌, ◌*◌, ◌≤◌, ◌<◌, ◌≡◌, refl, Bool, true, false, ◌⊎◌, inl, inr, arith, Option, none, some,
  ltb, ◌||◌, ◌∙◌, ap, sym, ◌==◌, update, Bool-cases, update_self, List,
}
use mathlib.Core.Path.{subst}
use fanpico.Base.Arith.{Arith}
use fanpico.Types.{FanpicoConfig, rmode_tacho, rmode_lra, RpmMode}
use fanpico.Timing.{time_passed}
use fanpico.Pulse.{pulse_interval, edges}
use fanpico.Pulse.Interval.{times_on, first_interval, pulse_interval-edges}
use fanpico.Tacho.{
  Queues, Reader, select_fan, finish, read_pulse, read_fan, read_tacho_multiplexed, lra_freq,
  next_in_queue, multiplexer_select,
}
use fanpico.Tacho.Queue.{Next, next_in_queue-Next}

-- In state 1 a fan of the eight is selected.
abbrev pub Selected : ℕ → Option ℕ → Type 0
Selected state none = state ≡ 0
Selected state (some i) = i < 8

pub record IsValid {R : Type 0} (r : Reader R) : Type 0 where
  pub state_in : r.state ≤ 1
  pub q_in : r.q ≤ 1
  pub selected : Selected r.state r.fan

mode_cases : (m : RpmMode) → (m ≡ rmode_tacho) ⊎ (m ≡ rmode_lra)
mode_cases rmode_tacho = inl refl
mode_cases rmode_lra = inr refl

module _ {R : Type 0} ⦃a : Arith R⦄ (ports : ℕ → ℕ) (config : FanpicoConfig R) (lra : Bool) where
  select_fan-IsValid :
      (now : ℕ) (r : Reader R) (found : Option ℕ × Queues)
      → IsValid r
      → r.state ≡ 0
      → Next r.q r.queues found
      → IsValid (select_fan ports now r found)
  unfolding select_fan
  select_fan-IsValid now r (none, qs) v z n = record {
    state_in = v.state_in;
    q_in = ground (arith, v.q_in);
    selected = z;
  }
  select_fan-IsValid now r (some i, qs) v z n = record {
    state_in = omega (arith, z);
    q_in = ground (arith, v.q_in);
    selected = n.1;
  }

  finish-IsValid :
      (i : ℕ) (f : R) (r : Reader R) → IsValid r → i < 8 → r.fan ≡ some i → IsValid (finish i f r)
  unfolding finish
  finish-IsValid i f r v h e = record { state_in = omega arith; q_in = v.q_in; selected = rw e h }

  read_pulse-IsValid :
      (i t now : ℕ) (r : Reader R)
      → IsValid r
      → i < 8
      → r.fan ≡ some i
      → IsValid (read_pulse i t now r)
  unfolding read_pulse
  read_pulse-IsValid i t now r v h e =
      let (passed, start) = time_passed r.start_t 600 now in
      let ended = λ (qs : Queues) (u : ℕ) (f : R).
        finish-IsValid i f (record r { queues = qs; start_t = u })
          (record { state_in = v.state_in; q_in = v.q_in; selected = v.selected }) h e in
      let spins = record r.queues { queue = update r.queues.queue i 0 } in
      let stands = record r.queues { queue = update r.queues.queue i 1 } in
      elim (Bool-cases (ltb 0 t)) [
        | inl seen ↦ rw seen (ended spins r.start_t _)
        | inr none_yet ↦ elim (Bool-cases passed) [
          | inl late ↦ rw (none_yet, late) (ended stands start _)
          | inr early ↦
              rw (none_yet, early)
                record { state_in = v.state_in; q_in = v.q_in; selected = v.selected }
        ]
      ]

  read_fan-IsValid :
      (now : ℕ) (r : Reader R) (o : Option ℕ)
      → r.fan ≡ o
      → IsValid r
      → IsValid (read_fan config lra now r o)
  unfolding read_fan
  read_fan-IsValid now r none e v = v
  read_fan-IsValid now r (some i) e v =
      let w : Selected r.state (some i) = subst (Selected r.state) e v.selected in
      elim (mode_cases (config.fans i).rpm_mode) [
        | inl tacho ↦
            rw (read_fan, tacho) (read_pulse-IsValid i (pulse_interval r.pulse) now r v w e)
        | inr alarm ↦ rw (read_fan, alarm) (finish-IsValid i (lra_freq (config.fans i) lra) r v w e)
      ]

  -- Whatever the pins, the time and the edges are, a step of the reader keeps its state and its
  -- queue at 0 or 1, and a fan of the eight selected while it measures.
  pub read_tacho_multiplexed-IsValid :
      (now : ℕ) (es : List (ℕ × ℕ)) (r : Reader R)
      → IsValid r
      → IsValid
          (read_tacho_multiplexed ports config lra now (record r { pulse = edges es r.pulse }))
  unfolding read_tacho_multiplexed
  read_tacho_multiplexed-IsValid now es r v =
      let r' = record r { pulse = edges es r.pulse } in
      let v' : IsValid r' = record {
        state_in = v.state_in;
        q_in = v.q_in;
        selected = v.selected;
      } in
      elim (Bool-cases (r.state == 0)) [
        | inl idle ↦
            rw idle
              (select_fan-IsValid now r' _ v' (ground arith) (next_in_queue-Next r.q r.queues).0)
        | inr busy ↦ elim (Bool-cases (r.state == 1)) [
          | inl one ↦ rw (busy, one) (read_fan-IsValid now r' r.fan refl v')
          | inr other ↦ rw (busy, other) v'
        ]
      ]

  -- What a step at `now` leaves of the measurement of fan i that r has begun, if its pulse takes t.
  abbrev pub Measured : ℕ → ℕ → ℕ → Reader R → Reader R → Type 0
  Measured i t now r u =
      ((0 < t)
        × (u.state ≡ 0)
        × (u.queues.queue i ≡ 0)
        × (u.fan_tacho_freq i ≡ a.single (a.div (a.of_ℕ 1) (a.div (a.of_ℕ t) (a.of_ℕ 1_000_000)))))
      ⊎ ((t ≡ 0)
          × ((r.start_t ≡ 0) ⊎ (r.start_t + 600_000 < now))
          × (u.state ≡ 0)
          × (u.queues.queue i ≡ 1)
          × (u.fan_tacho_freq i ≡ a.single (a.of_ℕ 0)))
      ⊎ ((t ≡ 0) × (0 < r.start_t) × (now ≤ r.start_t + 600_000) × (u ≡ r))

  time_passed-cases :
      (start now : ℕ)
      → (((start ≡ 0) ⊎ (start + 600_000 < now)) × (time_passed start 600 now ≡ (true, now)))
        ⊎ ((0 < start) × (now ≤ start + 600_000) × (time_passed start 600 now ≡ (false, start)))
  unfolding time_passed
  time_passed-cases start now = elim (Bool-cases (start == 0 || ltb (start + 600 * 1000) now)) [
    | inl e ↦ inl (ground arith, rw e refl)
    | inr e ↦ inr (ground arith, ground arith, rw e refl)
  ]

  read_pulse-Measured : (i t now : ℕ) (r : Reader R) → Measured i t now r (read_pulse i t now r)
  unfolding read_pulse finish
  read_pulse-Measured i t now r = elim (Bool-cases (ltb 0 t)) [
    | inl seen ↦
        rw seen (
          inl
            (ground arith, refl, update_self r.queues.queue i 0, update_self r.fan_tacho_freq i _))
    | inr none_yet ↦ elim (time_passed-cases r.start_t now) [
      | inl (out, late) ↦
          rw (none_yet, late)
            (inr (
              inl (
                ground arith,
                out,
                refl,
                update_self r.queues.queue i 1,
                update_self r.fan_tacho_freq i _,
              )))
      | inr (on, within, early) ↦ rw (none_yet, early) (inr (inr (ground arith, on, within, refl)))
    ]
  ]

  read_tacho_multiplexed_in_state_1 :
      (now : ℕ) (r : Reader R)
      → r.state ≡ 1
      → read_tacho_multiplexed ports config lra now r ≡ read_fan config lra now r r.fan
  unfolding read_tacho_multiplexed
  read_tacho_multiplexed_in_state_1 now r s =
      let idle : (r.state == 0) ≡ false = ground arith in
      let one : (r.state == 1) ≡ true = ground arith in rw (idle, one) refl

  read_fan_with_tacho :
      (now i : ℕ) (r : Reader R)
      → (config.fans i).rpm_mode ≡ rmode_tacho
      → read_fan config lra now r (some i) ≡ read_pulse i (pulse_interval r.pulse) now r
  unfolding read_fan
  read_fan_with_tacho now i r m = rw (read_fan, m) refl

  step_in_state_1 :
      (now i : ℕ) (r : Reader R)
      → r.state ≡ 1
      → r.fan ≡ some i
      → (config.fans i).rpm_mode ≡ rmode_tacho
      → Measured i (pulse_interval r.pulse) now r (read_tacho_multiplexed ports config lra now r)
  step_in_state_1 now i r s f m =
      let step =
        read_tacho_multiplexed_in_state_1 now r s
        ∙ ap (read_fan config lra now r) f
        ∙ read_fan_with_tacho now i r m in
      subst (Measured i (pulse_interval r.pulse) now r) (sym step)
        (read_pulse-Measured i (pulse_interval r.pulse) now r)

  select_step :
      (now i : ℕ) (qs : Queues) (r : Reader R)
      → r.state ≡ 0
      → next_in_queue r.q r.queues ≡ (some i, qs)
      → read_tacho_multiplexed ports config lra now r ≡ select_fan ports now r (some i, qs)
  unfolding read_tacho_multiplexed
  select_step now i qs r s e = let idle : (r.state == 0) ≡ true = ground arith in rw (idle, e) refl

  -- The reader with the edges that the interrupts have seen since.
  abbrev pub after_edges : List (ℕ × ℕ) → Reader R → Reader R
  after_edges es r = record r { pulse = edges es r.pulse }

  -- A fan i with a tachometer is next in the queue at time t0, then the edges es come on whatever
  -- pins, and the reader steps again at t1, with t the time from the first of the edges on its pin
  -- to the second, or 0. The multiplexer stands at the port of fan i. If t is not 0, the frequency
  -- of the fan is the inverse of t, the fan joins the queue of those that spin and the reader is
  -- done with it. If t is 0 and more than 600 ms have passed since t0 (or t0 is 0), its frequency
  -- is 0, it joins the queue of those that stand and the reader is done with it. Otherwise the
  -- reader stays as it is.
  pub read_tacho_multiplexed_measures :
      (t0 t1 i : ℕ) (es : List (ℕ × ℕ)) (qs : Queues) (r : Reader R)
      → r.state ≡ 0
      → next_in_queue r.q r.queues ≡ (some i, qs)
      → (config.fans i).rpm_mode ≡ rmode_tacho
      → let begun = read_tacho_multiplexed ports config lra t0 r in
        (begun.mux ≡ multiplexer_select (ports i))
        × (begun.start_t ≡ t0)
        × Measured i
            (first_interval (times_on r.pulse.pulse_pin es))
            t1
            (after_edges es begun)
            (read_tacho_multiplexed ports config lra t1 (after_edges es begun))
  unfolding select_fan
  read_tacho_multiplexed_measures t0 t1 i es qs r s e m =
      let t = first_interval (times_on r.pulse.pulse_pin es) in
      let begun = select_fan ports t0 r (some i, qs) in
      let in_state_1 : r.state + 1 ≡ 1 = omega (arith, s) in
      let measured = step_in_state_1 t1 i (after_edges es begun) in_state_1 refl m in
      subst
        (λ b.
          (b.mux ≡ multiplexer_select (ports i))
          × (b.start_t ≡ t0)
          × Measured i t t1 (after_edges es b)
              (read_tacho_multiplexed ports config lra t1 (after_edges es b)))
        (sym (select_step t0 i qs r s e))
        (
          refl,
          refl,
          subst
              (λ x.
                Measured i x t1 (after_edges es begun)
                  (read_tacho_multiplexed ports config lra t1 (after_edges es begun)))
              (pulse_interval-edges es r.pulse) measured,
        )
