-- ===== src/Sensors/Manual.antt =====
-- src/sensors.c: the manual virtual sensors, which time out.
use fanpico.Base.{ℕ, ◌-◌, ◌/◌, ◌≤◌, ◌<◌, ◌≡◌, true, ◌⊎◌, arith, ◌==◌, if◌then◌else◌}
use fanpico.Base.Int.{pos, pos_part, ◌≤ℤ◌}
use fanpico.Base.Arith.{Arith, IsOrdered}
use fanpico.Types.{FanpicoConfig, FanpicoState, VsensorInput}
use fanpico.Sensors.{manual_value, copy_written, timed_out}

module _ {R : Type 0} ⦃a : Arith R⦄ where
  -- What the value of a manual sensor was before the timeout is looked at.
  abbrev pub written : FanpicoConfig R → ℕ → FanpicoState R → R
  written config i st =
      if config.vtemp_updated i == st.vtemp_updated i then st.vtemp i else config.vtemp i

  copy_written_lem :
      (config : FanpicoConfig R) (i : ℕ) (st : FanpicoState R)
      → ((copy_written config i st).0 ≡ written config i st)
        × ((copy_written config i st).1.vtemp_updated i ≡ config.vtemp_updated i)
  unfolding copy_written
  copy_written_lem config i st = ground arith

  -- What becomes of the value w of a manual sensor that was last written age seconds ago.
  abbrev pub TimedOut : VsensorInput R → ℕ → R → R → Type 0
  TimedOut s age w t =
      ((pos 1 ≤ℤ s.timeout) × (pos_part s.timeout < age) × (a.eq t s.default_temp ≡ true))
      ⊎ ((pos 1 ≤ℤ s.timeout) × (age ≤ pos_part s.timeout) × (t ≡ w))
      ⊎ ((s.timeout ≤ℤ pos 0) × (t ≡ w))

  timed_out_lem :
      (ord : IsOrdered R) (s : VsensorInput R) (now updated : ℕ) (t : R)
      → TimedOut s ((now - updated) / 1_000_000) t (timed_out s now (t, updated))
  unfolding timed_out
  timed_out_lem ord s now updated t = ground (arith, ord.eq_refl s.default_temp)

  -- A manual (or I2C) sensor always takes over the time of the last write. With a positive timeout
  -- and more whole seconds than that since the last write, it has the default temperature;
  -- with fewer, or with no timeout, the value last written, or its value as it was.
  -- The comparisons are a total order (no value is NaN).
  pub manual_value_timeout :
      (ord : IsOrdered R) (config : FanpicoConfig R) (i now : ℕ) (st : FanpicoState R)
      → let (t, st') = manual_value config i now st in
        (st'.vtemp_updated i ≡ config.vtemp_updated i)
        × TimedOut
            (config.vsensors i)
            ((now - config.vtemp_updated i) / 1_000_000)
            (written config i st)
            t
  unfolding manual_value
  manual_value_timeout ord config i now st =
      let (e, u) = copy_written_lem config i st in
      let out =
        timed_out_lem ord (config.vsensors i) now (config.vtemp_updated i) (written config i st) in
      (u, rw (e, u) out)
