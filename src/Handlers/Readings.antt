-- ===== src/Handlers/Readings.antt =====
-- src/command.c: the handlers of the queries for what was measured.
use fanpico.Base.{ℕ, Bool, Option, none, some, List, ◌∷◌, ◌++◌, if◌then◌else◌}
use fanpico.Base.Int.{ℤ, pos}
use fanpico.Base.Arith.{Arith}
use fanpico.Base.Text.{codes, strncasecmp_eq}
use fanpico.Types.{vsensor_max_count}
use fanpico.Types.Board.{Board}
use fanpico.Settings.{get_cmd_index}
use fanpico.Commands.Run.{PrevCmds}
use fanpico.Handlers.{Env, Session, Handler, print_line, prev_place, place, get_prev_cmd}

-- The element that the subcommand above names if that is of the kind, else the command itself.
abbrev pub named_place : List ℕ → ℕ → ℕ → List ℕ → PrevCmds → Option ℕ
named_place kind n count cmd prev =
    if strncasecmp_eq (get_prev_cmd prev 0) kind n
    then prev_place count prev 0
    else place count (get_cmd_index (some cmd))

module _ {R : Type 0} ⦃a : Arith R⦄ (e : Env R) (b : Board) where
  -- A query that prints one line for an element; anything else fails.
  abbrev pub reading : Bool → Option ℕ → (ℕ → List ℕ) → Session R → ℤ × Session R
  reading query i text st =
      if query
      then elim i [ none ↦ (pos 1, st) | some i ↦ (pos 0, print_line st (text i)) ]
      else (pos 1, st)

  abbrev rpm : R → ℕ → R
  rpm freq factor = a.div (a.mul freq (a.of_ℕ 60)) (a.of_ℕ factor)

  abbrev fan_text : Session R → ℕ → List ℕ
  fan_text st i =
      e.fmt 0 (e.state.fan_duty i)
      ++ (b',' ∷ e.fmt 1 (e.state.fan_freq i))
      ++ (b',' ∷ e.fmt 0 (rpm (e.state.fan_freq i) (st.config.fans i).rpm_factor))

  abbrev mbfan_text : Session R → ℕ → List ℕ
  mbfan_text st i =
      e.fmt 0 (e.state.mbfan_duty i)
      ++ (b',' ∷ e.fmt 1 (e.state.mbfan_freq i))
      ++ (b',' ∷ e.fmt 0 (rpm (e.state.mbfan_freq i) (st.config.mbfans i).rpm_factor))

  unfoldable pub fan_rpm : Handler R
  fan_rpm cmd args query prev st =
      reading query (prev_place b.fan_count prev 0)
        (λ i. e.fmt 0 (rpm (e.state.fan_freq i) (st.config.fans i).rpm_factor)) st

  unfoldable pub fan_tacho : Handler R
  fan_tacho cmd args query prev st =
      reading query (prev_place b.fan_count prev 0) (λ i. e.fmt 1 (e.state.fan_freq i)) st

  unfoldable pub fan_pwm : Handler R
  fan_pwm cmd args query prev st =
      reading query (prev_place b.fan_count prev 0) (λ i. e.fmt 0 (e.state.fan_duty i)) st

  unfoldable pub fan_read : Handler R
  fan_read cmd args query prev st =
      reading query (named_place (codes "fan") 3 b.fan_count cmd prev) (fan_text st) st

  unfoldable pub mbfan_rpm : Handler R
  mbfan_rpm cmd args query prev st =
      reading query (prev_place b.mbfan_count prev 0)
        (λ i. e.fmt 0 (rpm (e.state.mbfan_freq i) (st.config.mbfans i).rpm_factor)) st

  unfoldable pub mbfan_tacho : Handler R
  mbfan_tacho cmd args query prev st =
      reading query (prev_place b.mbfan_count prev 0) (λ i. e.fmt 1 (e.state.mbfan_freq i)) st

  unfoldable pub mbfan_pwm : Handler R
  mbfan_pwm cmd args query prev st =
      reading query (prev_place b.mbfan_count prev 0) (λ i. e.fmt 0 (e.state.mbfan_duty i)) st

  unfoldable pub mbfan_read : Handler R
  mbfan_read cmd args query prev st =
      reading query (named_place (codes "mbfan") 5 b.mbfan_count cmd prev) (mbfan_text st) st

  unfoldable pub sensor_temp : Handler R
  sensor_temp cmd args query prev st =
      reading query (named_place (codes "sensor") 6 b.sensor_count cmd prev)
        (λ i. e.fmt 0 (e.state.temp i)) st

  unfoldable pub vsensor_temp : Handler R
  vsensor_temp cmd args query prev st =
      reading query (named_place (codes "vsensor") 7 vsensor_max_count cmd prev)
        (λ i. e.fmt 0 (e.state.vtemp i)) st

  unfoldable pub vsensor_humidity : Handler R
  vsensor_humidity cmd args query prev st =
      reading query (prev_place vsensor_max_count prev 0) (λ i. e.fmt 0 (e.state.vhumidity i)) st

  unfoldable pub vsensor_pressure : Handler R
  vsensor_pressure cmd args query prev st =
      reading query (prev_place vsensor_max_count prev 0) (λ i. e.fmt 0 (e.state.vpressure i)) st
