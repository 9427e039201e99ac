-- ===== src/Handlers/Fan.antt =====
-- src/command.c: the handlers of the commands on the configuration of a fan.
use fanpico.Base.{ℕ, ◌+◌, ◌^◌, Option, none, some, List, [], ◌∷◌, ◌++◌, if◌then◌else◌}
use fanpico.Base.Int.{ℤ, pos, ◌-ℤ◌}
use fanpico.Base.Arith.{Arith}
use fanpico.Base.Text.{atoi, strtok, strtol, decimal}
use fanpico.Types.{FanOutput, PwmSource, pwm_fixed, RpmMode, rmode_tacho, rmode_lra}
use fanpico.Types.Board.{Board}
use fanpico.Util.{clamp_int}
use fanpico.Config.{
  str2pwm_source, pwm_source2str, valid_pwm_source_ref, str2rpm_mode, rpm_mode2str,
}
use fanpico.Settings.{to_unsigned}
use fanpico.Handlers.{Env, Handler, print_line, allocate, set_fan, prev_place}
use fanpico.Handlers.Arrays.{array_string_setting, array_unsigned_setting, array_float_setting}
use fanpico.Handlers.Maps.{map_setting}
use fanpico.Handlers.Filter.{filter_setting}

-- A number as it is shown for a source: from 1 on, but for a fixed one.
abbrev pub pwm_offset : PwmSource → ℕ
pwm_offset pwm_fixed = 0
pwm_offset _ = 1

-- The value of a text in a range, in a `uint16_t`.
abbrev pub clamped : List ℕ → ℕ → ℕ
clamped text old = elim (strtol text) [
  | none ↦ old
  | some val ↦ to_unsigned (2 ^ 16) (clamp_int val (pos 0) (pos 100000))
]

-- The arguments of the mode behind it: the limits for "lra".
unfoldable pub fan_lra : {R : Type 0} → RpmMode → List (List ℕ) → FanOutput R → FanOutput R
fan_lra rmode_tacho toks f = f
fan_lra rmode_lra [] f = f
fan_lra rmode_lra (low ∷ []) f = record f { lra_low = clamped low f.lra_low }
fan_lra rmode_lra (low ∷ high ∷ toks) f = record f {
  lra_low = clamped low f.lra_low;
  lra_high = clamped high f.lra_high;
}

abbrev mode_text : {R : Type 0} → FanOutput R → List ℕ
mode_text f = elim f.rpm_mode [
  | rmode_tacho ↦ rpm_mode2str f.rpm_mode
  | rmode_lra ↦ rpm_mode2str f.rpm_mode ++ (b',' ∷ decimal f.lra_low) ++ (b',' ∷ decimal f.lra_high)
]

-- The source that the arguments name, and the result; `none` leaves the source as it is.
unfoldable pub read_source : List (List ℕ) → ℤ × Option (PwmSource × ℕ)
read_source [] = (pos 0, none)
read_source (tok ∷ []) = (pos 0, none)
read_source (tok ∷ number ∷ toks) =
    let type = str2pwm_source (some tok) in
    let val = to_unsigned (2 ^ 16) (atoi number -ℤ pos (pwm_offset type)) in
    if valid_pwm_source_ref type val then (pos 0, some (type, val)) else (pos 2, none)

abbrev pub source_text : {R : Type 0} → FanOutput R → List ℕ
source_text f = pwm_source2str f.s_type ++ (b',' ∷ decimal (f.s_id + pwm_offset f.s_type))

module _ {R : Type 0} ⦃a : Arith R⦄ (e : Env R) (b : Board) where
  unfoldable pub fan_name : Handler R
  unfolding array_string_setting
  fan_name cmd args query prev st =
      array_string_setting e args query prev 0 b.fan_count 64 (λ i. (st.config.fans i).name)
        (λ i v. set_fan st i (record (st.config.fans i) { name = v })) st

  unfoldable pub fan_min_pwm : Handler R
  unfolding array_unsigned_setting
  fan_min_pwm cmd args query prev st =
      array_unsigned_setting e args query prev 0 b.fan_count (λ i. (st.config.fans i).min_pwm)
        (λ i v. set_fan st i (record (st.config.fans i) { min_pwm = v })) 0 100 st

  unfoldable pub fan_max_pwm : Handler R
  unfolding array_unsigned_setting
  fan_max_pwm cmd args query prev st =
      array_unsigned_setting e args query prev 0 b.fan_count (λ i. (st.config.fans i).max_pwm)
        (λ i v. set_fan st i (record (st.config.fans i) { max_pwm = v })) 0 100 st

  unfoldable pub fan_pwm_coef : Handler R
  unfolding array_float_setting
  fan_pwm_coef cmd args query prev st =
      array_float_setting e args query prev 0 b.fan_count (λ i. (st.config.fans i).pwm_coefficient)
        (λ i v. set_fan st i (record (st.config.fans i) { pwm_coefficient = v })) (a.of_ℕ 0)
        (a.of_ℕ 1000) st

  unfoldable pub fan_pwm_map : Handler R
  unfolding map_setting
  fan_pwm_map cmd args query prev st =
      map_setting e (λ s. to_unsigned (2 ^ 8) (atoi s)) 0 decimal (pos 1)
        (λ i. ((st.config.fans i).curve.points, (st.config.fans i).curve.pwm))
        (λ i n rows s.
          set_fan s i (record (s.config.fans i) { curve = record { points = n; pwm = rows } }))
        b.fan_count args query prev st

  unfoldable pub fan_filter : Handler R
  unfolding filter_setting
  fan_filter cmd args query prev st =
      filter_setting e (λ i. ((st.config.fans i).filter, (st.config.fans i).filter_ctx))
        (λ i f c s. set_fan s i (record (s.config.fans i) { filter = f; filter_ctx = c }))
        b.fan_count args query prev st

  unfoldable pub fan_rpm_factor : Handler R
  unfolding array_unsigned_setting
  fan_rpm_factor cmd args query prev st =
      array_unsigned_setting e args query prev 0 b.fan_count (λ i. (st.config.fans i).rpm_factor)
        (λ i v. set_fan st i (record (st.config.fans i) { rpm_factor = v })) 1 8 st

  unfoldable pub fan_rpm_mode : Handler R
  unfolding fan_lra
  fan_rpm_mode cmd args query prev st = elim (prev_place b.fan_count prev 0) [
    | none ↦ (pos 1, st)
    | some i ↦
        let f = st.config.fans i in
        let (param, st') = allocate e st in
        if query then (pos 0, print_line st (mode_text f)) else elim param [
          | none ↦ (pos 2, st')
          | some p ↦ elim (strtok b',' args) [
            | [] ↦ (pos 2, st')
            | tok ∷ toks ↦
                let val = str2rpm_mode (some tok) in
                (pos 0, set_fan st' i (fan_lra val toks (record f { rpm_mode = val })))
          ]
        ]
  ]

  unfoldable pub fan_source : Handler R
  unfolding read_source
  fan_source cmd args query prev st = elim (prev_place b.fan_count prev 0) [
    | none ↦ (pos 1, st)
    | some i ↦
        let f = st.config.fans i in
        let (param, st') = allocate e st in
        let (res, source) = read_source (strtok b',' args) in
        if query then (pos 0, print_line st (source_text f)) else elim param [
          | none ↦ (pos 2, st')
          | some p ↦ elim source [
            | none ↦ (res, st')
            | some (type, val) ↦ (res, set_fan st' i (record f { s_type = type; s_id = val }))
          ]
        ]
  ]

  unfoldable pub fan_tacho_hys : Handler R
  unfolding array_float_setting
  fan_tacho_hys cmd args query prev st =
      array_float_setting e args query prev 1 b.fan_count (λ i. (st.config.fans i).tacho_hyst)
        (λ i v. set_fan st i (record (st.config.fans i) { tacho_hyst = v })) (a.of_ℕ 0)
        (a.of_ℕ 10000) st

  unfoldable pub fan_pwm_hys : Handler R
  unfolding array_float_setting
  fan_pwm_hys cmd args query prev st =
      array_float_setting e args query prev 1 b.fan_count (λ i. (st.config.fans i).pwm_hyst)
        (λ i v. set_fan st i (record (st.config.fans i) { pwm_hyst = v })) (a.of_ℕ 0) (a.of_ℕ 10000)
        st
