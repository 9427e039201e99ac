-- ===== src/Handlers/Valid/Fans.antt =====
-- src/command.c: the handlers of a fan keep a valid configuration valid.
use fanpico.Base.{
  ℕ, ◌^◌, ◌<◌, ◌≡◌, refl, Bool, true, false, inl, inr, arith, Option, none, some, List, [], ◌∷◌,
  if◌then◌else◌, Bool-cases, Option-cases, List-cases,
}
use mathlib.Core.Path.{subst}
use fanpico.Base.Int.{ℤ, pos, negsuc, ◌-ℤ◌}
use fanpico.Base.Arith.{Arith, IsOrdered}
use fanpico.Base.Text.{strtol, strtok, atoi}
use fanpico.Types.{FanOutput, PwmSource, RpmMode, rmode_tacho, rmode_lra}
use fanpico.Types.Board.{Board}
use fanpico.Util.{clamp_int}
use fanpico.Settings.{to_unsigned}
use fanpico.Commands.Run.{PrevCmds}
use fanpico.Handlers.{Env, Session, prev_place, allocate, set_fan}
use fanpico.Handlers.Valid.{IsValid, Unless, IsValidFan, set_fan-IsValid}
use fanpico.Handlers.Valid.Settings.{
  array_string_setting_keeps, array_unsigned_setting_keeps, array_float_setting_keeps,
  map_setting_keeps, filter_setting_keeps,
}
use fanpico.Base.Text.{decimal}
use fanpico.Config.{str2rpm_mode, str2pwm_source, valid_pwm_source_ref}
use fanpico.Handlers.Fan.{
  fan_name, fan_min_pwm, fan_max_pwm, fan_pwm_coef, fan_pwm_map, fan_filter, fan_rpm_factor,
  fan_rpm_mode, fan_source, fan_tacho_hys, fan_pwm_hys, clamped, fan_lra, read_source, pwm_offset,
}

pub to_unsigned_below : (v : ℤ) → to_unsigned (2 ^ 16) v < 2 ^ 16
unfolding to_unsigned
to_unsigned_below (pos n) = ground arith
to_unsigned_below (negsuc n) = ground arith

pub clamped_below : (text : List ℕ) (old : ℕ) → old < 2 ^ 16 → clamped text old < 2 ^ 16
clamped_below text old h = elim (Option-cases (strtol text)) [
  | inl e ↦ rw (clamped, e) h
  | inr (val, e) ↦ rw (clamped, e) (to_unsigned_below (clamp_int val (pos 0) (pos 100000)))
]

fan_lra-IsValid :
    {R : Type 0} ⦃a : Arith R⦄ (mode : RpmMode) (toks : List (List ℕ)) (f : FanOutput R)
    → IsValidFan f
    → IsValidFan (fan_lra mode toks f)
unfolding fan_lra
fan_lra-IsValid rmode_tacho toks f w = w
fan_lra-IsValid rmode_lra [] f w = w
fan_lra-IsValid rmode_lra (low ∷ []) f w =
    (w.0, w.1, w.2, w.3, (clamped_below low f.lra_low w.4.0, w.4.1), w.5)
fan_lra-IsValid rmode_lra (low ∷ high ∷ toks) f w = (
  w.0,
  w.1,
  w.2,
  w.3,
  (clamped_below low f.lra_low w.4.0, clamped_below high f.lra_high w.4.1),
  w.5,
)

abbrev Holds : Option (PwmSource × ℕ) → Type 0
Holds none = Unit
Holds (some s) = valid_pwm_source_ref s.0 s.1 ≡ true

choice_valid :
    (type : PwmSource) (val : ℕ) (c : Bool)
    → valid_pwm_source_ref type val ≡ c
    → Holds
        (if◌then◌else◌ {A = ℤ × Option (PwmSource × ℕ)} c (pos 0, some (type, val)) (pos 2, none)).1
choice_valid type val true h = h
choice_valid type val false h = tt

read_source_valid :
    (toks : List (List ℕ)) (s : PwmSource × ℕ)
    → (read_source toks).1 ≡ some s
    → valid_pwm_source_ref s.0 s.1 ≡ true
unfolding read_source
read_source_valid [] s t = ground arith
read_source_valid (tok ∷ []) s t = ground arith
read_source_valid (tok ∷ number ∷ toks) s t =
    let type = str2pwm_source (some tok) in
    let val = to_unsigned (2 ^ 16) (atoi number -ℤ pos (pwm_offset type)) in
    subst Holds t (choice_valid type val (valid_pwm_source_ref type val) refl)

module _ {R : Type 0} ⦃a : Arith R⦄ ⦃o : IsOrdered R⦄ (e : Env R) (b : Board) (cmd args : List ℕ)
    (query : Bool) (prev : PrevCmds) (st : Session R) (v : IsValid b st.config) where
  pub fan_name-IsValid : IsValid b (fan_name e b cmd args query prev st).1.config
  unfolding fan_name
  fan_name-IsValid =
      array_string_setting_keeps e (IsValid b) st args query prev v 0 b.fan_count 64
        (λ i. (st.config.fans i).name)
        (λ i x. set_fan st i (record (st.config.fans i) { name = x }))
        (λ i x. set_fan-IsValid b st i (record (st.config.fans i) { name = x }) v (v.0 i))

  pub fan_min_pwm-IsValid : IsValid b (fan_min_pwm e b cmd args query prev st).1.config
  unfolding fan_min_pwm
  fan_min_pwm-IsValid =
      array_unsigned_setting_keeps e (IsValid b) st args query prev v 0 b.fan_count
        (λ i. (st.config.fans i).min_pwm)
        (λ i x. set_fan st i (record (st.config.fans i) { min_pwm = x })) 0 100
        (λ i n least most.
          set_fan-IsValid b st i (record (st.config.fans i) { min_pwm = n }) v
            (let w = v.0 i in ((most, w.0.1), w.1, w.2, w.3, w.4, w.5)))

  pub fan_max_pwm-IsValid : IsValid b (fan_max_pwm e b cmd args query prev st).1.config
  unfolding fan_max_pwm
  fan_max_pwm-IsValid =
      array_unsigned_setting_keeps e (IsValid b) st args query prev v 0 b.fan_count
        (λ i. (st.config.fans i).max_pwm)
        (λ i x. set_fan st i (record (st.config.fans i) { max_pwm = x })) 0 100
        (λ i n least most.
          set_fan-IsValid b st i (record (st.config.fans i) { max_pwm = n }) v
            (let w = v.0 i in ((w.0.0, most), w.1, w.2, w.3, w.4, w.5)))

  pub fan_pwm_coef-IsValid : IsValid b (fan_pwm_coef e b cmd args query prev st).1.config
  unfolding fan_pwm_coef
  fan_pwm_coef-IsValid =
      array_float_setting_keeps e (IsValid b) st args query prev v 0 b.fan_count
        (λ i. (st.config.fans i).pwm_coefficient)
        (λ i x. set_fan st i (record (st.config.fans i) { pwm_coefficient = x })) (a.of_ℕ 0)
        (a.of_ℕ 1000)
        (λ i x fits.
          set_fan-IsValid b st i (record (st.config.fans i) { pwm_coefficient = x }) v
            (let w = v.0 i in (w.0, (fits, w.1.1, w.1.2), w.2, w.3, w.4, w.5)))

  pub fan_pwm_map-IsValid : Unless (IsValid b) (fan_pwm_map e b cmd args query prev st).1
  unfolding fan_pwm_map
  fan_pwm_map-IsValid =
      map_setting_keeps e (IsValid b) st args query prev v (λ s. to_unsigned (2 ^ 8) (atoi s)) 0
        decimal (pos 1) (λ i. ((st.config.fans i).curve.points, (st.config.fans i).curve.pwm))
        (λ i n rows s.
          set_fan s i (record (s.config.fans i) { curve = record { points = n; pwm = rows } }))
        b.fan_count
        (λ i n rows s fits h.
          set_fan-IsValid b s i
            (record (s.config.fans i) { curve = record { points = n; pwm = rows } }) h
            (let w = h.0 i in (w.0, w.1, w.2, w.3, w.4, fits)))

  pub fan_filter-IsValid : IsValid b (fan_filter e b cmd args query prev st).1.config
  unfolding fan_filter
  fan_filter-IsValid =
      filter_setting_keeps e (IsValid b) st args query prev v
        (λ i. ((st.config.fans i).filter, (st.config.fans i).filter_ctx))
        (λ i f c s. set_fan s i (record (s.config.fans i) { filter = f; filter_ctx = c }))
        b.fan_count
        (λ i f c s h.
          set_fan-IsValid b s i (record (s.config.fans i) { filter = f; filter_ctx = c }) h (h.0 i))

  pub fan_rpm_factor-IsValid : IsValid b (fan_rpm_factor e b cmd args query prev st).1.config
  unfolding fan_rpm_factor
  fan_rpm_factor-IsValid =
      array_unsigned_setting_keeps e (IsValid b) st args query prev v 0 b.fan_count
        (λ i. (st.config.fans i).rpm_factor)
        (λ i x. set_fan st i (record (st.config.fans i) { rpm_factor = x })) 1 8
        (λ i n least most.
          set_fan-IsValid b st i (record (st.config.fans i) { rpm_factor = n }) v
            (let w = v.0 i in (w.0, w.1, (least, most), w.3, w.4, w.5)))

  pub fan_tacho_hys-IsValid : IsValid b (fan_tacho_hys e b cmd args query prev st).1.config
  unfolding fan_tacho_hys
  fan_tacho_hys-IsValid =
      array_float_setting_keeps e (IsValid b) st args query prev v 1 b.fan_count
        (λ i. (st.config.fans i).tacho_hyst)
        (λ i x. set_fan st i (record (st.config.fans i) { tacho_hyst = x })) (a.of_ℕ 0)
        (a.of_ℕ 10000)
        (λ i x fits.
          set_fan-IsValid b st i (record (st.config.fans i) { tacho_hyst = x }) v
            (let w = v.0 i in (w.0, (w.1.0, fits, w.1.2), w.2, w.3, w.4, w.5)))

  pub fan_pwm_hys-IsValid : IsValid b (fan_pwm_hys e b cmd args query prev st).1.config
  unfolding fan_pwm_hys
  fan_pwm_hys-IsValid =
      array_float_setting_keeps e (IsValid b) st args query prev v 1 b.fan_count
        (λ i. (st.config.fans i).pwm_hyst)
        (λ i x. set_fan st i (record (st.config.fans i) { pwm_hyst = x })) (a.of_ℕ 0) (a.of_ℕ 10000)
        (λ i x fits.
          set_fan-IsValid b st i (record (st.config.fans i) { pwm_hyst = x }) v
            (let w = v.0 i in (w.0, (w.1.0, w.1.1, fits), w.2, w.3, w.4, w.5)))

  pub fan_rpm_mode-IsValid : IsValid b (fan_rpm_mode e b cmd args query prev st).1.config
  unfolding fan_rpm_mode
  fan_rpm_mode-IsValid = elim (Option-cases (prev_place b.fan_count prev 0)) [
    | inl p ↦ rw (fan_rpm_mode, p) v
    | inr (i, p) ↦ elim (Bool-cases query) [
      | inl q ↦ rw (fan_rpm_mode, p, q) v
      | inr q ↦ elim (Option-cases (e.malloc st.mallocs)) [
        | inl m ↦ rw (fan_rpm_mode, p, q, m) v
        | inr (c, m) ↦ elim (List-cases (strtok b',' args)) [
          | inl t ↦ rw (fan_rpm_mode, p, q, m, t) v
          | inr (tok, toks, t) ↦
              rw (fan_rpm_mode, p, q, m, t)
                (let val = str2rpm_mode (some tok) in
                  let f = record (st.config.fans i) { rpm_mode = val } in
                  set_fan-IsValid b (allocate e st).1 i (fan_lra val toks f) v
                    (fan_lra-IsValid val toks f (v.0 i)))
        ]
      ]
    ]
  ]

  pub fan_source-IsValid : IsValid b (fan_source e b cmd args query prev st).1.config
  unfolding fan_source
  fan_source-IsValid = elim (Option-cases (prev_place b.fan_count prev 0)) [
    | inl p ↦ rw (fan_source, p) v
    | inr (i, p) ↦ elim (Bool-cases query) [
      | inl q ↦ rw (fan_source, p, q) v
      | inr q ↦ elim (Option-cases (e.malloc st.mallocs)) [
        | inl m ↦ rw (fan_source, p, q, m) v
        | inr (c, m) ↦ elim (Option-cases (read_source (strtok b',' args)).1) [
          | inl t ↦ rw (fan_source, p, q, m, t) v
          | inr (s, t) ↦
              let w = v.0 i in
              rw (fan_source, p, q, m, t)
                (set_fan-IsValid b (allocate e st).1 i
                  (record (st.config.fans i) { s_type = s.0; s_id = s.1 }) v
                  (w.0, w.1, w.2, read_source_valid (strtok b',' args) s t, w.4, w.5))
        ]
      ]
    ]
  ]
