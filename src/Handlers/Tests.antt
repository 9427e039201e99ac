-- ===== src/Handlers/Tests.antt =====
-- Runs of the handlers on whole numbers.
use fanpico.Base.{ℕ, ◌≡◌, refl, true, false, [], ◌∷◌, arith}
use fanpico.Base.Int.{pos}
use fanpico.Base.Arith.{ℕ_arith}
use fanpico.Base.Text.{codes}
use fanpico.Types.Board.{board_0804}
use fanpico.Config.{valid_pwm_source_ref, valid_tacho_source_ref}
use fanpico.Samples.{fixed_fan}
use fanpico.Commands.Run.{Exec}
use fanpico.Settings.{get_cmd_index, skip_letters, to_unsigned}
use fanpico.Base.Text.{is_alpha, is_blank, strtol}
use fanpico.Types.{pwm_fixed, tacho_max}
use fanpico.Handlers.Mbfan.{writes_outside}
use fanpico.Handlers.Samples.{env, session}
use fanpico.Handlers.{get_prev_cmd_index, Session, allocate, print_line, set_fan}
use fanpico.Handlers.Arrays.{
  array_string_setting, array_unsigned_setting, array_float_setting, float_setting,
}
use fanpico.Handlers.Refuse.{Refuses, settings_refuse}
use fanpico.Handlers.Fan.{fan_source, source_text}
use fanpico.Handlers.Source.{fan_source_copies}

-- Handlers that fail.
abbrev refuse : Exec (Session ℕ)
refuse f s args q prev st = (pos 1, st)

fan_source_copies_example :
    (fan_source env board_0804 (codes "source") [] true (codes "fan1" ∷ []) session
      ≡ (pos 0, print_line session (source_text fixed_fan)))
    × (fan_source env board_0804
          (codes "source")
          (source_text fixed_fan)
          false
          (codes "fan2" ∷ [])
          session
        ≡ (
          pos 0,
          set_fan (allocate env session).1 1 (record fixed_fan { s_type = pwm_fixed; s_id = 95 }),
        ))
unfolding get_prev_cmd_index get_cmd_index skip_letters is_alpha is_blank strtol
    valid_pwm_source_ref
fan_source_copies_example =
    fan_source_copies env board_0804 (codes "source") [] (codes "fan1" ∷ []) (codes "fan2" ∷ [])
      session 0 1 10 refl refl refl (ground arith) refl

settings_refuse_example :
    Refuses session (
      array_string_setting env
        (codes "170")
        false
        (codes "fan2" ∷ [])
        0
        8
        64
        (λ i. [])
        (λ i s. session)
        session)
    × Refuses session (
        array_unsigned_setting env
          (codes "170")
          false
          (codes "fan2" ∷ [])
          0
          8
          (λ i. 20)
          (λ i v. set_fan session i (record fixed_fan { min_pwm = v }))
          0
          100
          session)
    × Refuses session (
        array_float_setting env
          (codes "170")
          false
          (codes "fan2" ∷ [])
          0
          8
          (λ i. 1)
          (λ i v. set_fan session i (record fixed_fan { tacho_hyst = v }))
          0
          100
          session)
    × Refuses session (
        float_setting env
          (codes "170")
          false
          1
          (λ v. set_fan session 0 (record fixed_fan { tacho_hyst = v }))
          0
          100
          session)
settings_refuse_example =
    settings_refuse env (codes "170") false (codes "fan2" ∷ []) 0 8 64 (λ i. []) (λ i s. session)
      (λ i. 20) (λ i v. set_fan session i (record fixed_fan { min_pwm = v })) 0 100 (λ i. 1)
      (λ i v. set_fan session i (record fixed_fan { tacho_hyst = v })) 0 100 session

-- 65537 passes the test for a fan as 0, and is written at 65536.
outside : writes_outside tacho_max (codes "65537" ∷ []) ≡ true
unfolding writes_outside valid_tacho_source_ref strtol to_unsigned fanpico.Base.Text.atoi
outside = refl
