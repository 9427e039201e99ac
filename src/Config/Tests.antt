-- ===== src/Config/Tests.antt =====
-- src/config.c: tests of the names, and the theorems at inputs that meet their hypotheses.
use fanpico.Base.{◌≡◌, refl, some}
use fanpico.Base.Text.{codes, strncasecmp_eq}
use fanpico.Types.{pwm_mb, vsmode_i2c, rmode_lra, rmode_tacho, tacho_avg}
use fanpico.Config.{
  str2pwm_source, pwm_source2str, str2vsmode, vsmode2str, str2rpm_mode, rpm_mode2str,
  str2tacho_source, tacho_source2str,
}
use fanpico.Config.Names.{names_round_trip}

prefix_and_case :
    (str2pwm_source (some (codes "MBFAN2")) ≡ pwm_mb)
    × (str2rpm_mode (some (codes "lra2")) ≡ rmode_tacho)
unfolding str2pwm_source str2rpm_mode strncasecmp_eq
prefix_and_case = (refl, refl)

names_round_trip_example :
    (str2pwm_source (some (pwm_source2str pwm_mb)) ≡ pwm_mb)
    × (str2tacho_source (some (tacho_source2str tacho_avg)) ≡ tacho_avg)
    × (str2vsmode (some (vsmode2str vsmode_i2c)) ≡ vsmode_i2c)
    × (str2rpm_mode (some (rpm_mode2str rmode_lra)) ≡ rmode_lra)
names_round_trip_example = names_round_trip pwm_mb tacho_avg vsmode_i2c rmode_lra
