-- ===== src/Config/Names.antt =====
-- src/config.c: what is saved by name is read back as it was.
use fanpico.Base.{◌≡◌, refl, some}
use fanpico.Base.Text.{strncasecmp_eq}
use fanpico.Types.{
  PwmSource, pwm_fixed, TachoSource, tacho_fixed, VsensorMode, vsmode_manual, RpmMode, rmode_tacho,
}
use fanpico.Config.{
  str2pwm_source, pwm_source2str, str2vsmode, vsmode2str, str2rpm_mode, rpm_mode2str,
  str2tacho_source, tacho_source2str,
}

pub str2pwm_source-pwm_source2str : (v : PwmSource) → str2pwm_source (some (pwm_source2str v)) ≡ v
unfolding str2pwm_source pwm_source2str strncasecmp_eq
str2pwm_source-pwm_source2str pwm_fixed = refl
str2pwm_source-pwm_source2str _ = refl

str2vsmode-vsmode2str : (v : VsensorMode) → str2vsmode (some (vsmode2str v)) ≡ v
unfolding str2vsmode vsmode2str strncasecmp_eq
str2vsmode-vsmode2str vsmode_manual = refl
str2vsmode-vsmode2str _ = refl

pub str2rpm_mode-rpm_mode2str : (v : RpmMode) → str2rpm_mode (some (rpm_mode2str v)) ≡ v
unfolding str2rpm_mode rpm_mode2str strncasecmp_eq
str2rpm_mode-rpm_mode2str rmode_tacho = refl
str2rpm_mode-rpm_mode2str _ = refl

str2tacho_source-tacho_source2str :
    (v : TachoSource) → str2tacho_source (some (tacho_source2str v)) ≡ v
unfolding str2tacho_source tacho_source2str strncasecmp_eq
str2tacho_source-tacho_source2str tacho_fixed = refl
str2tacho_source-tacho_source2str _ = refl

-- Every value of the four enumerations of the configuration, the PWM source, the tachometer
-- source, the mode of a virtual sensor and the RPM mode, is read back from the name under which it
-- is printed and saved.
pub names_round_trip :
    (p : PwmSource) (t : TachoSource) (v : VsensorMode) (r : RpmMode)
    → (str2pwm_source (some (pwm_source2str p)) ≡ p)
      × (str2tacho_source (some (tacho_source2str t)) ≡ t)
      × (str2vsmode (some (vsmode2str v)) ≡ v)
      × (str2rpm_mode (some (rpm_mode2str r)) ≡ r)
names_round_trip p t v r = (
  str2pwm_source-pwm_source2str p,
  str2tacho_source-tacho_source2str t,
  str2vsmode-vsmode2str v,
  str2rpm_mode-rpm_mode2str r,
)
