-- ===== src/Config.antt =====
-- src/config.c: the names of the enumerations in commands and in the saved configuration, and the
-- checks on a source reference. A `char *` argument is `none` for NULL.
pub mod Names
mod Tests
use fanpico.Base.{ℕ, Bool, Option, none, some, List, ltb, leb, if◌then◌else◌}
use fanpico.Base.Text.{codes, strncasecmp_eq}
use fanpico.Types.{
  PwmSource, pwm_fixed, pwm_mb, pwm_sensor, pwm_fan, pwm_vsensor, TachoSource, tacho_fixed,
  tacho_fan, tacho_min, tacho_max, tacho_avg, VsensorMode, vsmode_manual, vsmode_max, vsmode_min,
  vsmode_avg, vsmode_delta, vsmode_onewire, vsmode_i2c, RpmMode, rmode_tacho, rmode_lra,
  fan_max_count, mbfan_max_count, sensor_max_count, vsensor_max_count,
}

pub str2pwm_source : Option (List ℕ) → PwmSource
str2pwm_source none = pwm_fixed
str2pwm_source (some s) =
    if strncasecmp_eq s (codes "mbfan") 5
    then pwm_mb
    else (if strncasecmp_eq s (codes "sensor") 6
        then pwm_sensor
        else (if strncasecmp_eq s (codes "vsensor") 7
            then pwm_vsensor
            else (if strncasecmp_eq s (codes "fan") 3 then pwm_fan else pwm_fixed)))

unfoldable pub pwm_source2str : PwmSource → List ℕ
pwm_source2str pwm_mb = codes "mbfan"
pwm_source2str pwm_sensor = codes "sensor"
pwm_source2str pwm_vsensor = codes "vsensor"
pwm_source2str pwm_fan = codes "fan"
pwm_source2str pwm_fixed = codes "fixed"

-- The argument is a `uint16_t`, so its test against 0 always holds.
unfoldable pub valid_pwm_source_ref : PwmSource → ℕ → Bool
valid_pwm_source_ref pwm_fixed s_id = leb s_id 100
valid_pwm_source_ref pwm_mb s_id = ltb s_id mbfan_max_count
valid_pwm_source_ref pwm_sensor s_id = ltb s_id sensor_max_count
valid_pwm_source_ref pwm_vsensor s_id = ltb s_id vsensor_max_count
valid_pwm_source_ref pwm_fan s_id = ltb s_id fan_max_count

pub str2vsmode : Option (List ℕ) → VsensorMode
str2vsmode none = vsmode_manual
str2vsmode (some s) =
    if strncasecmp_eq s (codes "max") 3
    then vsmode_max
    else (if strncasecmp_eq s (codes "min") 3
        then vsmode_min
        else (if strncasecmp_eq s (codes "avg") 3
            then vsmode_avg
            else (if strncasecmp_eq s (codes "delta") 5
                then vsmode_delta
                else (if strncasecmp_eq s (codes "onewire") 7
                    then vsmode_onewire
                    else (if strncasecmp_eq s (codes "i2c") 3
                        then vsmode_i2c
                        else vsmode_manual)))))

pub vsmode2str : VsensorMode → List ℕ
vsmode2str vsmode_max = codes "max"
vsmode2str vsmode_min = codes "min"
vsmode2str vsmode_avg = codes "avg"
vsmode2str vsmode_delta = codes "delta"
vsmode2str vsmode_onewire = codes "onewire"
vsmode2str vsmode_i2c = codes "i2c"
vsmode2str vsmode_manual = codes "manual"

pub str2rpm_mode : Option (List ℕ) → RpmMode
str2rpm_mode none = rmode_tacho
str2rpm_mode (some s) = if strncasecmp_eq s (codes "lra") 5 then rmode_lra else rmode_tacho

pub rpm_mode2str : RpmMode → List ℕ
rpm_mode2str rmode_lra = codes "lra"
rpm_mode2str rmode_tacho = codes "tacho"

pub str2tacho_source : Option (List ℕ) → TachoSource
str2tacho_source none = tacho_fixed
str2tacho_source (some s) =
    if strncasecmp_eq s (codes "fixed") 5
    then tacho_fixed
    else (if strncasecmp_eq s (codes "fan") 3
        then tacho_fan
        else (if strncasecmp_eq s (codes "min") 3
            then tacho_min
            else (if strncasecmp_eq s (codes "max") 3
                then tacho_max
                else (if strncasecmp_eq s (codes "avg") 3 then tacho_avg else tacho_fixed))))

pub tacho_source2str : TachoSource → List ℕ
tacho_source2str tacho_fan = codes "fan"
tacho_source2str tacho_min = codes "min"
tacho_source2str tacho_max = codes "max"
tacho_source2str tacho_avg = codes "avg"
tacho_source2str tacho_fixed = codes "fixed"

unfoldable pub valid_tacho_source_ref : TachoSource → ℕ → Bool
valid_tacho_source_ref tacho_fixed s_id = leb s_id 50000
valid_tacho_source_ref _ s_id = ltb s_id fan_max_count
