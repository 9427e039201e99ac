-- ===== src/Settings/Tests.antt =====
-- src/command_util.c: tests, and the theorems at inputs.
use fanpico.Base.{◌≤◌, ◌≡◌, ◌⊎◌, refl, true, false, some, ◌++◌, arith}
use fanpico.Base.Int.{negsuc}
use fanpico.Base.Text.{
  codes, strtol, is_space, is_digit, is_alpha, is_blank, strncasecmp_eq, str_eq,
}
use fanpico.Settings.{unsigned_setting, uint16_setting, bool_setting, get_cmd_index, int_or}
use fanpico.Settings.Ranges.{unsigned_setting_in_range, unsigned_setting_takes}
use fanpico.Settings.Index.{get_cmd_index_suffix}

-- A number beyond 16 bits is cut before it is compared to the range.
cut_number : uint16_setting (codes "65616") false 10 1 100 ≡ (0, 80)
unfolding uint16_setting unsigned_setting strtol is_space is_digit
cut_number = refl

switched_off : bool_setting (codes "Off") false true ≡ (0, false)
unfolding bool_setting strncasecmp_eq str_eq
switched_off = refl

unsigned_setting_in_range_example :
    (1 ≤ (unsigned_setting 256 (codes "200") false 50 1 100).1)
    × ((unsigned_setting 256 (codes "200") false 50 1 100).1 ≤ 100)
    × (((unsigned_setting 256 (codes "200") false 50 1 100).0 ≡ 0)
        ⊎ ((unsigned_setting 256 (codes "200") false 50 1 100).1 ≡ 50))
unsigned_setting_in_range_example =
    unsigned_setting_in_range 256 (codes "200") false 50 1 100 (omega arith) (omega arith)

taken_value : unsigned_setting 256 (codes "75") false 50 1 100 ≡ (0, 75)
unfolding strtol is_space is_digit
taken_value = unsigned_setting_takes 256 (codes "75") 50 1 100 75 refl (omega arith)

get_cmd_index_suffix_example :
    get_cmd_index (some (codes "FAN" ++ codes "12?")) ≡ int_or (negsuc 2) (strtol (codes "12?"))
unfolding is_alpha is_blank
get_cmd_index_suffix_example =
    get_cmd_index_suffix (codes "FAN") b'1' (codes "2?") (refl, (refl, (refl, tt))) refl
      (omega arith)
