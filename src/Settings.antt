-- ===== src/Settings.antt =====
-- src/command_util.c: the numbers in the names of commands, and the settings that commands change.
pub mod Ranges
pub mod Index
mod Tests
use fanpico.Base.{
  ℕ, zero, suc, ◌+◌, ◌-◌, ◌%◌, ◌^◌, Bool, true, false, ◌&&◌, ◌||◌, not, Option, none, some, List,
  [], ◌∷◌, length, ltb, leb, ◌==◌, if◌then◌else◌,
}
use fanpico.Base.Int.{ℤ, pos, negsuc}
use fanpico.Base.Text.{codes, is_alpha, is_blank, str_eq, strncasecmp_eq, strtol}

-- The conversion of an `int` to an unsigned type with m values.
unfoldable pub to_unsigned : ℕ → ℤ → ℕ
to_unsigned m (pos n) = n % m
to_unsigned m (negsuc n) = m - 1 - n % m

-- The result of the command (0 for success) and the value of the variable. What a query prints is
-- the value itself.
unfoldable pub unsigned_setting : ℕ → List ℕ → Bool → ℕ → ℕ → ℕ → ℕ × ℕ
unfolding to_unsigned
unsigned_setting m args query var min_val max_val = if query then (0, var) else elim (strtol args) [
  | none ↦ (1, var)
  | some v ↦
      let val = to_unsigned m v in if leb min_val val && leb val max_val then (0, val) else (2, var)
]

unfoldable pub uint32_setting : List ℕ → Bool → ℕ → ℕ → ℕ → ℕ × ℕ
uint32_setting = unsigned_setting (2 ^ 32)

unfoldable pub uint16_setting : List ℕ → Bool → ℕ → ℕ → ℕ → ℕ × ℕ
uint16_setting = unsigned_setting (2 ^ 16)

unfoldable pub uint8_setting : List ℕ → Bool → ℕ → ℕ → ℕ → ℕ × ℕ
uint8_setting = unsigned_setting (2 ^ 8)

unfoldable pub bool_setting : List ℕ → Bool → Bool → ℕ × Bool
bool_setting args query var =
    if query
    then (0, var)
    else (if str_eq args (codes "1")
          || strncasecmp_eq args (codes "true") 5
          || strncasecmp_eq args (codes "on") 3
        then (0, true)
        else (if str_eq args (codes "0")
              || strncasecmp_eq args (codes "false") 6
              || strncasecmp_eq args (codes "off") 4
            then (0, false)
            else (2, var)))

-- Skip letters and blanks, but not the last character.
unfoldable pub skip_letters : List ℕ → List ℕ
skip_letters [] = []
skip_letters (c ∷ []) = c ∷ []
skip_letters (c ∷ d ∷ s) =
    let rest = skip_letters (d ∷ s) in if is_alpha c || is_blank c then rest else c ∷ d ∷ s

-- `str_to_int` with the value for a text without a number.
abbrev pub int_or : ℤ → Option ℤ → ℤ
int_or d none = d
int_or d (some v) = v

unfoldable pub get_cmd_index : Option (List ℕ) → ℤ
unfolding skip_letters
get_cmd_index none = negsuc 0
get_cmd_index (some cmd) =
    if ltb (length cmd) 1 || leb 256 (length cmd)
    then negsuc 1
    else int_or (negsuc 2) (strtol (skip_letters cmd))
