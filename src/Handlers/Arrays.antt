-- ===== src/Handlers/Arrays.antt =====
-- src/command_util.c: the settings of a field of the elements of an array. The field is given by
-- a function that reads it and a function that writes it.
use fanpico.Base.{ℕ, ◌-◌, ◌||◌, ◌&&◌, Bool, none, some, List, if◌then◌else◌, take}
use fanpico.Base.Int.{ℤ, pos, pos_part, ltb_ℤ}
use fanpico.Base.Arith.{Arith}
use fanpico.Base.Text.{str_eq, strtol, decimal}
use fanpico.Commands.Run.{PrevCmds}
use fanpico.Handlers.{Env, Session, print_line, prev_place}

-- `strncopy` on the C string in a field of so many bytes.
abbrev pub strncopy_text : List ℕ → ℕ → List ℕ
strncopy_text s size = take (size - 1) s

module _ {R : Type 0} ⦃a : Arith R⦄ (e : Env R) where
  -- No field that the handlers set this way has a function that validates it.
  unfoldable pub array_string_setting :
      List ℕ
      → Bool
      → PrevCmds
      → ℕ
      → ℕ
      → ℕ
      → (ℕ → List ℕ)
      → (ℕ → List ℕ → Session R)
      → Session R
      → ℤ × Session R
  array_string_setting args query prev offset count size get put st =
      elim (prev_place count prev offset) [
        | none ↦ (pos 1, st)
        | some i ↦
            if query
            then (pos 0, print_line st (get i))
            else (pos 0, if str_eq (get i) args then st else put i (strncopy_text args size))
      ]

  -- `array_uint8_setting` and `array_uint16_setting`.
  unfoldable pub array_unsigned_setting :
      List ℕ
      → Bool
      → PrevCmds
      → ℕ
      → ℕ
      → (ℕ → ℕ)
      → (ℕ → ℕ → Session R)
      → ℕ
      → ℕ
      → Session R
      → ℤ × Session R
  array_unsigned_setting args query prev offset count get put min_val max_val st =
      elim (prev_place count prev offset) [
        | none ↦ (pos 1, st)
        | some i ↦ if query then (pos 1, print_line st (decimal (get i))) else elim (strtol args) [
          | none ↦ (pos 1, st)
          | some val ↦
              if ltb_ℤ val (pos min_val) || ltb_ℤ (pos max_val) val
              then (pos 2, st)
              else (pos 0, put i (pos_part val))
        ]
      ]

  unfoldable pub array_float_setting :
      List ℕ
      → Bool
      → PrevCmds
      → ℕ
      → ℕ
      → (ℕ → R)
      → (ℕ → R → Session R)
      → R
      → R
      → Session R
      → ℤ × Session R
  array_float_setting args query prev offset count get put min_val max_val st =
      elim (prev_place count prev offset) [
        | none ↦ (pos 1, st)
        | some i ↦
            if query then (pos 1, print_line st (e.fmt 6 (get i))) else elim (a.strtof args) [
              | none ↦ (pos 1, st)
              | some val ↦
                  if a.lt val min_val || a.lt max_val val then (pos 2, st) else (pos 0, put i val)
            ]
      ]

  -- `float_setting`: a single field.
  unfoldable pub float_setting :
      List ℕ → Bool → R → (R → Session R) → R → R → Session R → ℤ × Session R
  float_setting args query var put min_val max_val st =
      if query then (pos 0, print_line st (e.fmt 6 var)) else elim (a.strtof args) [
        | none ↦ (pos 1, st)
        | some val ↦ if a.le min_val val && a.le val max_val then (pos 0, put val) else (pos 1, st)
      ]
