-- ===== src/Terminal/Tests.antt =====
-- src/fanpico.c, `main`: tests of the line editor, and the theorems at inputs.
use fanpico.Base.{◌<◌, ◌≡◌, refl, [], ◌∷◌, ◌++◌, arith}
use fanpico.Base.Text.{c_string, codes}
use fanpico.Terminal.{Editor, end_line, type_char, type_all}
use fanpico.Terminal.Line.{type_all_in_buffer, type_all_line}

abbrev empty : Editor
empty = record { i_ptr = 0; input_buf = λ i. 0 }

-- A backspace takes the last byte away.
corrected : (type_all (codes "*TRS" ++ 8 ∷ codes "T" ++ 13 ∷ []) empty).0 ≡ codes "*TRT" ∷ []
unfolding type_all type_char end_line c_string
corrected = refl

type_all_in_buffer_example : (type_all (codes "SYS:LOG 3") empty).1.i_ptr < 1024
type_all_in_buffer_example = type_all_in_buffer (codes "SYS:LOG 3") empty (omega arith)

type_all_line_example :
    ((type_all (codes "*RST" ++ 13 ∷ []) empty).0 ≡ codes "*RST" ∷ [])
    × ((type_all (codes "*RST" ++ 13 ∷ []) empty).1.i_ptr ≡ 0)
type_all_line_example =
    type_all_line (codes "*RST") empty (ground arith) (omega arith) (omega arith) refl
