-- ===== src/Terminal.antt =====
-- src/fanpico.c, `main`: the line editor of the console, which makes commands of what is typed.
pub mod Line
mod Tests
use fanpico.Base.Text.{c_string}
use fanpico.Base.{
  ℕ, zero, suc, ◌+◌, ◌-◌, Bool, ◌||◌, Option, none, some, List, [], ◌∷◌, ltb, leb, ◌==◌,
  if◌then◌else◌, update,
}

-- `i_ptr` and `input_buf`.
pub record Editor : Type 0 where
  pub i_ptr : ℕ
  pub input_buf : ℕ → ℕ

-- `sizeof(input_buf)`.
abbrev pub input_buf_size : ℕ
input_buf_size = 1024

-- The end of a line: the command for `process_command`, if there is one. That function may cut the
-- text in the buffer into pieces; what is left there is overwritten before it is read again.
unfoldable pub end_line : Editor → Option (List ℕ) × Editor
end_line e =
    let buf = update e.input_buf e.i_ptr 0 in
    if ltb 0 e.i_ptr
    then (some (c_string input_buf_size buf 0), record e { i_ptr = 0; input_buf = buf })
    else (none, record e { input_buf = buf })

-- A character (a byte) from the console.
unfoldable pub type_char : ℕ → Editor → Option (List ℕ) × Editor
unfolding end_line
type_char c e =
    if c == 0xff || c == 0
    then (none, e)
    else (if c == 0x7f || c == 0x08
        then (none, record e { i_ptr = e.i_ptr - 1 })
        else (if c == 10 || c == 13 || leb (input_buf_size - 1) e.i_ptr then end_line e else (
          none,
          record e { i_ptr = e.i_ptr + 1; input_buf = update e.input_buf e.i_ptr c },
        )))

abbrev pub add_command : Option (List ℕ) → List (List ℕ) → List (List ℕ)
add_command none cs = cs
add_command (some c) cs = c ∷ cs

-- The loop over the characters that have arrived: the commands in order.
unfoldable pub type_all : List ℕ → Editor → List (List ℕ) × Editor
unfolding type_char
type_all [] e = ([], e)
type_all (c ∷ cs) e =
    let (command, e') = type_char c e in
    let (commands, e'') = type_all cs e' in (add_command command commands, e'')
