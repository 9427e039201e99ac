-- ===== src/Commands/Run.antt =====
-- src/command_util.c, `run_cmd`, and src/command.c, `process_command`.
use fanpico.Base.{
  ℕ, zero, suc, Bool, true, false, ◌||◌, Option, none, some, List, [], ◌∷◌, length, ltb, ◌==◌,
  if◌then◌else◌,
}
use fanpico.Base.Int.{ℤ, pos, negsuc}
use fanpico.Base.Text.{is_blank, is_space, skip_space, strncasecmp_eq, strtok}
use fanpico.Commands.Func.{Func}
use fanpico.Commands.Table.{CmdTable, row, end_table, ◌⨾◌}
use fanpico.Commands.Tables.{commands}

-- The subcommands above a command, the last one first.
abbrev pub PrevCmds : Type 0
PrevCmds = List (List ℕ)

-- What a handler does: its name as typed, the arguments, whether it is a query, the subcommands
-- above it and the state to its result and the state.
abbrev pub Exec : Type 0 → Type 0
Exec S = Func → List ℕ → List ℕ → Bool → PrevCmds → S → ℤ × S

-- `trim_str` at the end of a text.
unfoldable pub trim_end : List ℕ → List ℕ
unfolding is_space
trim_end [] = []
trim_end (c ∷ s) = elim (trim_end s) [ [] ↦ if is_space c then [] else c ∷ [] | d ∷ t ↦ c ∷ d ∷ t ]

unfoldable pub trim_str : List ℕ → List ℕ
unfolding trim_end skip_space
trim_str s = trim_end (skip_space s)

-- The first word of a command that begins with none of the delimiters, and its arguments.
unfoldable pub first_word : List ℕ → List ℕ × List ℕ
unfolding is_blank
first_word [] = ([], [])
first_word (c ∷ s) =
    let (word, args) = first_word s in if is_blank c then ([], s) else (c ∷ word, args)

-- The loop over the rows of a table: the subcommands and the handler of the first row that fits.
unfoldable pub find_cmd : CmdTable → List ℕ → Option (CmdTable × Option Func)
find_cmd end_table s = none
find_cmd (row name min_match subcmds func ⨾ rest) s =
    let later = find_cmd rest s in
    if strncasecmp_eq s name min_match then some (subcmds, func) else later

unfoldable pub is_query : List ℕ → Bool
is_query [] = false
is_query (c ∷ []) = c == b'?'
is_query (c ∷ d ∷ s) = is_query (d ∷ s)

-- `MAX_CMD_DEPTH`.
abbrev pub max_cmd_depth : ℕ
max_cmd_depth = 16

abbrev pub push : List ℕ → PrevCmds → PrevCmds
push s stack = if ltb (length stack) max_cmd_depth then s ∷ stack else stack

-- Whether the search goes on in the subcommands: there are some, and there is a further word.
abbrev pub descends : CmdTable → List (List ℕ) → Bool
descends end_table subs = false
descends (r ⨾ t) [] = false
descends (r ⨾ t) (s ∷ subs) = true

module _ {S : Type 0} (exec : Exec S) (args : List ℕ) where
  abbrev pub call : Option Func → List ℕ → PrevCmds → ℤ × S → ℤ × S
  call none s stack r = r
  call (some f) s stack (res, st) = exec f s args (is_query s) stack st

  -- The loop over the words between colons, from a level of the tables on.
  unfoldable pub run_subs : List (List ℕ) → CmdTable → PrevCmds → ℤ × S → CmdTable × ℤ × S
  run_subs [] level stack (res, st) = (level, res, st)
  run_subs (s ∷ subs) level stack r = elim (find_cmd level s) [
    | none ↦ let (res, st) = r in (level, res, st)
    | some (subcmds, func) ↦ elim (descends subcmds subs) [
      | true ↦ run_subs subs subcmds (push s stack) r
      | false ↦ run_subs subs level stack (call func s stack r)
    ]
  ]

-- `last_error_num` for the result of the last handler.
abbrev pub error_number : ℤ → ℤ
error_number (negsuc n) = negsuc 112
error_number (pos zero) = pos 0
error_number (pos (suc zero)) = negsuc 99
error_number (pos (suc (suc zero))) = negsuc 101
error_number (pos (suc (suc (suc n)))) = negsuc 0

abbrev pub starts_at_root : List ℕ → Bool
starts_at_root [] = false
starts_at_root (c ∷ s) = c == b':' || c == b'*'

module _ {S : Type 0} (exec : Exec S) where
  -- A command, at a level of the tables: the level after it, the error number and the state.
  unfoldable pub run_cmd : List ℕ → CmdTable → S → CmdTable × ℤ × S
  unfolding run_subs
  run_cmd cmd cmd_level st =
      let (word, args) = first_word cmd in
      let level = if starts_at_root word then commands else cmd_level in
      let (level', res, st') = run_subs exec args (strtok b':' word) level [] (negsuc 0, st) in
      (level', error_number res, st')

  -- The loop over the texts between semicolons.
  unfoldable pub process_all : List (List ℕ) → CmdTable → ℤ × S → ℤ × S
  unfolding run_cmd
  process_all [] level r = r
  process_all (text ∷ texts) level (err, st) = elim (trim_str text) [
    | [] ↦ process_all texts level (err, st)
    | c ∷ cmd ↦
        let (level', err', st') = run_cmd (c ∷ cmd) level st in process_all texts level' (err', st')
  ]

  unfoldable pub process_command : List ℕ → ℤ × S → ℤ × S
  unfolding process_all
  process_command command r = process_all (strtok b';' command) commands r
