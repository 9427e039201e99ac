-- ===== src/Commands/Tests.antt =====
-- Runs of the commands, with handlers that count their calls.
use fanpico.Base.{ℕ, ◌≡◌, refl, Bool, false, List, [], ◌∷◌, some, arith}
use fanpico.Base.Int.{pos, negsuc}
use fanpico.Base.Text.{
  codes, strncasecmp_eq, to_lower, strtok, tokens_from, is_space, skip_space, is_blank,
}
use fanpico.Commands.Func.{Func, cmd_fan_name, cmd_fan_rpm}
use fanpico.Commands.Tables.{commands}
use fanpico.Commands.Run.{
  PrevCmds, Exec, find_cmd, is_query, run_subs, run_cmd, process_all, process_command, trim_str,
  trim_end, first_word,
}
use fanpico.Commands.Search.{longest_cmd, is_rpm}
use fanpico.Commands.Dispatch.{Reads, ends, goes, outcome, run_subs-calls, last_word, above}
use fanpico.Commands.Relate.{process_command_dead}

-- The state is the list of the calls: the name and the arguments.
abbrev recorder : Exec (List (List ℕ × List ℕ))
recorder f s args q stack st = (pos 0, (s, args) ∷ st)

abbrev name_path : List (List ℕ)
name_path = codes "conf" ∷ codes "FAN3" ∷ codes "name?" ∷ []

name_path-Reads : Reads commands name_path cmd_fan_name
unfolding longest_cmd strncasecmp_eq to_lower
name_path-Reads = goes refl (goes refl (ends refl))

run_subs-calls_example :
    outcome (run_subs recorder [] name_path commands [] (negsuc 0, []))
    ≡ recorder cmd_fan_name
        (last_word name_path)
        []
        (is_query (last_word name_path))
        (above [] name_path)
        []
run_subs-calls_example =
    run_subs-calls recorder [] name_path cmd_fan_name (negsuc 0, []) name_path-Reads refl
      (ground arith)

two_commands :
    process_command recorder (codes " conf:fan1:name Left ;*IDN?; bogus") (pos 0, [])
    ≡ (negsuc 112, (codes "*IDN?", []) ∷ (codes "name", codes "Left") ∷ [])
unfolding process_command process_all run_cmd run_subs find_cmd is_query trim_str trim_end
    first_word strncasecmp_eq to_lower strtok tokens_from is_space skip_space is_blank
two_commands = refl

-- Handlers that differ in one that is never called.
abbrev silent : Exec (List (List ℕ × List ℕ))
silent cmd_fan_rpm s args q stack st = (pos 1, st)
silent f s args q stack st = (pos 0, (s, args) ∷ st)

process_command_dead_example :
    process_command recorder (codes "meas:fan1:rpm?") (pos 0, [])
    ≡ process_command silent (codes "meas:fan1:rpm?") (pos 0, [])
process_command_dead_example =
    process_command_dead recorder silent (codes "meas:fan1:rpm?") (pos 0, []) agree
  where
    agree :
        (f : Func) (s args : List ℕ) (q : Bool) (stack : PrevCmds) (st : List (List ℕ × List ℕ))
        → is_rpm (some f) ≡ false
        → recorder f s args q stack st ≡ silent f s args q stack st
    agree cmd_fan_rpm s args q stack st p = ground arith
    agree cmd_fan_name s args q stack st p = refl
    agree f s args q stack st p = refl
