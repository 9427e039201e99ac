-- ===== src/Commands/Table.antt =====
-- src/command_util.h, `struct cmd_t`: a table of commands with their tables of subcommands.
use fanpico.Base.{ℕ, List, Option}
use fanpico.Commands.Func.{Func}

mutual
  -- An array of `struct cmd_t`, which a row of zeros ends. The empty table also stands for NULL.
  pub data CmdTable : Type 0 where
    end_table : CmdTable
    ◌⨾◌ : CmdRow → CmdTable → CmdTable

  -- `cmd`, `min_match`, `subcmds` and `func`.
  pub data CmdRow : Type 0 where
    row : List ℕ → ℕ → CmdTable → Option Func → CmdRow

infixr 4 ◌⨾◌
