-- ===== src/Handlers/Safe.antt =====
-- src/command.c: no text of commands leaves the ranges of the settings.
use fanpico.Base.Arith.{Arith, IsOrdered}
use fanpico.Types.Board.{Board}
use fanpico.Commands.Func.{Func}
use fanpico.Commands.Run.{Exec}
use fanpico.Handlers.{Env, Session}
use fanpico.Handlers.Valid.{IsValid, Unless}

module _ {R : Type 0} ⦃a : Arith R⦄ ⦃o : IsOrdered R⦄ (e : Env R) (b : Board)
    (other : Exec (Session R)) where
  abbrev pub Valid : Session R → Type 0
  Valid = Unless (IsValid b)
