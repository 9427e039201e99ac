-- ===== src/Commands/Dispatch.antt =====
-- src/command.c and src/command_util.c: which handler a path of words calls, and with what.
use fanpico.Base.{
  ℕ, ◌+◌, ◌≤◌, ◌<◌, ◌≡◌, refl, true, false, ◌||◌, not, inl, inr, arith, Option, some, List, [], ◌∷◌,
  length, Bool-cases, &&-left, &&-right,
}
use fanpico.Base.Int.{ℤ}
use mathlib.Core.Path.{subst}
use fanpico.Commands.Func.{Func}
use fanpico.Commands.Table.{CmdTable, CmdRow, end_table, ◌⨾◌}
use fanpico.Commands.Tables.{commands}
use fanpico.Commands.Search.{
  longest_cmd, is_rpm, clear, commands-clear, find_cmd-longest_cmd, longest_cmd-below, below,
}
use fanpico.Commands.Run.{
  PrevCmds, Exec, find_cmd, is_query, push, descends, run_subs, max_cmd_depth,
}

-- Words that read, one level of the tables after another, as the rows that ask for the most of
-- their characters, down to a handler.
pub data Reads : CmdTable → List (List ℕ) → Func → Type 0 where
  ends :
      {t : CmdTable} {s : List ℕ} {m : ℕ} {sub : CmdTable} {f : Func}
      → longest_cmd t s ≡ some (m, sub, some f)
      → Reads t (s ∷ []) f
  goes :
      {t : CmdTable} {s : List ℕ} {m : ℕ} {r : CmdRow} {sub : CmdTable} {g : Option Func}
      {u : List ℕ} {path : List (List ℕ)} {f : Func}
      → longest_cmd t s ≡ some (m, r ⨾ sub, g)
      → Reads (r ⨾ sub) (u ∷ path) f
      → Reads t (s ∷ u ∷ path) f

abbrev pub last_word : List (List ℕ) → List ℕ
last_word [] = []
last_word (s ∷ []) = s
last_word (s ∷ u ∷ path) = last_word (u ∷ path)

-- The words above the last one, the nearest first.
abbrev pub above : PrevCmds → List (List ℕ) → PrevCmds
above stack [] = stack
above stack (s ∷ []) = stack
above stack (s ∷ u ∷ path) = above (s ∷ stack) (u ∷ path)

find_cmd-read :
    (t : CmdTable) (s : List ℕ) (m : ℕ) (sub : CmdTable) (f : Option Func)
    → clear t ≡ true
    → longest_cmd t s ≡ some (m, sub, f)
    → is_rpm f ≡ false
    → find_cmd t s ≡ some (sub, f)
find_cmd-read t s m sub f c e p = elim (find_cmd-longest_cmd t s c) [
  | inl q ↦ rw (q, e) refl
  | inr q ↦ let h : is_rpm f ≡ true = cc in ground arith
]

descends_end : (t : CmdTable) → descends t [] ≡ false
descends_end end_table = refl
descends_end (r ⨾ t) = refl

below_row :
    (m : ℕ) (r : CmdRow) (sub : CmdTable) (g : Option Func)
    → below (some (m, r ⨾ sub, g)) ≡ true
    → (is_rpm g ≡ false) × (clear (r ⨾ sub) ≡ true)
below_row m r sub g h = elim (Bool-cases (is_rpm g)) [
  | inl e ↦
      let a : false ≡ true =
        subst (λ b. (not b || false) ≡ true) e (&&-left (not (is_rpm g) || false) _ h) in
      ground arith
  | inr e ↦ (e, &&-right (not (is_rpm g) || false) _ h)
]

abbrev pub outcome : {S : Type 0} → CmdTable × ℤ × S → ℤ × S
outcome (level, res, st) = (res, st)

push_room :
    (s : List ℕ) (stack : PrevCmds) → length stack < max_cmd_depth → push s stack ≡ s ∷ stack
push_room s stack h = ground arith

module _ {S : Type 0} (exec : Exec S) (args : List ℕ) where
  run_subs-ends :
      (t : CmdTable) (s : List ℕ) (sub : CmdTable) (f : Func) (stack : PrevCmds) (r : ℤ × S)
      → find_cmd t s ≡ some (sub, some f)
      → outcome (run_subs exec args (s ∷ []) t stack r) ≡ exec f s args (is_query s) stack r.1
  unfolding run_subs
  run_subs-ends t s sub f stack (res, st) e = rw (run_subs, e, descends_end sub) refl

  run_subs-goes :
      (t : CmdTable) (s u : List ℕ) (path : List (List ℕ)) (q : CmdRow) (sub : CmdTable)
      (g : Option Func) (stack : PrevCmds) (r : ℤ × S)
      → find_cmd t s ≡ some (q ⨾ sub, g)
      → run_subs exec args (s ∷ u ∷ path) t stack r
        ≡ run_subs exec args (u ∷ path) (q ⨾ sub) (push s stack) r
  unfolding run_subs
  run_subs-goes t s u path q sub g stack (res, st) e = rw (run_subs, e) refl

  run_subs-Reads :
      {f : Func} (t : CmdTable) (path : List (List ℕ)) (stack : PrevCmds) (r : ℤ × S)
      → clear t ≡ true
      → Reads t path f
      → is_rpm (some f) ≡ false
      → length stack + length path ≤ max_cmd_depth + 1
      → outcome (run_subs exec args path t stack r)
        ≡ exec f (last_word path) args (is_query (last_word path)) (above stack path) r.1
  run_subs-Reads t _ stack r c (ends {s = s} {m = m} {sub = sub} {f = f} e) p le =
      run_subs-ends t s sub f stack r (find_cmd-read t s m sub (some f) c e p)
  run_subs-Reads t _ stack r c
        (goes {s = s} {m = m} {r = q} {sub = sub} {g = g} {u = u} {path = path} e h) p le =
      let b = below_row m q sub g (subst (λ o. below o ≡ true) e (longest_cmd-below t s c)) in
      let found = find_cmd-read t s m (q ⨾ sub) g c e b.0 in
      rw (run_subs-goes t s u path q sub g stack r found, push_room s stack (ground arith))
        (run_subs-Reads (q ⨾ sub) (u ∷ path) (s ∷ stack) r b.1 h p (ground arith))

  -- A path of at most 17 words, each of which reads as the row that asks for the most of its
  -- characters among those it fits, calls the handler at its end and no other, with the arguments,
  -- whether the last word ends in a question mark, and the words above it; the result and the state
  -- are those of the handler. This holds for each handler but cmd_fan_rpm and cmd_mbfan_rpm.
  pub run_subs-calls :
      (path : List (List ℕ)) (f : Func) (r : ℤ × S)
      → Reads commands path f
      → is_rpm (some f) ≡ false
      → length path ≤ max_cmd_depth + 1
      → outcome (run_subs exec args path commands [] r)
        ≡ exec f (last_word path) args (is_query (last_word path)) (above [] path) r.1
  run_subs-calls path f r h p le =
      run_subs-Reads commands path [] r commands-clear h p (ground arith)
