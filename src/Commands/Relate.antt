-- ===== src/Commands/Relate.antt =====
-- src/command.c, `process_command`, run with two sets of handlers side by side.
use fanpico.Base.{
  ℕ, ◌≡◌, ◌∙◌, refl, ap, Bool, true, false, not, inl, inr, arith, Option, none, some, List, [], ◌∷◌,
  if◌then◌else◌, Bool-cases, &&-left, &&-right,
}
use mathlib.Core.Path.{subst}
use fanpico.Base.Int.{ℤ, negsuc}
use fanpico.Base.Text.{strtok}
use fanpico.Commands.Func.{Func}
use fanpico.Commands.Table.{CmdTable}
use fanpico.Commands.Tables.{commands}
use fanpico.Commands.Search.{is_rpm}
use fanpico.Commands.Dead.{alive, commands-alive, live, find_cmd-alive}
use fanpico.Commands.Run.{
  PrevCmds, Exec, find_cmd, is_query, push, descends, call, run_subs, run_cmd, process_all,
  process_command, first_word, starts_at_root, error_number, trim_str,
}

-- The same number and states in relation.
abbrev pub Agree : {S T : Type 0} → (S → T → Type 0) → ℤ × S → ℤ × T → Type 0
Agree R (res, st) (res', st') = (res ≡ res') × R st st'

-- Two sets of handlers of which each but the two that are never called keeps the relation.
abbrev pub Alike : {S T : Type 0} → (S → T → Type 0) → Exec S → Exec T → Type 0
Alike {S} {T} R exec exec' =
    (f : Func) (s args : List ℕ) (q : Bool) (stack : PrevCmds) (st : S) (st' : T)
    → is_rpm (some f) ≡ false
    → R st st'
    → Agree R (exec f s args q stack st) (exec' f s args q stack st')

pair_ext : {A B : Type 0} {a a' : A} {b b' : B} → a ≡ a' → b ≡ b' → ◌≡◌ {A = A × B} (a, b) (a', b')
pair_ext p q = rw (p, q) refl

false_of_not : (b : Bool) → not b ≡ true → b ≡ false
false_of_not true h = ground arith
false_of_not false h = refl

alive_at_root :
    (b : Bool) (level : CmdTable)
    → alive level ≡ true
    → alive (if b then commands else level) ≡ true
alive_at_root true level a = commands-alive
alive_at_root false level a = a

-- The same level of the tables, all of it live, and what agrees.
abbrev AgreeAt : {S T : Type 0} → (S → T → Type 0) → CmdTable × ℤ × S → CmdTable × ℤ × T → Type 0
AgreeAt R (level, res, st) (level', res', st') =
    (level ≡ level') × (alive level ≡ true) × Agree R (res, st) (res', st')

module _ {S T : Type 0} (R : S → T → Type 0) (exec : Exec S) (exec' : Exec T)
    (alike : Alike R exec exec') where
  call-Agree :
      (args : List ℕ) (f : Option Func) (s : List ℕ) (stack : PrevCmds) (r : ℤ × S) (r' : ℤ × T)
      → is_rpm f ≡ false
      → Agree R r r'
      → Agree R (call exec args f s stack r) (call exec' args f s stack r')
  call-Agree args none s stack r r' p h = h
  call-Agree args (some f) s stack (res, st) (res', st') p h =
      alike f s args (is_query s) stack st st' p h.1

  found-AgreeAt :
      (args : List ℕ) (s : List ℕ) (subs : List (List ℕ)) (level : CmdTable) (stack : PrevCmds)
      (r : ℤ × S) (r' : ℤ × T) (o : Option (CmdTable × Option Func))
      → find_cmd level s ≡ o
      → live o ≡ true
      → ((level : CmdTable) (stack : PrevCmds) (r : ℤ × S) (r' : ℤ × T)
          → alive level ≡ true
          → Agree R r r'
          → AgreeAt R
              (run_subs exec args subs level stack r)
              (run_subs exec' args subs level stack r'))
      → alive level ≡ true
      → Agree R r r'
      → AgreeAt R
          (run_subs exec args (s ∷ subs) level stack r)
          (run_subs exec' args (s ∷ subs) level stack r')
  unfolding run_subs
  found-AgreeAt args s subs level stack (res, st) (res', st') none e l ih a h =
      rw (run_subs, e) (refl, a, h)
  found-AgreeAt args s subs level stack r r' (some (sub, f)) e l ih a h =
      elim (Bool-cases (descends sub subs)) [
        | inl d ↦ rw (run_subs, e, d) (ih sub (push s stack) r r' (&&-right (not (is_rpm f)) _ l) h)
        | inr d ↦
            let called =
              call-Agree args f s stack r r'
                (false_of_not (is_rpm f) (&&-left (not (is_rpm f)) _ l)) h in
            rw (run_subs, e, d) (ih level stack _ _ a called)
      ]

  run_subs-AgreeAt :
      (args : List ℕ) (subs : List (List ℕ)) (level : CmdTable) (stack : PrevCmds) (r : ℤ × S)
      (r' : ℤ × T)
      → alive level ≡ true
      → Agree R r r'
      → AgreeAt R (run_subs exec args subs level stack r) (run_subs exec' args subs level stack r')
  unfolding run_subs
  run_subs-AgreeAt args [] level stack (res, st) (res', st') a h = (refl, a, h)
  run_subs-AgreeAt args (s ∷ subs) level stack r r' a h =
      found-AgreeAt args s subs level stack r r' (find_cmd level s) refl (find_cmd-alive level s a)
        (run_subs-AgreeAt args subs) a h

  run_cmd-AgreeAt :
      (cmd : List ℕ) (level : CmdTable) (st : S) (st' : T)
      → alive level ≡ true
      → R st st'
      → AgreeAt R (run_cmd exec cmd level st) (run_cmd exec' cmd level st')
  unfolding run_cmd
  run_cmd-AgreeAt cmd level st st' a h =
      let (word, args) = first_word cmd in
      let level' = if starts_at_root word then commands else level in
      let (same, live', (res, rel)) =
        run_subs-AgreeAt args (strtok b':' word) level' [] (negsuc 0, st) (negsuc 0, st')
          (alive_at_root (starts_at_root word) level a) (refl, h) in
      (same, live', (ap error_number res, rel))

  trimmed-Agree :
      (text : List ℕ) (texts : List (List ℕ)) (level : CmdTable) (r : ℤ × S) (r' : ℤ × T)
      (s : List ℕ)
      → trim_str text ≡ s
      → ((level : CmdTable) (r : ℤ × S) (r' : ℤ × T)
          → alive level ≡ true
          → Agree R r r'
          → Agree R (process_all exec texts level r) (process_all exec' texts level r'))
      → alive level ≡ true
      → Agree R r r'
      → Agree R
          (process_all exec (text ∷ texts) level r)
          (process_all exec' (text ∷ texts) level r')
  unfolding process_all
  trimmed-Agree text texts level r r' [] e ih a h = rw (process_all, e) (ih level r r' a h)
  trimmed-Agree text texts level r r' (c ∷ cmd) e ih a h =
      let ran = run_cmd exec (c ∷ cmd) level r.1 in
      let ran' = run_cmd exec' (c ∷ cmd) level r'.1 in
      let agree = run_cmd-AgreeAt (c ∷ cmd) level r.1 r'.1 a h.1 in
      let later = ih ran.0 (ran.1, ran.2) (ran'.1, ran'.2) agree.1 agree.2 in
      rw (process_all, e)
        (subst
          (λ l.
            Agree R (process_all exec texts ran.0 (ran.1, ran.2))
              (process_all exec' texts l (ran'.1, ran'.2)))
          agree.0 later)

  process_all-Agree :
      (texts : List (List ℕ)) (level : CmdTable) (r : ℤ × S) (r' : ℤ × T)
      → alive level ≡ true
      → Agree R r r'
      → Agree R (process_all exec texts level r) (process_all exec' texts level r')
  unfolding process_all
  process_all-Agree [] level r r' a h = h
  process_all-Agree (text ∷ texts) level r r' a h =
      trimmed-Agree text texts level r r' (trim_str text) refl (process_all-Agree texts) a h

  -- Two sets of handlers that keep a relation of their states, all but the handlers cmd_fan_rpm and
  -- cmd_mbfan_rpm, keep it over every text of commands, and the error numbers agree.
  pub process_command-Agree :
      (command : List ℕ) (r : ℤ × S) (r' : ℤ × T)
      → Agree R r r'
      → Agree R (process_command exec command r) (process_command exec' command r')
  unfolding process_command
  process_command-Agree command r r' h =
      process_all-Agree (strtok b';' command) commands r r' commands-alive h

-- Each handler but the two keeps a property of the state.
abbrev pub Keeps : {S : Type 0} → (S → Type 0) → Exec S → Type 0
Keeps {S} P exec =
    (f : Func) (s args : List ℕ) (q : Bool) (stack : PrevCmds) (st : S)
    → is_rpm (some f) ≡ false
    → P st
    → P (exec f s args q stack st).1

-- A property that each handler but cmd_fan_rpm and cmd_mbfan_rpm keeps holds after every text of
-- commands.
pub process_command-Keeps :
    {S : Type 0} (P : S → Type 0) (exec : Exec S) (command : List ℕ) (r : ℤ × S)
    → Keeps P exec
    → P r.1
    → P (process_command exec command r).1
process_command-Keeps P exec command r keeps h =
    (process_command-Agree (λ a b. (a ≡ b) × P a) exec exec
      (λ f s args q stack st st' p h. (
        ap (λ x. (exec f s args q stack x).0) h.0,
        (ap (λ x. (exec f s args q stack x).1) h.0, keeps f s args q stack st p h.1),
      ))
      command r r (refl, (refl, h))).1.1

-- Two sets of handlers that differ at most in cmd_fan_rpm and cmd_mbfan_rpm process every text of
-- commands the same: no text reaches these two.
pub process_command_dead :
    {S : Type 0} (exec exec' : Exec S) (command : List ℕ) (r : ℤ × S)
    → ((f : Func) (s args : List ℕ) (q : Bool) (stack : PrevCmds) (st : S)
        → is_rpm (some f) ≡ false
        → exec f s args q stack st ≡ exec' f s args q stack st)
    → process_command exec command r ≡ process_command exec' command r
process_command_dead exec exec' command r same =
    let agree =
      process_command-Agree (λ a b. a ≡ b) exec exec'
        (λ f s args q stack st st' p h.
          let eq = same f s args q stack st p in
          (
            ap (λ x. x.0) eq ∙ ap (λ x. (exec' f s args q stack x).0) h,
            ap (λ x. x.1) eq ∙ ap (λ x. (exec' f s args q stack x).1) h,
          ))
        command r r (refl, refl) in
    pair_ext agree.0 agree.1
