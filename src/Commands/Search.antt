-- ===== src/Commands/Search.antt =====
-- src/command.c: the rows of a table that a word can mean, and the one that a search finds.
use fanpico.Base.{
  ℕ, zero, suc, ◌≤◌, ◌≡◌, refl, Bool, true, false, ◌&&◌, ◌||◌, not, ◌⊎◌, inl, inr, arith, Option,
  none, some, List, [], ◌∷◌, leb, if◌then◌else◌, Bool-cases, &&-left, &&-right,
}
use fanpico.Base.Text.{strncasecmp_eq, to_lower}
use fanpico.Commands.Func.{Func, cmd_fan_rpm, cmd_mbfan_rpm}
use fanpico.Commands.Table.{CmdTable, row, end_table, ◌⨾◌}
use fanpico.Commands.Tables.{commands}
use fanpico.Commands.Run.{find_cmd}

abbrev pub longer :
    Bool
    → ℕ
    → CmdTable
    → Option Func
    → Option (ℕ × CmdTable × Option Func)
    → Option (ℕ × CmdTable × Option Func)
longer false m sub f o = o
longer true m sub f none = some (m, sub, f)
longer true m sub f (some (n, sub', f')) = if leb n m then some (m, sub, f) else some (n, sub', f')

-- The row that asks for the most characters, of those that a word fits.
unfoldable pub longest_cmd : CmdTable → List ℕ → Option (ℕ × CmdTable × Option Func)
longest_cmd end_table s = none
longest_cmd (row name m sub f ⨾ rest) s =
    longer (strncasecmp_eq s name m) m sub f (longest_cmd rest s)

abbrev pub is_rpm : Option Func → Bool
is_rpm none = false
is_rpm (some cmd_fan_rpm) = true
is_rpm (some cmd_mbfan_rpm) = true
is_rpm (some f) = false

abbrev clear_of : List ℕ → ℕ → CmdTable → Bool
clear_of name m end_table = true
clear_of name m (row name' m' sub f ⨾ rest) =
    (leb m' m || not (strncasecmp_eq name name' m) || is_rpm f) && clear_of name m rest

abbrev pub is_end : CmdTable → Bool
is_end end_table = true
is_end (r ⨾ t) = false

abbrev pub clear : CmdTable → Bool
clear end_table = true
clear (row name m sub f ⨾ rest) =
    clear_of name m rest && ((not (is_rpm f) || is_end sub) && (clear sub && clear rest))

pub commands-clear : clear commands ≡ true
unfolding strncasecmp_eq to_lower
commands-clear = refl

strncasecmp_eq-cut :
    (s a b : List ℕ) (n m : ℕ)
    → n ≤ m
    → strncasecmp_eq s a n ≡ true
    → strncasecmp_eq s b m ≡ true
    → strncasecmp_eq a b n ≡ true
unfolding strncasecmp_eq
strncasecmp_eq-cut s a b zero m le p q = refl
strncasecmp_eq-cut s a b (suc n) zero le p q = ground arith
strncasecmp_eq-cut [] [] [] (suc n) (suc m) le p q = refl
strncasecmp_eq-cut [] [] (d ∷ b) (suc n) (suc m) le p q = ground arith
strncasecmp_eq-cut [] (c ∷ a) b (suc n) (suc m) le p q = ground arith
strncasecmp_eq-cut (x ∷ s) [] b (suc n) (suc m) le p q = ground arith
strncasecmp_eq-cut (x ∷ s) (c ∷ a) [] (suc n) (suc m) le p q = ground arith
strncasecmp_eq-cut (x ∷ s) (c ∷ a) (d ∷ b) (suc n) (suc m) le p q =
    let later = strncasecmp_eq-cut s a b n m in ground arith

abbrev needs : Option (ℕ × CmdTable × Option Func) → ℕ → Bool
needs none m = true
needs (some (n, sub, f)) m = leb n m || is_rpm f

longer-needs :
    (b : Bool) (o : Option (ℕ × CmdTable × Option Func)) (n m : ℕ) (sub : CmdTable)
    (f : Option Func)
    → (b ≡ true → leb n m || is_rpm f ≡ true)
    → needs o m ≡ true
    → needs (longer b n sub f o) m ≡ true
longer-needs false o n m sub f p q = q
longer-needs true none n m sub f p q = p refl
longer-needs true (some (k, sub', f')) n m sub f p q = elim (Bool-cases (leb k n)) [
  | inl e ↦ let p = p refl in rw e p
  | inr e ↦ rw e q
]

longest_cmd-clear_of :
    (t : CmdTable) (name s : List ℕ) (m : ℕ)
    → clear_of name m t ≡ true
    → strncasecmp_eq s name m ≡ true
    → needs (longest_cmd t s) m ≡ true
unfolding longest_cmd
longest_cmd-clear_of end_table name s m c p = refl
longest_cmd-clear_of (row name' m' sub f ⨾ rest) name s m c p =
    longer-needs (strncasecmp_eq s name' m') (longest_cmd rest s) m' m sub f
      (λ q. let cut = strncasecmp_eq-cut s name name' m m' in ground arith)
      (longest_cmd-clear_of rest name s m (ground arith) p)

abbrev pub found : Option (ℕ × CmdTable × Option Func) → Option (CmdTable × Option Func)
found none = none
found (some (n, sub, f)) = some (sub, f)

-- Whether the row is that of a handler which no command reaches.
abbrev pub hidden : Option (ℕ × CmdTable × Option Func) → Bool
hidden none = false
hidden (some (n, sub, f)) = is_rpm f

longer-found :
    (o : Option (ℕ × CmdTable × Option Func)) (m : ℕ) (sub : CmdTable) (f : Option Func)
    → needs o m ≡ true
    → (some (sub, f) ≡ found (longer true m sub f o)) ⊎ (hidden (longer true m sub f o) ≡ true)
longer-found none m sub f p = inl refl
longer-found (some (n, sub', f')) m sub f p = elim (Bool-cases (leb n m)) [
  | inl e ↦ inl (rw e refl)
  | inr e ↦ inr (rw e (ground arith))
]

pub find_cmd-longest_cmd :
    (t : CmdTable) (s : List ℕ)
    → clear t ≡ true
    → (find_cmd t s ≡ found (longest_cmd t s)) ⊎ (hidden (longest_cmd t s) ≡ true)
unfolding find_cmd longest_cmd
find_cmd-longest_cmd end_table s c = inl refl
find_cmd-longest_cmd (row name m sub f ⨾ rest) s c = elim (Bool-cases (strncasecmp_eq s name m)) [
  | inl e ↦ rw e (
      longer-found (longest_cmd rest s) m sub f
        (longest_cmd-clear_of rest name s m (&&-left (clear_of name m rest) _ c) e))
  | inr e ↦ rw e (
      find_cmd-longest_cmd rest s (
        &&-right (clear sub) _
          (&&-right (not (is_rpm f) || is_end sub) _ (&&-right (clear_of name m rest) _ c))))
]

-- The subcommands of a row are clear too, and a row that no command reaches has none.
abbrev pub below : Option (ℕ × CmdTable × Option Func) → Bool
below none = true
below (some (n, sub, f)) = (not (is_rpm f) || is_end sub) && clear sub

longer-below :
    (b : Bool) (o : Option (ℕ × CmdTable × Option Func)) (n : ℕ) (sub : CmdTable) (f : Option Func)
    → (not (is_rpm f) || is_end sub) && clear sub ≡ true
    → below o ≡ true
    → below (longer b n sub f o) ≡ true
longer-below false o n sub f p q = q
longer-below true none n sub f p q = p
longer-below true (some (k, sub', f')) n sub f p q = elim (Bool-cases (leb k n)) [
  | inl e ↦ rw e p
  | inr e ↦ rw e q
]

keeps_left : (a b c : Bool) → (a && (b && c)) ≡ true → (a && b) ≡ true
keeps_left true b c h = &&-left b c h
keeps_left false b c h = h

pub longest_cmd-below :
    (t : CmdTable) (s : List ℕ) → clear t ≡ true → below (longest_cmd t s) ≡ true
unfolding longest_cmd
longest_cmd-below end_table s c = refl
longest_cmd-below (row name m sub f ⨾ rest) s c =
    let later = &&-right (clear_of name m rest) _ c in
    longer-below (strncasecmp_eq s name m) (longest_cmd rest s) m sub f
      (keeps_left (not (is_rpm f) || is_end sub) _ _ later)
      (longest_cmd-below rest s
        (&&-right (clear sub) _ (&&-right (not (is_rpm f) || is_end sub) _ later)))
