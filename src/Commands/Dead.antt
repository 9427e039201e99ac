-- ===== src/Commands/Dead.antt =====
-- src/command.c: rows that the search never reaches, since an earlier row takes all their words.
use fanpico.Base.{
  ℕ, zero, suc, ◌≤◌, ◌≡◌, refl, Bool, true, false, ◌&&◌, ◌||◌, not, inl, inr, arith, Option, none,
  some, List, [], ◌∷◌, leb, Bool-cases, &&-left, &&-right,
}
use fanpico.Base.Text.{strncasecmp_eq, to_lower}
use fanpico.Commands.Func.{Func}
use fanpico.Commands.Table.{CmdTable, row, end_table, ◌⨾◌}
use fanpico.Commands.Tables.{commands}
use fanpico.Commands.Search.{is_rpm}
use fanpico.Commands.Run.{find_cmd}

-- Whether a row that was passed fits each word that the name's first m characters begin.
abbrev covers : List (List ℕ × ℕ) → List ℕ → ℕ → Bool
covers [] name m = false
covers ((name', m') ∷ seen) name m =
    (leb m' m && strncasecmp_eq name name' m') || covers seen name m

abbrev alive_from : List (List ℕ × ℕ) → CmdTable → Bool
alive_from seen end_table = true
alive_from seen (row name m sub f ⨾ rest) =
    (not (is_rpm f) || covers seen name m)
    && (alive_from [] sub && alive_from ((name, m) ∷ seen) rest)

-- A table and all below it in which the two handlers stand only in rows that others cover.
abbrev pub alive : CmdTable → Bool
alive = alive_from []

pub commands-alive : alive commands ≡ true
unfolding strncasecmp_eq to_lower
commands-alive = refl

abbrev fails : List (List ℕ × ℕ) → List ℕ → Bool
fails [] s = true
fails ((name, m) ∷ seen) s = not (strncasecmp_eq s name m) && fails seen s

strncasecmp_eq_trans :
    (s a b : List ℕ) (n m : ℕ)
    → n ≤ m
    → strncasecmp_eq s a m ≡ true
    → strncasecmp_eq a b n ≡ true
    → strncasecmp_eq s b n ≡ true
unfolding strncasecmp_eq
strncasecmp_eq_trans s a b zero m le p q = refl
strncasecmp_eq_trans s a b (suc n) zero le p q = ground arith
strncasecmp_eq_trans [] [] b (suc n) (suc m) le p q = q
strncasecmp_eq_trans [] (c ∷ a) b (suc n) (suc m) le p q = ground arith
strncasecmp_eq_trans (x ∷ s) [] b (suc n) (suc m) le p q = ground arith
strncasecmp_eq_trans (x ∷ s) (c ∷ a) [] (suc n) (suc m) le p q = ground arith
strncasecmp_eq_trans (x ∷ s) (c ∷ a) (d ∷ b) (suc n) (suc m) le p q =
    let later = strncasecmp_eq_trans s a b n m in ground arith

covers-fails :
    (seen : List (List ℕ × ℕ)) (name s : List ℕ) (m : ℕ)
    → fails seen s ≡ true
    → strncasecmp_eq s name m ≡ true
    → covers seen name m ≡ false
covers-fails [] name s m h p = refl
covers-fails ((name', m') ∷ seen) name s m h p =
    let later = covers-fails seen name s m in
    let trans = strncasecmp_eq_trans s name name' m' m in ground arith

-- What a search returns in a live table: a handler other than the two, and a live table.
abbrev pub live : Option (CmdTable × Option Func) → Bool
live none = true
live (some (sub, f)) = not (is_rpm f) && alive sub

uncovered : (a b c d : Bool) → ((a || b) && (c && d)) ≡ true → b ≡ false → (a && c) ≡ true
uncovered true b c d h n = &&-left c d h
uncovered false true c d h n = ground arith
uncovered false false c d h n = h

find_cmd-live :
    (t : CmdTable) (seen : List (List ℕ × ℕ)) (s : List ℕ)
    → alive_from seen t ≡ true
    → fails seen s ≡ true
    → live (find_cmd t s) ≡ true
unfolding find_cmd
find_cmd-live end_table seen s a h = refl
find_cmd-live (row name m sub f ⨾ rest) seen s a h = elim (Bool-cases (strncasecmp_eq s name m)) [
  | inl e ↦ rw e (
      uncovered (not (is_rpm f)) (covers seen name m) (alive sub) _ a
        (covers-fails seen name s m h e))
  | inr e ↦ rw e (
      find_cmd-live rest ((name, m) ∷ seen) s
        (&&-right (alive_from [] sub) _ (&&-right (not (is_rpm f) || covers seen name m) _ a))
        (rw e h))
]

pub find_cmd-alive : (t : CmdTable) (s : List ℕ) → alive t ≡ true → live (find_cmd t s) ≡ true
find_cmd-alive t s a = find_cmd-live t [] s a refl
