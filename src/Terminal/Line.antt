-- ===== src/Terminal/Line.antt =====
-- src/fanpico.c, `main`: the input buffer is never overrun, and a line that is typed is the command.
use fanpico.Base.{
  ℕ, zero, suc, ◌+◌, ◌≤◌, ◌<◌, ◌≡◌, ◌≢◌, refl, true, false, ◌||◌, Option, none, some, arith, List,
  [], ◌∷◌, ◌++◌, length, ltb, leb, ◌==◌, update, update_self, ◌∙◌, ap, All,
}
use mathlib.Core.Path.{subst}
use fanpico.Base.Text.{c_string}
use fanpico.Terminal.{Editor, end_line, type_char, type_all, add_command, input_buf_size}

type_char_in_buffer :
    (c : ℕ) (e : Editor) → e.i_ptr < input_buf_size → (type_char c e).1.i_ptr < input_buf_size
unfolding type_char end_line
type_char_in_buffer c e h = ground arith

-- Whatever is typed, the position stays inside the buffer, the terminator included.
pub type_all_in_buffer :
    (cs : List ℕ) (e : Editor) → e.i_ptr < input_buf_size → (type_all cs e).1.i_ptr < input_buf_size
unfolding type_all
type_all_in_buffer [] e h = h
type_all_in_buffer (c ∷ cs) e h =
    type_all_in_buffer cs (type_char c e).1 (type_char_in_buffer c e h)

-- A byte that is entered as it is.
abbrev pub IsPlain : ℕ → Type 0
IsPlain c = (c ≢ 0) × (c ≢ 0xff) × (c ≢ 0x7f) × (c ≢ 0x08) × (c ≢ 10) × (c ≢ 13)

-- The buffer has the bytes xs from position i on.
abbrev Holds : (ℕ → ℕ) → ℕ → List ℕ → Type 0
Holds buf i [] = Unit
Holds buf i (x ∷ xs) = (buf i ≡ x) × Holds buf (i + 1) xs

c_string-Holds :
    (left i : ℕ) (buf : ℕ → ℕ) (xs : List ℕ)
    → All IsPlain xs
    → length xs < left
    → Holds buf i xs
    → buf (i + length xs) ≡ 0
    → c_string left buf i ≡ xs
unfolding c_string
c_string-Holds zero i buf xs p l h z = absurd (omega arith)
c_string-Holds (suc left) i buf [] p l h z =
    let here : (buf i == 0) ≡ true = ground (arith, z) in rw here refl
c_string-Holds (suc left) i buf (x ∷ xs) (p, ps) l (h, hs) z =
    let here : (buf i == 0) ≡ false = ground arith in
    let at : i + 1 + length xs ≡ i + suc (length xs) = omega arith in
    let rest = c_string-Holds left (i + 1) buf xs ps (omega arith) hs (ap buf at ∙ z) in
    rw (here, h, rest) refl

Holds_cong :
    (b c : ℕ → ℕ) (i : ℕ) (xs : List ℕ)
    → ((j : ℕ) → i ≤ j → j < i + length xs → c j ≡ b j)
    → Holds b i xs
    → Holds c i xs
Holds_cong b c i [] same h = h
Holds_cong b c i (x ∷ xs) same (h, hs) = (
  same i (omega arith) (omega arith) ∙ h,
  Holds_cong b c (i + 1) xs (λ j l m. same j (omega arith) (omega arith)) hs,
)

type_plain :
    (c : ℕ) (e : Editor)
    → IsPlain c
    → e.i_ptr < 1023
    → type_char c e
      ≡ (none, record e { i_ptr = e.i_ptr + 1; input_buf = update e.input_buf e.i_ptr c })
unfolding type_char
type_plain c e (n0, nff, n7f, n8, n10, n13) h =
    let skipped : (c == 0xff || c == 0) ≡ false = ground arith in
    let deletes : (c == 0x7f || c == 0x08) ≡ false = ground arith in
    let ends : (c == 10 || c == 13 || leb 1023 e.i_ptr) ≡ false = ground arith in
    rw (skipped, deletes, ends) refl

-- After plain bytes that fit: no command yet, and the buffer has them from the old position on.
pub record Typed (xs : List ℕ) (e : Editor) (r : List (List ℕ) × Editor) : Type 0 where
  pub no_command : r.0 ≡ []
  pub moved : r.1.i_ptr ≡ e.i_ptr + length xs
  pub held : Holds r.1.input_buf e.i_ptr xs
  pub kept : (j : ℕ) → j < e.i_ptr → r.1.input_buf j ≡ e.input_buf j

type_all-Typed :
    (xs : List ℕ) (e : Editor)
    → All IsPlain xs
    → e.i_ptr + length xs ≤ 1023
    → Typed xs e (type_all xs e)
unfolding type_all
type_all-Typed [] e p h = record {
  no_command = refl;
  moved = omega arith;
  held = tt;
  kept = λ j l. refl;
}
type_all-Typed (x ∷ xs) e (p, ps) h =
    let e1 : Editor = record e { i_ptr = e.i_ptr + 1; input_buf = update e.input_buf e.i_ptr x } in
    let t = type_all-Typed xs e1 ps (omega arith) in
    rw (type_plain x e p (omega arith)) record {
      no_command = t.no_command;
      moved = omega (arith, t.moved);
      held = (t.kept e.i_ptr (omega arith) ∙ update_self e.input_buf e.i_ptr x, t.held);
      kept = λ j l.
          let other : (e.i_ptr == j) ≡ false = ground arith in
          let keeps : update e.input_buf e.i_ptr x j ≡ e.input_buf j = rw other refl in
          t.kept j (omega arith) ∙ keeps;
    }

add_command-append :
    (o : Option (List ℕ)) (cs ds : List (List ℕ))
    → add_command o (cs ++ ds) ≡ add_command o cs ++ ds
add_command-append none cs ds = refl
add_command-append (some c) cs ds = refl

type_all-append :
    (xs ys : List ℕ) (e : Editor)
    → ((type_all (xs ++ ys) e).0 ≡ (type_all xs e).0 ++ (type_all ys (type_all xs e).1).0)
      × ((type_all (xs ++ ys) e).1 ≡ (type_all ys (type_all xs e).1).1)
unfolding type_all
type_all-append [] ys e = (refl, refl)
type_all-append (x ∷ xs) ys e =
    let e1 = (type_char x e).1 in
    let (c, f) = type_all-append xs ys e1 in
    (
      ap (add_command (type_char x e).0) c
          ∙ add_command-append (type_char x e).0 (type_all xs e1).0
              (type_all ys (type_all xs e1).1).0,
      f,
    )

-- The end of a line whose bytes stand in the buffer.
return_typed :
    (xs : List ℕ) (e : Editor)
    → All IsPlain xs
    → 0 < length xs
    → length xs ≤ 1023
    → e.i_ptr ≡ length xs
    → Holds e.input_buf 0 xs
    → ((type_all (13 ∷ []) e).0 ≡ xs ∷ []) × ((type_all (13 ∷ []) e).1.i_ptr ≡ 0)
unfolding type_all type_char end_line
return_typed xs e p pos fits at held =
    let some_text : ltb 0 e.i_ptr ≡ true = ground (arith, at) in
    let buf = update e.input_buf e.i_ptr 0 in
    let same : (j : ℕ) → 0 ≤ j → j < 0 + length xs → buf j ≡ e.input_buf j =
      λ j l m. let other : (e.i_ptr == j) ≡ false = ground (arith, at) in rw other refl in
    let zero_at : buf (0 + length xs) ≡ 0 =
      let here : (e.i_ptr == 0 + length xs) ≡ true = ground (arith, at) in rw here refl in
    let command =
      c_string-Holds input_buf_size 0 buf xs p (omega arith)
        (Holds_cong e.input_buf buf 0 xs same held) zero_at in
    rw some_text (rw command refl, refl)

-- A line of 1 to 1023 plain bytes, typed on an empty line and ended by a carriage return, is the
-- one command that results, and the next line starts at the start of the buffer.
pub type_all_line :
    (xs : List ℕ) (e : Editor)
    → All IsPlain xs
    → 0 < length xs
    → length xs ≤ 1023
    → e.i_ptr ≡ 0
    → ((type_all (xs ++ 13 ∷ []) e).0 ≡ xs ∷ []) × ((type_all (xs ++ 13 ∷ []) e).1.i_ptr ≡ 0)
type_all_line xs e p pos fits empty =
    let t = type_all-Typed xs e p (omega (arith, empty)) in
    let (c, f) = type_all-append xs (13 ∷ []) e in
    let (d, g) =
      return_typed xs (type_all xs e).1 p pos fits (omega (arith, t.moved, empty))
        (subst (λ i. Holds (type_all xs e).1.input_buf i xs) empty t.held) in
    (
      c ∙ ap (λ cs. cs ++ (type_all (13 ∷ []) (type_all xs e).1).0) t.no_command ∙ d,
      ap (λ (r : Editor). r.i_ptr) f ∙ g,
    )
