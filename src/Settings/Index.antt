-- ===== src/Settings/Index.antt =====
-- src/command_util.c: the number at the end of a command's name.
use fanpico.Base.{
  ℕ, ◌<◌, ◌≡◌, refl, true, false, ◌||◌, some, List, [], ◌∷◌, ◌++◌, length, length-append, All, ltb,
  leb, arith,
}
use fanpico.Base.Int.{negsuc}
use fanpico.Base.Text.{is_alpha, is_blank, strtol}
use fanpico.Settings.{skip_letters, get_cmd_index, int_or}

skip_letters-append :
    (w : List ℕ) (c : ℕ) (s : List ℕ)
    → All (λ d. (is_alpha d || is_blank d) ≡ true) w
    → (is_alpha c || is_blank c) ≡ false
    → skip_letters (w ++ c ∷ s) ≡ c ∷ s
unfolding skip_letters
skip_letters-append [] c [] p h = refl
skip_letters-append [] c (d ∷ s) p h = rw h refl
skip_letters-append (x ∷ []) c s (p, ps) h = rw p (skip_letters-append [] c s tt h)
skip_letters-append (x ∷ y ∷ w) c s (p, ps) h = rw p (skip_letters-append (y ∷ w) c s ps h)

-- The index of a command such as FAN3 is the number that its name ends in: for a name of fewer than
-- 256 bytes that goes on with a character c after letters and blanks, the number read from c on, or
-- -3 if there is none.
pub get_cmd_index_suffix :
    (w : List ℕ) (c : ℕ) (s : List ℕ)
    → All (λ d. (is_alpha d || is_blank d) ≡ true) w
    → (is_alpha c || is_blank c) ≡ false
    → length (w ++ c ∷ s) < 256
    → get_cmd_index (some (w ++ c ∷ s)) ≡ int_or (negsuc 2) (strtol (c ∷ s))
unfolding get_cmd_index
get_cmd_index_suffix w c s p h l =
    let whole = skip_letters-append w c s p h in
    let some_text : ltb (length (w ++ c ∷ s)) 1 ≡ false = ground (arith, length-append w (c ∷ s)) in
    let fits : leb 256 (length (w ++ c ∷ s)) ≡ false = ground arith in
    rw (some_text, fits, whole) refl
