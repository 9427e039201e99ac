-- ===== src/Base/Decimal.antt =====
-- Numbers that are printed are read back.
use fanpico.Base.Tests.{ltb, ◌==◌, Bool-cases}
use fanpico.Base.Int.{pos}
use fanpico.Base.Text.{
  is_digit, digits, digits_value, starts_with_digit, signed_value, after_space, skip_space,
  is_space, strtol, tokens_from,
}
use Prim.Native.Nat.{ℕ, zero, suc, ◌+◌, ◌-◌, ◌*◌, ◌/◌, ◌%◌, ◌^◌, ◌<◌, min}
use mathlib.Core.Path.{◌≡◌, refl}
use mathlib.Core.Logic.{inl, inr}
use mathlib.Core.Bool.{true, false}
use mathlib.Core.List.{List, [], ◌∷◌, ◌++◌, reverse_aux}
use mathlib.Core.Option.{some}
use native.Mathlib.Omega.{arith}
use native.Mathlib.Nat.{pow-suc}

-- A list of digits.
abbrev pub AreDigits : List ℕ → Type 0
AreDigits [] = Unit
AreDigits (c ∷ s) = (is_digit c ≡ true) × AreDigits s

++-AreDigits : (s t : List ℕ) → AreDigits s → AreDigits t → AreDigits (s ++ t)
++-AreDigits [] t h k = k
++-AreDigits (c ∷ s) t h k = (h.0, ++-AreDigits s t h.1 k)

digit_of : (d : ℕ) → d < 10 → is_digit (b'0' + d) ≡ true
unfolding is_digit
digit_of d h = ground arith

pub digits-AreDigits : (k n : ℕ) → AreDigits (digits k n)
unfolding digits
digits-AreDigits zero n = tt
digits-AreDigits (suc k) n = elim (Bool-cases (ltb n 10)) [
  | inl e ↦ rw (digits, e) (digit_of n (ground arith), tt)
  | inr e ↦
      rw (digits, e)
        (++-AreDigits (digits k (n / 10)) _ (digits-AreDigits k (n / 10))
          (digit_of (n % 10) (ground arith), tt))
]

digits_value-++ :
    (s : List ℕ) (acc d : ℕ)
    → AreDigits s
    → d < 10
    → digits_value acc (s ++ ((b'0' + d) ∷ [])) ≡ digits_value acc s * 10 + d
unfolding digits_value
digits_value-++ [] acc d h k = let e = digit_of d k in rw (digits_value, e) (ground arith)
digits_value-++ (c ∷ s) acc d h k =
    let later = digits_value-++ s (acc * 10 + (c - b'0')) d h.1 k in rw (digits_value, h.0) later

below_tenth : (k n : ℕ) → n < 10 ^ suc k → n / 10 < 10 ^ k
below_tenth k n h = let p = pow-suc 10 k in ground arith

pub digits_value-digits : (k n : ℕ) → n < 10 ^ k → digits_value 0 (digits k n) ≡ n
unfolding digits digits_value
digits_value-digits zero n h = ground arith
digits_value-digits (suc k) n h = elim (Bool-cases (ltb n 10)) [
  | inl e ↦ let one = digits_value-++ [] 0 n tt in rw (digits, e) (ground (arith, one))
  | inr e ↦
      let rest = digits_value-digits k (n / 10) (below_tenth k n h) in
      let last =
        digits_value-++ (digits k (n / 10)) 0 (n % 10) (digits-AreDigits k (n / 10))
          (ground arith) in
      rw (digits, e, last, rest) (ground arith)
]

digit_is_no_space : (c : ℕ) → is_digit c ≡ true → is_space c ≡ false
unfolding is_digit is_space
digit_is_no_space c h = ground arith

digit_is_no_sign : (c d : ℕ) → is_digit c ≡ true → d < 48 → (c == d) ≡ false
unfolding is_digit
digit_is_no_sign c d h k = ground arith

strtol-AreDigits :
    (c : ℕ) (s : List ℕ)
    → AreDigits (c ∷ s)
    → strtol (c ∷ s) ≡ some (pos (min (digits_value 0 (c ∷ s)) (2 ^ 31 - 1)))
unfolding strtol skip_space after_space signed_value starts_with_digit
strtol-AreDigits c s h =
    rw
      (
        strtol,
        skip_space,
        digit_is_no_space c h.0,
        after_space,
        digit_is_no_sign c b'-' h.0 (ground arith),
        digit_is_no_sign c b'+' h.0 (ground arith),
        signed_value,
        h.0,
      )
      refl

abbrev IsNonempty : List ℕ → Type 0
IsNonempty [] = ⊥
IsNonempty (c ∷ s) = Unit

++-IsNonempty : (s : List ℕ) (c : ℕ) → IsNonempty (s ++ (c ∷ []))
++-IsNonempty [] c = tt
++-IsNonempty (d ∷ s) c = tt

digits-IsNonempty : (k n : ℕ) → IsNonempty (digits (suc k) n)
unfolding digits
digits-IsNonempty k n = elim (Bool-cases (ltb n 10)) [
  | inl e ↦ rw (digits, e) tt
  | inr e ↦ rw (digits, e) (++-IsNonempty (digits k (n / 10)) (b'0' + n % 10))
]

strtol-nonempty :
    (s : List ℕ)
    → AreDigits s
    → IsNonempty s
    → strtol s ≡ some (pos (min (digits_value 0 s) (2 ^ 31 - 1)))
strtol-nonempty [] h k = absurd k
strtol-nonempty (c ∷ s) h k = strtol-AreDigits c s h

-- A printed number that an `int` can hold is read back.
pub strtol-decimal : (n : ℕ) → n < 2 ^ 31 → strtol (digits 10 n) ≡ some (pos n)
strtol-decimal n h =
    let value = digits_value-digits 10 n (ground arith) in
    let fits : min n (2 ^ 31 - 1) ≡ n = ground arith in
    rw (strtol-nonempty (digits 10 n) (digits-AreDigits 10 n) (digits-IsNonempty 9 n), value, fits)
      refl

digit_is_no_comma : (c : ℕ) → is_digit c ≡ true → (c == b',') ≡ false
unfolding is_digit
digit_is_no_comma c h = ground arith

tokens_from-AreDigits :
    (a : ℕ) (acc s : List ℕ)
    → AreDigits s
    → tokens_from b',' (a ∷ acc) s ≡ reverse_aux (a ∷ acc) s ∷ []
unfolding tokens_from
tokens_from-AreDigits a acc [] h = refl
tokens_from-AreDigits a acc (c ∷ s) h =
    rw (tokens_from, digit_is_no_comma c h.0) (tokens_from-AreDigits c (a ∷ acc) s h.1)

tokens_from-nonempty : (s : List ℕ) → AreDigits s → IsNonempty s → tokens_from b',' [] s ≡ s ∷ []
unfolding tokens_from
tokens_from-nonempty [] h k = absurd k
tokens_from-nonempty (c ∷ s) h k =
    rw (tokens_from, digit_is_no_comma c h.0) (tokens_from-AreDigits c [] s h.1)

-- A printed number is a single token.
pub strtok-decimal : (n : ℕ) → tokens_from b',' [] (digits 10 n) ≡ digits 10 n ∷ []
strtok-decimal n =
    tokens_from-nonempty (digits 10 n) (digits-AreDigits 10 n) (digits-IsNonempty 9 n)
