-- ===== src/Base/Text.antt =====
-- C strings as lists of bytes with no terminator, and the functions of <string.h> and <ctype.h>
-- that the firmware calls on them.
use Prim.Native.Char.{code}
use Prim.Native.String.{String}
use Prim.Native.Nat.{ℕ, zero, suc, ◌+◌, ◌-◌, ◌*◌, ◌/◌, ◌%◌, ◌^◌, min}
use mathlib.Core.Bool.{Bool, true, false, ◌&&◌, ◌||◌}
use mathlib.Core.List.{List, [], ◌∷◌, ◌++◌, reverse}
use mathlib.Core.Option.{Option, none, some}
use fanpico.Base.Int.{ℤ, pos, sub_ℕ}
use fanpico.Base.Tests.{ltb, leb, ◌==◌, if◌then◌else◌}

-- The bytes of an ASCII text.
abbrev pub codes : String → List ℕ
codes String.[] = []
codes (String.◌∷◌ c s) = code c ∷ codes s

unfoldable pub to_lower : ℕ → ℕ
to_lower c = if leb b'A' c && leb c b'Z' then c + 32 else c

unfoldable pub is_alpha : ℕ → Bool
is_alpha c = (leb b'A' c && leb c b'Z') || (leb b'a' c && leb c b'z')

unfoldable pub is_digit : ℕ → Bool
is_digit c = leb b'0' c && leb c b'9'

unfoldable pub is_alnum : ℕ → Bool
unfolding is_alpha is_digit
is_alnum c = is_alpha c || is_digit c

-- `iswspace` in the C locale.
unfoldable pub is_space : ℕ → Bool
is_space c = c == 32 || (leb 9 c && leb c 13)

unfoldable pub is_blank : ℕ → Bool
is_blank c = c == 32 || c == 9

-- `!strncasecmp(s, t, n)`: the first n bytes, each string's terminator included, agree but for case.
unfoldable pub strncasecmp_eq : List ℕ → List ℕ → ℕ → Bool
unfolding to_lower
strncasecmp_eq s t zero = true
strncasecmp_eq [] [] (suc n) = true
strncasecmp_eq [] (d ∷ t) (suc n) = false
strncasecmp_eq (c ∷ s) [] (suc n) = false
strncasecmp_eq (c ∷ s) (d ∷ t) (suc n) = to_lower c == to_lower d && strncasecmp_eq s t n

-- `!strcasecmp(s, t)`.
unfoldable pub strcasecmp_eq : List ℕ → List ℕ → Bool
unfolding to_lower
strcasecmp_eq [] [] = true
strcasecmp_eq [] (d ∷ t) = false
strcasecmp_eq (c ∷ s) [] = false
strcasecmp_eq (c ∷ s) (d ∷ t) = to_lower c == to_lower d && strcasecmp_eq s t

-- `!strcmp(s, t)`.
unfoldable pub str_eq : List ℕ → List ℕ → Bool
str_eq [] [] = true
str_eq [] (d ∷ t) = false
str_eq (c ∷ s) [] = false
str_eq (c ∷ s) (d ∷ t) = c == d && str_eq s t

-- The number that the leading decimal digits spell, after those already read.
unfoldable pub digits_value : ℕ → List ℕ → ℕ
unfolding is_digit
digits_value acc [] = acc
digits_value acc (c ∷ s) =
    let rest = digits_value (acc * 10 + (c - b'0')) s in if is_digit c then rest else acc

unfoldable pub starts_with_digit : List ℕ → Bool
unfolding is_digit
starts_with_digit [] = false
starts_with_digit (c ∷ s) = is_digit c

unfoldable pub skip_space : List ℕ → List ℕ
unfolding is_space
skip_space [] = []
skip_space (c ∷ s) = let rest = skip_space s in if is_space c then rest else c ∷ s

-- A digit string as a 32-bit `long`, which stops at its least and greatest value.
unfoldable pub signed_value : Bool → List ℕ → Option ℤ
unfolding starts_with_digit digits_value
signed_value negative s =
    if starts_with_digit s
    then (if negative
        then some (sub_ℕ 0 (min (digits_value 0 s) (2 ^ 31)))
        else some (pos (min (digits_value 0 s) (2 ^ 31 - 1))))
    else none

unfoldable pub after_space : List ℕ → Option ℤ
unfolding signed_value
after_space [] = none
after_space (c ∷ s) =
    if c == b'-'
    then signed_value true s
    else (if c == b'+' then signed_value false s else signed_value false (c ∷ s))

-- `strtol(s, &end, 10)`: white space, a sign, digits. `none` where no digit is read (`end == s`).
unfoldable pub strtol : List ℕ → Option ℤ
unfolding skip_space after_space
strtol s = after_space (skip_space s)

-- `strtok_r` at one delimiter: the tokens of a text, with the empty ones left out.
unfoldable pub tokens_from : ℕ → List ℕ → List ℕ → List (List ℕ)
tokens_from d [] [] = []
tokens_from d (a ∷ acc) [] = reverse (a ∷ acc) ∷ []
tokens_from d [] (c ∷ s) =
    let next = tokens_from d [] s in
    let more = tokens_from d (c ∷ []) s in if c == d then next else more
tokens_from d (a ∷ acc) (c ∷ s) =
    let next = tokens_from d [] s in
    let more = tokens_from d (c ∷ a ∷ acc) s in if c == d then reverse (a ∷ acc) ∷ next else more

unfoldable pub strtok : ℕ → List ℕ → List (List ℕ)
unfolding tokens_from
strtok d s = tokens_from d [] s

-- The C string at position i of a buffer, of which so many bytes are left.
unfoldable pub c_string : ℕ → (ℕ → ℕ) → ℕ → List ℕ
c_string zero buf i = []
c_string (suc left) buf i =
    let rest = c_string left buf (i + 1) in if buf i == 0 then [] else buf i ∷ rest

-- `%u`, for a number of at most so many digits.
unfoldable pub digits : ℕ → ℕ → List ℕ
digits zero n = []
digits (suc k) n =
    let rest = digits k (n / 10) in
    if ltb n 10 then (b'0' + n) ∷ [] else rest ++ ((b'0' + n % 10) ∷ [])

-- `%u` for a 32-bit number.
abbrev pub decimal : ℕ → List ℕ
decimal = digits 10

-- `atoi`.
unfoldable pub atoi : List ℕ → ℤ
unfolding strtol
atoi s = elim (strtol s) [ none ↦ pos 0 | some v ↦ v ]
