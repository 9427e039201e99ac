-- ===== src/Util.antt =====
-- src/util.c and src/util_net.c: bounded copies of texts, clamping, names and network masks.
-- A buffer is a function of its index.
pub mod Copies
mod Tests
use fanpico.Base.{
  ℕ, zero, suc, ◌+◌, ◌-◌, ◌*◌, ◌%◌, ◌^◌, Bool, true, false, ◌&&◌, ◌||◌, not, Option, none, some,
  List, [], ◌∷◌, get_or, length, ltb, leb, ◌==◌, if◌then◌else◌, update,
}
use fanpico.Base.Int.{ℤ, ltb_ℤ}
use fanpico.Base.Text.{is_alnum}

-- `strncpy(dst, src, n)`: the bytes of the text, and 0 behind its end, at the first n places.
abbrev pub strncpy : (ℕ → ℕ) → List ℕ → ℕ → ℕ → ℕ
strncpy dst src n i = if ltb i n then get_or src i 0 else dst i

-- `none` stands for a NULL pointer, here and below.
unfoldable pub strncopy : (ℕ → ℕ) → Option (List ℕ) → ℕ → ℕ → ℕ
strncopy dst none size = dst
strncopy dst (some src) size =
    let copied = if ltb 1 size then strncpy dst src (size - 1) else dst in
    if ltb size 1 then dst else update copied (size - 1) 0

-- `strnlen(dst, size)`, from place i on with that many left.
unfoldable pub strnlen_from : (ℕ → ℕ) → ℕ → ℕ → ℕ
strnlen_from dst zero i = 0
strnlen_from dst (suc left) i =
    let rest = strnlen_from dst left (i + 1) in if dst i == 0 then 0 else rest + 1

-- `strncat(dst + used, src, n)` for a place with a terminator: at most n bytes and a terminator.
abbrev pub strncat : (ℕ → ℕ) → ℕ → List ℕ → ℕ → ℕ → ℕ
strncat dst used [] n = update dst used 0
strncat dst used (c ∷ s) zero = update dst used 0
strncat dst used (c ∷ s) (suc n) = strncat (update dst used c) (used + 1) s n

unfoldable pub strncatenate : (ℕ → ℕ) → Option (List ℕ) → ℕ → ℕ → ℕ
unfolding strnlen_from
strncatenate dst none size = dst
strncatenate dst (some src) size =
    let used = strnlen_from dst size 0 in
    let free = size - used in
    if ltb size 1 || leb free 1 then dst else strncat dst used src (free - 1)

unfoldable pub clamp_int : ℤ → ℤ → ℤ → ℤ
clamp_int val low high =
    let res = if ltb_ℤ val low then low else val in if ltb_ℤ high res then high else res

abbrev is_upper : ℕ → Bool
is_upper c = leb b'A' c && leb c b'Z'

-- The characters behind the third are not looked at.
unfoldable pub valid_wifi_country : Option (List ℕ) → Bool
valid_wifi_country (some (a ∷ b ∷ [])) = is_upper a && is_upper b
valid_wifi_country (some (a ∷ b ∷ c ∷ rest)) = is_upper a && is_upper b && leb b'1' c && leb c b'9'
valid_wifi_country _ = false

-- The loop over the characters.
unfoldable pub hostname_chars : List ℕ → Bool
hostname_chars [] = true
hostname_chars (c ∷ s) = let rest = hostname_chars s in (is_alnum c || c == b'-') && rest

unfoldable pub valid_hostname : Option (List ℕ) → Bool
unfolding hostname_chars
valid_hostname none = false
valid_hostname (some name) = hostname_chars name

-- The mask before it is put in network order. The shift by 32 that the prefix 0 asks for is not
-- defined in C: here it gives 0.
unfoldable pub make_netmask : ℕ → ℕ
make_netmask prefix = if ltb prefix 32 then 0xffffffff * 2 ^ (32 - prefix) % 2 ^ 32 else 0xffffffff
