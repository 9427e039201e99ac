-- ===== src/Util/Copies.antt =====
-- src/util.c: a bounded copy stays inside its buffer, ends the text and loses nothing that fits.
use fanpico.Base.{
  ℕ, zero, suc, ◌+◌, ◌-◌, ◌≤◌, ◌<◌, ◌≡◌, ◌≢◌, refl, true, false, some, List, [], ◌∷◌, get_or, take,
  ltb, ◌==◌, All, arith, Bool-cases, inl, inr, ◌⊎◌, ◌∙◌, ap,
}
use fanpico.Base.Int.{ℤ, ltb_ℤ, ◌≤ℤ◌}
use fanpico.Base.Text.{c_string}
use fanpico.Util.{strncopy, clamp_int}

-- The text in a buffer of which left bytes remain at place i, when the buffer has the bytes of s
-- there and then a terminator.
c_string-get_or :
    (left i : ℕ) (buf : ℕ → ℕ) (s : List ℕ)
    → All (λ c. c ≢ 0) s
    → ((k : ℕ) → k < left → buf (i + k) ≡ get_or s k 0)
    → c_string left buf i ≡ take left s
unfolding c_string
c_string-get_or zero i buf s p h = refl
c_string-get_or (suc left) i buf [] p h =
    let z : buf i ≡ 0 = ap buf (omega arith) ∙ h 0 (omega arith) in
    let e : (buf i == 0) ≡ true = ground arith in rw e refl
c_string-get_or (suc left) i buf (c ∷ s) (p, ps) h =
    let z : buf i ≡ c = ap buf (omega arith) ∙ h 0 (omega arith) in
    let e : (buf i == 0) ≡ false = ground arith in
    let rest =
      c_string-get_or left (i + 1) buf s ps
        (λ k l. ap buf (omega arith) ∙ h (suc k) (omega arith)) in
    rw (e, z, rest) refl

strncopy_byte :
    (dst : ℕ → ℕ) (src : List ℕ) (size k : ℕ)
    → k < size - 1
    → strncopy dst (some src) size (0 + k) ≡ get_or src k 0
unfolding strncopy
strncopy_byte dst src size k l =
    let room : ltb size 1 ≡ false = ground arith in
    let more : ltb 1 size ≡ true = ground arith in
    let inside : ltb (0 + k) (size - 1) ≡ true = ground arith in
    let before_end : (size - 1 == 0 + k) ≡ false = ground arith in
    rw (room, more, before_end, inside) (ap (λ j. get_or src j 0) (omega arith))

-- A copy into a buffer of a size that is not 0 is the text cut to size - 1 bytes, with its
-- terminator, and no place outside the buffer changes.
pub strncopy_in_buffer :
    (dst : ℕ → ℕ) (src : List ℕ) (size i : ℕ)
    → 0 < size
    → All (λ c. c ≢ 0) src
    → size ≤ i
    → (c_string (size - 1) (strncopy dst (some src) size) 0 ≡ take (size - 1) src)
      × (strncopy dst (some src) size (size - 1) ≡ 0)
      × (strncopy dst (some src) size i ≡ dst i)
unfolding strncopy
strncopy_in_buffer dst src size i some_room p out = (
  c_string-get_or (size - 1) 0 (strncopy dst (some src) size) src p
      (λ k l. strncopy_byte dst src size k l),
  ground arith,
  ground arith,
)

-- A number is clamped to the nearest one of the range, if that is not empty.
pub clamp_int_nearest :
    (val low high : ℤ)
    → low ≤ℤ high
    → (low ≤ℤ clamp_int val low high)
      × (clamp_int val low high ≤ℤ high)
      × ((clamp_int val low high ≡ val)
          ⊎ ((ltb_ℤ val low ≡ true) × (clamp_int val low high ≡ low))
          ⊎ ((ltb_ℤ high val ≡ true) × (clamp_int val low high ≡ high)))
unfolding clamp_int
clamp_int_nearest val low high h = elim (Bool-cases (ltb_ℤ val low)) [
  | inl below ↦
      let fits : ltb_ℤ high low ≡ false = ground arith in
      rw (below, fits) (omega arith, h, inr (inl (refl, refl)))
  | inr from_low ↦ elim (Bool-cases (ltb_ℤ high val)) [
    | inl above ↦ rw (from_low, above) (h, omega arith, inr (inr (refl, refl)))
    | inr inside ↦ rw (from_low, inside) (ground arith, ground arith, inl refl)
  ]
]
