-- ===== src/Crc/Table.antt =====
-- src/crc32.c: every entry of the table is what the program in the comment computes.
use fanpico.Base.{
  ℕ, zero, suc, ◌+◌, ◌<◌, ◌≡◌, refl, ◌∙◌, ap, Bool, true, ◌&&◌, List, [], ◌∷◌, length, get_or, ◌==◌,
  arith,
}
use fanpico.Crc.{crc32_table, table_entry}

-- The rows from number i on.
rows_ok : ℕ → List ℕ → Bool
rows_ok i [] = true
rows_ok i (x ∷ xs) = x == table_entry i && rows_ok (i + 1) xs

get_or-rows :
    (i : ℕ) (xs : List ℕ) (j : ℕ)
    → rows_ok i xs ≡ true
    → j < length xs
    → get_or xs j 0 ≡ table_entry (i + j)
unfolding rows_ok
get_or-rows i [] j h l = absurd (omega arith)
get_or-rows i (x ∷ xs) zero h l =
    let e : x ≡ table_entry i = ground (arith, h) in
    let at : i ≡ i + 0 = omega arith in e ∙ ap table_entry at
get_or-rows i (x ∷ xs) (suc j) h l =
    let rest : rows_ok (i + 1) xs ≡ true = ground (arith, h) in
    let at : i + 1 + j ≡ i + suc j = omega arith in
    get_or-rows (i + 1) xs j rest (omega arith) ∙ ap table_entry at

table-rows : rows_ok 0 crc32_table ≡ true
unfolding rows_ok table_entry
table-rows = refl

-- Every entry of the table of the checksum is the remainder that eight steps of shifting and
-- subtracting the polynomial make of its index.
pub crc32_table_entry : (i : ℕ) → i < 256 → get_or crc32_table i 0 ≡ table_entry i
crc32_table_entry i h =
    let at : 0 + i ≡ i = omega arith in get_or-rows 0 crc32_table i table-rows h ∙ ap table_entry at
