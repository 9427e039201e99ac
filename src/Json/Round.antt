-- ===== src/Json/Round.antt =====
-- src/config.c: maps and fans that are written as JSON are read back.
use fanpico.Base.{
  ℕ, zero, suc, ◌+◌, ◌^◌, ◌≤◌, ◌<◌, ◌≡◌, refl, ap, ◌∙◌, inl, inr, true, false, ◌==◌, arith, List,
  [], ◌∷◌, ltb, update, Bool-cases,
}
use fanpico.Base.Int.{pos}
use fanpico.Base.Arith.{Arith, IsOrdered, IsScaling}
use fanpico.Types.{max_map_points}
use fanpico.Settings.{to_unsigned}
use fanpico.Json.{Cjson, IsCjson, to_int, to_field}
use fanpico.Json.Maps.{read_rows, rows_json}

module _ (R : Type 0) ⦃a : Arith R⦄ ⦃o : IsOrdered R⦄ ⦃w : IsScaling R⦄ where
  not_negative : (n : ℕ) → a.lt (a.of_ℕ n) (a.of_ℕ 0) ≡ false
  not_negative n = ground (arith, o.lt-eq-not-le (a.of_ℕ n) (a.of_ℕ 0), o.of_ℕ_mono 0 n)

  pub to_int-of_ℕ : (n : ℕ) → n < 2 ^ 32 → to_int (a.of_ℕ n) ≡ pos n
  to_int-of_ℕ n h = rw (not_negative n, w.to_uint-of_ℕ n h) refl

  -- A number that a field can hold is read back.
  pub to_field-of_ℕ : (m n : ℕ) → n < m → n < 2 ^ 32 → to_field m (a.of_ℕ n) ≡ n
  unfolding to_unsigned
  to_field-of_ℕ m n h k = rw (to_int-of_ℕ n k) (grind arith)

next_row : (n m : ℕ) → n + 1 + m ≡ n + suc m
next_row n m = ground arith

module _ {R J : Type 0} ⦃a : Arith R⦄ (c : Cjson R J) (law : IsCjson R J c) where
  read_rows-row :
      {A : Type 0} (convert : R → A) (x y : R) (items : List J) (n : ℕ) (acc : ℕ → A × A)
      → ltb n max_map_points ≡ true
      → read_rows c convert (c.array (c.number x ∷ c.number y ∷ []) ∷ items) n acc
        ≡ read_rows c convert items (n + 1) (update acc n (convert x, convert y))
  unfolding read_rows
  read_rows-row convert x y items n acc h =
      rw
        (
          read_rows,
          h,
          law.elements-array (c.number x ∷ c.number y ∷ []),
          law.get_number-number x,
          law.get_number-number y,
        )
        refl

  filled :
      {A : Type 0} (rows acc : ℕ → A) (n j : ℕ) (v : A)
      → v ≡ rows n
      → ((k : ℕ) → k < n → acc k ≡ rows k)
      → j < n + 1
      → update acc n v j ≡ rows j
  filled rows acc n j v e done h = elim (Bool-cases (n == j)) [
    | inl q ↦ let same : n ≡ j = ground arith in rw (q, e, same) refl
    | inr q ↦ rw q (done j (ground arith))
  ]

  -- The rows of a map that are written from place n on are read from place n on.
  pub read_rows-rows_json :
      {A : Type 0} (convert : R → A) (show : A → R) (rows acc : ℕ → A × A) (left n : ℕ)
      → n + left ≤ max_map_points
      → ((j : ℕ)
          → j < n + left
          → ◌≡◌ {A = A × A} (convert (show (rows j).0), convert (show (rows j).1)) (rows j))
      → ((j : ℕ) → j < n → acc j ≡ rows j)
      → ((read_rows c convert (rows_json c show rows left n) n acc).0 ≡ n + left)
        × ((j : ℕ)
            → j < n + left
            → (read_rows c convert (rows_json c show rows left n) n acc).1 j ≡ rows j)
  unfolding read_rows rows_json
  read_rows-rows_json convert show rows acc zero n fits exact done =
      (ground arith, λ j h. done j (ground arith))
  read_rows-rows_json convert show rows acc (suc left) n fits exact done =
      let x = show (rows n).0 in
      let y = show (rows n).1 in
      let row =
        read_rows-row convert x y (rows_json c show rows left (n + 1)) n acc (ground arith) in
      let rest =
        read_rows-rows_json convert show rows (update acc n (convert x, convert y)) left (n + 1)
          (ground arith) (λ j h. exact j (ground arith))
          (λ j h. filled rows acc n j (convert x, convert y) (exact n (ground arith)) done h) in
      (
        ap (λ r. r.0) row ∙ rest.0 ∙ next_row n left,
        λ j h. ap (λ r. r.1 j) row ∙ rest.1 j (ground arith),
      )
