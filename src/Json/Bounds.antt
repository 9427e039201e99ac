-- ===== src/Json/Bounds.antt =====
-- src/config.c: what the readers of maps can write.
use fanpico.Base.{
  ℕ, ◌+◌, ◌^◌, ◌≤◌, ◌≡◌, refl, ◌∙◌, inl, inr, arith, List, [], ◌∷◌, ltb, update, update_ne,
  Bool-cases, some,
}
use fanpico.Base.Arith.{Arith}
use fanpico.Types.{PwmMap, TachoMap, TempMap, max_map_points}
use fanpico.Json.{Cjson, get_array_item, to_field}
use fanpico.Json.Maps.{read_rows, json2pwm_map, json2tacho_map, json2temp_map}

-- Of rows that were read from place n on: the last place is at most 32, the rows before n and
-- behind the last place are the old ones.
abbrev Fits : {A : Type 0} → ℕ → (ℕ → A) → ℕ × (ℕ → A) → Type 0
Fits n old r = (n ≤ r.0) × (r.0 ≤ max_map_points) × ((j : ℕ) → r.0 ≤ j → r.1 j ≡ old j)

one_more :
    {A : Type 0} (n : ℕ) (old : ℕ → A) (v : A) (r : ℕ × (ℕ → A))
    → Fits (n + 1) (update old n v) r
    → Fits n old r
one_more n old v r f =
    (grind (arith, f.0), f.1, λ j h. f.2 j h ∙ update_ne old n j v (λ q. grind (arith, f.0)))

module _ {R J : Type 0} ⦃a : Arith R⦄ (c : Cjson R J) where
  read_rows-Fits :
      {A : Type 0} (convert : R → A) (items : List J) (n : ℕ) (rows : ℕ → A × A)
      → n ≤ max_map_points
      → Fits n rows (read_rows c convert items n rows)
  unfolding read_rows
  read_rows-Fits convert [] n rows h = (ground arith, h, λ j k. refl)
  read_rows-Fits convert (row ∷ items) n rows h =
      let x = convert (c.get_number (get_array_item c (some row) 0)) in
      let y = convert (c.get_number (get_array_item c (some row) 1)) in
      let stop = read_rows-Fits convert items n rows h in
      elim (Bool-cases (ltb n max_map_points)) [
        | inl q ↦
            rw (read_rows, q)
              (one_more n rows (x, y) (read_rows c convert items (n + 1) (update rows n (x, y)))
                (read_rows-Fits convert items (n + 1) (update rows n (x, y)) (ground arith)))
        | inr q ↦ rw (read_rows, q) stop
      ]

  -- Whatever the JSON is, a map that is read has at most 32 rows, and the entries behind its last
  -- row are as they were: the three readers write to the rows of their map only.
  pub json_maps_fit :
      (item : J) (m : PwmMap) (t : TachoMap) (p : TempMap R)
      → (((json2pwm_map c item m).points ≤ max_map_points)
          × ((j : ℕ)
              → (json2pwm_map c item m).points ≤ j
              → (json2pwm_map c item m).pwm j ≡ m.pwm j))
        × (((json2tacho_map c item t).points ≤ max_map_points)
            × ((j : ℕ)
                → (json2tacho_map c item t).points ≤ j
                → (json2tacho_map c item t).tacho j ≡ t.tacho j))
        × (((json2temp_map c item p).points ≤ max_map_points)
            × ((j : ℕ)
                → (json2temp_map c item p).points ≤ j
                → (json2temp_map c item p).temp j ≡ p.temp j))
  unfolding json2pwm_map json2tacho_map json2temp_map
  json_maps_fit item m t p =
      let items = c.elements (some item) in
      let pwm = read_rows-Fits (to_field (2 ^ 8)) items 0 m.pwm (ground arith) in
      let tacho = read_rows-Fits (to_field (2 ^ 16)) items 0 t.tacho (ground arith) in
      let temp = read_rows-Fits a.single items 0 p.temp (ground arith) in
      ((pwm.1, pwm.2), (tacho.1, tacho.2), (temp.1, temp.2))
