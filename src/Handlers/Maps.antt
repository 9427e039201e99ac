-- ===== src/Handlers/Maps.antt =====
-- src/command.c: the texts of the maps, numbers with commas between them.
-- The code keeps the numbers in an array of 32 rows on the stack and does not count them against it:
-- with more than 64 numbers it writes behind the array.
use fanpico.Base.{
  ℕ, true, zero, suc, ◌+◌, ◌*◌, ◌/◌, ◌%◌, ◌^◌, ◌&&◌, ◌==◌, Bool, none, some, List, [], ◌∷◌, ◌++◌,
  length, get_or, leb, if◌then◌else◌,
}
use fanpico.Base.Int.{ℤ, pos}
use fanpico.Base.Arith.{Arith}
use fanpico.Base.Text.{strtok}
use fanpico.Types.{max_map_points}
use fanpico.Commands.Run.{PrevCmds}
use fanpico.Handlers.{Env, Session, print_line, allocate, prev_place}

-- The rows (x, y) from place i on, so many of them.
unfoldable pub rows_text : {A : Type 0} → (A → List ℕ) → (ℕ → A × A) → ℕ → ℕ → List ℕ
rows_text show rows zero i = []
rows_text show rows (suc left) i =
    let rest = rows_text show rows left (i + 1) in
    let (x, y) = rows i in
    (if i == 0 then [] else b',' ∷ []) ++ show x ++ (b',' ∷ []) ++ show y ++ rest

-- The rows that a list of values makes.
abbrev pub rows_of : {A : Type 0} → List A → A → ℕ → A × A
rows_of values d i = (get_or values (i * 2) d, get_or values (i * 2 + 1) d)

unfoldable pub map_values : {A : Type 0} → (List ℕ → A) → List (List ℕ) → List A
map_values value [] = []
map_values value (t ∷ ts) = value t ∷ map_values value ts

-- Whether so many numbers make a map.
abbrev pub makes_map : ℕ → Bool
makes_map count = leb 4 count && (count % 2 == 0)

module _ {R : Type 0} ⦃a : Arith R⦄ (e : Env R) where
  -- What the four commands share: `value` reads a number, `show` prints one, `store` sets the map
  -- of the element at a place, `missing` is the result for a place out of range.
  unfoldable pub map_setting :
      {A : Type 0}
      → (List ℕ → A)
      → A
      → (A → List ℕ)
      → ℤ
      → (ℕ → ℕ × (ℕ → A × A))
      → (ℕ → ℕ → (ℕ → A × A) → Session R → Session R)
      → ℕ
      → List ℕ
      → Bool
      → PrevCmds
      → Session R
      → ℤ × Session R
  unfolding rows_text map_values
  map_setting value d show missing get store count args query prev st =
      elim (prev_place count prev 0) [
        | none ↦ (missing, st)
        | some i ↦
            let (points, rows) = get i in
            if query
            then (pos 0, print_line st (rows_text show rows points 0))
            else (let (mem, st') = allocate e st in
                let values = map_values value (strtok b',' args) in
                elim mem [
                  | none ↦ (pos 2, st')
                  | some p ↦
                      if leb (length values) (2 * max_map_points)
                      then (if makes_map (length values)
                          then (pos 0, store i (length values / 2 % 2 ^ 8) (rows_of values d) st')
                          else (pos 2, st'))
                      else (pos 0, record st' { broken = true })
                ])
      ]

  abbrev pub atof : List ℕ → R
  atof s = elim (a.strtof s) [ none ↦ a.of_ℕ 0 | some x ↦ x ]
