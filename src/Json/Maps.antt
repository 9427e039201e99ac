-- ===== src/Json/Maps.antt =====
-- src/config.c: maps and lists as JSON.

use fanpico.Base.{
  ℕ, zero, suc, ◌+◌, ◌^◌, ◌&&◌, ◌==◌, some, List, [], ◌∷◌, ltb, leb, if◌then◌else◌, update,
}
use fanpico.Base.Int.{pos, pos_part, ltb_ℤ}
use fanpico.Base.Arith.{Arith}
use fanpico.Types.{PwmMap, TachoMap, TempMap, max_map_points, fan_max_count, sensor_max_count}
use fanpico.Json.{Cjson, get_array_item, to_int, to_field}

module _ {R J : Type 0} ⦃a : Arith R⦄ (c : Cjson R J) where
  -- The loop over the rows that the three maps share: the place of the next row and the rows.
  -- Rows behind the last place of the array are passed over.
  unfoldable pub read_rows : {A : Type 0} → (R → A) → List J → ℕ → (ℕ → A × A) → ℕ × (ℕ → A × A)
  read_rows convert [] n rows = (n, rows)
  read_rows convert (row ∷ items) n rows =
      let x = convert (c.get_number (get_array_item c (some row) 0)) in
      let y = convert (c.get_number (get_array_item c (some row) 1)) in
      let stop = read_rows convert items n rows in
      let more = read_rows convert items (n + 1) (update rows n (x, y)) in
      if ltb n max_map_points then more else stop

  -- The rows from place i on, so many.
  unfoldable pub rows_json : {A : Type 0} → (A → R) → (ℕ → A × A) → ℕ → ℕ → List J
  rows_json show rows zero i = []
  rows_json show rows (suc left) i =
      let (x, y) = rows i in
      c.array (c.number (show x) ∷ c.number (show y) ∷ []) ∷ rows_json show rows left (i + 1)

  unfoldable pub json2pwm_map : J → PwmMap → PwmMap
  unfolding read_rows
  json2pwm_map item m =
      let (n, rows) = read_rows (to_field (2 ^ 8)) (c.elements (some item)) 0 m.pwm in
      record { points = n; pwm = rows }

  unfoldable pub pwm_map2json : PwmMap → J
  unfolding rows_json
  pwm_map2json m = c.array (rows_json a.of_ℕ m.pwm m.points 0)

  unfoldable pub json2tacho_map : J → TachoMap → TachoMap
  unfolding read_rows
  json2tacho_map item m =
      let (n, rows) = read_rows (to_field (2 ^ 16)) (c.elements (some item)) 0 m.tacho in
      record { points = n; tacho = rows }

  unfoldable pub tacho_map2json : TachoMap → J
  unfolding rows_json
  tacho_map2json m = c.array (rows_json a.of_ℕ m.tacho m.points 0)

  unfoldable pub json2temp_map : J → TempMap R → TempMap R
  unfolding read_rows
  json2temp_map item m =
      let (n, rows) = read_rows a.single (c.elements (some item)) 0 m.temp in
      record { points = n; temp = rows }

  unfoldable pub temp_map2json : TempMap R → J
  unfolding rows_json
  temp_map2json m = c.array (rows_json (λ x. x) m.temp m.points 0)

  -- The set of fans that a list of numbers from 1 on names; other numbers are passed over.
  unfoldable pub select_sources : List J → (ℕ → ℕ) → ℕ → ℕ
  select_sources [] sources = sources
  select_sources (item ∷ items) sources =
      let i = to_int (a.sub (c.get_number (some item)) (a.of_ℕ 1)) in
      let chosen = select_sources items (update sources (pos_part i) 1) in
      let same = select_sources items sources in
      if ltb_ℤ i (pos 0) then same else (if ltb (pos_part i) fan_max_count then chosen else same)

  -- The entries behind the array are as they were.
  unfoldable pub json2tacho_sources : J → (ℕ → ℕ) → ℕ → ℕ
  unfolding select_sources
  json2tacho_sources item old =
      select_sources (c.elements (some item)) (λ i. if ltb i fan_max_count then 0 else old i)

  unfoldable pub sources_json : (ℕ → ℕ) → ℕ → ℕ → List J
  sources_json sources zero i = []
  sources_json sources (suc left) i =
      let rest = sources_json sources left (i + 1) in
      if sources i == 0 then rest else c.number (a.of_ℕ (i + 1)) ∷ rest

  unfoldable pub tacho_sources2json : ℕ → (ℕ → ℕ) → J
  unfolding sources_json
  tacho_sources2json fan_count sources = c.array (sources_json sources fan_count 0)

  unfoldable pub keep_sensors : ℕ → List J → ℕ → (ℕ → ℕ) → ℕ → ℕ
  keep_sensors sensor_count [] n s = s
  keep_sensors sensor_count (item ∷ items) n s =
      let val = to_int (c.get_number (some item)) in
      let skip = keep_sensors sensor_count items n s in
      let keep = keep_sensors sensor_count items (n + 1) (update s n (pos_part val)) in
      if ltb n sensor_count && (leb 1 (pos_part val) && leb (pos_part val) sensor_count)
      then keep
      else skip

  unfoldable pub json2vsensors : ℕ → J → (ℕ → ℕ) → ℕ → ℕ
  unfolding keep_sensors
  json2vsensors sensor_count item old =
      keep_sensors sensor_count (c.elements (some item)) 0
        (λ i. if ltb i sensor_max_count then 0 else old i)

  unfoldable pub values_json : (ℕ → ℕ) → ℕ → ℕ → List J
  values_json s zero i = []
  values_json s (suc left) i =
      let rest = values_json s left (i + 1) in
      if s i == 0 then rest else c.number (a.of_ℕ (s i)) ∷ rest

  unfoldable pub vsensors2json : ℕ → (ℕ → ℕ) → J
  unfolding values_json
  vsensors2json sensor_count s = c.array (values_json s sensor_count 0)
