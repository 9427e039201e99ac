-- ===== src/Json/Tests.antt =====
-- Runs of the JSON reader and writer on whole numbers, with values as a JSON library has them.
use fanpico.Base.{
  false, ℕ, ◌*◌, ◌%◌, ◌<◌, ◌≤◌, ◌^◌, ◌≡◌, refl, ap, arith, Option, none, some, List, [], ◌∷◌,
  if◌then◌else◌,
}
use fanpico.Base.Arith.{ℕ_arith, ℕ-IsOrdered, ℕ-IsScaling}
use fanpico.Base.Text.{strcasecmp_eq}
use fanpico.Types.{FanOutput, max_map_points}
use fanpico.Types.Board.{board_0804}
use fanpico.Samples.{config, fixed_fan, identity, mb, temps, cells}
use fanpico.Handlers.{Session}
use fanpico.Handlers.Samples.{env, session}
use fanpico.Json.{Cjson, IsCjson, find_item}
use fanpico.Json.Maps.{json2pwm_map, json2tacho_map, json2temp_map}
use fanpico.Json.Fans.{json_to_fans, fans_to_json}
use fanpico.Json.Saved.{IsStorable, SameFan}
use fanpico.Json.Fleet.{json_to_fans-fans_to_json}
use fanpico.Json.Bounds.{json_maps_fit}

mutual
  data Json : Type 0 where
    num : ℕ → Json
    text : List ℕ → Json
    arr : Items → Json
    obj : Fields → Json

  data Items : Type 0 where
    no_items : Items
    item : Json → Items → Items

  data Fields : Type 0 where
    no_fields : Fields
    field : List ℕ → Json → Fields → Fields

abbrev to_items : List Json → Items
to_items [] = no_items
to_items (x ∷ xs) = item x (to_items xs)

abbrev of_items : Items → List Json
of_items no_items = []
of_items (item x xs) = x ∷ of_items xs

abbrev to_fields : List (List ℕ × Json) → Fields
to_fields [] = no_fields
to_fields ((k, x) ∷ xs) = field k x (to_fields xs)

abbrev find_field : Fields → List ℕ → Option Json
find_field no_fields name = none
find_field (field k x xs) name =
    let later = find_field xs name in if strcasecmp_eq k name then some x else later

abbrev number_at : Option Json → ℕ
number_at (some (num n)) = n
number_at x = 0

abbrev text_at : Option Json → Option (List ℕ)
text_at (some (text s)) = some s
text_at x = none

abbrev items_at : Option Json → List Json
items_at (some (arr xs)) = of_items xs
items_at x = []

abbrev field_at : Option Json → List ℕ → Option Json
field_at (some (obj fields)) name = find_field fields name
field_at x name = none

abbrev library : Cjson ℕ Json
library = record {
  number = num;
  string = text;
  array = λ xs. arr (to_items xs);
  object = λ fields. obj (to_fields fields);
  get_number = number_at;
  get_string = text_at;
  elements = items_at;
  get_item = field_at;
}

of_items-to_items : (xs : List Json) → of_items (to_items xs) ≡ xs
of_items-to_items [] = refl
of_items-to_items (x ∷ xs) = ap (λ t. x ∷ t) (of_items-to_items xs)

find_field-to_fields :
    (fields : List (List ℕ × Json)) (name : List ℕ)
    → find_field (to_fields fields) name ≡ find_item fields name
find_field-to_fields [] name = refl
find_field-to_fields ((k, x) ∷ fields) name =
    ap (λ t. if strcasecmp_eq k name then some x else t) (find_field-to_fields fields name)

library-IsCjson : IsCjson ℕ Json library
library-IsCjson = record {
  get_number-number = λ x. refl;
  get_string-string = λ s. refl;
  elements-array = of_items-to_items;
  get_item-object = find_field-to_fields;
}

-- Rows of bytes.
abbrev small_fan : FanOutput ℕ
small_fan = record fixed_fan { curve = record { points = 2; pwm = λ i. (i % 2 * 100, i % 2 * 90) } }

abbrev saved : Session ℕ
saved = record {
  config = record config { fans = λ i. small_fan };
  heap = cells;
  mallocs = 0;
  out = [];
  broken = false;
}

row_small : (j : ℕ) → (j % 2 * 100 < 2 ^ 8) × (j % 2 * 90 < 2 ^ 8)
row_small j = (grind arith, grind arith)

small_fan-IsStorable : IsStorable ℕ small_fan
small_fan-IsStorable = record {
  name = ground arith;
  min_pwm = ground arith;
  max_pwm = ground arith;
  s_id = ground arith;
  rpm_factor = ground arith;
  lra_low = ground arith;
  lra_high = ground arith;
  pwm_coefficient = refl;
  tacho_hyst = refl;
  pwm_hyst = refl;
  points = ground arith;
  rows = row_small;
}

json_to_fans-fans_to_json_example :
    SameFan ℕ
      ((json_to_fans library env board_0804
          (some (fans_to_json library env board_0804 saved).0)
          none
          session).config.fans
        3)
      small_fan
json_to_fans-fans_to_json_example =
    json_to_fans-fans_to_json ⦃o = ℕ-IsOrdered⦄ ⦃w = ℕ-IsScaling⦄ library library-IsCjson env
      board_0804 saved session none (ground arith) (λ j. small_fan-IsStorable) 3 (ground arith)

abbrev rows : Json
rows = arr (item (arr (item (num 10) (item (num 20) no_items))) (item (num 7) no_items))

json_maps_fit_example :
    (((json2pwm_map library rows identity).points ≤ max_map_points)
      × ((j : ℕ)
          → (json2pwm_map library rows identity).points ≤ j
          → (json2pwm_map library rows identity).pwm j ≡ identity.pwm j))
    × (((json2tacho_map library rows mb.curve).points ≤ max_map_points)
        × ((j : ℕ)
            → (json2tacho_map library rows mb.curve).points ≤ j
            → (json2tacho_map library rows mb.curve).tacho j ≡ mb.curve.tacho j))
    × (((json2temp_map library rows temps).points ≤ max_map_points)
        × ((j : ℕ)
            → (json2temp_map library rows temps).points ≤ j
            → (json2temp_map library rows temps).temp j ≡ temps.temp j))
json_maps_fit_example = json_maps_fit library rows identity mb.curve temps
