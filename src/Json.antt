-- ===== src/Json.antt =====
-- src/config.c: the configuration as JSON. cJSON is a library that the firmware calls, so its
-- functions are an interface; that its allocations succeed is assumed.
pub mod Maps
pub mod Filter
pub mod Fans
pub mod Sensors
pub mod Round
pub mod Saved
pub mod Fleet
pub mod Bounds
mod Tests
use fanpico.Base.{ℕ, zero, suc, ◌+◌, ◌≡◌, Bool, Option, none, some, List, [], ◌∷◌, if◌then◌else◌}
use fanpico.Base.Int.{ℤ, pos, negsuc, sub_ℕ}
use fanpico.Base.Arith.{Arith}
use fanpico.Base.Text.{strcasecmp_eq}
use fanpico.Settings.{to_unsigned}

-- `array` and `object` are what cJSON_CreateArray and cJSON_CreateObject and then a call of
-- cJSON_AddItemToArray or cJSON_AddItemToObject for each item make. `elements` are what
-- cJSON_ArrayForEach runs through. A number that is not there is NaN, some value of the type.
pub record Cjson (R : Type 0) (J : Type 0) : Type 0 where
  pub number : R → J
  pub string : List ℕ → J
  pub array : List J → J
  pub object : List (List ℕ × J) → J
  pub get_number : Option J → R
  pub get_string : Option J → Option (List ℕ)
  pub elements : Option J → List J
  pub get_item : Option J → List ℕ → Option J

-- The first field with a name, whatever its case.
abbrev pub find_item : {J : Type 0} → List (List ℕ × J) → List ℕ → Option J
find_item [] name = none
find_item ((key, item) ∷ fields) name =
    let later = find_item fields name in if strcasecmp_eq key name then some item else later

abbrev pub nth : {J : Type 0} → List J → ℕ → Option J
nth [] i = none
nth (x ∷ xs) zero = some x
nth (x ∷ xs) (suc i) = nth xs i

-- What was put in is found.
pub record IsCjson (R : Type 0) (J : Type 0) (c : Cjson R J) : Type 0 where
  pub get_number-number : (x : R) → c.get_number (some (c.number x)) ≡ x
  pub get_string-string : (s : List ℕ) → c.get_string (some (c.string s)) ≡ some s
  pub elements-array : (xs : List J) → c.elements (some (c.array xs)) ≡ xs
  pub get_item-object :
      (fields : List (List ℕ × J)) (name : List ℕ)
      → c.get_item (some (c.object fields)) name ≡ find_item fields name

module _ {R : Type 0} ⦃a : Arith R⦄ where
  -- The conversion of a number to an `int`, which drops the fraction.
  abbrev pub to_int : R → ℤ
  to_int x = if a.lt x (a.of_ℕ 0) then sub_ℕ 0 (a.to_uint (a.neg x)) else pos (a.to_uint x)

  -- The conversion to an unsigned type with m values.
  abbrev pub to_field : ℕ → R → ℕ
  to_field m x = to_unsigned m (to_int x)

module _ {R J : Type 0} (c : Cjson R J) where
  -- `cJSON_GetArrayItem`.
  abbrev pub get_array_item : Option J → ℕ → Option J
  get_array_item item i = nth (c.elements item) i

  -- `JSON_TO_NUM`: a field that is there, converted, or the old value.
  abbrev pub json_to_num : {A : Type 0} → J → List ℕ → (R → A) → A → A
  json_to_num item name convert old = elim (c.get_item (some item) name) [
    | none ↦ old
    | some r ↦ convert (c.get_number (some r))
  ]

  -- The same with a text.
  abbrev pub json_to_text : {A : Type 0} → J → List ℕ → (Option (List ℕ) → A) → A → A
  json_to_text item name convert old = elim (c.get_item (some item) name) [
    | none ↦ old
    | some r ↦ convert (c.get_string (some r))
  ]

  -- The same with the item itself.
  abbrev pub json_to_part : {A : Type 0} → J → List ℕ → (J → A) → A → A
  json_to_part item name read old = elim (c.get_item (some item) name) [
    | none ↦ old
    | some r ↦ read r
  ]
