-- ===== src/Json/Saved.antt =====
-- src/config.c: a fan that is written to the configuration file is read back as it was.
use fanpico.Base.{
  ℕ, zero, suc, ◌+◌, ◌^◌, ◌≤◌, ◌<◌, ◌≡◌, refl, ap, ◌∙◌, arith, Option, some, List, [], ◌∷◌, length,
  take,
}
use fanpico.Base.Arith.{Arith, IsOrdered, IsScaling}
use fanpico.Base.Text.{codes, strcasecmp_eq, to_lower}
use fanpico.Types.{FanOutput, PwmMap, max_map_points}
use fanpico.Types.Board.{Board}
use fanpico.Config.{str2pwm_source, pwm_source2str, str2rpm_mode, rpm_mode2str}
use fanpico.Config.Names.{str2pwm_source-pwm_source2str, str2rpm_mode-rpm_mode2str}
use fanpico.Handlers.{Env}
use fanpico.Json.{Cjson, IsCjson, find_item, to_field, json_to_num, json_to_text, json_to_part}
use fanpico.Json.Maps.{rows_json, json2pwm_map, pwm_map2json}
use fanpico.Json.Fans.{read_fan_item, fan_fields, text_or}
use fanpico.Json.Round.{to_field-of_ℕ, read_rows-rows_json}

-- What the fields of the C structure hold: bytes, 16-bit numbers, floats, a name with its
-- terminator and a map of at most 32 rows.
pub record IsStorable (R : Type 0) ⦃a : Arith R⦄ (f : FanOutput R) : Type 0 where
  pub name : length f.name < 64
  pub min_pwm : f.min_pwm < 2 ^ 8
  pub max_pwm : f.max_pwm < 2 ^ 8
  pub s_id : f.s_id < 2 ^ 16
  pub rpm_factor : f.rpm_factor < 2 ^ 8
  pub lra_low : f.lra_low < 2 ^ 16
  pub lra_high : f.lra_high < 2 ^ 16
  pub pwm_coefficient : a.single f.pwm_coefficient ≡ f.pwm_coefficient
  pub tacho_hyst : a.single f.tacho_hyst ≡ f.tacho_hyst
  pub pwm_hyst : a.single f.pwm_hyst ≡ f.pwm_hyst
  pub points : f.curve.points ≤ max_map_points
  pub rows : (j : ℕ) → ((f.curve.pwm j).0 < 2 ^ 8) × ((f.curve.pwm j).1 < 2 ^ 8)

-- All but the filter is the same.
pub record SameFan (R : Type 0) (f g : FanOutput R) : Type 0 where
  pub name : f.name ≡ g.name
  pub min_pwm : f.min_pwm ≡ g.min_pwm
  pub max_pwm : f.max_pwm ≡ g.max_pwm
  pub s_type : f.s_type ≡ g.s_type
  pub s_id : f.s_id ≡ g.s_id
  pub rpm_mode : f.rpm_mode ≡ g.rpm_mode
  pub rpm_factor : f.rpm_factor ≡ g.rpm_factor
  pub lra_low : f.lra_low ≡ g.lra_low
  pub lra_high : f.lra_high ≡ g.lra_high
  pub pwm_coefficient : f.pwm_coefficient ≡ g.pwm_coefficient
  pub tacho_hyst : f.tacho_hyst ≡ g.tacho_hyst
  pub pwm_hyst : f.pwm_hyst ≡ g.pwm_hyst
  pub points : f.curve.points ≡ g.curve.points
  pub rows : (j : ℕ) → j < g.curve.points → f.curve.pwm j ≡ g.curve.pwm j

pair_ext : {A B : Type 0} {x x' : A} {y y' : B} → x ≡ x' → y ≡ y' → ◌≡◌ {A = A × B} (x, y) (x', y')
pair_ext p q = rw (p, q) refl

name_fits : (s : List ℕ) → length s < 64 → length s ≤ 63
name_fits s h = ground arith

zero_ahead : (n : ℕ) → 0 + n ≡ n
zero_ahead n = ground arith

take_all : (s : List ℕ) (n : ℕ) → length s ≤ n → take n s ≡ s
take_all [] zero h = refl
take_all [] (suc n) h = refl
take_all (c ∷ s) zero h = ground arith
take_all (c ∷ s) (suc n) h = ap (λ t. c ∷ t) (take_all s n (ground arith))

module _ {R J : Type 0} ⦃a : Arith R⦄ ⦃o : IsOrdered R⦄ ⦃w : IsScaling R⦄ (c : Cjson R J)
    (law : IsCjson R J c) where
  num_back :
      {A : Type 0} (fields : List (List ℕ × J)) (name : List ℕ) (x : R) (convert : R → A) (old : A)
      → find_item fields name ≡ some (c.number x)
      → json_to_num c (c.object fields) name convert old ≡ convert x
  num_back fields name x convert old e =
      rw (json_to_num, law.get_item-object fields name, e, law.get_number-number x) refl

  text_back :
      {A : Type 0} (fields : List (List ℕ × J)) (name s : List ℕ) (convert : Option (List ℕ) → A)
      (old : A)
      → find_item fields name ≡ some (c.string s)
      → json_to_text c (c.object fields) name convert old ≡ convert (some s)
  text_back fields name s convert old e =
      rw (json_to_text, law.get_item-object fields name, e, law.get_string-string s) refl

  part_back :
      {A : Type 0} (fields : List (List ℕ × J)) (name : List ℕ) (item : J) (read : J → A) (old : A)
      → find_item fields name ≡ some item
      → json_to_part c (c.object fields) name read old ≡ read item
  part_back fields name item read old e = rw (json_to_part, law.get_item-object fields name, e) refl

  byte_back : (n : ℕ) → n < 2 ^ 8 → to_field (2 ^ 8) (a.of_ℕ n) ≡ n
  byte_back n h = to_field-of_ℕ R (2 ^ 8) n h (ground arith)

  word_back : (n : ℕ) → n < 2 ^ 16 → to_field (2 ^ 16) (a.of_ℕ n) ≡ n
  word_back n h = to_field-of_ℕ R (2 ^ 16) n h (ground arith)

  -- A map of at most 32 rows of bytes is read back as it was written, whatever was there before.
  json2pwm_map-pwm_map2json :
      (m old : PwmMap)
      → m.points ≤ max_map_points
      → ((j : ℕ) → ((m.pwm j).0 < 2 ^ 8) × ((m.pwm j).1 < 2 ^ 8))
      → ((json2pwm_map c (pwm_map2json c m) old).points ≡ m.points)
        × ((j : ℕ) → j < m.points → (json2pwm_map c (pwm_map2json c m) old).pwm j ≡ m.pwm j)
  unfolding json2pwm_map pwm_map2json
  json2pwm_map-pwm_map2json m old fits bytes =
      let back =
        read_rows-rows_json c law (to_field (2 ^ 8)) a.of_ℕ m.pwm old.pwm m.points 0 (ground arith)
          (λ j h. pair_ext (byte_back (m.pwm j).0 (bytes j).0) (byte_back (m.pwm j).1 (bytes j).1))
          (λ j h. ground arith) in
      rw (law.elements-array (rows_json c a.of_ℕ m.pwm m.points 0))
        (back.0 ∙ zero_ahead m.points, λ j h. back.1 j (ground arith))

  -- All fields but the filter are read back, whatever they were before.
  pub read_fan_item-fan_fields :
      (e : Env R) (b : Board) (i : ℕ) (f old : FanOutput R) (filter : J)
      → IsStorable R f
      → SameFan R (read_fan_item c e b (c.object (fan_fields c e b i f filter)) old) f
  unfolding strcasecmp_eq to_lower
  read_fan_item-fan_fields e b i f old filter v =
      let fields = fan_fields c e b i f filter in
      let map_back = json2pwm_map-pwm_map2json f.curve old.curve v.points v.rows in
      let read =
        part_back fields (codes "pwm_map") (pwm_map2json c f.curve)
          (λ r. json2pwm_map c r old.curve) old.curve refl in
      record {
        name =
            text_back fields (codes "name") f.name (text_or old.name 64) old.name refl
            ∙ take_all f.name 63 (name_fits f.name v.name);
        min_pwm =
            num_back fields (codes "min_pwm") (a.of_ℕ f.min_pwm) (to_field (2 ^ 8)) old.min_pwm refl
            ∙ byte_back f.min_pwm v.min_pwm;
        max_pwm =
            num_back fields (codes "max_pwm") (a.of_ℕ f.max_pwm) (to_field (2 ^ 8)) old.max_pwm refl
            ∙ byte_back f.max_pwm v.max_pwm;
        s_type =
            text_back fields (codes "source_type") (pwm_source2str f.s_type) str2pwm_source
              old.s_type refl
            ∙ str2pwm_source-pwm_source2str f.s_type;
        s_id =
            num_back fields (codes "source_id") (a.of_ℕ f.s_id) (to_field (2 ^ 16)) old.s_id refl
            ∙ word_back f.s_id v.s_id;
        rpm_mode =
            text_back fields (codes "rpm_mode") (rpm_mode2str f.rpm_mode) str2rpm_mode old.rpm_mode
              refl
            ∙ str2rpm_mode-rpm_mode2str f.rpm_mode;
        rpm_factor =
            num_back fields (codes "rpm_factor") (a.of_ℕ f.rpm_factor) (to_field (2 ^ 8))
              old.rpm_factor refl
            ∙ byte_back f.rpm_factor v.rpm_factor;
        lra_low =
            num_back fields (codes "lra_low") (a.of_ℕ f.lra_low) (to_field (2 ^ 16)) old.lra_low
              refl
            ∙ word_back f.lra_low v.lra_low;
        lra_high =
            num_back fields (codes "lra_high") (a.of_ℕ f.lra_high) (to_field (2 ^ 16)) old.lra_high
              refl
            ∙ word_back f.lra_high v.lra_high;
        pwm_coefficient =
            num_back fields (codes "pwm_coefficient") f.pwm_coefficient a.single old.pwm_coefficient
              refl
            ∙ v.pwm_coefficient;
        tacho_hyst =
            num_back fields (codes "tach_hyst") f.tacho_hyst a.single old.tacho_hyst refl
            ∙ v.tacho_hyst;
        pwm_hyst =
            num_back fields (codes "pwm_hyst") f.pwm_hyst a.single old.pwm_hyst refl ∙ v.pwm_hyst;
        points = ap (λ m. m.points) read ∙ map_back.0;
        rows = λ j h. ap (λ m. m.pwm j) read ∙ map_back.1 j h;
      }
