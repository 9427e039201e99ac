-- ===== src/Json/Fans.antt =====
-- src/config.c, `config_to_json` and `json_to_config`: fans and motherboard inputs.
use fanpico.Base.{
  ℕ, zero, suc, ◌+◌, ◌^◌, not, Option, none, some, List, [], ◌∷◌, ◌++◌, ltb, if◌then◌else◌,
}
use fanpico.Base.Int.{ℤ, pos, negsuc}
use fanpico.Base.Arith.{Arith}
use fanpico.Base.Text.{codes}
use fanpico.Types.{FanOutput, MbInput}
use fanpico.Types.Board.{Board}
use fanpico.Config.{
  str2pwm_source, pwm_source2str, str2tacho_source, tacho_source2str, str2rpm_mode, rpm_mode2str,
}
use fanpico.Handlers.{Env, Session, set_fan, set_mbfan}
use fanpico.Handlers.Arrays.{strncopy_text}
use fanpico.Handlers.Mbfan.{is_single}
use fanpico.Json.{Cjson, to_int, to_field, json_to_num, json_to_text, json_to_part}
use fanpico.Json.Maps.{
  json2pwm_map, pwm_map2json, json2tacho_map, tacho_map2json, json2tacho_sources,
  tacho_sources2json,
}
use fanpico.Json.Filter.{json2filter, filter2json}

-- A text into a field of so many bytes, the old one where the item is no text.
abbrev pub text_or : List ℕ → ℕ → Option (List ℕ) → List ℕ
text_or old size none = old
text_or old size (some s) = strncopy_text s size

-- The place in an array with so many elements that an item's id names.
abbrev pub id_place : ℕ → ℤ → Option ℕ
id_place count (pos i) = if ltb i count then some i else none
id_place count (negsuc i) = none

module _ {R J : Type 0} ⦃a : Arith R⦄ (c : Cjson R J) (e : Env R) (b : Board) where
  -- `JSON_TO_STRING`.
  abbrev pub json_to_string : J → List ℕ → ℕ → List ℕ → List ℕ
  json_to_string item name size old = json_to_text c item name (text_or old size) old

  abbrev pub number_of : ℕ → J
  number_of n = c.number (a.of_ℕ n)

  -- All fields but the filter.
  abbrev pub read_fan_item : J → FanOutput R → FanOutput R
  read_fan_item item f = record f {
    name = json_to_string item (codes "name") 64 f.name;
    min_pwm = json_to_num c item (codes "min_pwm") (to_field (2 ^ 8)) f.min_pwm;
    max_pwm = json_to_num c item (codes "max_pwm") (to_field (2 ^ 8)) f.max_pwm;
    pwm_coefficient = json_to_num c item (codes "pwm_coefficient") a.single f.pwm_coefficient;
    rpm_factor = json_to_num c item (codes "rpm_factor") (to_field (2 ^ 8)) f.rpm_factor;
    lra_low = json_to_num c item (codes "lra_low") (to_field (2 ^ 16)) f.lra_low;
    lra_high = json_to_num c item (codes "lra_high") (to_field (2 ^ 16)) f.lra_high;
    tacho_hyst = json_to_num c item (codes "tach_hyst") a.single f.tacho_hyst;
    pwm_hyst = json_to_num c item (codes "pwm_hyst") a.single f.pwm_hyst;
    s_id = json_to_num c item (codes "source_id") (to_field (2 ^ 16)) f.s_id;
    s_type = json_to_text c item (codes "source_type") str2pwm_source f.s_type;
    rpm_mode = json_to_text c item (codes "rpm_mode") str2rpm_mode f.rpm_mode;
    curve = json_to_part c item (codes "pwm_map") (λ r. json2pwm_map c r f.curve) f.curve;
  }

  -- The body of the loop over the items of "fans".
  unfoldable pub json_to_fan : J → Session R → Session R
  unfolding json2filter
  json_to_fan item st =
      elim (id_place b.fan_count (to_int (c.get_number (c.get_item (some item) (codes "id"))))) [
        | none ↦ st
        | some i ↦
            let f = read_fan_item item (st.config.fans i) in
            elim (c.get_item (some item) (codes "filter")) [
              | none ↦ set_fan st i f
              | some r ↦
                  let ((type, ctx), st') = json2filter c e r (f.filter, f.filter_ctx) st in
                  set_fan st' i (record f { filter = type; filter_ctx = ctx })
            ]
      ]

  -- The fields of a fan, with its filter as JSON.
  abbrev pub fan_fields : ℕ → FanOutput R → J → List (List ℕ × J)
  fan_fields i f filter =
      (codes "id", number_of i)
      ∷ (codes "name", c.string f.name)
      ∷ (codes "min_pwm", number_of f.min_pwm)
      ∷ (codes "max_pwm", number_of f.max_pwm)
      ∷ (codes "pwm_coefficient", c.number f.pwm_coefficient)
      ∷ (codes "source_type", c.string (pwm_source2str f.s_type))
      ∷ (codes "source_id", number_of f.s_id)
      ∷ (codes "pwm_map", pwm_map2json c f.curve)
      ∷ (codes "filter", filter)
      ∷ (codes "rpm_mode", c.string (rpm_mode2str f.rpm_mode))
      ∷ (codes "rpm_factor", number_of f.rpm_factor)
      ∷ (codes "lra_low", number_of f.lra_low)
      ∷ (codes "lra_high", number_of f.lra_high)
      ∷ (codes "tach_hyst", c.number f.tacho_hyst)
      ∷ (codes "pwm_hyst", c.number f.pwm_hyst)
      ∷ []

  unfoldable pub fan_to_json : ℕ → Session R → J × Session R
  unfolding filter2json
  fan_to_json i st =
      let f = st.config.fans i in
      let (filter, st') = filter2json c e f.filter f.filter_ctx st in
      (c.object (fan_fields i f filter), st')

  abbrev pub read_mbfan_item : J → MbInput R → MbInput R
  read_mbfan_item item m = record m {
    name = json_to_string item (codes "name") 64 m.name;
    min_rpm = json_to_num c item (codes "min_rpm") (to_field (2 ^ 16)) m.min_rpm;
    max_rpm = json_to_num c item (codes "max_rpm") (to_field (2 ^ 16)) m.max_rpm;
    rpm_coefficient = json_to_num c item (codes "rpm_coefficient") a.single m.rpm_coefficient;
    rpm_factor = json_to_num c item (codes "rpm_factor") (to_field (2 ^ 8)) m.rpm_factor;
    lra_treshold = json_to_num c item (codes "lra_treshold") (to_field (2 ^ 16)) m.lra_treshold;
    lra_invert =
        json_to_num c item (codes "lra_invert") (λ x. not (a.eq x (a.of_ℕ 0))) m.lra_invert;
    s_id = json_to_num c item (codes "source_id") (to_field (2 ^ 16)) m.s_id;
    s_type = json_to_text c item (codes "source_type") str2tacho_source m.s_type;
    rpm_mode = json_to_text c item (codes "rpm_mode") str2rpm_mode m.rpm_mode;
    sources =
        json_to_part c item (codes "sources") (λ r. json2tacho_sources c r m.sources) m.sources;
    curve = json_to_part c item (codes "rpm_map") (λ r. json2tacho_map c r m.curve) m.curve;
  }

  -- The body of the loop over the items of "mbfans".
  unfoldable pub json_to_mbfan : J → Session R → Session R
  unfolding json2filter
  json_to_mbfan item st =
      elim (id_place b.mbfan_count (to_int (c.get_number (c.get_item (some item) (codes "id"))))) [
        | none ↦ st
        | some i ↦
            let m = read_mbfan_item item (st.config.mbfans i) in
            elim (c.get_item (some item) (codes "filter")) [
              | none ↦ set_mbfan st i m
              | some r ↦
                  let ((type, ctx), st') = json2filter c e r (m.filter, m.filter_ctx) st in
                  set_mbfan st' i (record m { filter = type; filter_ctx = ctx })
            ]
      ]

  abbrev pub mbfan_fields : ℕ → MbInput R → J → List (List ℕ × J)
  mbfan_fields i m filter =
      (codes "id", number_of i)
      ∷ (codes "name", c.string m.name)
      ∷ (codes "min_rpm", number_of m.min_rpm)
      ∷ (codes "max_rpm", number_of m.max_rpm)
      ∷ (codes "rpm_mode", c.string (rpm_mode2str m.rpm_mode))
      ∷ (codes "rpm_coefficient", c.number m.rpm_coefficient)
      ∷ (codes "rpm_factor", number_of m.rpm_factor)
      ∷ (codes "lra_treshold", number_of m.lra_treshold)
      ∷ ((if m.lra_invert then (codes "lra_invert", number_of 1) ∷ [] else [])
          ++ ((codes "source_type", c.string (tacho_source2str m.s_type))
              ∷ (codes "source_id", number_of m.s_id)
              ∷ ((if is_single m.s_type
                    then []
                    else (codes "sources", tacho_sources2json c b.fan_count m.sources) ∷ [])
                  ++ ((codes "rpm_map", tacho_map2json c m.curve)
                      ∷ (codes "filter", filter)
                      ∷ []))))

  unfoldable pub mbfan_to_json : ℕ → Session R → J × Session R
  unfolding filter2json
  mbfan_to_json i st =
      let m = st.config.mbfans i in
      let (filter, st') = filter2json c e m.filter m.filter_ctx st in
      (c.object (mbfan_fields i m filter), st')

  -- The loop over the items of an array.
  unfoldable pub read_items : (J → Session R → Session R) → List J → Session R → Session R
  read_items read [] st = st
  read_items read (item ∷ items) st = read_items read items (read item st)

  -- The items of an array, from place i on, so many.
  unfoldable pub write_items :
      (ℕ → Session R → J × Session R) → ℕ → ℕ → Session R → List J × Session R
  write_items write zero i st = ([], st)
  write_items write (suc left) i st =
      let (item, st') = write i st in
      let (items, st'') = write_items write left (i + 1) st' in (item ∷ items, st'')

  -- The arrays "fans" and "mbfans" of a configuration.
  unfoldable pub json_to_fans : Option J → Option J → Session R → Session R
  unfolding read_items json_to_fan json_to_mbfan
  json_to_fans fans mbfans st =
      read_items json_to_mbfan (c.elements mbfans) (read_items json_to_fan (c.elements fans) st)

  unfoldable pub fans_to_json : Session R → J × J × Session R
  unfolding write_items fan_to_json mbfan_to_json
  fans_to_json st =
      let (fans, st') = write_items fan_to_json b.fan_count 0 st in
      let (mbfans, st'') = write_items mbfan_to_json b.mbfan_count 0 st' in
      (c.array fans, c.array mbfans, st'')
