-- ===== src/Json/Sensors.antt =====
-- src/config.c, `config_to_json` and `json_to_config`: sensors and virtual sensors.
use fanpico.Base.{ℕ, zero, suc, ◌^◌, Option, none, some, List, [], ◌∷◌, ◌++◌}
use fanpico.Base.Arith.{Arith, of_ℤ}
use fanpico.Base.Text.{codes}
use fanpico.Types.{
  SensorInput, VsensorInput, TempSensorType, temp_internal, temp_external, VsensorMode,
  vsmode_manual, vsmode_onewire, vsmode_i2c, vsensor_max_count,
}
use fanpico.Types.Board.{Board}
use fanpico.Config.{str2vsmode, vsmode2str}
use fanpico.Handlers.{Env, Session, set_sensor, set_vsensor}
use fanpico.Json.{Cjson, to_int, to_field, json_to_num, json_to_text, json_to_part}
use fanpico.Json.Maps.{json2temp_map, temp_map2json, json2vsensors, vsensors2json}
use fanpico.Json.Filter.{json2filter, filter2json}
use fanpico.Json.Fans.{id_place, json_to_string, number_of, read_items, write_items}

-- `s->type` from a number, and back. The enumeration has two values; any number but 1 acts as 0.
abbrev type_of : ℕ → TempSensorType
type_of (suc zero) = temp_external
type_of n = temp_internal

abbrev number_of_type : TempSensorType → ℕ
number_of_type temp_internal = 0
number_of_type temp_external = 1

module _ {R J : Type 0} ⦃a : Arith R⦄ (c : Cjson R J) (e : Env R) (b : Board) where
  -- What is read only for a sensor of the type.
  abbrev read_thermistor : J → TempSensorType → SensorInput R → SensorInput R
  read_thermistor item temp_internal s = s
  read_thermistor item temp_external s = record s {
    temp_nominal = json_to_num c item (codes "temperature_nominal") a.single s.temp_nominal;
    thermistor_nominal =
        json_to_num c item (codes "thermistor_nominal") a.single s.thermistor_nominal;
    beta_coefficient = json_to_num c item (codes "beta_coefficient") a.single s.beta_coefficient;
  }

  abbrev read_type : J → TempSensorType → TempSensorType
  read_type item old = json_to_num c item (codes "sensor_type") (λ x. type_of (a.to_uint x)) old

  abbrev pub read_sensor_item : J → SensorInput R → SensorInput R
  read_sensor_item item old =
      let s = read_thermistor item (read_type item old.type) old in
      record s {
        type = read_type item old.type;
        name = json_to_string c e b item (codes "name") 64 s.name;
        temp_offset = json_to_num c item (codes "temp_offset") a.single s.temp_offset;
        temp_coefficient =
            json_to_num c item (codes "temp_coefficient") a.single s.temp_coefficient;
        curve = json_to_part c item (codes "temp_map") (λ r. json2temp_map c r s.curve) s.curve;
      }

  -- The body of the loop over the items of "sensors".
  unfoldable pub json_to_sensor : J → Session R → Session R
  unfolding json2filter
  json_to_sensor item st =
      elim (id_place b.sensor_count (to_int (c.get_number (c.get_item (some item) (codes "id"))))) [
        | none ↦ st
        | some i ↦
            let s = read_sensor_item item (st.config.sensors i) in
            elim (c.get_item (some item) (codes "filter")) [
              | none ↦ set_sensor st i s
              | some r ↦
                  let ((type, ctx), st') = json2filter c e r (s.filter, s.filter_ctx) st in
                  set_sensor st' i (record s { filter = type; filter_ctx = ctx })
            ]
      ]

  abbrev thermistor_fields : SensorInput R → TempSensorType → List (List ℕ × J)
  thermistor_fields s temp_internal = []
  thermistor_fields s temp_external =
      (codes "temperature_nominal", c.number s.temp_nominal)
      ∷ (codes "thermistor_nominal", c.number s.thermistor_nominal)
      ∷ (codes "beta_coefficient", c.number s.beta_coefficient)
      ∷ []

  abbrev sensor_fields : ℕ → SensorInput R → J → List (List ℕ × J)
  sensor_fields i s filter =
      (codes "id", number_of c e b i)
      ∷ (codes "name", c.string s.name)
      ∷ (codes "sensor_type", number_of c e b (number_of_type s.type))
      ∷ (codes "temp_offset", c.number s.temp_offset)
      ∷ (codes "temp_coefficient", c.number s.temp_coefficient)
      ∷ (codes "temp_map", temp_map2json c s.curve)
      ∷ (thermistor_fields s s.type ++ ((codes "filter", filter) ∷ []))

  unfoldable pub sensor_to_json : ℕ → Session R → J × Session R
  unfolding filter2json
  sensor_to_json i st =
      let s = st.config.sensors i in
      let (filter, st') = filter2json c e s.filter s.filter_ctx st in
      (c.object (sensor_fields i s filter), st')

  -- What is read for the mode.
  abbrev read_mode : J → VsensorMode → VsensorInput R → VsensorInput R
  read_mode item vsmode_manual v = record v {
    default_temp = json_to_num c item (codes "default_temp") a.single v.default_temp;
    timeout = json_to_num c item (codes "timeout") to_int v.timeout;
  }
  read_mode item vsmode_onewire v = record v {
    onewire_addr = json_to_text c item (codes "onewire_addr") e.libs.strtoull_16 v.onewire_addr;
  }
  read_mode item vsmode_i2c v = record v {
    i2c_type = json_to_text c item (codes "i2c_type") e.libs.get_i2c_sensor_type v.i2c_type;
    i2c_addr = json_to_num c item (codes "i2c_addr") (to_field (2 ^ 8)) v.i2c_addr;
  }
  read_mode item mode v = record v {
    sensors =
        json_to_part c item (codes "sensors") (λ r. json2vsensors c b.sensor_count r v.sensors)
          v.sensors;
  }

  abbrev pub read_vsensor_item : J → VsensorInput R → VsensorInput R
  read_vsensor_item item old =
      let mode = json_to_text c item (codes "mode") str2vsmode old.mode in
      let v = read_mode item mode old in
      record v {
        name = json_to_string c e b item (codes "name") 64 v.name;
        mode = mode;
        curve = json_to_part c item (codes "temp_map") (λ r. json2temp_map c r v.curve) v.curve;
      }

  -- The body of the loop over the items of "vsensors".
  unfoldable pub json_to_vsensor : J → Session R → Session R
  unfolding json2filter
  json_to_vsensor item st =
      elim (id_place vsensor_max_count
        (to_int (c.get_number (c.get_item (some item) (codes "id"))))) [
          | none ↦ st
          | some i ↦
              let v = read_vsensor_item item (st.config.vsensors i) in
              elim (c.get_item (some item) (codes "filter")) [
                | none ↦ set_vsensor st i v
                | some r ↦
                    let ((type, ctx), st') = json2filter c e r (v.filter, v.filter_ctx) st in
                    set_vsensor st' i (record v { filter = type; filter_ctx = ctx })
              ]
        ]

  abbrev mode_fields : VsensorInput R → VsensorMode → List (List ℕ × J)
  mode_fields v vsmode_manual =
      (codes "default_temp", c.number v.default_temp)
      ∷ (codes "timeout", c.number (of_ℤ v.timeout))
      ∷ []
  mode_fields v vsmode_onewire =
      (codes "onewire_addr", c.string (e.libs.hex 16 v.onewire_addr)) ∷ []
  mode_fields v vsmode_i2c =
      (codes "i2c_type", c.string (e.libs.i2c_sensor_type_str v.i2c_type))
      ∷ (codes "i2c_addr", number_of c e b v.i2c_addr)
      ∷ []
  mode_fields v mode = (codes "sensors", vsensors2json c b.sensor_count v.sensors) ∷ []

  abbrev vsensor_fields : ℕ → VsensorInput R → J → List (List ℕ × J)
  vsensor_fields i v filter =
      (codes "id", number_of c e b i)
      ∷ (codes "name", c.string v.name)
      ∷ (codes "mode", c.string (vsmode2str v.mode))
      ∷ (codes "temp_map", temp_map2json c v.curve)
      ∷ (mode_fields v v.mode ++ ((codes "filter", filter) ∷ []))

  unfoldable pub vsensor_to_json : ℕ → Session R → J × Session R
  unfolding filter2json
  vsensor_to_json i st =
      let v = st.config.vsensors i in
      let (filter, st') = filter2json c e v.filter v.filter_ctx st in
      (c.object (vsensor_fields i v filter), st')

  -- The arrays "sensors" and "vsensors" of a configuration.
  unfoldable pub json_to_sensors : Option J → Option J → Session R → Session R
  unfolding json_to_sensor json_to_vsensor
  json_to_sensors sensors vsensors st =
      read_items c e b json_to_vsensor (c.elements vsensors)
        (read_items c e b json_to_sensor (c.elements sensors) st)

  unfoldable pub sensors_to_json : Session R → J × J × Session R
  unfolding sensor_to_json vsensor_to_json
  sensors_to_json st =
      let (sensors, st') = write_items c e b sensor_to_json b.sensor_count 0 st in
      let (vsensors, st'') = write_items c e b vsensor_to_json vsensor_max_count 0 st' in
      (c.array sensors, c.array vsensors, st'')
