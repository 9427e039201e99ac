-- ===== src/Handlers/Valid/Sensors.antt =====
-- src/command.c: the handlers of a sensor keep a valid configuration valid.
use fanpico.Base.{ℕ, Bool, List}
use fanpico.Base.Int.{pos}
use fanpico.Base.Arith.{Arith, IsOrdered}
use fanpico.Types.Board.{Board}
use fanpico.Commands.Run.{PrevCmds}
use fanpico.Handlers.{Env, Session, set_sensor}
use fanpico.Handlers.Valid.{IsValid, Unless, set_sensor-IsValid}
use fanpico.Handlers.Valid.Settings.{
  array_string_setting_keeps, array_float_setting_keeps, float_setting_keeps, map_setting_keeps,
  filter_setting_keeps,
}
use fanpico.Handlers.Maps.{atof}
use fanpico.Handlers.Sensor.{
  sensor_name, sensor_temp_offset, sensor_temp_coef, sensor_temp_nominal, sensor_ther_nominal,
  adc_vref, sensor_beta_coef, sensor_temp_map, sensor_filter,
}

module _ {R : Type 0} ⦃a : Arith R⦄ ⦃o : IsOrdered R⦄ (e : Env R) (b : Board) (cmd args : List ℕ)
    (query : Bool) (prev : PrevCmds) (st : Session R) (v : IsValid b st.config) where
  pub sensor_name-IsValid : IsValid b (sensor_name e b cmd args query prev st).1.config
  unfolding sensor_name
  sensor_name-IsValid =
      array_string_setting_keeps e (IsValid b) st args query prev v 0 b.sensor_count 64
        (λ i. (st.config.sensors i).name)
        (λ i x. set_sensor st i (record (st.config.sensors i) { name = x }))
        (λ i x. set_sensor-IsValid b st i (record (st.config.sensors i) { name = x }) v (v.2 i))

  pub sensor_temp_offset-IsValid :
      IsValid b (sensor_temp_offset e b cmd args query prev st).1.config
  unfolding sensor_temp_offset
  sensor_temp_offset-IsValid =
      array_float_setting_keeps e (IsValid b) st args query prev v 0 b.sensor_count
        (λ i. (st.config.sensors i).temp_offset)
        (λ i x. set_sensor st i (record (st.config.sensors i) { temp_offset = x }))
        (a.neg (a.of_ℕ 10000)) (a.of_ℕ 10000)
        (λ i x fits.
          set_sensor-IsValid b st i (record (st.config.sensors i) { temp_offset = x }) v
            (let w = v.2 i in (fits, w.1, w.2, w.3, w.4, w.5)))

  pub sensor_temp_coef-IsValid : IsValid b (sensor_temp_coef e b cmd args query prev st).1.config
  unfolding sensor_temp_coef
  sensor_temp_coef-IsValid =
      array_float_setting_keeps e (IsValid b) st args query prev v 0 b.sensor_count
        (λ i. (st.config.sensors i).temp_coefficient)
        (λ i x. set_sensor st i (record (st.config.sensors i) { temp_coefficient = x })) (a.of_ℕ 0)
        (a.of_ℕ 1000)
        (λ i x fits.
          set_sensor-IsValid b st i (record (st.config.sensors i) { temp_coefficient = x }) v
            (let w = v.2 i in (w.0, fits, w.2, w.3, w.4, w.5)))

  pub sensor_temp_nominal-IsValid :
      IsValid b (sensor_temp_nominal e b cmd args query prev st).1.config
  unfolding sensor_temp_nominal
  sensor_temp_nominal-IsValid =
      array_float_setting_keeps e (IsValid b) st args query prev v 0 b.sensor_count
        (λ i. (st.config.sensors i).temp_nominal)
        (λ i x. set_sensor st i (record (st.config.sensors i) { temp_nominal = x }))
        (a.neg (a.of_ℕ 50)) (a.of_ℕ 100)
        (λ i x fits.
          set_sensor-IsValid b st i (record (st.config.sensors i) { temp_nominal = x }) v
            (let w = v.2 i in (w.0, w.1, fits, w.3, w.4, w.5)))

  pub sensor_ther_nominal-IsValid :
      IsValid b (sensor_ther_nominal e b cmd args query prev st).1.config
  unfolding sensor_ther_nominal
  sensor_ther_nominal-IsValid =
      array_float_setting_keeps e (IsValid b) st args query prev v 0 b.sensor_count
        (λ i. (st.config.sensors i).thermistor_nominal)
        (λ i x. set_sensor st i (record (st.config.sensors i) { thermistor_nominal = x }))
        (a.of_ℕ 0) (a.of_ℕ 100000)
        (λ i x fits.
          set_sensor-IsValid b st i (record (st.config.sensors i) { thermistor_nominal = x }) v
            (let w = v.2 i in (w.0, w.1, w.2, fits, w.4, w.5)))

  pub sensor_beta_coef-IsValid : IsValid b (sensor_beta_coef e b cmd args query prev st).1.config
  unfolding sensor_beta_coef
  sensor_beta_coef-IsValid =
      array_float_setting_keeps e (IsValid b) st args query prev v 0 b.sensor_count
        (λ i. (st.config.sensors i).beta_coefficient)
        (λ i x. set_sensor st i (record (st.config.sensors i) { beta_coefficient = x })) (a.of_ℕ 0)
        (a.of_ℕ 100000)
        (λ i x fits.
          set_sensor-IsValid b st i (record (st.config.sensors i) { beta_coefficient = x }) v
            (let w = v.2 i in (w.0, w.1, w.2, w.3, fits, w.5)))

  pub sensor_temp_map-IsValid : Unless (IsValid b) (sensor_temp_map e b cmd args query prev st).1
  unfolding sensor_temp_map
  sensor_temp_map-IsValid =
      map_setting_keeps e (IsValid b) st args query prev v (atof e) (a.of_ℕ 0) (e.fmt 6) (pos 1)
        (λ i. ((st.config.sensors i).curve.points, (st.config.sensors i).curve.temp))
        (λ i n rows s.
          set_sensor s i
            (record (s.config.sensors i) { curve = record { points = n; temp = rows } }))
        b.sensor_count
        (λ i n rows s fits h.
          set_sensor-IsValid b s i
            (record (s.config.sensors i) { curve = record { points = n; temp = rows } }) h
            (let w = h.2 i in (w.0, w.1, w.2, w.3, w.4, fits)))

  pub sensor_filter-IsValid : IsValid b (sensor_filter e b cmd args query prev st).1.config
  unfolding sensor_filter
  sensor_filter-IsValid =
      filter_setting_keeps e (IsValid b) st args query prev v
        (λ i. ((st.config.sensors i).filter, (st.config.sensors i).filter_ctx))
        (λ i f c s. set_sensor s i (record (s.config.sensors i) { filter = f; filter_ctx = c }))
        b.sensor_count
        (λ i f c s h.
          set_sensor-IsValid b s i (record (s.config.sensors i) { filter = f; filter_ctx = c }) h
            (h.2 i))

  pub adc_vref-IsValid : IsValid b (adc_vref e b cmd args query prev st).1.config
  unfolding adc_vref
  adc_vref-IsValid =
      float_setting_keeps e (IsValid b) st args query prev v st.config.adc_vref
        (λ x. record st { config = record st.config { adc_vref = x } }) (a.of_ℕ 0) (a.of_ℕ 100)
        (λ x fits. (v.0, v.1, v.2, v.3, fits))
