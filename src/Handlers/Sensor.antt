-- ===== src/Handlers/Sensor.antt =====
-- src/command.c: the handlers of the commands on the configuration of a sensor.
use fanpico.Base.Int.{pos}
use fanpico.Base.Arith.{Arith}
use fanpico.Types.Board.{Board}
use fanpico.Handlers.{Env, Handler, set_sensor}
use fanpico.Handlers.Arrays.{array_string_setting, array_float_setting, float_setting}
use fanpico.Handlers.Maps.{map_setting, atof}
use fanpico.Handlers.Filter.{filter_setting}

module _ {R : Type 0} ⦃a : Arith R⦄ (e : Env R) (b : Board) where
  unfoldable pub sensor_name : Handler R
  unfolding array_string_setting
  sensor_name cmd args query prev st =
      array_string_setting e args query prev 0 b.sensor_count 64 (λ i. (st.config.sensors i).name)
        (λ i v. set_sensor st i (record (st.config.sensors i) { name = v })) st

  unfoldable pub sensor_temp_offset : Handler R
  unfolding array_float_setting
  sensor_temp_offset cmd args query prev st =
      array_float_setting e args query prev 0 b.sensor_count
        (λ i. (st.config.sensors i).temp_offset)
        (λ i v. set_sensor st i (record (st.config.sensors i) { temp_offset = v }))
        (a.neg (a.of_ℕ 10000)) (a.of_ℕ 10000) st

  unfoldable pub sensor_temp_coef : Handler R
  unfolding array_float_setting
  sensor_temp_coef cmd args query prev st =
      array_float_setting e args query prev 0 b.sensor_count
        (λ i. (st.config.sensors i).temp_coefficient)
        (λ i v. set_sensor st i (record (st.config.sensors i) { temp_coefficient = v })) (a.of_ℕ 0)
        (a.of_ℕ 1000) st

  unfoldable pub sensor_temp_nominal : Handler R
  unfolding array_float_setting
  sensor_temp_nominal cmd args query prev st =
      array_float_setting e args query prev 0 b.sensor_count
        (λ i. (st.config.sensors i).temp_nominal)
        (λ i v. set_sensor st i (record (st.config.sensors i) { temp_nominal = v }))
        (a.neg (a.of_ℕ 50)) (a.of_ℕ 100) st

  unfoldable pub sensor_ther_nominal : Handler R
  unfolding array_float_setting
  sensor_ther_nominal cmd args query prev st =
      array_float_setting e args query prev 0 b.sensor_count
        (λ i. (st.config.sensors i).thermistor_nominal)
        (λ i v. set_sensor st i (record (st.config.sensors i) { thermistor_nominal = v }))
        (a.of_ℕ 0) (a.of_ℕ 100000) st

  unfoldable pub adc_vref : Handler R
  unfolding float_setting
  adc_vref cmd args query prev st =
      float_setting e args query st.config.adc_vref
        (λ v. record st { config = record st.config { adc_vref = v } }) (a.of_ℕ 0) (a.of_ℕ 100) st

  unfoldable pub sensor_beta_coef : Handler R
  unfolding array_float_setting
  sensor_beta_coef cmd args query prev st =
      array_float_setting e args query prev 0 b.sensor_count
        (λ i. (st.config.sensors i).beta_coefficient)
        (λ i v. set_sensor st i (record (st.config.sensors i) { beta_coefficient = v })) (a.of_ℕ 0)
        (a.of_ℕ 100000) st

  unfoldable pub sensor_temp_map : Handler R
  unfolding map_setting
  sensor_temp_map cmd args query prev st =
      map_setting e (atof e) (a.of_ℕ 0) (e.fmt 6) (pos 1)
        (λ i. ((st.config.sensors i).curve.points, (st.config.sensors i).curve.temp))
        (λ i n rows s.
          set_sensor s i
            (record (s.config.sensors i) { curve = record { points = n; temp = rows } }))
        b.sensor_count args query prev st

  unfoldable pub sensor_filter : Handler R
  unfolding filter_setting
  sensor_filter cmd args query prev st =
      filter_setting e (λ i. ((st.config.sensors i).filter, (st.config.sensors i).filter_ctx))
        (λ i f c s. set_sensor s i (record (s.config.sensors i) { filter = f; filter_ctx = c }))
        b.sensor_count args query prev st
