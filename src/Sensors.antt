-- ===== src/Sensors.antt =====
-- src/sensors.c: the temperature of a sensor and the value of a virtual sensor. ADC readings, the
-- 1-Wire addresses on the bus and the time are arguments.
pub mod Virtual
pub mod Manual
mod Tests
use fanpico.Base.{
  ℕ, zero, suc, ◌+◌, ◌-◌, ◌*◌, ◌/◌, Bool, true, false, ◌&&◌, ◌||◌, not, Option, none, some, ltb,
  leb, ◌==◌, if◌then◌else◌, update,
}
use fanpico.Base.Int.{ℤ, pos, pos_part, ltb_ℤ}
use fanpico.Base.Arith.{Arith}
use fanpico.Types.{
  FanpicoConfig, FanpicoState, VsensorInput, TempSensorType, temp_internal, temp_external,
  VsensorMode, vsmode_manual, vsmode_max, vsmode_min, vsmode_avg, vsmode_delta, vsmode_onewire,
  vsmode_i2c, adc_avg_window, adc_max_value, onewire_max_count, vsensor_source_max_count,
}
use fanpico.Filters.{Heap, apply_filter}

-- The sum of the readings 0 to n - 1 (ten readings of 12 bits, so that no uint32_t wraps).
unfoldable pub sum_readings : ℕ → (ℕ → ℕ) → ℕ
sum_readings zero adc = 0
sum_readings (suc n) adc = sum_readings n adc + adc n

unfoldable pub raw_reading : (ℕ → ℕ) → ℕ
unfolding sum_readings
raw_reading adc = sum_readings adc_avg_window adc / adc_avg_window

-- The position of an address on the bus, up to the first position with none.
unfoldable pub find_address : (ℕ → ℕ) → ℕ → ℕ → ℕ → Option ℕ
find_address onewire_address addr zero j = none
find_address onewire_address addr (suc rounds) j =
    let rest = find_address onewire_address addr rounds (j + 1) in
    if onewire_address j == 0 then none else (if onewire_address j == addr then some j else rest)

module _ {R : Type 0} ⦃a : Arith R⦄ where
  -- The literal m/n: the double nearest to it, which is what the division gives.
  abbrev pub literal : ℕ → ℕ → R
  literal m n = a.div (a.of_ℕ m) (a.of_ℕ n)

  -- The temperature for a voltage and a raw reading, before the filter.
  unfoldable pub convert : FanpicoConfig R → ℕ → ℕ → R → TempSensorType → R
  convert config input raw volt temp_internal =
      let s = config.sensors input in
      let t = a.sub (a.of_ℕ 27) (a.div (a.sub volt (literal 706 1000)) (literal 1721 1_000_000)) in
      a.add (a.mul t s.temp_coefficient) s.temp_offset
  convert config input raw volt temp_external =
      let s = config.sensors input in
      let ratio = a.sub (a.div (a.of_ℕ adc_max_value) (a.of_ℕ raw)) (a.of_ℕ 1) in
      let r = a.div (a.of_ℕ 10000) ratio in
      let t0 = a.div (a.log (a.div r s.thermistor_nominal)) s.beta_coefficient in
      let t1 = a.add t0 (a.div (a.of_ℕ 1) (a.add s.temp_nominal (literal 27315 100))) in
      let t2 = a.sub (a.div (a.of_ℕ 1) t1) (literal 27315 100) in
      if a.lt (literal 1 10) volt && a.lt volt (a.sub (a.of_ℕ 3) (literal 1 10))
      then a.add (a.mul t2 s.temp_coefficient) s.temp_offset
      else a.of_ℕ 0

  unfoldable pub get_temperature : ℕ → (ℕ → ℕ) → ℕ → FanpicoConfig R → ℕ → Heap R → R × Heap R
  unfolding convert raw_reading
  get_temperature sensor_count adc input config now heap =
      let s = config.sensors input in
      let raw = raw_reading adc in
      let volt = a.mul (a.of_ℕ raw) (a.div config.adc_vref (a.of_ℕ adc_max_value)) in
      let t = convert config input raw volt s.type in
      let filtered = apply_filter s.filter s.filter_ctx t (a.single t) now heap in
      if leb sensor_count input then (a.of_ℕ 0, heap) else filtered

  -- The source number k of a virtual sensor: from 101 on other virtual sensors, from 1 on sensors.
  unfoldable pub source_temp : FanpicoState R → ℕ → R
  source_temp st k = if ltb 100 k then st.vtemp (k - 101) else st.temp (k - 1)

  -- One round of the loop over the sources: the value after the count-th source.
  unfoldable pub combine : VsensorMode → ℕ → R → R → R
  combine vsmode_max count val t = if count == 1 || a.lt t val then val else t
  combine vsmode_min count val t = if count == 1 || a.lt val t then val else t
  combine vsmode_avg count val t = a.add t val
  combine vsmode_delta count val t =
      if count == 1 then val else (if count == 2 then a.sub t val else t)
  combine _ count val t = t

  -- The loop from source j on, with the rounds left, the count and the value.
  unfoldable pub combine_from : VsensorMode → FanpicoState R → (ℕ → ℕ) → ℕ → ℕ → ℕ → R → ℕ × R
  combine_from mode st sources zero j count t = (count, t)
  combine_from mode st sources (suc rounds) j count t =
      let val = source_temp st (sources j) in
      let rest =
        combine_from mode st sources rounds (j + 1) (count + 1) (combine mode (count + 1) val t) in
      if sources j == 0 then (count, t) else rest

  unfoldable pub divided : VsensorMode → ℕ × R → R
  divided vsmode_avg (count, t) = if ltb 0 count then a.div t (a.of_ℕ count) else t
  divided _ (count, t) = t

  unfoldable pub combined : FanpicoState R → VsensorInput R → R
  unfolding divided combine_from
  combined st s =
      divided s.mode (combine_from s.mode st s.sensors vsensor_source_max_count 0 0 (a.of_ℕ 0))

  -- Copy what a command or the I2C poll has written since the last call.
  unfoldable pub copy_written : FanpicoConfig R → ℕ → FanpicoState R → R × FanpicoState R
  copy_written config i st =
      if config.vtemp_updated i == st.vtemp_updated i then (st.vtemp i, st) else (
        config.vtemp i,
        record st {
          vtemp_updated = update st.vtemp_updated i (config.vtemp_updated i);
          vpressure = update st.vpressure i (config.vpressure i);
          vhumidity = update st.vhumidity i (config.vhumidity i);
        },
      )

  -- Back to the default after too long without an update. A negative difference of times counts
  -- as 0 here, which like it is not above a positive timeout.
  unfoldable pub timed_out : VsensorInput R → ℕ → R × ℕ → R
  timed_out s now (t, updated) =
      if ltb_ℤ (pos 0) s.timeout && not (a.eq t s.default_temp)
      then (if ltb (pos_part s.timeout) ((now - updated) / 1_000_000) then s.default_temp else t)
      else t

  unfoldable pub manual_value : FanpicoConfig R → ℕ → ℕ → FanpicoState R → R × FanpicoState R
  unfolding copy_written timed_out
  manual_value config i now st =
      let (t, st') = copy_written config i st in
      (timed_out (config.vsensors i) now (t, st'.vtemp_updated i), st')

  unfoldable pub onewire_value : FanpicoState R → Option ℕ → R
  onewire_value st none = a.of_ℕ 0
  onewire_value st (some idx) = st.onewire_temp idx

  -- The value before the filter, by the mode.
  unfoldable pub raw_value :
      (ℕ → ℕ) → FanpicoConfig R → ℕ → ℕ → VsensorMode → FanpicoState R → R × FanpicoState R
  unfolding manual_value onewire_value combined
  raw_value onewire config i now vsmode_manual st = manual_value config i now st
  raw_value onewire config i now vsmode_i2c st = manual_value config i now st
  raw_value onewire config i now vsmode_onewire st = (
    onewire_value st (find_address onewire (config.vsensors i).onewire_addr onewire_max_count 0),
    st,
  )
  raw_value onewire config i now _ st = (combined st (config.vsensors i), st)

  unfoldable pub get_vsensor :
      (ℕ → ℕ) → ℕ → FanpicoConfig R → ℕ → FanpicoState R × Heap R → R × FanpicoState R × Heap R
  unfolding raw_value
  get_vsensor onewire i config now (st, heap) =
      let s = config.vsensors i in
      let (t, st') = raw_value onewire config i now s.mode st in
      let (y, heap') = apply_filter s.filter s.filter_ctx t (a.single t) now heap in (y, st', heap')
