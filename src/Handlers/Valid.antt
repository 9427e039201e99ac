-- ===== src/Handlers/Valid.antt =====
-- src/command.c: configurations in which each setting is in its range and each reference to a
-- source is one. They are what the commands can be relied on to leave behind.
pub mod Settings
pub mod Fans
pub mod Mbfans
pub mod Sensors
pub mod Vsensors
use fanpico.Base.{
  ℕ, ◌+◌, ◌-◌, ◌*◌, ◌^◌, ◌≤◌, ◌<◌, ◌≡◌, refl, Bool, true, false, not, ◌||◌, ◌==◌, ◌⊎◌, inl, inr,
  arith, Option, none, some, List, leb, if◌then◌else◌, update, Bool-cases, Option-cases,
}
use fanpico.Base.Int.{ℤ, pos}
use fanpico.Base.Arith.{Arith, ◌≼◌}
use fanpico.Types.{
  FanOutput, MbInput, SensorInput, VsensorInput, FanpicoConfig, vsensor_max_count, max_map_points,
}
use fanpico.Types.Board.{Board}
use fanpico.Config.{valid_pwm_source_ref, valid_tacho_source_ref}
use fanpico.Handlers.{Session, set_fan, set_mbfan, set_sensor, set_vsensor}
use fanpico.Handlers.Vsensor.{is_reference}
use fanpico.Handlers.Mbfan.{is_single, count_selected}

module _ {R : Type 0} ⦃a : Arith R⦄ where
  abbrev pub Between : R → R → R → Type 0
  Between low high x = (low ≼ x) × (x ≼ high)

  -- The ranges of the output; of the coefficient and the hysteresis; of the pulses in a turn; a
  -- source within the largest number of sources that a board can have; the limits of the mode "lra";
  -- and a map that fits its array.
  abbrev pub IsValidFan : FanOutput R → Type 0
  IsValidFan f =
      ((f.min_pwm ≤ 100) × (f.max_pwm ≤ 100))
      × (Between (a.of_ℕ 0) (a.of_ℕ 1000) f.pwm_coefficient
          × Between (a.of_ℕ 0) (a.of_ℕ 10000) f.tacho_hyst
          × Between (a.of_ℕ 0) (a.of_ℕ 10000) f.pwm_hyst)
      × ((1 ≤ f.rpm_factor) × (f.rpm_factor ≤ 8))
      × (valid_pwm_source_ref f.s_type f.s_id ≡ true)
      × ((f.lra_low < 2 ^ 16) × (f.lra_high < 2 ^ 16))
      × (f.curve.points ≤ max_map_points)

  -- The same, with a single source or at least two fans of the board.
  abbrev pub IsValidMbfan : Board → MbInput R → Type 0
  IsValidMbfan b m =
      ((m.min_rpm ≤ 50000) × (m.max_rpm ≤ 50000))
      × Between (a.of_ℕ 0) (a.of_ℕ 1000) m.rpm_coefficient
      × ((1 ≤ m.rpm_factor) × (m.rpm_factor ≤ 8))
      × (valid_tacho_source_ref m.s_type m.s_id ≡ true)
      × (m.lra_treshold < 2 ^ 16)
      × (m.curve.points ≤ max_map_points)
      × (is_single m.s_type || leb 2 (count_selected m.sources b.fan_count) ≡ true)

  abbrev pub IsValidSensor : SensorInput R → Type 0
  IsValidSensor s =
      Between (a.neg (a.of_ℕ 10000)) (a.of_ℕ 10000) s.temp_offset
      × Between (a.of_ℕ 0) (a.of_ℕ 1000) s.temp_coefficient
      × Between (a.neg (a.of_ℕ 50)) (a.of_ℕ 100) s.temp_nominal
      × Between (a.of_ℕ 0) (a.of_ℕ 100000) s.thermistor_nominal
      × Between (a.of_ℕ 0) (a.of_ℕ 100000) s.beta_coefficient
      × (s.curve.points ≤ max_map_points)

  -- Each source is unused or a sensor, and the I2C address has seven bits.
  abbrev pub IsValidVsensor : Board → VsensorInput R → Type 0
  IsValidVsensor b v =
      ((i : ℕ) → (v.sensors i == 0) || is_reference b.sensor_count (v.sensors i) ≡ true)
      × (v.i2c_addr < 128)
      × (v.curve.points ≤ max_map_points)

  abbrev pub IsValid : Board → FanpicoConfig R → Type 0
  IsValid b c =
      ((i : ℕ) → IsValidFan (c.fans i))
      × ((i : ℕ) → IsValidMbfan b (c.mbfans i))
      × ((i : ℕ) → IsValidSensor (c.sensors i))
      × ((i : ℕ) → IsValidVsensor b (c.vsensors i))
      × Between (a.of_ℕ 0) (a.of_ℕ 100) c.adc_vref

-- Some handler has written behind an array, or the configuration has a property.
abbrev pub Unless : {R : Type 0} → (FanpicoConfig R → Type 0) → Session R → Type 0
Unless Q st = (st.broken ≡ true) ⊎ Q st.config

pub update_keeps :
    {A : Type 0} (P : A → Type 0) (f : ℕ → A) (i : ℕ) (v : A)
    → ((j : ℕ) → P (f j))
    → P v
    → (j : ℕ) → P (update f i v j)
update_keeps P f i v h p j = elim (Bool-cases (i == j)) [ inl e ↦ rw e p | inr e ↦ rw e (h j) ]

module _ {R : Type 0} ⦃a : Arith R⦄ (b : Board) (st : Session R) (i : ℕ) where
  pub set_fan-IsValid :
      (f : FanOutput R) → IsValid b st.config → IsValidFan f → IsValid b (set_fan st i f).config
  set_fan-IsValid f v h = (update_keeps IsValidFan st.config.fans i f v.0 h, v.1, v.2, v.3, v.4)

  pub set_mbfan-IsValid :
      (m : MbInput R) → IsValid b st.config → IsValidMbfan b m → IsValid b (set_mbfan st i m).config
  set_mbfan-IsValid m v h =
      (v.0, update_keeps (IsValidMbfan b) st.config.mbfans i m v.1 h, v.2, v.3, v.4)

  pub set_sensor-IsValid :
      (s : SensorInput R)
      → IsValid b st.config
      → IsValidSensor s
      → IsValid b (set_sensor st i s).config
  set_sensor-IsValid s v h =
      (v.0, v.1, update_keeps IsValidSensor st.config.sensors i s v.2 h, v.3, v.4)

  pub set_vsensor-IsValid :
      (w : VsensorInput R)
      → IsValid b st.config
      → IsValidVsensor b w
      → IsValid b (set_vsensor st i w).config
  set_vsensor-IsValid w v h =
      (v.0, v.1, v.2, update_keeps (IsValidVsensor b) st.config.vsensors i w v.3 h, v.4)
