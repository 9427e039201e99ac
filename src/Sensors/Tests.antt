-- ===== src/Sensors/Tests.antt =====
-- src/sensors.c: tests, and the theorems at inputs.
use fanpico.Base.{ℕ, ◌+◌, ◌≡◌, refl, arith}
use fanpico.Base.Arith.{ℕ_arith, ℕ-IsOrdered}
use fanpico.Samples.{config, start, cells, vsensor}
use fanpico.Filters.{apply_filter}
use fanpico.Sensors.{combined, combine, source_temp, get_temperature, manual_value, raw_reading}
use fanpico.Sensors.Manual.{TimedOut, manual_value_timeout}
use fanpico.Sensors.Virtual.{source_temps, IsGreatest, combined_extremes}

average_of_ten : raw_reading (λ i. 100 + i) ≡ 104
unfolding raw_reading
average_of_ten = refl

no_such_sensor : (get_temperature {R = ℕ} 3 (λ i. 100) 3 config 5 cells).0 ≡ 0
unfolding get_temperature apply_filter
no_such_sensor = refl

-- The sources are the sensors 1 and 2, at 30 and 31 degrees.
hottest : combined {R = ℕ} start vsensor ≡ 31
unfolding combined combine source_temp
hottest = refl

combined_extremes_example :
    IsGreatest {R = ℕ} (combined start vsensor) (source_temps start vsensor.sensors 8 0)
combined_extremes_example = combined_extremes ℕ-IsOrdered start vsensor (omega arith)

-- The last write was 31 seconds ago, and the timeout is 30 seconds.
manual_value_timeout_example :
    ((manual_value {R = ℕ} config 0 31_000_000 start).1.vtemp_updated 0 ≡ 0)
    × TimedOut vsensor 31 0 (manual_value {R = ℕ} config 0 31_000_000 start).0
manual_value_timeout_example = manual_value_timeout ℕ-IsOrdered config 0 31_000_000 start
