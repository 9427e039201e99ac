-- ===== src/Types/Limits.antt =====
-- src/fanpico.h: the sizes of the fixed arrays.
use fanpico.Base.{ℕ}

abbrev pub fan_max_count : ℕ
fan_max_count = 8

abbrev pub mbfan_max_count : ℕ
mbfan_max_count = 4

abbrev pub sensor_max_count : ℕ
sensor_max_count = 3

abbrev pub vsensor_max_count : ℕ
vsensor_max_count = 8

abbrev pub vsensor_source_max_count : ℕ
vsensor_source_max_count = 8

abbrev pub onewire_max_count : ℕ
onewire_max_count = 8

abbrev pub max_map_points : ℕ
max_map_points = 32

abbrev pub adc_max_value : ℕ
adc_max_value = 4096

abbrev pub adc_avg_window : ℕ
adc_avg_window = 10
