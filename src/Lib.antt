-- ===== src/Lib.antt =====
-- FanPico is the firmware of a fan controller on a Raspberry Pi Pico. It reads the PWM signals of
-- the fan connectors of a motherboard, the tachometers of fans and the temperatures of sensors,
-- and sets PWM signals for the fans and tachometer signals for the motherboard by a configuration.
-- This library models the firmware's own logic in src/.
--
-- The parts and their interaction. The second core (`core1_main` in src/fanpico.c) runs a loop with
-- timers. A pass reads the tachometers (src/tacho.c, with the pulse measurement of
-- src/pulse_len.c), the PWM inputs (src/pwm.c), temperatures (src/sensors.c, src/onewire.c), passes
-- values through filters (src/filters.c and the filter files) and through maps, and updates the
-- outputs (`update_outputs`). The first core runs the console, whose commands change the
-- configuration. The cores exchange copies of the state and of the configuration under mutexes;
-- src/tacho.c and `update_outputs` also read the shared configuration itself.
--
-- - Base: shared notation; Base/Arith is the interface of floating-point numbers, Base/Text the C
--   string functions, Base/Loops the `for` loop over a state with its invariant.
-- - Types, Types/Limits, Types/Board: the structs, enumerations and limits of src/fanpico.h, and
--   the counts of a board from src/boards/. Arrays are functions of their index.
-- - Config: the names of enumerations and the checks of references in src/config.c.
-- - Filters, with Filters/LossyPeak and Filters/Sma: the table of filters and its two filters. A
--   context is a cell of a heap, so two users of one pointer share it.
-- - Curve: `pwm_map` (src/pwm.c), `tacho_map` (src/tacho.c) and `sensor_get_duty`
--   (src/sensors.c), which are one interpolation over three kinds of tables.
-- - Pwm: `calculate_pwm_duty`, the level of `set_pwm_duty_cycle`, and the state machine
--   `get_pwm_duty_cycles` of src/pwm.c.
-- - Sensors: `get_temperature` and `get_vsensor` of src/sensors.c.
-- - Timing: `time_passed` and `time_elapsed` (src/util_rp2.c), `check_for_change` (src/util.c).
-- - Pulse: both measurements of src/pulse_len.c; an interrupt is a step on its globals.
-- - Tacho: src/tacho.c, with the queues of fans and the state machine of the multiplexer
--   (`read_tacho_multiplexed`), the direct reader, and `calculate_tacho_freq`.
-- - Outputs: `update_outputs` of src/fanpico.c and `square_wave_gen_set_freq` of
--   src/square_wave_gen.c; the hardware is a record of what was last written to it.
-- - OneWire: the bus scan and the reading state machine of src/onewire.c.
-- - Core: a pass of `core1_main`, part by part, and any number of passes.
-- - Terminal: the line editor in `main` of src/fanpico.c.
-- - Persist: the memory of src/fanpico.c that is kept over a reset.
-- - Log: src/log.c. Crc: src/crc32.c.
-- - Util: texts, bit masks and numbers of src/util.c, and the checks of names in src/util_net.c.
-- - Settings: whole-number and Boolean settings and the index of a command, of
--   src/command_util.c.
-- - Commands: Commands/Tables and Commands/NetworkTables are the tables of src/command.c with all
--   options of the build, Commands/Func the names of the handlers, Commands/Run the way from a
--   text to their calls (`process_command` of src/command.c, `run_cmd` of src/command_util.c).
--   Commands/Search compares the first row that fits with the one that asks for the most.
-- - Handlers: the handlers of src/command.c on fans, motherboard inputs, sensors and virtual
--   sensors, one file each, over what they share (Arrays of src/command_util.c, Maps, Filter). A
--   session is the configuration, the heap of filter contexts and the printed text; printf on
--   floating-point numbers, malloc and the sensor library are arguments (Env). Handlers/Valid
--   says which configurations are valid. The handlers that are not modelled are an argument. A
--   handler that writes behind an array of its own (a map of more than 64 numbers, a source of an
--   input outside of its set) marks the session as broken: nothing is said of what follows.
-- - Json: the reader and the writer of src/config.c for maps, filters, fans, motherboard inputs,
--   sensors and virtual sensors (parts of `json_to_config` and `config_to_json`). cJSON is an
--   interface (Cjson) with what it documents as laws (IsCjson); its allocations are taken to
--   succeed, and a number out of the range of its field is taken modulo the field's size.
-- - Samples: a configuration and a state in whole numbers, which the Tests modules share.
--
-- Numbers. `float` and `double` are elements of one type with the operations of Base/Arith, which
-- the hardware and the C library implement; `single` is the rounding to a float where the source
-- stores one. Theorems name what they rely on: an order without NaN (IsOrdered), operations that
-- keep the order and are exact on small integers (IsScaling), sums without rounding (IsExact).
-- Whole numbers are an instance that meets all of these. Integers of the source are native
-- numbers, with `% 2 ^ 32` where they wrap, and ℤ of Base/Int where they are signed.
--
-- Inputs. Readings of pins, the ADC, the bus, the clock and mutexes are arguments. Time is a number
-- of microseconds since boot and is read once for each part of a pass.
--
-- Loops are `for_range` or structural recursion. The scan of a queue of fans has 8 rounds, since it
-- ends at the array's size; the search of a row of a map has as many rounds as points; a C string
-- in the input buffer is read for at most the 1024 bytes of the buffer. A number is printed with at
-- most 10 digits, enough for 32 bits.
--
-- Not modelled: setup of pins and peripherals (register access), the other handlers of
-- src/command.c, the single values and the network settings of the configuration file
-- (src/config.c), the network services, displays, the file system, and the libraries that the
-- firmware calls.

pub mod Base
pub mod Types
pub mod Config
pub mod Filters
pub mod Curve
pub mod Samples
pub mod Pwm
pub mod Sensors
pub mod Timing
pub mod Pulse
pub mod Tacho
pub mod Outputs
pub mod OneWire
pub mod Core
pub mod Terminal
pub mod Log
pub mod Crc
pub mod Util
pub mod Settings
pub mod Persist
pub mod Commands
pub mod Handlers
pub mod Json
