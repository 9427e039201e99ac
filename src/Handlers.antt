-- ===== src/Handlers.antt =====
-- src/command.c: the handlers of the commands that read and change the control configuration, with
-- what they share: the session, the texts they print, memory, and the number in a command.
pub mod Arrays
pub mod Maps
pub mod Filter
pub mod Fan
pub mod Mbfan
pub mod Sensor
pub mod Vsensor
pub mod Readings
pub mod Calls
pub mod Valid
pub mod Safe
pub mod Source
pub mod Refuse
pub mod Samples
mod Tests
use fanpico.Base.{
  ℕ, zero, suc, ◌+◌, ◌≡◌, Bool, true, false, Option, none, some, List, [], ◌∷◌, ◌++◌, get_elem?,
  ltb, if◌then◌else◌, update,
}
use fanpico.Base.Int.{ℤ, pos, negsuc}
use fanpico.Types.{FanpicoConfig, FanpicoState, FanOutput, MbInput, SensorInput, VsensorInput}
use fanpico.Filters.{Heap}
use fanpico.Settings.{get_cmd_index}
use fanpico.Commands.Run.{PrevCmds}

-- The C library on hexadecimal numbers, and the sensor library on I2C addresses and types.
-- `hex n x` is "%0nx"; `strtoull` of a NULL pointer is whatever the hardware makes of it.
pub record Libs : Type 0 where
  pub hex : ℕ → ℕ → List ℕ
  pub strtol_16 : List ℕ → Option ℤ
  pub strtoull_16 : Option (List ℕ) → ℕ
  pub i2c_reserved_address : ℕ → Bool
  pub i2c_sensor_type_str : ℕ → List ℕ
  pub get_i2c_sensor_type : Option (List ℕ) → ℕ

-- What the handlers see but do not change. `fmt n x` is the text that printf makes of "%.nf".
-- `malloc n` is the address that the n-th allocation returns, `none` for NULL. `behind` is the C
-- string in memory behind a copied argument text.
pub record Env (R : Type 0) : Type 0 where
  pub fmt : ℕ → R → List ℕ
  pub malloc : ℕ → Option ℕ
  pub behind : List ℕ
  pub now : ℕ
  pub state : FanpicoState R
  pub libs : Libs

-- `conf`, the contexts of the filters, the number of the next allocation, and what was printed.
-- `broken` says that a handler has written behind an array of its own: from there on the model says
-- nothing of what the code does. `free` is left out: an allocation may return any address again.
pub record Session (R : Type 0) : Type 0 where
  pub config : FanpicoConfig R
  pub heap : Heap R
  pub mallocs : ℕ
  pub out : List ℕ
  pub broken : Bool

-- A handler: the name as typed, the arguments, whether it is a query, and the subcommands above.
abbrev pub Handler : Type 0 → Type 0
Handler R = List ℕ → List ℕ → Bool → PrevCmds → Session R → ℤ × Session R

abbrev pub print : {R : Type 0} → Session R → List ℕ → Session R
print st s = record st { out = st.out ++ s }

-- The text and a new line.
abbrev pub print_line : {R : Type 0} → Session R → List ℕ → Session R
print_line st s = print st (s ++ (10 ∷ []))

-- The next allocation: its address and the session.
abbrev pub allocate : {R : Type 0} → Env R → Session R → Option ℕ × Session R
allocate e st = (e.malloc st.mallocs, record st { mallocs = st.mallocs + 1 })

abbrev pub set_fan : {R : Type 0} → Session R → ℕ → FanOutput R → Session R
set_fan st i f = record st { config = record st.config { fans = update st.config.fans i f } }

abbrev pub set_mbfan : {R : Type 0} → Session R → ℕ → MbInput R → Session R
set_mbfan st i m = record st { config = record st.config { mbfans = update st.config.mbfans i m } }

abbrev pub set_sensor : {R : Type 0} → Session R → ℕ → SensorInput R → Session R
set_sensor st i s = record st {
  config = record st.config { sensors = update st.config.sensors i s };
}

abbrev pub set_vsensor : {R : Type 0} → Session R → ℕ → VsensorInput R → Session R
set_vsensor st i v = record st {
  config = record st.config { vsensors = update st.config.vsensors i v };
}

-- The subcommand that many above the last one, "" where there is none.
abbrev pub get_prev_cmd : PrevCmds → ℕ → List ℕ
get_prev_cmd prev depth = elim (get_elem? prev depth) [ none ↦ [] | some s ↦ s ]

unfoldable pub get_prev_cmd_index : PrevCmds → ℕ → ℤ
get_prev_cmd_index prev depth = elim (get_elem? prev depth) [
  | none ↦ negsuc 1
  | some s ↦ get_cmd_index (some s)
]

-- The place in an array with so many elements of the element with a number counted from 1.
abbrev pub place : ℕ → ℤ → Option ℕ
place count (pos (suc i)) = if ltb i count then some i else none
place count _ = none

abbrev pub prev_place : ℕ → PrevCmds → ℕ → Option ℕ
prev_place count prev depth = place count (get_prev_cmd_index prev depth)
