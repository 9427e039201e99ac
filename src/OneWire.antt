-- ===== src/OneWire.antt =====
-- src/onewire.c: the 1-Wire bus. What the bus driver returns is an argument of each operation.
pub mod Round
mod Tests
use fanpico.Base.{
  ℕ, zero, suc, ◌+◌, Bool, true, false, ◌||◌, Option, none, some, ltb, leb, ◌==◌, if◌then◌else◌,
  update,
}
use fanpico.Base.Int.{ℤ, pos, negsuc}
use fanpico.Types.{FanpicoState}

-- `onewire_state_t` and the statics of `onewire_read_temps`. `ready` says that the driver is set up.
pub record OneWire : Type 0 where
  pub ready : Bool
  pub devices : ℕ
  pub addr : ℕ → ℕ
  pub step : ℕ
  pub sensor : ℕ

unfoldable pub onewire_address : OneWire → ℕ → ℕ
onewire_address bus sensor = if leb bus.devices sensor then 0 else bus.addr sensor

-- Whether one of the resets from number k on succeeds, with that many left.
unfoldable any_reset : (ℕ → Bool) → ℕ → ℕ → Bool
any_reset reset zero k = false
any_reset reset (suc left) k = let rest = any_reset reset left (k + 1) in reset k || rest

-- The answers of the bus to a scan: to each reset, whether all devices have power, and the result
-- of the search with the addresses and their number.
pub record Scan : Type 0 where
  pub reset : ℕ → Bool
  pub powered : Bool
  pub res : ℕ
  pub addr : ℕ → ℕ
  pub count : ℕ

unfoldable pub onewire_scan_bus : Scan → OneWire → OneWire
unfolding any_reset
onewire_scan_bus answers bus =
    let found = record bus { addr = answers.addr } in
    if bus.ready
    then (if any_reset answers.reset 4 0
        then (if answers.powered
            then (if answers.res == 2 || answers.res == 0
                then record found { devices = answers.count }
                else found)
            else bus)
        else bus)
    else bus

module _ {R : Type 0} where
  -- Step 1: the temperature of one sensor, `none` where the bus does not give it.
  unfoldable pub read_sensor :
      Option R → ℕ → OneWire × FanpicoState R → ℤ × OneWire × FanpicoState R
  read_sensor none now (bus, st) = (pos 100, record bus { sensor = bus.sensor + 1 }, st)
  read_sensor (some temp) now (bus, st) = (
    pos 100,
    record bus { sensor = bus.sensor + 1 },
    record st {
      onewire_temp = update st.onewire_temp bus.sensor temp;
      onewire_temp_updated = update st.onewire_temp_updated bus.sensor now;
    },
  )

  -- The delay up to the next call in milliseconds, with the bus and the state. `converts` says that
  -- the conversion starts, `reading` is what the driver returns for an address.
  unfoldable pub onewire_read_temps :
      Bool → (ℕ → Option R) → ℕ → OneWire × FanpicoState R → ℤ × OneWire × FanpicoState R
  unfolding read_sensor
  onewire_read_temps converts reading now (bus, st) =
      let step = if ltb 1 bus.step then 0 else bus.step in
      let step = if ltb bus.devices 1 then 2 else step in
      let bus' = record bus { step = step } in
      if bus.ready
      then (if step == 0
          then (if converts
              then (pos 1000, record bus' { sensor = 0; step = 1 }, st)
              else (pos 15000, record bus' { step = 2 }, st))
          else (if step == 1
              then (if ltb bus.sensor bus.devices
                  then read_sensor (reading (bus.addr bus.sensor)) now (bus', st)
                  else (pos 15000, record bus' { step = 2 }, st))
              else (pos 15000, bus', st)))
      else (negsuc 0, bus, st)
