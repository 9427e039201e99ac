-- ===== src/OneWire/Tests.antt =====
-- src/onewire.c: tests, and the theorems at inputs.
use fanpico.Base.{ℕ, ◌+◌, ◌≤◌, ◌≡◌, refl, true, Option, none, some, ◌==◌, if◌then◌else◌, arith}
use fanpico.Base.Int.{pos}
use fanpico.Samples.{start}
use fanpico.OneWire.{OneWire, Scan, onewire_scan_bus, onewire_read_temps}
use fanpico.OneWire.Round.{Read, read_all, read_all-Read, onewire_scan_bus_in_array}

abbrev bus : OneWire
bus = record { ready = true; devices = 3; addr = λ i. i + 40; step = 1; sensor = 0 }

-- The second sensor does not answer.
abbrev readings : ℕ → ℕ → Option ℕ
readings k addr = if k == 1 then none else some addr

abbrev answers : Scan
answers = record { reset = λ k. true; powered = true; res = 2; addr = λ i. i + 1; count = 8 }

started :
    (onewire_read_temps {R = ℕ} true (λ addr. none) 5 (record bus { step = 2 }, start)).0 ≡ pos 1000
unfolding onewire_read_temps
started = refl

read_all-Read_example :
    Read readings (λ k. k) start bus 2 (read_all readings (λ k. k) 2 (bus, start))
read_all-Read_example = read_all-Read readings (λ k. k) start bus 2 (omega arith) refl refl refl

scanned : (onewire_scan_bus answers bus).devices ≤ 8
scanned = onewire_scan_bus_in_array answers bus (omega arith) (omega arith)
