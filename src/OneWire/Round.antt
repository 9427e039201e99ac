-- ===== src/OneWire/Round.antt =====
-- src/onewire.c: a round of measurements reads every sensor once, in order.
use fanpico.Base.{
  ℕ, zero, suc, ◌≤◌, ◌<◌, ◌≡◌, refl, true, false, Option, none, some, arith, ltb, ◌==◌, ◌∙◌, update,
  update_self, Bool-cases, inl, inr,
}
use mathlib.Core.Path.{subst}
use fanpico.Types.{FanpicoState, onewire_max_count}
use fanpico.OneWire.{OneWire, Scan, onewire_scan_bus, read_sensor, onewire_read_temps}

-- A search returns at most as many addresses as the array has room for: so the number of devices
-- stays inside the arrays of the state.
pub onewire_scan_bus_in_array :
    (answers : Scan) (bus : OneWire)
    → answers.count ≤ onewire_max_count
    → bus.devices ≤ onewire_max_count
    → (onewire_scan_bus answers bus).devices ≤ onewire_max_count
unfolding onewire_scan_bus
onewire_scan_bus_in_array answers bus h k = ground arith

module _ {R : Type 0} (readings : ℕ → ℕ → Option R) (times : ℕ → ℕ) where
  -- The calls that read, the first of them for sensor 0: the state after n of them.
  unfoldable pub read_all : ℕ → OneWire × FanpicoState R → OneWire × FanpicoState R
  unfolding onewire_read_temps
  read_all zero s = s
  read_all (suc n) s =
      let (delay, bus, st) = onewire_read_temps true (readings n) (times n) (read_all n s) in
      (bus, st)

  -- The temperature after a reading.
  abbrev pub taken : R → Option R → R
  taken old none = old
  taken old (some t) = t

  pub record Read (st : FanpicoState R) (bus : OneWire) (n : ℕ) (s : OneWire × FanpicoState R)
      : Type 0 where
    pub step_1 : s.0.step ≡ 1
    pub sensor_n : s.0.sensor ≡ n
    pub devices : s.0.devices ≡ bus.devices
    pub is_ready : s.0.ready ≡ true
    pub addr : s.0.addr ≡ bus.addr
    pub new :
        (k : ℕ) → k < n → s.1.onewire_temp k ≡ taken (st.onewire_temp k) (readings k (bus.addr k))
    pub rest : (k : ℕ) → n ≤ k → s.1.onewire_temp k ≡ st.onewire_temp k

  read_sensor-Read :
      (st : FanpicoState R) (bus : OneWire) (n : ℕ) (o : Option R) (s : OneWire × FanpicoState R)
      → readings n (bus.addr n) ≡ o
      → Read st bus n s
      → let (delay, bus', st') = read_sensor o (times n) s in Read st bus (suc n) (bus', st')
  unfolding read_sensor
  read_sensor-Read st bus n none (b, t) e r = record {
    step_1 = r.step_1;
    sensor_n = omega (arith, r.sensor_n);
    devices = r.devices;
    is_ready = r.is_ready;
    addr = r.addr;
    new = λ k h. elim (Bool-cases (n == k)) [
      | inl here ↦
          let e' : n ≡ k = ground arith in
          subst (λ j. t.onewire_temp j ≡ taken (st.onewire_temp j) (readings j (bus.addr j))) e'
            (rw e (r.rest n (omega arith)))
      | inr ne ↦ r.new k (ground arith)
    ];
    rest = λ k h. r.rest k (omega arith);
  }
  read_sensor-Read st bus n (some v) (b, t) e r = record {
    step_1 = r.step_1;
    sensor_n = omega (arith, r.sensor_n);
    devices = r.devices;
    is_ready = r.is_ready;
    addr = r.addr;
    new = λ k h. elim (Bool-cases (n == k)) [
      | inl here ↦
          let e' : n ≡ k = ground arith in
          let self = update_self t.onewire_temp n v in
          let put : update t.onewire_temp b.sensor v n
              ≡ taken (st.onewire_temp n) (readings n (bus.addr n)) =
            rw (r.sensor_n, e) self in
          subst
            (λ j.
              update t.onewire_temp b.sensor v j
              ≡ taken (st.onewire_temp j) (readings j (bus.addr j)))
            e' put
      | inr ne ↦
          let keeps : update t.onewire_temp b.sensor v k ≡ t.onewire_temp k =
            let other : (b.sensor == k) ≡ false = ground (arith, r.sensor_n) in rw other refl in
          keeps ∙ r.new k (ground arith)
    ];
    rest = λ k h.
        let other : (b.sensor == k) ≡ false = ground (arith, r.sensor_n) in
        let keeps : update t.onewire_temp b.sensor v k ≡ t.onewire_temp k = rw other refl in
        keeps ∙ r.rest k (omega arith);
  }

  -- The address that the next call sends to the bus.
  asked :
      (st : FanpicoState R) (bus : OneWire) (n : ℕ) (b : OneWire) (t : FanpicoState R)
      → Read st bus n (b, t)
      → readings n (bus.addr n) ≡ readings n (b.addr b.sensor)
  asked st bus n b t r = rw (r.addr, r.sensor_n) refl

  one_more_reading :
      (st : FanpicoState R) (bus : OneWire) (n : ℕ) (s : OneWire × FanpicoState R)
      → n < bus.devices
      → Read st bus n s
      → let (delay, bus', st') = onewire_read_temps true (readings n) (times n) s in
        Read st bus (suc n) (bus', st')
  unfolding onewire_read_temps
  one_more_reading st bus n (b, t) h r =
      let one : ltb 1 b.step ≡ false = ground (arith, r.step_1) in
      let some_device : ltb b.devices 1 ≡ false = ground (arith, r.devices) in
      let not_0 : (b.step == 0) ≡ false = ground (arith, r.step_1) in
      let is_1 : (b.step == 1) ≡ true = ground (arith, r.step_1) in
      let more : ltb b.sensor b.devices ≡ true = ground (arith, r.sensor_n, r.devices) in
      let r' : Read st bus n (record b { ready = true }, t) = record {
        step_1 = r.step_1;
        sensor_n = r.sensor_n;
        devices = r.devices;
        is_ready = refl;
        addr = r.addr;
        new = r.new;
        rest = r.rest;
      } in
      rw (one, some_device, r.is_ready, not_0, is_1, more)
        (read_sensor-Read st bus n (readings n (b.addr b.sensor)) (record b { ready = true }, t)
          (asked st bus n b t r) r')

  -- Once the conversion has started (step 1, sensor 0), n calls for n of the devices read the
  -- sensors 0 to n - 1, each once and in order, by its address: each of these has the temperature of its reading,
  -- or the old one where the bus did not give any, and the other temperatures are as before.
  pub read_all-Read :
      (st : FanpicoState R) (bus : OneWire) (n : ℕ)
      → n ≤ bus.devices
      → bus.ready ≡ true
      → bus.step ≡ 1
      → bus.sensor ≡ 0
      → Read st bus n (read_all n (bus, st))
  unfolding read_all
  read_all-Read st bus zero h i j k = record {
    step_1 = j;
    sensor_n = k;
    devices = refl;
    is_ready = i;
    addr = refl;
    new = λ m l. absurd (omega arith);
    rest = λ m l. refl;
  }
  read_all-Read st bus (suc n) h i j k =
      one_more_reading st bus n (read_all n (bus, st)) (omega arith)
        (read_all-Read st bus n (omega arith) i j k)
