-- ===== src/Handlers/Samples.antt =====
-- An environment and a session in whole numbers, on which the tests of the handlers run.
use fanpico.Base.{ℕ, ◌+◌, false, [], some, none}
use fanpico.Base.Arith.{ℕ_arith}
use fanpico.Base.Text.{decimal}
use fanpico.Samples.{config, start, cells}
use fanpico.Handlers.{Env, Libs, Session}

abbrev pub libs : Libs
libs = record {
  hex = λ n x. decimal x;
  strtol_16 = λ s. none;
  strtoull_16 = λ s. 0;
  i2c_reserved_address = λ x. false;
  i2c_sensor_type_str = λ x. [];
  get_i2c_sensor_type = λ s. 0;
}

abbrev pub env : Env ℕ
env = record {
  fmt = λ n x. decimal x;
  malloc = λ n. some (n + 10);
  behind = [];
  now = 0;
  state = start;
  libs = libs;
}

abbrev pub session : Session ℕ
session = record { config = config; heap = cells; mallocs = 0; out = []; broken = false }
