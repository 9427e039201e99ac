-- ===== src/Persist.antt =====
-- src/fanpico.c: the block of memory that is kept over a reset, with its checksum. The layout of
-- the block in memory (its bytes before the checksum, and its size) is the compiler's: a parameter.
pub mod Resume
mod Tests
use fanpico.Base.{
  ℕ, ◌+◌, ◌%◌, ◌^◌, Bool, true, false, ◌&&◌, List, [], ◌∷◌, Option, none, some, ◌==◌, if◌then◌else◌,
  take,
}
use fanpico.Crc.{xcrc32}

-- `struct persistent_memory_block` before its checksum; `saved_time` in seconds and nanoseconds.
pub record Fields : Type 0 where
  pub id : ℕ
  pub len : ℕ
  pub saved_time : ℕ × ℕ
  pub uptime : ℕ
  pub prev_uptime : ℕ
  pub total_uptime : ℕ
  pub warmstart : ℕ
  pub timezone : List ℕ

pub record Block : Type 0 where
  pub fields : Fields
  pub crc32 : ℕ

abbrev pub persistent_memory_id : ℕ
persistent_memory_id = 0x42c0ffee

-- The block after `memset`, with its id and its length.
abbrev pub blank : ℕ → Fields
blank size = record {
  id = persistent_memory_id;
  len = size;
  saved_time = (0, 0);
  uptime = 0;
  prev_uptime = 0;
  total_uptime = 0;
  warmstart = 0;
  timezone = [];
}

module _ (bytes : Fields → List ℕ) (size : ℕ) where
  unfoldable pub update_persistent_memory_crc : Fields → Block
  update_persistent_memory_crc f = record { fields = f; crc32 = xcrc32 (bytes f) 0 }

  -- What a block that is found is turned into: the uptime of the last run is added up.
  unfoldable pub resumed : Fields → Fields
  resumed f =
      let counted = if f.uptime == 0 then f else record f {
        prev_uptime = f.uptime;
        total_uptime = (f.total_uptime + f.uptime) % 2 ^ 64;
      } in
      record counted { warmstart = (f.warmstart + 1) % 2 ^ 32 }

  -- The restored time zone and clock are set from the fields of the block and are left out.
  unfoldable pub init_persistent_memory : Block → Block
  unfolding resumed update_persistent_memory_crc
  init_persistent_memory m =
      let f = m.fields in
      if f.id == persistent_memory_id && f.len == size && xcrc32 (bytes f) 0 == m.crc32
      then update_persistent_memory_crc (resumed f)
      else update_persistent_memory_crc (blank size)

  -- `clock` is the running clock's time, if it runs; `entered` says that the mutex was free in time.
  unfoldable pub update_persistent_memory : Bool → Option (ℕ × ℕ) → ℕ → Block → Block
  unfolding update_persistent_memory_crc
  update_persistent_memory false clock now m = m
  update_persistent_memory true none now m =
      update_persistent_memory_crc (record m.fields { uptime = now })
  update_persistent_memory true (some t) now m =
      update_persistent_memory_crc (record m.fields { saved_time = t; uptime = now })

  -- The array of the time zone has 64 bytes.
  unfoldable pub update_persistent_memory_tz : Bool → List ℕ → Block → Block
  unfolding update_persistent_memory_crc
  update_persistent_memory_tz false tz m = m
  update_persistent_memory_tz true tz m =
      update_persistent_memory_crc (record m.fields { timezone = take 63 tz })

-- The calls that change the block while the firmware runs.
pub data Call : Type 0 where
  update_call : Bool → Option (ℕ × ℕ) → ℕ → Call
  tz_call : Bool → List ℕ → Call

module _ (bytes : Fields → List ℕ) (size : ℕ) where
  -- The calls of a run of the firmware, the latest first.
  unfoldable pub run_calls : List Call → Block → Block
  unfolding update_persistent_memory update_persistent_memory_tz
  run_calls [] m = m
  run_calls (update_call entered clock now ∷ earlier) m =
      update_persistent_memory bytes size entered clock now (run_calls earlier m)
  run_calls (tz_call entered tz ∷ earlier) m =
      update_persistent_memory_tz bytes size entered tz (run_calls earlier m)
