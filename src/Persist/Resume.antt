-- ===== src/Persist/Resume.antt =====
-- src/fanpico.c: a block that the firmware has left is found again after a reset.
use fanpico.Base.{
  ℕ, ◌+◌, ◌%◌, ◌^◌, ◌∙◌, sym, take, if◌then◌else◌, ◌≡◌, refl, Bool, true, false, ◌&&◌, List, [],
  ◌∷◌, Option, none, some, ◌==◌, Bool-cases, inl, inr, arith,
}
use mathlib.Core.Path.{subst}
use fanpico.Crc.{xcrc32}
use fanpico.Persist.{
  Fields, Block, persistent_memory_id, update_persistent_memory_crc, resumed,
  init_persistent_memory, update_persistent_memory, update_persistent_memory_tz, Call, update_call,
  tz_call, run_calls,
}

-- The calls of a run, the latest first: what the last one of each kind that got the mutex has
-- written, or the given value.
abbrev pub last_uptime : List Call → ℕ → ℕ
last_uptime [] old = old
last_uptime (update_call true clock now ∷ earlier) old = now
last_uptime (update_call false clock now ∷ earlier) old = last_uptime earlier old
last_uptime (tz_call entered tz ∷ earlier) old = last_uptime earlier old

abbrev pub last_time : List Call → ℕ × ℕ → ℕ × ℕ
last_time [] old = old
last_time (update_call true (some t) now ∷ earlier) old = t
last_time (update_call true none now ∷ earlier) old = last_time earlier old
last_time (update_call false clock now ∷ earlier) old = last_time earlier old
last_time (tz_call entered tz ∷ earlier) old = last_time earlier old

abbrev pub last_timezone : List Call → List ℕ → List ℕ
last_timezone [] old = old
last_timezone (tz_call true tz ∷ earlier) old = take 63 tz
last_timezone (tz_call false tz ∷ earlier) old = last_timezone earlier old
last_timezone (update_call entered clock now ∷ earlier) old = last_timezone earlier old

-- The fields at the end of a run, from those at its start.
record Left (calls : List Call) (first left : Fields) : Type 0 where
  uptime : left.uptime ≡ last_uptime calls first.uptime
  saved_time : left.saved_time ≡ last_time calls first.saved_time
  timezone : left.timezone ≡ last_timezone calls first.timezone
  prev_uptime : left.prev_uptime ≡ first.prev_uptime
  total_uptime : left.total_uptime ≡ first.total_uptime
  warmstart : left.warmstart ≡ first.warmstart

-- The fields after the next start.
pub record Resumed (calls : List Call) (first next : Fields) : Type 0 where
  pub warmstart : next.warmstart ≡ (first.warmstart + 1) % 2 ^ 32
  pub uptime : next.uptime ≡ last_uptime calls first.uptime
  pub saved_time : next.saved_time ≡ last_time calls first.saved_time
  pub timezone : next.timezone ≡ last_timezone calls first.timezone
  pub prev_uptime :
      next.prev_uptime
      ≡ (let up = last_uptime calls first.uptime in if up == 0 then first.prev_uptime else up)
  pub total_uptime : next.total_uptime ≡ (
      let up = last_uptime calls first.uptime in
      if up == 0 then first.total_uptime else (first.total_uptime + up) % 2 ^ 64)

no_calls : (f : Fields) → Left [] f f
no_calls f = record {
  uptime = refl;
  saved_time = refl;
  timezone = refl;
  prev_uptime = refl;
  total_uptime = refl;
  warmstart = refl;
}

-- A call that does not get the mutex.
skipped :
    (first left : Fields) (c : Call) (earlier : List Call)
    → last_uptime (c ∷ earlier) first.uptime ≡ last_uptime earlier first.uptime
    → last_time (c ∷ earlier) first.saved_time ≡ last_time earlier first.saved_time
    → last_timezone (c ∷ earlier) first.timezone ≡ last_timezone earlier first.timezone
    → Left earlier first left
    → Left (c ∷ earlier) first left
skipped first left c earlier p q r h = record {
  uptime = h.uptime ∙ sym p;
  saved_time = h.saved_time ∙ sym q;
  timezone = h.timezone ∙ sym r;
  prev_uptime = h.prev_uptime;
  total_uptime = h.total_uptime;
  warmstart = h.warmstart;
}

module _ (bytes : Fields → List ℕ) (size : ℕ) where
  -- A block that the firmware finds at its start.
  pub record IsSealed (m : Block) : Type 0 where
    pub id_of : m.fields.id ≡ persistent_memory_id
    pub len_of : m.fields.len ≡ size
    pub crc_of : xcrc32 (bytes m.fields) 0 ≡ m.crc32

  resumed-IsSealed :
      (f : Fields)
      → f.id ≡ persistent_memory_id
      → f.len ≡ size
      → IsSealed (update_persistent_memory_crc bytes size (resumed bytes size f))
  unfolding resumed update_persistent_memory_crc
  resumed-IsSealed f h k = elim (Bool-cases (f.uptime == 0)) [
    | inl e ↦ rw e record { id_of = h; len_of = k; crc_of = refl }
    | inr e ↦ rw e record { id_of = h; len_of = k; crc_of = refl }
  ]

  init_persistent_memory-IsSealed : (m : Block) → IsSealed (init_persistent_memory bytes size m)
  unfolding init_persistent_memory resumed update_persistent_memory_crc
  init_persistent_memory-IsSealed m =
      let f = m.fields in
      elim (Bool-cases
        (f.id == persistent_memory_id && f.len == size && xcrc32 (bytes f) 0 == m.crc32)) [
          | inl found ↦ rw found (resumed-IsSealed f (ground arith) (ground arith))
          | inr lost ↦ rw lost record { id_of = refl; len_of = refl; crc_of = refl }
        ]

  update_persistent_memory-IsSealed :
      (entered : Bool) (clock : Option (ℕ × ℕ)) (now : ℕ) (m : Block)
      → IsSealed m
      → IsSealed (update_persistent_memory bytes size entered clock now m)
  unfolding update_persistent_memory update_persistent_memory_crc
  update_persistent_memory-IsSealed false clock now m h = h
  update_persistent_memory-IsSealed true none now m h = record {
    id_of = h.id_of;
    len_of = h.len_of;
    crc_of = refl;
  }
  update_persistent_memory-IsSealed true (some t) now m h = record {
    id_of = h.id_of;
    len_of = h.len_of;
    crc_of = refl;
  }

  update_persistent_memory_tz-IsSealed :
      (entered : Bool) (tz : List ℕ) (m : Block)
      → IsSealed m
      → IsSealed (update_persistent_memory_tz bytes size entered tz m)
  unfolding update_persistent_memory_tz update_persistent_memory_crc
  update_persistent_memory_tz-IsSealed false tz m h = h
  update_persistent_memory_tz-IsSealed true tz m h = record {
    id_of = h.id_of;
    len_of = h.len_of;
    crc_of = refl;
  }

  run_calls-IsSealed :
      (calls : List Call) (m : Block) → IsSealed m → IsSealed (run_calls bytes size calls m)
  unfolding run_calls
  run_calls-IsSealed [] m h = h
  run_calls-IsSealed (update_call entered clock now ∷ earlier) m h =
      update_persistent_memory-IsSealed entered clock now (run_calls bytes size earlier m)
        (run_calls-IsSealed earlier m h)
  run_calls-IsSealed (tz_call entered tz ∷ earlier) m h =
      update_persistent_memory_tz-IsSealed entered tz (run_calls bytes size earlier m)
        (run_calls-IsSealed earlier m h)

  init_persistent_memory_of_sealed :
      (m : Block)
      → IsSealed m
      → (init_persistent_memory bytes size m).fields ≡ resumed bytes size m.fields
  unfolding init_persistent_memory update_persistent_memory_crc
  init_persistent_memory_of_sealed m h =
      let found : (m.fields.id == persistent_memory_id
            && m.fields.len == size
            && xcrc32 (bytes m.fields) 0 == m.crc32)
          ≡ true =
        ground (arith, h.id_of, h.len_of, h.crc_of) in
      rw found refl

  run_calls-Left :
      (calls : List Call) (m : Block) → Left calls m.fields (run_calls bytes size calls m).fields
  unfolding run_calls update_persistent_memory update_persistent_memory_tz
      update_persistent_memory_crc
  run_calls-Left [] m = no_calls m.fields
  run_calls-Left (update_call false clock now ∷ earlier) m =
      skipped m.fields (run_calls bytes size earlier m).fields (update_call false clock now) earlier
        refl refl refl (run_calls-Left earlier m)
  run_calls-Left (update_call true none now ∷ earlier) m =
      let h = run_calls-Left earlier m in
      record {
        uptime = refl;
        saved_time = h.saved_time;
        timezone = h.timezone;
        prev_uptime = h.prev_uptime;
        total_uptime = h.total_uptime;
        warmstart = h.warmstart;
      }
  run_calls-Left (update_call true (some t) now ∷ earlier) m =
      let h = run_calls-Left earlier m in
      record {
        uptime = refl;
        saved_time = refl;
        timezone = h.timezone;
        prev_uptime = h.prev_uptime;
        total_uptime = h.total_uptime;
        warmstart = h.warmstart;
      }
  run_calls-Left (tz_call false tz ∷ earlier) m =
      skipped m.fields (run_calls bytes size earlier m).fields (tz_call false tz) earlier refl refl
        refl (run_calls-Left earlier m)
  run_calls-Left (tz_call true tz ∷ earlier) m =
      let h = run_calls-Left earlier m in
      record {
        uptime = h.uptime;
        saved_time = h.saved_time;
        timezone = refl;
        prev_uptime = h.prev_uptime;
        total_uptime = h.total_uptime;
        warmstart = h.warmstart;
      }

  resumed-Resumed :
      (calls : List Call) (first left : Fields)
      → Left calls first left
      → Resumed calls first (resumed bytes size left)
  unfolding resumed
  resumed-Resumed calls first left h = elim (Bool-cases (left.uptime == 0)) [
    | inl e ↦
        let none_counted : (last_uptime calls first.uptime == 0) ≡ true = rw (sym h.uptime) e in
        rw e record {
          warmstart = rw h.warmstart refl;
          uptime = h.uptime;
          saved_time = h.saved_time;
          timezone = h.timezone;
          prev_uptime = rw none_counted h.prev_uptime;
          total_uptime = rw none_counted h.total_uptime;
        }
    | inr e ↦
        let counted : (last_uptime calls first.uptime == 0) ≡ false = rw (sym h.uptime) e in
        rw e record {
          warmstart = rw h.warmstart refl;
          uptime = h.uptime;
          saved_time = h.saved_time;
          timezone = h.timezone;
          prev_uptime = rw counted h.uptime;
          total_uptime = rw (counted, h.uptime, h.total_uptime) refl;
        }
  ]

  -- Whatever the memory has at the first start, and whatever calls come till the reset, the next
  -- start finds the block. Against the fields after the first start: one more warm start is counted
  -- (32 bits); the clock, the uptime and the time zone (63 bytes) are those of the last call of
  -- each kind that got the mutex, or as they were where none did; this uptime, if it is not 0, is
  -- the previous one and is added to the total (64 bits). So where no update got the mutex, the
  -- uptime that an earlier run left is added once more.
  pub init_persistent_memory_resumes :
      (m : Block) (calls : List Call)
      → let first = init_persistent_memory bytes size m in
        Resumed calls first.fields
          (init_persistent_memory bytes size (run_calls bytes size calls first)).fields
  init_persistent_memory_resumes m calls =
      let first = init_persistent_memory bytes size m in
      let left = run_calls bytes size calls first in
      let found =
        init_persistent_memory_of_sealed left
          (run_calls-IsSealed calls first (init_persistent_memory-IsSealed m)) in
      subst (Resumed calls first.fields) (sym found)
        (resumed-Resumed calls first.fields left.fields (run_calls-Left calls first))
