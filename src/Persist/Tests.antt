-- ===== src/Persist/Tests.antt =====
-- src/fanpico.c: the theorem on the persistent memory at an input.
use fanpico.Base.{ℕ, true, none, List, [], ◌∷◌}
use fanpico.Base.Text.{codes}
use fanpico.Persist.{Fields, Block, blank, init_persistent_memory, run_calls, update_call, tz_call}
use fanpico.Persist.Resume.{Resumed, init_persistent_memory_resumes}

-- A layout of a few of the fields, for the test.
abbrev bytes : Fields → List ℕ
bytes f = f.id ∷ f.warmstart ∷ f.timezone

abbrev garbage : Block
garbage = record { fields = record (blank 7) { id = 12 }; crc32 = 99 }

init_persistent_memory_resumes_example :
    let calls = update_call true none 900 ∷ tz_call true (codes "UTC") ∷ [] in
    let first = init_persistent_memory bytes 112 garbage in
    Resumed calls first.fields
      (init_persistent_memory bytes 112 (run_calls bytes 112 calls first)).fields
init_persistent_memory_resumes_example =
    init_persistent_memory_resumes bytes 112 garbage
      (update_call true none 900 ∷ tz_call true (codes "UTC") ∷ [])
