-- ===== src/Crc/Parts.antt =====
-- src/crc32.c: the checksum of a buffer in parts.
use fanpico.Base.{ℕ, ◌≡◌, refl, List, [], ◌∷◌, ◌++◌}
use fanpico.Crc.{xcrc32, crc_byte}

-- The checksum of two buffers, one after the other, is that of the second with the checksum of the
-- first as the initial value.
pub xcrc32-append :
    (xs ys : List ℕ) (init : ℕ) → xcrc32 (xs ++ ys) init ≡ xcrc32 ys (xcrc32 xs init)
unfolding xcrc32
xcrc32-append [] ys init = refl
xcrc32-append (x ∷ xs) ys init = xcrc32-append xs ys (crc_byte init x)
