-- ===== src/Crc/Tests.antt =====
-- src/crc32.c: tests, and the theorems at inputs.
use fanpico.Base.{◌≡◌, refl, ◌++◌, get_or, arith}
use fanpico.Base.Text.{codes}
use fanpico.Crc.{xcrc32, crc_byte, crc32_table, table_entry}
use fanpico.Crc.Table.{crc32_table_entry}
use fanpico.Crc.Parts.{xcrc32-append}

-- The check value of this variant of the CRC (CRC-32/MPEG-2).
check_value : xcrc32 (codes "123456789") 0xffffffff ≡ 0x0376e6e7
unfolding xcrc32 crc_byte
check_value = refl

crc32_table_entry_example : get_or crc32_table 200 0 ≡ table_entry 200
crc32_table_entry_example = crc32_table_entry 200 (omega arith)

appended_sum :
    xcrc32 (codes "fan" ++ codes "pico") 7 ≡ xcrc32 (codes "pico") (xcrc32 (codes "fan") 7)
appended_sum = xcrc32-append (codes "fan") (codes "pico") 7
