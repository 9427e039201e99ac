-- ===== src/Util/Tests.antt =====
-- src/util.c and src/util_net.c: tests, and the theorems at inputs.
use fanpico.Base.{ℕ, ◌≡◌, ◌⊎◌, refl, true, false, some, take, arith}
use fanpico.Base.Int.{pos, negsuc, ◌≤ℤ◌, ltb_ℤ}
use fanpico.Base.Text.{codes, c_string, is_alnum}
use fanpico.Util.{
  strncopy, strncatenate, clamp_int, valid_hostname, valid_wifi_country, make_netmask,
}
use fanpico.Util.Copies.{strncopy_in_buffer, clamp_int_nearest}

abbrev old : ℕ → ℕ
old i = 120

strncopy_in_buffer_example :
    (c_string 3 (strncopy old (some (codes "fanpico")) 4) 0 ≡ take 3 (codes "fanpico"))
    × (strncopy old (some (codes "fanpico")) 4 3 ≡ 0)
    × (strncopy old (some (codes "fanpico")) 4 4 ≡ 120)
strncopy_in_buffer_example =
    strncopy_in_buffer old (codes "fanpico") 4 4 (omega arith) (ground arith) (omega arith)

nearest_value :
    (negsuc 4 ≤ℤ clamp_int (pos 7) (negsuc 4) (pos 3))
    × (clamp_int (pos 7) (negsuc 4) (pos 3) ≤ℤ pos 3)
    × ((clamp_int (pos 7) (negsuc 4) (pos 3) ≡ pos 7)
        ⊎ ((ltb_ℤ (pos 7) (negsuc 4) ≡ true) × (clamp_int (pos 7) (negsuc 4) (pos 3) ≡ negsuc 4))
        ⊎ ((ltb_ℤ (pos 3) (pos 7) ≡ true) × (clamp_int (pos 7) (negsuc 4) (pos 3) ≡ pos 3)))
nearest_value = clamp_int_nearest (pos 7) (negsuc 4) (pos 3) (omega arith)

joined :
    c_string 8 (strncatenate (strncopy old (some (codes "fan")) 8) (some (codes "picolo")) 8) 0
    ≡ codes "fanpico"
unfolding strncatenate strncopy c_string
joined = refl

hostnames :
    (valid_hostname (some (codes "fan-1")) ≡ true) × (valid_hostname (some (codes "a.b")) ≡ false)
unfolding valid_hostname is_alnum
hostnames = (refl, refl)

-- A country of a valid prefix and anything behind it is accepted.
country : valid_wifi_country (some (codes "DE1-anything")) ≡ true
unfolding valid_wifi_country
country = refl

netmask : make_netmask 24 ≡ 0xffffff00
unfolding make_netmask
netmask = refl
