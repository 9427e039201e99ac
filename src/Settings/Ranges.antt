-- ===== src/Settings/Ranges.antt =====
-- src/command_util.c: a setting never leaves its range.
use fanpico.Base.{
  ℕ, ◌%◌, ◌≤◌, ◌<◌, ◌≡◌, refl, Bool, false, ◌&&◌, ◌⊎◌, inl, inr, arith, Bool-cases, Option-cases,
  some, List, leb, if◌then◌else◌,
}
use fanpico.Base.Int.{pos}
use fanpico.Base.Text.{strtol}
use fanpico.Settings.{to_unsigned, unsigned_setting}

-- A setting that was in its range stays in it, and one for which the command fails is unchanged.
pub unsigned_setting_in_range :
    (m : ℕ) (args : List ℕ) (query : Bool) (var low high : ℕ)
    → low ≤ var
    → var ≤ high
    → (low ≤ (unsigned_setting m args query var low high).1)
      × ((unsigned_setting m args query var low high).1 ≤ high)
      × (((unsigned_setting m args query var low high).0 ≡ 0)
          ⊎ ((unsigned_setting m args query var low high).1 ≡ var))
unfolding unsigned_setting
unsigned_setting_in_range m args query var low high h k = elim (Bool-cases query) [
  | inl q ↦ rw q (h, k, inl refl)
  | inr q ↦ elim (Option-cases (strtol args)) [
    | inl e ↦ rw (q, e) (h, k, inr refl)
    | inr (v, e) ↦
        let val = to_unsigned m v in
        elim (Bool-cases (leb low val && leb val high)) [
          | inl fits ↦ rw (q, e, fits) (ground arith, ground arith, inl refl)
          | inr out ↦ rw (q, e, out) (h, k, inr refl)
        ]
  ]
]

-- A number that the type of the setting can hold is taken over exactly if it is in the range.
pub unsigned_setting_takes :
    (m : ℕ) (args : List ℕ) (var low high v : ℕ)
    → strtol args ≡ some (pos v)
    → v < m
    → unsigned_setting m args false var low high
      ≡ (if leb low v && leb v high then (0, v) else (2, var))
unfolding unsigned_setting to_unsigned
unsigned_setting_takes m args var low high v e h =
    let same : v % m ≡ v = grind arith in rw (e, same) refl
