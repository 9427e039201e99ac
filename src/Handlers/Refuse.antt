-- ===== src/Handlers/Refuse.antt =====
-- src/command_util.c: settings of arrays that fail.
use fanpico.Base.{ℕ, ◌≡◌, refl, Bool, ◌||◌, ◌&&◌, ◌⊎◌, inl, inr, Bool-cases, Option-cases, List}
use fanpico.Base.Int.{ℤ, pos, ltb_ℤ}
use fanpico.Base.Arith.{Arith}
use fanpico.Base.Text.{strtol}
use fanpico.Commands.Run.{PrevCmds}
use fanpico.Handlers.{Env, Session, prev_place}
use fanpico.Handlers.Arrays.{
  array_string_setting, array_unsigned_setting, array_float_setting, float_setting,
}

-- The configuration and the filters.
abbrev Settled : {R : Type 0} → Session R → Session R → Type 0
Settled st st' = (st'.config ≡ st.config) × (st'.heap ≡ st.heap)

abbrev pub Refuses : {R : Type 0} → Session R → ℤ × Session R → Type 0
Refuses st r = (r.0 ≡ pos 0) ⊎ Settled st r.1

module _ {R : Type 0} ⦃a : Arith R⦄ (e : Env R) where
  array_string_setting-Refuses :
      (args : List ℕ) (query : Bool) (prev : PrevCmds) (offset count size : ℕ) (get : ℕ → List ℕ)
      (put : ℕ → List ℕ → Session R) (st : Session R)
      → Refuses st (array_string_setting e args query prev offset count size get put st)
  unfolding array_string_setting
  array_string_setting-Refuses args query prev offset count size get put st =
      elim (Option-cases (prev_place count prev offset)) [
        | inl n ↦ rw (array_string_setting, n) (inr (refl, refl))
        | inr (i, n) ↦ elim (Bool-cases query) [
          | inl q ↦ rw (array_string_setting, n, q) (inl refl)
          | inr q ↦ rw (array_string_setting, n, q) (inl refl)
        ]
      ]

  array_unsigned_setting-Refuses :
      (args : List ℕ) (query : Bool) (prev : PrevCmds) (offset count : ℕ) (get : ℕ → ℕ)
      (put : ℕ → ℕ → Session R) (low high : ℕ) (st : Session R)
      → Refuses st (array_unsigned_setting e args query prev offset count get put low high st)
  unfolding array_unsigned_setting
  array_unsigned_setting-Refuses args query prev offset count get put low high st =
      elim (Option-cases (prev_place count prev offset)) [
        | inl n ↦ rw (array_unsigned_setting, n) (inr (refl, refl))
        | inr (i, n) ↦ elim (Bool-cases query) [
          | inl q ↦ rw (array_unsigned_setting, n, q) (inr (refl, refl))
          | inr q ↦ elim (Option-cases (strtol args)) [
            | inl v ↦ rw (array_unsigned_setting, n, q, v) (inr (refl, refl))
            | inr (val, v) ↦ elim (Bool-cases (ltb_ℤ val (pos low) || ltb_ℤ (pos high) val)) [
              | inl out ↦ rw (array_unsigned_setting, n, q, v, out) (inr (refl, refl))
              | inr fits ↦ rw (array_unsigned_setting, n, q, v, fits) (inl refl)
            ]
          ]
        ]
      ]

  array_float_setting-Refuses :
      (args : List ℕ) (query : Bool) (prev : PrevCmds) (offset count : ℕ) (get : ℕ → R)
      (put : ℕ → R → Session R) (low high : R) (st : Session R)
      → Refuses st (array_float_setting e args query prev offset count get put low high st)
  unfolding array_float_setting
  array_float_setting-Refuses args query prev offset count get put low high st =
      elim (Option-cases (prev_place count prev offset)) [
        | inl n ↦ rw (array_float_setting, n) (inr (refl, refl))
        | inr (i, n) ↦ elim (Bool-cases query) [
          | inl q ↦ rw (array_float_setting, n, q) (inr (refl, refl))
          | inr q ↦ elim (Option-cases (a.strtof args)) [
            | inl v ↦ rw (array_float_setting, n, q, v) (inr (refl, refl))
            | inr (val, v) ↦ elim (Bool-cases (a.lt val low || a.lt high val)) [
              | inl out ↦ rw (array_float_setting, n, q, v, out) (inr (refl, refl))
              | inr fits ↦ rw (array_float_setting, n, q, v, fits) (inl refl)
            ]
          ]
        ]
      ]

  float_setting-Refuses :
      (args : List ℕ) (query : Bool) (var : R) (put : R → Session R) (low high : R) (st : Session R)
      → Refuses st (float_setting e args query var put low high st)
  unfolding float_setting
  float_setting-Refuses args query var put low high st = elim (Bool-cases query) [
    | inl q ↦ rw (float_setting, q) (inl refl)
    | inr q ↦ elim (Option-cases (a.strtof args)) [
      | inl v ↦ rw (float_setting, q, v) (inr (refl, refl))
      | inr (val, v) ↦ elim (Bool-cases (a.le low val && a.le val high)) [
        | inl fits ↦ rw (float_setting, q, v, fits) (inl refl)
        | inr out ↦ rw (float_setting, q, v, out) (inr (refl, refl))
      ]
    ]
  ]

  -- The settings of a text, a whole number and a number of an array, and of a single number, each
  -- with any way to store it: the result is 0, or the configuration and the filters are as before.
  pub settings_refuse :
      (args : List ℕ) (query : Bool) (prev : PrevCmds) (offset count size : ℕ) (text : ℕ → List ℕ)
      (put_text : ℕ → List ℕ → Session R) (whole : ℕ → ℕ) (put_whole : ℕ → ℕ → Session R)
      (from to : ℕ) (number : ℕ → R) (put_number : ℕ → R → Session R) (low high : R)
      (st : Session R)
      → Refuses st (array_string_setting e args query prev offset count size text put_text st)
        × Refuses st
            (array_unsigned_setting e args query prev offset count whole put_whole from to st)
        × Refuses st
            (array_float_setting e args query prev offset count number put_number low high st)
        × Refuses st (float_setting e args query (number offset) (put_number offset) low high st)
  settings_refuse args query prev offset count size text put_text whole put_whole from to number
        put_number low high st =
      (
        array_string_setting-Refuses args query prev offset count size text put_text st,
        array_unsigned_setting-Refuses args query prev offset count whole put_whole from to st,
        array_float_setting-Refuses args query prev offset count number put_number low high st,
        float_setting-Refuses args query (number offset) (put_number offset) low high st,
      )
