-- ===== src/Handlers/Valid/Mbfans.antt =====
-- src/command.c: the handlers of a motherboard input keep a valid configuration valid.
use fanpico.Base.{
  ℕ, ◌^◌, ◌≡◌, refl, Bool, true, false, inl, inr, Option, none, some, List, [], ◌∷◌, leb,
  if◌then◌else◌, Bool-cases, Option-cases, List-cases,
}
use mathlib.Core.Path.{subst}
use fanpico.Base.Int.{ℤ, pos, ◌-ℤ◌}
use fanpico.Base.Arith.{Arith, IsOrdered}
use fanpico.Base.Text.{strtok, atoi}
use fanpico.Types.{MbInput, RpmMode, rmode_tacho, rmode_lra}
use fanpico.Types.Board.{Board}
use fanpico.Settings.{to_unsigned}
use fanpico.Commands.Run.{PrevCmds}
use fanpico.Handlers.{Env, Session, prev_place, allocate, set_mbfan}
use fanpico.Handlers.Valid.{IsValid, Unless, IsValidMbfan, set_mbfan-IsValid}
use fanpico.Handlers.Valid.Settings.{
  array_string_setting_keeps, array_unsigned_setting_keeps, array_float_setting_keeps,
  map_setting_keeps, filter_setting_keeps,
}
use fanpico.Base.Text.{decimal}
use fanpico.Types.{TachoSource, tacho_fixed}
use fanpico.Config.{str2rpm_mode, str2tacho_source, valid_tacho_source_ref}
use fanpico.Handlers.Valid.Fans.{clamped_below}
use fanpico.Handlers.Mbfan.{
  mbfan_name, mbfan_min_rpm, mbfan_max_rpm, mbfan_rpm_coef, mbfan_rpm_map, mbfan_filter,
  mbfan_rpm_factor, mbfan_rpm_mode, mbfan_source, mb_lra, read_sources, source_change, select,
  is_single, tacho_offset, count_selected, source_outside,
}

mb_lra-IsValid :
    {R : Type 0} ⦃a : Arith R⦄ (b : Board) (mode : RpmMode) (toks : List (List ℕ)) (m : MbInput R)
    → IsValidMbfan b m
    → IsValidMbfan b (mb_lra mode toks m)
unfolding mb_lra
mb_lra-IsValid b rmode_tacho toks m w = w
mb_lra-IsValid b rmode_lra [] m w = w
mb_lra-IsValid b rmode_lra (low ∷ []) m w =
    (w.0, w.1, w.2, w.3, clamped_below low m.lra_treshold w.4, w.5, w.6)
mb_lra-IsValid b rmode_lra (low ∷ level ∷ toks) m w =
    (w.0, w.1, w.2, w.3, clamped_below low m.lra_treshold w.4, w.5, w.6)

abbrev Holds : TachoSource → Option ℕ → Type 0
Holds type none = Unit
Holds type (some s_id) = valid_tacho_source_ref type s_id ≡ true

choice_valid :
    (type : TachoSource) (s_id : ℕ) (new : ℕ → ℕ) (c d : Bool) (rest : Option ℕ × (ℕ → ℕ) × ℤ)
    → valid_tacho_source_ref type s_id ≡ c
    → Holds type rest.0
    → Holds type
        (if◌then◌else◌ {A = Option ℕ × (ℕ → ℕ) × ℤ} c
          (if d then (some s_id, new, pos 0) else rest)
          (none, new, pos 2)).0
choice_valid type s_id new true true rest h k = h
choice_valid type s_id new true false rest h k = k
choice_valid type s_id new false d rest h k = tt

read_sources_valid :
    (type : TachoSource) (toks : List (List ℕ)) (new : ℕ → ℕ)
    → Holds type (read_sources type toks new).0
unfolding read_sources
read_sources_valid type [] new = tt
read_sources_valid type (tok ∷ toks) new =
    let val = atoi tok -ℤ pos (tacho_offset type) in
    let s_id = to_unsigned (2 ^ 16) val in
    choice_valid type s_id new (valid_tacho_source_ref type s_id) (is_single type)
      (read_sources type toks (select new val)) refl (read_sources_valid type toks (select new val))

first_source_valid : (type : TachoSource) → valid_tacho_source_ref type 0 ≡ true
unfolding valid_tacho_source_ref
first_source_valid tacho_fixed = refl
first_source_valid _ = refl

source_change-IsValid :
    {R : Type 0} ⦃a : Arith R⦄ (b : Board) (m : MbInput R) (toks : List (List ℕ))
    → IsValidMbfan b m
    → IsValidMbfan b (source_change b m toks).1
unfolding source_change
source_change-IsValid b m [] w = w
source_change-IsValid b m (tok ∷ toks) w =
    let type = str2tacho_source (some tok) in
    let read = read_sources type toks (λ i. 0) in
    elim (Bool-cases (is_single type)) [
      | inl d ↦ elim (Option-cases read.0) [
        | inl n ↦ rw (source_change, d, n) w
        | inr (s, n) ↦
            let valid = subst (Holds type) n (read_sources_valid type toks (λ i. 0)) in
            rw (source_change, d, n) (w.0, w.1, w.2, valid, w.4, w.5, rw d refl)
      ]
      | inr d ↦ elim (Bool-cases (leb 2 (count_selected read.1 b.fan_count))) [
        | inl k ↦
            rw (source_change, d, k)
              (w.0, w.1, w.2, first_source_valid type, w.4, w.5, rw (d, k) refl)
        | inr k ↦ rw (source_change, d, k) w
      ]
    ]

module _ {R : Type 0} ⦃a : Arith R⦄ ⦃o : IsOrdered R⦄ (e : Env R) (b : Board) (cmd args : List ℕ)
    (query : Bool) (prev : PrevCmds) (st : Session R) (v : IsValid b st.config) where
  pub mbfan_name-IsValid : IsValid b (mbfan_name e b cmd args query prev st).1.config
  unfolding mbfan_name
  mbfan_name-IsValid =
      array_string_setting_keeps e (IsValid b) st args query prev v 0 b.mbfan_count 64
        (λ i. (st.config.mbfans i).name)
        (λ i x. set_mbfan st i (record (st.config.mbfans i) { name = x }))
        (λ i x. set_mbfan-IsValid b st i (record (st.config.mbfans i) { name = x }) v (v.1 i))

  pub mbfan_min_rpm-IsValid : IsValid b (mbfan_min_rpm e b cmd args query prev st).1.config
  unfolding mbfan_min_rpm
  mbfan_min_rpm-IsValid =
      array_unsigned_setting_keeps e (IsValid b) st args query prev v 0 b.mbfan_count
        (λ i. (st.config.mbfans i).min_rpm)
        (λ i x. set_mbfan st i (record (st.config.mbfans i) { min_rpm = x })) 0 50000
        (λ i n least most.
          set_mbfan-IsValid b st i (record (st.config.mbfans i) { min_rpm = n }) v
            (let w = v.1 i in ((most, w.0.1), w.1, w.2, w.3, w.4, w.5, w.6)))

  pub mbfan_max_rpm-IsValid : IsValid b (mbfan_max_rpm e b cmd args query prev st).1.config
  unfolding mbfan_max_rpm
  mbfan_max_rpm-IsValid =
      array_unsigned_setting_keeps e (IsValid b) st args query prev v 0 b.mbfan_count
        (λ i. (st.config.mbfans i).max_rpm)
        (λ i x. set_mbfan st i (record (st.config.mbfans i) { max_rpm = x })) 0 50000
        (λ i n least most.
          set_mbfan-IsValid b st i (record (st.config.mbfans i) { max_rpm = n }) v
            (let w = v.1 i in ((w.0.0, most), w.1, w.2, w.3, w.4, w.5, w.6)))

  pub mbfan_rpm_coef-IsValid : IsValid b (mbfan_rpm_coef e b cmd args query prev st).1.config
  unfolding mbfan_rpm_coef
  mbfan_rpm_coef-IsValid =
      array_float_setting_keeps e (IsValid b) st args query prev v 0 b.mbfan_count
        (λ i. (st.config.mbfans i).rpm_coefficient)
        (λ i x. set_mbfan st i (record (st.config.mbfans i) { rpm_coefficient = x })) (a.of_ℕ 0)
        (a.of_ℕ 1000)
        (λ i x fits.
          set_mbfan-IsValid b st i (record (st.config.mbfans i) { rpm_coefficient = x }) v
            (let w = v.1 i in (w.0, fits, w.2, w.3, w.4, w.5, w.6)))

  pub mbfan_rpm_factor-IsValid : IsValid b (mbfan_rpm_factor e b cmd args query prev st).1.config
  unfolding mbfan_rpm_factor
  mbfan_rpm_factor-IsValid =
      array_unsigned_setting_keeps e (IsValid b) st args query prev v 0 b.mbfan_count
        (λ i. (st.config.mbfans i).rpm_factor)
        (λ i x. set_mbfan st i (record (st.config.mbfans i) { rpm_factor = x })) 1 8
        (λ i n least most.
          set_mbfan-IsValid b st i (record (st.config.mbfans i) { rpm_factor = n }) v
            (let w = v.1 i in (w.0, w.1, (least, most), w.3, w.4, w.5, w.6)))

  pub mbfan_rpm_map-IsValid : Unless (IsValid b) (mbfan_rpm_map e b cmd args query prev st).1
  unfolding mbfan_rpm_map
  mbfan_rpm_map-IsValid =
      map_setting_keeps e (IsValid b) st args query prev v (λ s. to_unsigned (2 ^ 16) (atoi s)) 0
        decimal (pos 0) (λ i. ((st.config.mbfans i).curve.points, (st.config.mbfans i).curve.tacho))
        (λ i n rows s.
          set_mbfan s i
            (record (s.config.mbfans i) { curve = record { points = n; tacho = rows } }))
        b.mbfan_count
        (λ i n rows s fits h.
          set_mbfan-IsValid b s i
            (record (s.config.mbfans i) { curve = record { points = n; tacho = rows } }) h
            (let w = h.1 i in (w.0, w.1, w.2, w.3, w.4, fits, w.6)))

  pub mbfan_filter-IsValid : IsValid b (mbfan_filter e b cmd args query prev st).1.config
  unfolding mbfan_filter
  mbfan_filter-IsValid =
      filter_setting_keeps e (IsValid b) st args query prev v
        (λ i. ((st.config.mbfans i).filter, (st.config.mbfans i).filter_ctx))
        (λ i f c s. set_mbfan s i (record (s.config.mbfans i) { filter = f; filter_ctx = c }))
        b.mbfan_count
        (λ i f c s h.
          set_mbfan-IsValid b s i (record (s.config.mbfans i) { filter = f; filter_ctx = c }) h
            (h.1 i))

  pub mbfan_rpm_mode-IsValid : IsValid b (mbfan_rpm_mode e b cmd args query prev st).1.config
  unfolding mbfan_rpm_mode
  mbfan_rpm_mode-IsValid = elim (Option-cases (prev_place b.mbfan_count prev 0)) [
    | inl p ↦ rw (mbfan_rpm_mode, p) v
    | inr (i, p) ↦ elim (Bool-cases query) [
      | inl q ↦ rw (mbfan_rpm_mode, p, q) v
      | inr q ↦ elim (Option-cases (e.malloc st.mallocs)) [
        | inl m ↦ rw (mbfan_rpm_mode, p, q, m) v
        | inr (c, m) ↦ elim (List-cases (strtok b',' args)) [
          | inl t ↦ rw (mbfan_rpm_mode, p, q, m, t) v
          | inr (tok, toks, t) ↦
              rw (mbfan_rpm_mode, p, q, m, t)
                (let val = str2rpm_mode (some tok) in
                  let f = record (st.config.mbfans i) { rpm_mode = val } in
                  set_mbfan-IsValid b (allocate e st).1 i (mb_lra val toks f) v
                    (mb_lra-IsValid b val toks f (v.1 i)))
        ]
      ]
    ]
  ]

  pub mbfan_source-IsValid : Unless (IsValid b) (mbfan_source e b cmd args query prev st).1
  unfolding mbfan_source
  mbfan_source-IsValid = elim (Option-cases (prev_place b.mbfan_count prev 0)) [
    | inl p ↦ rw (mbfan_source, p) (inr v)
    | inr (i, p) ↦ elim (Bool-cases query) [
      | inl q ↦ rw (mbfan_source, p, q) (inr v)
      | inr q ↦ elim (Option-cases (e.malloc st.mallocs)) [
        | inl m ↦ rw (mbfan_source, p, q, m) (inr v)
        | inr (c, m) ↦
            let toks = strtok b',' args in
            elim (Bool-cases (source_outside toks)) [
              | inl out ↦ rw (mbfan_source, p, q, m, out) (inl refl)
              | inr within ↦
                  rw (mbfan_source, p, q, m, within)
                    (inr (
                      set_mbfan-IsValid b (allocate e st).1 i
                        (source_change b (st.config.mbfans i) toks).1 v
                        (source_change-IsValid b (st.config.mbfans i) toks (v.1 i))))
            ]
      ]
    ]
  ]
