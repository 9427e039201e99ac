-- ===== src/Handlers/Mbfan.antt =====
-- src/command.c: the handlers of the commands on the configuration of a motherboard input.
use fanpico.Base.{
  ℕ, zero, suc, ◌+◌, ◌^◌, Bool, true, false, Option, none, some, List, [], ◌∷◌, ◌++◌, ◌==◌, ◌&&◌,
  ◌||◌, not, ltb, leb, if◌then◌else◌, update,
}
use fanpico.Base.Int.{ℤ, pos, negsuc, ◌-ℤ◌}
use fanpico.Base.Arith.{Arith}
use fanpico.Base.Text.{atoi, codes, strncasecmp_eq, strtok, decimal}
use fanpico.Types.{
  MbInput, TachoSource, tacho_fixed, tacho_fan, RpmMode, rmode_tacho, rmode_lra, fan_max_count,
}
use fanpico.Types.Board.{Board}
use fanpico.Config.{
  str2tacho_source, tacho_source2str, valid_tacho_source_ref, str2rpm_mode, rpm_mode2str,
}
use fanpico.Settings.{to_unsigned}
use fanpico.Handlers.{Env, Handler, print_line, allocate, set_mbfan, prev_place}
use fanpico.Handlers.Arrays.{array_string_setting, array_unsigned_setting, array_float_setting}
use fanpico.Handlers.Maps.{map_setting}
use fanpico.Handlers.Filter.{filter_setting}
use fanpico.Handlers.Fan.{clamped}

abbrev pub tacho_offset : TachoSource → ℕ
tacho_offset tacho_fixed = 0
tacho_offset _ = 1

-- Whether a source has a single number rather than a set of fans.
abbrev pub is_single : TachoSource → Bool
is_single tacho_fixed = true
is_single tacho_fan = true
is_single _ = false

-- `new_sources[val] = 1` for a place in the array.
abbrev pub select : (ℕ → ℕ) → ℤ → ℕ → ℕ
select sources (pos n) = if ltb n fan_max_count then update sources n 1 else sources
select sources (negsuc n) = sources

-- The loop over the numbers: a single source, the set of fans, and the result.
unfoldable pub read_sources : TachoSource → List (List ℕ) → (ℕ → ℕ) → Option ℕ × (ℕ → ℕ) × ℤ
read_sources type [] new = (none, new, pos 0)
read_sources type (tok ∷ toks) new =
    let val = atoi tok -ℤ pos (tacho_offset type) in
    let s_id = to_unsigned (2 ^ 16) val in
    let rest = read_sources type toks (select new val) in
    if valid_tacho_source_ref type s_id
    then (if is_single type then (some s_id, new, pos 0) else rest)
    else (none, new, pos 2)

-- The test of a number looks at it as a `uint16_t`, but the write to `new_sources` takes it as an
-- `int`: so a number that passes can stand outside of the array.
abbrev pub is_outside : ℤ → Bool
is_outside (pos n) = not (ltb n fan_max_count)
is_outside (negsuc n) = true

-- Whether the loop over the numbers writes outside of `new_sources`.
unfoldable pub writes_outside : TachoSource → List (List ℕ) → Bool
writes_outside type [] = false
writes_outside type (tok ∷ toks) =
    let val = atoi tok -ℤ pos (tacho_offset type) in
    let rest = writes_outside type toks in
    valid_tacho_source_ref type (to_unsigned (2 ^ 16) val)
    && not (is_single type)
    && (is_outside val || rest)

abbrev pub source_outside : List (List ℕ) → Bool
source_outside [] = false
source_outside (tok ∷ toks) = writes_outside (str2tacho_source (some tok)) toks

-- How many of the first so many fans are in a set.
unfoldable pub count_selected : (ℕ → ℕ) → ℕ → ℕ
count_selected sources zero = 0
count_selected sources (suc n) =
    let rest = count_selected sources n in if sources n == 0 then rest else rest + 1

-- The numbers of the fans of a set, from place i on, so many; `first` where none is printed yet.
unfoldable pub selected_text : (ℕ → ℕ) → Bool → ℕ → ℕ → List ℕ
selected_text sources first zero i = []
selected_text sources first (suc left) i =
    let rest = selected_text sources first left (i + 1) in
    let more = selected_text sources false left (i + 1) in
    if sources i == 0 then rest else (if first then [] else b',' ∷ []) ++ decimal (i + 1) ++ more

module _ {R : Type 0} (b : Board) where
  -- The element and the result for the arguments.
  unfoldable pub source_change : MbInput R → List (List ℕ) → ℤ × MbInput R
  unfolding read_sources count_selected
  source_change m [] = (pos 0, m)
  source_change m (tok ∷ toks) =
      let type = str2tacho_source (some tok) in
      let (single, new, res) = read_sources type toks (λ i. 0) in
      if is_single type
      then elim single [
        | none ↦ (res, m)
        | some s_id ↦ (res, record m { s_type = type; s_id = s_id })
      ]
      else (if leb 2 (count_selected new b.fan_count)
          then (res, record m { s_type = type; s_id = 0; sources = new })
          else (pos 2, m))

  unfoldable pub mb_source_text : MbInput R → List ℕ
  unfolding selected_text
  mb_source_text m =
      tacho_source2str m.s_type
      ++ (b','
          ∷ (if is_single m.s_type
              then decimal (m.s_id + tacho_offset m.s_type)
              else selected_text m.sources true b.fan_count 0))

-- The arguments behind the mode: the threshold and the level for "lra".
unfoldable pub mb_lra : {R : Type 0} → RpmMode → List (List ℕ) → MbInput R → MbInput R
mb_lra rmode_tacho toks m = m
mb_lra rmode_lra [] m = m
mb_lra rmode_lra (low ∷ []) m = record m { lra_treshold = clamped low m.lra_treshold }
mb_lra rmode_lra (low ∷ level ∷ toks) m = record m {
  lra_treshold = clamped low m.lra_treshold;
  lra_invert = strncasecmp_eq level (codes "HIGH") 1;
}

abbrev mode_text : {R : Type 0} → MbInput R → List ℕ
mode_text m = elim m.rpm_mode [
  | rmode_tacho ↦ rpm_mode2str m.rpm_mode
  | rmode_lra ↦
      rpm_mode2str m.rpm_mode
      ++ (b',' ∷ decimal m.lra_treshold)
      ++ (b',' ∷ (if m.lra_invert then codes "HIGH" else codes "LOW"))
]

module _ {R : Type 0} ⦃a : Arith R⦄ (e : Env R) (b : Board) where
  unfoldable pub mbfan_name : Handler R
  unfolding array_string_setting
  mbfan_name cmd args query prev st =
      array_string_setting e args query prev 0 b.mbfan_count 64 (λ i. (st.config.mbfans i).name)
        (λ i v. set_mbfan st i (record (st.config.mbfans i) { name = v })) st

  unfoldable pub mbfan_min_rpm : Handler R
  unfolding array_unsigned_setting
  mbfan_min_rpm cmd args query prev st =
      array_unsigned_setting e args query prev 0 b.mbfan_count (λ i. (st.config.mbfans i).min_rpm)
        (λ i v. set_mbfan st i (record (st.config.mbfans i) { min_rpm = v })) 0 50000 st

  unfoldable pub mbfan_max_rpm : Handler R
  unfolding array_unsigned_setting
  mbfan_max_rpm cmd args query prev st =
      array_unsigned_setting e args query prev 0 b.mbfan_count (λ i. (st.config.mbfans i).max_rpm)
        (λ i v. set_mbfan st i (record (st.config.mbfans i) { max_rpm = v })) 0 50000 st

  unfoldable pub mbfan_rpm_coef : Handler R
  unfolding array_float_setting
  mbfan_rpm_coef cmd args query prev st =
      array_float_setting e args query prev 0 b.mbfan_count
        (λ i. (st.config.mbfans i).rpm_coefficient)
        (λ i v. set_mbfan st i (record (st.config.mbfans i) { rpm_coefficient = v })) (a.of_ℕ 0)
        (a.of_ℕ 1000) st

  unfoldable pub mbfan_rpm_factor : Handler R
  unfolding array_unsigned_setting
  mbfan_rpm_factor cmd args query prev st =
      array_unsigned_setting e args query prev 0 b.mbfan_count
        (λ i. (st.config.mbfans i).rpm_factor)
        (λ i v. set_mbfan st i (record (st.config.mbfans i) { rpm_factor = v })) 1 8 st

  unfoldable pub mbfan_rpm_map : Handler R
  unfolding map_setting
  mbfan_rpm_map cmd args query prev st =
      map_setting e (λ s. to_unsigned (2 ^ 16) (atoi s)) 0 decimal (pos 0)
        (λ i. ((st.config.mbfans i).curve.points, (st.config.mbfans i).curve.tacho))
        (λ i n rows s.
          set_mbfan s i
            (record (s.config.mbfans i) { curve = record { points = n; tacho = rows } }))
        b.mbfan_count args query prev st

  unfoldable pub mbfan_rpm_mode : Handler R
  unfolding mb_lra
  mbfan_rpm_mode cmd args query prev st = elim (prev_place b.mbfan_count prev 0) [
    | none ↦ (pos 1, st)
    | some i ↦
        let m = st.config.mbfans i in
        let (param, st') = allocate e st in
        if query then (pos 0, print_line st (mode_text m)) else elim param [
          | none ↦ (pos 2, st')
          | some p ↦ elim (strtok b',' args) [
            | [] ↦ (pos 2, st')
            | tok ∷ toks ↦
                let val = str2rpm_mode (some tok) in
                (pos 0, set_mbfan st' i (mb_lra val toks (record m { rpm_mode = val })))
          ]
        ]
  ]

  unfoldable pub mbfan_source : Handler R
  unfolding source_change mb_source_text writes_outside
  mbfan_source cmd args query prev st = elim (prev_place b.mbfan_count prev 0) [
    | none ↦ (pos 1, st)
    | some i ↦
        let (param, st') = allocate e st in
        let (res, m) = source_change b (st.config.mbfans i) (strtok b',' args) in
        if query
        then (pos 0, print_line st (mb_source_text b (st.config.mbfans i)))
        else elim param [
          | none ↦ (pos 2, st')
          | some p ↦
              if source_outside (strtok b',' args)
              then (pos 0, record st' { broken = true })
              else (res, set_mbfan st' i m)
        ]
  ]

  unfoldable pub mbfan_filter : Handler R
  unfolding filter_setting
  mbfan_filter cmd args query prev st =
      filter_setting e (λ i. ((st.config.mbfans i).filter, (st.config.mbfans i).filter_ctx))
        (λ i f c s. set_mbfan s i (record (s.config.mbfans i) { filter = f; filter_ctx = c }))
        b.mbfan_count args query prev st
