-- ===== src/Handlers/Vsensor.antt =====
-- src/command.c: the handlers of the commands on the configuration of a virtual sensor.
use fanpico.Base.{
  ℕ, zero, suc, ◌+◌, ◌==◌, ◌||◌, ◌&&◌, not, Bool, Option, none, some, List, [], ◌∷◌, ◌++◌, length,
  get_or, ltb, leb, if◌then◌else◌, update,
}
use fanpico.Base.Int.{ℤ, pos, negsuc, pos_part}
use fanpico.Base.Arith.{Arith}
use fanpico.Base.Text.{codes, strncasecmp_eq, strtok, strtol, decimal}
use fanpico.Types.{
  VsensorInput, VsensorMode, vsmode_manual, vsmode_onewire, vsmode_i2c, vsensor_max_count,
  vsensor_source_max_count,
}
use fanpico.Types.Board.{Board}
use fanpico.Config.{str2vsmode, vsmode2str}
use fanpico.Settings.{get_cmd_index}
use fanpico.Commands.Run.{PrevCmds}
use fanpico.Handlers.{
  Env, Session, Handler, print_line, allocate, set_vsensor, prev_place, place, get_prev_cmd,
}
use fanpico.Handlers.Arrays.{array_string_setting}
use fanpico.Handlers.Maps.{map_setting, atof}
use fanpico.Handlers.Filter.{filter_setting}

-- `%d`.
abbrev pub signed : ℤ → List ℕ
signed (pos n) = decimal n
signed (negsuc n) = b'-' ∷ decimal (n + 1)

-- A sensor, or a virtual sensor from 101 on.
abbrev pub is_reference : ℕ → ℕ → Bool
is_reference sensor_count v =
    (leb 1 v && leb v sensor_count) || (leb 101 v && leb v (100 + vsensor_max_count))

-- The references among the tokens, at most so many.
unfoldable pub selected : ℕ → ℕ → List (List ℕ) → List ℕ
selected sensor_count left [] = []
selected sensor_count zero (tok ∷ toks) = []
selected sensor_count (suc left) (tok ∷ toks) =
    let skip = selected sensor_count (suc left) toks in
    let more = selected sensor_count left toks in
    elim (strtol tok) [
      | none ↦ skip
      | some (negsuc n) ↦ skip
      | some (pos v) ↦ if is_reference sensor_count v then v ∷ more else skip
    ]

-- The first `count` sources are copied, 0 where fewer are selected; the others stay.
abbrev pub copy_sources : ℕ → List ℕ → (ℕ → ℕ) → ℕ → ℕ
copy_sources count new old i = if ltb i count then get_or new i 0 else old i

unfoldable pub sources_text : (ℕ → ℕ) → ℕ → ℕ → List ℕ
sources_text sensors zero i = []
sources_text sensors (suc left) i =
    let rest = sources_text sensors left (i + 1) in
    if sensors i == 0 then rest else (b',' ∷ decimal (sensors i)) ++ rest

module _ {R : Type 0} ⦃a : Arith R⦄ (e : Env R) (b : Board) where
  unfoldable pub set_manual : VsensorInput R → List (List ℕ) → ℤ × VsensorInput R
  set_manual v [] = (pos 2, v)
  set_manual v (t ∷ []) = (pos 2, v)
  set_manual v (t ∷ u ∷ toks) = elim (a.strtof t) [
    | none ↦ (pos 2, v)
    | some temp ↦ elim (strtol u) [
      | none ↦ (pos 2, v)
      | some timeout ↦ (
        pos 0,
        record v { mode = vsmode_manual; default_temp = temp; timeout = pos (pos_part timeout) },
      )
    ]
  ]

  abbrev pub head_of : List (List ℕ) → Option (List ℕ)
  head_of [] = none
  head_of (t ∷ ts) = some t

  unfoldable pub set_onewire : VsensorInput R → List (List ℕ) → ℤ × VsensorInput R
  set_onewire v toks =
      let addr = e.libs.strtoull_16 (head_of toks) in
      if ltb 0 addr
      then (pos 0, record v { mode = vsmode_onewire; onewire_addr = addr })
      else (pos 2, v)

  abbrev pub i2c_type_of : List (List ℕ) → ℕ
  i2c_type_of toks = e.libs.get_i2c_sensor_type (head_of toks)

  unfoldable pub set_i2c : VsensorInput R → List (List ℕ) → ℤ × VsensorInput R
  set_i2c v [] = (pos 2, v)
  set_i2c v (t ∷ toks) = elim (e.libs.strtol_16 t) [
    | none ↦ (pos 2, v)
    | some (negsuc n) ↦ (pos 2, v)
    | some (pos val) ↦
        if (ltb 0 val && ltb val 128 && not (e.libs.i2c_reserved_address val))
          && ltb 0 (i2c_type_of toks)
        then (pos 0, record v { mode = vsmode_i2c; i2c_type = i2c_type_of toks; i2c_addr = val })
        else (pos 2, v)
  ]

  unfoldable pub set_sources : VsensorMode → VsensorInput R → List (List ℕ) → ℤ × VsensorInput R
  unfolding selected
  set_sources mode v toks =
      let new = selected b.sensor_count vsensor_source_max_count toks in
      if leb 2 (length new)
      then (pos 0, record v { mode = mode; sensors = copy_sources b.sensor_count new v.sensors })
      else (pos 2, v)

  unfoldable pub vsource_change : VsensorMode → VsensorInput R → List (List ℕ) → ℤ × VsensorInput R
  unfolding set_manual set_onewire set_i2c set_sources
  vsource_change vsmode_manual v toks = set_manual v toks
  vsource_change vsmode_onewire v toks = set_onewire v toks
  vsource_change vsmode_i2c v toks = set_i2c v toks
  vsource_change mode v toks = set_sources mode v toks

  unfoldable pub vsource_text : VsensorInput R → VsensorMode → List ℕ
  unfolding sources_text
  vsource_text v vsmode_manual = (b',' ∷ e.fmt 2 v.default_temp) ++ (b',' ∷ signed v.timeout)
  vsource_text v vsmode_onewire = b',' ∷ e.libs.hex 16 v.onewire_addr
  vsource_text v vsmode_i2c =
      codes ",0x" ++ e.libs.hex 2 v.i2c_addr ++ (b',' ∷ e.libs.i2c_sensor_type_str v.i2c_type)
  vsource_text v mode = sources_text v.sensors vsensor_source_max_count 0

  unfoldable pub vsensor_source : Handler R
  unfolding vsource_change vsource_text
  vsensor_source cmd args query prev st = elim (prev_place vsensor_max_count prev 0) [
    | none ↦ (pos 1, st)
    | some i ↦
        let v = st.config.vsensors i in
        let (param, st') = allocate e st in
        if query
        then (pos 0, print_line st (vsmode2str v.mode ++ vsource_text v v.mode))
        else elim param [
          | none ↦ (pos 1, st')
          | some p ↦ elim (strtok b',' args) [
            | [] ↦ (pos 2, st')
            | tok ∷ toks ↦
                let (res, v') = vsource_change (str2vsmode (some tok)) v toks in
                (res, set_vsensor st' i v')
          ]
        ]
  ]

  unfoldable pub vsensor_name : Handler R
  unfolding array_string_setting
  vsensor_name cmd args query prev st =
      array_string_setting e args query prev 0 vsensor_max_count 64
        (λ i. (st.config.vsensors i).name)
        (λ i v. set_vsensor st i (record (st.config.vsensors i) { name = v })) st

  unfoldable pub vsensor_temp_map : Handler R
  unfolding map_setting
  vsensor_temp_map cmd args query prev st =
      map_setting e (atof e) (a.of_ℕ 0) (e.fmt 6) (pos 1)
        (λ i. ((st.config.vsensors i).curve.points, (st.config.vsensors i).curve.temp))
        (λ i n rows s.
          set_vsensor s i
            (record (s.config.vsensors i) { curve = record { points = n; temp = rows } }))
        vsensor_max_count args query prev st

  unfoldable pub vsensor_filter : Handler R
  unfolding filter_setting
  vsensor_filter cmd args query prev st =
      filter_setting e (λ i. ((st.config.vsensors i).filter, (st.config.vsensors i).filter_ctx))
        (λ i f c s. set_vsensor s i (record (s.config.vsensors i) { filter = f; filter_ctx = c }))
        vsensor_max_count args query prev st

  abbrev pub write_temp : Session R → ℕ → R → Session R
  write_temp st i val = record st {
    config = record st.config {
      vtemp = update st.config.vtemp i val;
      vtemp_updated = update st.config.vtemp_updated i e.now;
    };
  }

  abbrev pub write_place : List ℕ → PrevCmds → Option ℕ
  write_place cmd prev =
      if strncasecmp_eq (get_prev_cmd prev 0) (codes "vsensor") 7
      then prev_place vsensor_max_count prev 0
      else place vsensor_max_count (get_cmd_index (some cmd))

  unfoldable pub vsensor_write : Handler R
  vsensor_write cmd args query prev st =
      if query then (pos 1, st) else elim (write_place cmd prev) [
        | none ↦ (pos 1, st)
        | some i ↦ elim (st.config.vsensors i).mode [
          | vsmode_manual ↦ elim (a.strtof args) [
            | none ↦ (pos 1, st)
            | some val ↦ (pos 0, write_temp st i val)
          ]
          | other ↦ (pos 2, st)
        ]
      ]
