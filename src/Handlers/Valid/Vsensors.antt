-- ===== src/Handlers/Valid/Vsensors.antt =====
-- src/command.c: the handlers of a virtual sensor keep a valid configuration valid.
use fanpico.Base.{
  ℕ, ◌≡◌, refl, Bool, true, false, not, ◌||◌, ◌&&◌, ◌==◌, inl, inr, arith, some, List, [], ◌∷◌,
  length, leb, Bool-cases, Option-cases, List-cases,
}
use fanpico.Base.Int.{pos, negsuc}
use fanpico.Base.Arith.{Arith, IsOrdered}
use fanpico.Base.Text.{strtol, strtok}
use fanpico.Types.{VsensorInput}
use fanpico.Types.Board.{Board}
use fanpico.Commands.Run.{PrevCmds}
use fanpico.Handlers.{Env, Session, prev_place, allocate, set_vsensor}
use fanpico.Handlers.Valid.{IsValid, Unless, IsValidVsensor, set_vsensor-IsValid}
use fanpico.Handlers.Valid.Settings.{
  array_string_setting_keeps, map_setting_keeps, filter_setting_keeps,
}
use fanpico.Base.{get_or, ltb, ltb→lt, zero, suc}
use fanpico.Types.{
  vsensor_max_count, VsensorMode, vsmode_manual, vsmode_onewire, vsmode_i2c, vsmode_max,
  vsensor_source_max_count,
}
use fanpico.Config.{str2vsmode}
use fanpico.Handlers.Maps.{atof}
use fanpico.Handlers.Vsensor.{
  vsensor_name, vsensor_source, vsensor_temp_map, vsensor_filter, vsensor_write, vsource_change,
  set_manual, set_onewire, set_i2c, set_sources, selected, head_of, i2c_type_of, write_place,
  is_reference, copy_sources,
}

-- A source of a virtual sensor: none, or a sensor that there is.
abbrev Source : ℕ → ℕ → Type 0
Source count v = (v == 0) || is_reference count v ≡ true

listed_first :
    (count v : ℕ) (xs : List ℕ)
    → Source count v
    → ((i : ℕ) → Source count (get_or xs i 0))
    → (i : ℕ) → Source count (get_or (v ∷ xs) i 0)
listed_first count v xs h k zero = h
listed_first count v xs h k (suc i) = k i

selected_sources :
    (count left : ℕ) (toks : List (List ℕ)) (i : ℕ)
    → Source count (get_or (selected count left toks) i 0)
unfolding selected
selected_sources count left [] i = refl
selected_sources count zero (tok ∷ toks) i = refl
selected_sources count (suc left) (tok ∷ toks) i = elim (Option-cases (strtol tok)) [
  | inl n ↦ rw (selected, n) (selected_sources count (suc left) toks i)
  | inr (negsuc k, n) ↦ rw (selected, n) (selected_sources count (suc left) toks i)
  | inr (pos v, n) ↦ elim (Bool-cases (is_reference count v)) [
    | inl r ↦
        rw (selected, n, r)
          (listed_first count v (selected count left toks) (rw r (ground arith))
            (selected_sources count left toks) i)
    | inr r ↦ rw (selected, n, r) (selected_sources count (suc left) toks i)
  ]
]

middle : (x y z u : Bool) → ((x && y && z) && u) ≡ true → y ≡ true
middle x y z u h = ground arith

copied_sources :
    (count n : ℕ) (new : List ℕ) (old : ℕ → ℕ)
    → ((i : ℕ) → Source count (get_or new i 0))
    → ((i : ℕ) → Source count (old i))
    → (i : ℕ) → Source count (copy_sources n new old i)
copied_sources count n new old h k i = elim (Bool-cases (ltb i n)) [
  | inl e ↦ rw e (h i)
  | inr e ↦ rw e (k i)
]

module _ {R : Type 0} ⦃a : Arith R⦄ (e : Env R) (b : Board) (w : VsensorInput R) where
  set_manual-IsValid :
      (toks : List (List ℕ)) → IsValidVsensor b w → IsValidVsensor b (set_manual e b w toks).1
  unfolding set_manual
  set_manual-IsValid [] h = h
  set_manual-IsValid (t ∷ []) h = h
  set_manual-IsValid (t ∷ u ∷ toks) h = elim (Option-cases (a.strtof t)) [
    | inl n ↦ rw (set_manual, n) h
    | inr (temp, n) ↦ elim (Option-cases (strtol u)) [
      | inl m ↦ rw (set_manual, n, m) h
      | inr (timeout, m) ↦ rw (set_manual, n, m) h
    ]
  ]

  set_onewire-IsValid :
      (toks : List (List ℕ)) → IsValidVsensor b w → IsValidVsensor b (set_onewire e b w toks).1
  unfolding set_onewire
  set_onewire-IsValid toks h = elim (Bool-cases (ltb 0 (e.libs.strtoull_16 (head_of e b toks)))) [
    | inl n ↦ rw (set_onewire, n) h
    | inr n ↦ rw (set_onewire, n) h
  ]

  set_i2c-IsValid :
      (toks : List (List ℕ)) → IsValidVsensor b w → IsValidVsensor b (set_i2c e b w toks).1
  unfolding set_i2c
  set_i2c-IsValid [] h = h
  set_i2c-IsValid (t ∷ toks) h = elim (Option-cases (e.libs.strtol_16 t)) [
    | inl n ↦ rw (set_i2c, n) h
    | inr (negsuc k, n) ↦ rw (set_i2c, n) h
    | inr (pos val, n) ↦
        elim (Bool-cases (
          (ltb 0 val && ltb val 128 && not (e.libs.i2c_reserved_address val))
          && ltb 0 (i2c_type_of e b toks))) [
            | inl fits ↦
                rw (set_i2c, n, fits)
                  (h.0, ltb→lt val 128 (middle (ltb 0 val) (ltb val 128) _ _ fits), h.2)
            | inr out ↦ rw (set_i2c, n, out) h
          ]
  ]

  set_sources-IsValid :
      (mode : VsensorMode) (toks : List (List ℕ))
      → IsValidVsensor b w
      → IsValidVsensor b (set_sources e b mode w toks).1
  unfolding set_sources
  set_sources-IsValid mode toks h =
      let new = selected b.sensor_count vsensor_source_max_count toks in
      elim (Bool-cases (leb 2 (length new))) [
        | inl n ↦
            let copied =
              copied_sources b.sensor_count b.sensor_count new w.sensors
                (selected_sources b.sensor_count vsensor_source_max_count toks) h.0 in
            rw (set_sources, n) (copied, h.1, h.2)
        | inr n ↦ rw (set_sources, n) h
      ]

  vsource_change-IsValid :
      (mode : VsensorMode) (toks : List (List ℕ))
      → IsValidVsensor b w
      → IsValidVsensor b (vsource_change e b mode w toks).1
  unfolding vsource_change
  vsource_change-IsValid vsmode_manual toks h = set_manual-IsValid toks h
  vsource_change-IsValid vsmode_onewire toks h = set_onewire-IsValid toks h
  vsource_change-IsValid vsmode_i2c toks h = set_i2c-IsValid toks h
  vsource_change-IsValid mode toks h = set_sources-IsValid mode toks h

module _ {R : Type 0} ⦃a : Arith R⦄ ⦃o : IsOrdered R⦄ (e : Env R) (b : Board) (cmd args : List ℕ)
    (query : Bool) (prev : PrevCmds) (st : Session R) (v : IsValid b st.config) where
  pub vsensor_name-IsValid : IsValid b (vsensor_name e b cmd args query prev st).1.config
  unfolding vsensor_name
  vsensor_name-IsValid =
      array_string_setting_keeps e (IsValid b) st args query prev v 0 vsensor_max_count 64
        (λ i. (st.config.vsensors i).name)
        (λ i x. set_vsensor st i (record (st.config.vsensors i) { name = x }))
        (λ i x. set_vsensor-IsValid b st i (record (st.config.vsensors i) { name = x }) v (v.3 i))

  pub vsensor_temp_map-IsValid : Unless (IsValid b) (vsensor_temp_map e b cmd args query prev st).1
  unfolding vsensor_temp_map
  vsensor_temp_map-IsValid =
      map_setting_keeps e (IsValid b) st args query prev v (atof e) (a.of_ℕ 0) (e.fmt 6) (pos 1)
        (λ i. ((st.config.vsensors i).curve.points, (st.config.vsensors i).curve.temp))
        (λ i n rows s.
          set_vsensor s i
            (record (s.config.vsensors i) { curve = record { points = n; temp = rows } }))
        vsensor_max_count
        (λ i n rows s fits h.
          set_vsensor-IsValid b s i
            (record (s.config.vsensors i) { curve = record { points = n; temp = rows } }) h
            (let w = h.3 i in (w.0, w.1, fits)))

  pub vsensor_filter-IsValid : IsValid b (vsensor_filter e b cmd args query prev st).1.config
  unfolding vsensor_filter
  vsensor_filter-IsValid =
      filter_setting_keeps e (IsValid b) st args query prev v
        (λ i. ((st.config.vsensors i).filter, (st.config.vsensors i).filter_ctx))
        (λ i f c s. set_vsensor s i (record (s.config.vsensors i) { filter = f; filter_ctx = c }))
        vsensor_max_count
        (λ i f c s h.
          set_vsensor-IsValid b s i (record (s.config.vsensors i) { filter = f; filter_ctx = c }) h
            (h.3 i))

  pub vsensor_source-IsValid : IsValid b (vsensor_source e b cmd args query prev st).1.config
  unfolding vsensor_source
  vsensor_source-IsValid = elim (Option-cases (prev_place vsensor_max_count prev 0)) [
    | inl p ↦ rw (vsensor_source, p) v
    | inr (i, p) ↦ elim (Bool-cases query) [
      | inl q ↦ rw (vsensor_source, p, q) v
      | inr q ↦ elim (Option-cases (e.malloc st.mallocs)) [
        | inl m ↦ rw (vsensor_source, p, q, m) v
        | inr (c, m) ↦ elim (List-cases (strtok b',' args)) [
          | inl t ↦ rw (vsensor_source, p, q, m, t) v
          | inr (tok, toks, t) ↦
              let mode = str2vsmode (some tok) in
              let w = st.config.vsensors i in
              rw (vsensor_source, p, q, m, t)
                (set_vsensor-IsValid b (allocate e st).1 i (vsource_change e b mode w toks).1 v
                  (vsource_change-IsValid e b w mode toks (v.3 i)))
        ]
      ]
    ]
  ]

  written :
      (i : ℕ) (mode : VsensorMode)
      → query ≡ false
      → write_place e b cmd prev ≡ some i
      → (st.config.vsensors i).mode ≡ mode
      → IsValid b (vsensor_write e b cmd args query prev st).1.config
  unfolding vsensor_write
  written i vsmode_manual q p m = elim (Option-cases (a.strtof args)) [
    | inl n ↦ rw (vsensor_write, q, p, m, n) v
    | inr (x, n) ↦ rw (vsensor_write, q, p, m, n) v
  ]
  written i vsmode_max q p m = rw (vsensor_write, q, p, m) v
  written i _ q p m = rw (vsensor_write, q, p, m) v

  pub vsensor_write-IsValid : IsValid b (vsensor_write e b cmd args query prev st).1.config
  unfolding vsensor_write
  vsensor_write-IsValid = elim (Bool-cases query) [
    | inl q ↦ rw (vsensor_write, q) v
    | inr q ↦ elim (Option-cases (write_place e b cmd prev)) [
      | inl p ↦ rw (vsensor_write, q, p) v
      | inr (i, p) ↦ written i (st.config.vsensors i).mode q p refl
    ]
  ]
