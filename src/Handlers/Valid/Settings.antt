-- ===== src/Handlers/Valid/Settings.antt =====
-- src/command_util.c and src/command.c: a property of the configuration that each accepted value
-- keeps is kept by what the handlers share.
use fanpico.Base.{
  ℕ, ◌*◌, leb, ◌/◌, ◌%◌, ◌^◌, ◌≤◌, ◌≡◌, refl, Bool, true, false, ◌||◌, ◌&&◌, inl, inr, arith,
  Option, none, some, List, length, if◌then◌else◌, Bool-cases, Option-cases, &&-left, &&-right,
}
use fanpico.Base.Int.{ℤ, pos, negsuc, pos_part, ltb_ℤ}
use fanpico.Base.Arith.{Arith, IsOrdered, ◌≼◌}
use fanpico.Base.Text.{strtol, strtok, str_eq}
use fanpico.Types.{FanpicoConfig, FilterType, filter_none, max_map_points}
use fanpico.Commands.Run.{PrevCmds}
use fanpico.Handlers.{Env, Session, prev_place, allocate, print}
use fanpico.Handlers.Arrays.{
  array_string_setting, array_unsigned_setting, array_float_setting, float_setting, strncopy_text,
}
use fanpico.Handlers.Maps.{map_setting, map_values, makes_map, rows_of}
use fanpico.Handlers.Filter.{filter_setting, allocate_for, filter_print_args, first_token}
use fanpico.Filters.{filter2str, str2filter, filter_parse_args, FilterContext}
use fanpico.Handlers.Valid.{Between, Unless}

or_left : (c d : Bool) → (c || d) ≡ false → c ≡ false
or_left true d h = h
or_left false d h = refl

or_right : (c d : Bool) → (c || d) ≡ false → d ≡ false
or_right true d h = ground arith
or_right false d h = h

few_rows : (n : ℕ) → leb n (2 * max_map_points) ≡ true → n / 2 % 2 ^ 8 ≤ max_map_points
few_rows n h = grind arith

fits_range :
    (v : ℤ) (low high : ℕ)
    → (ltb_ℤ v (pos low) || ltb_ℤ (pos high) v) ≡ false
    → (low ≤ pos_part v) × (pos_part v ≤ high)
fits_range (pos n) low high h = (ground arith, ground arith)
fits_range (negsuc n) low high h = (ground arith, ground arith)

module _ {R : Type 0} ⦃a : Arith R⦄ (e : Env R) (Q : FanpicoConfig R → Type 0) (st : Session R)
    (args : List ℕ) (query : Bool) (prev : PrevCmds) (valid : Q st.config) where
  pub array_string_setting_keeps :
      (offset count size : ℕ) (get : ℕ → List ℕ) (put : ℕ → List ℕ → Session R)
      → ((i : ℕ) (s : List ℕ) → Q (put i s).config)
      → Q (array_string_setting e args query prev offset count size get put st).1.config
  unfolding array_string_setting
  array_string_setting_keeps offset count size get put h =
      elim (Option-cases (prev_place count prev offset)) [
        | inl p ↦ rw (array_string_setting, p) valid
        | inr (i, p) ↦ elim (Bool-cases query) [
          | inl q ↦ rw (array_string_setting, p, q) valid
          | inr q ↦ elim (Bool-cases (str_eq (get i) args)) [
            | inl s ↦ rw (array_string_setting, p, q, s) valid
            | inr s ↦ rw (array_string_setting, p, q, s) (h i (strncopy_text args size))
          ]
        ]
      ]

  pub array_unsigned_setting_keeps :
      (offset count : ℕ) (get : ℕ → ℕ) (put : ℕ → ℕ → Session R) (low high : ℕ)
      → ((i v : ℕ) → low ≤ v → v ≤ high → Q (put i v).config)
      → Q (array_unsigned_setting e args query prev offset count get put low high st).1.config
  unfolding array_unsigned_setting
  array_unsigned_setting_keeps offset count get put low high h =
      elim (Option-cases (prev_place count prev offset)) [
        | inl p ↦ rw (array_unsigned_setting, p) valid
        | inr (i, p) ↦ elim (Bool-cases query) [
          | inl q ↦ rw (array_unsigned_setting, p, q) valid
          | inr q ↦ elim (Option-cases (strtol args)) [
            | inl n ↦ rw (array_unsigned_setting, p, q, n) valid
            | inr (v, n) ↦ elim (Bool-cases (ltb_ℤ v (pos low) || ltb_ℤ (pos high) v)) [
              | inl out ↦ rw (array_unsigned_setting, p, q, n, out) valid
              | inr fits ↦
                  let (least, most) = fits_range v low high fits in
                  rw (array_unsigned_setting, p, q, n, fits) (h i (pos_part v) least most)
            ]
          ]
        ]
      ]

  pub map_setting_keeps :
      {A : Type 0} (value : List ℕ → A) (d : A) (show : A → List ℕ) (missing : ℤ)
      (get : ℕ → ℕ × (ℕ → A × A)) (store : ℕ → ℕ → (ℕ → A × A) → Session R → Session R) (count : ℕ)
      → ((i n : ℕ) (rows : ℕ → A × A) (s : Session R)
          → n ≤ max_map_points
          → Q s.config
          → Q (store i n rows s).config)
      → Unless Q (map_setting e value d show missing get store count args query prev st).1
  unfolding map_setting
  map_setting_keeps value d show missing get store count h =
      let values = map_values value (strtok b',' args) in
      elim (Option-cases (prev_place count prev 0)) [
        | inl p ↦ rw (map_setting, p) (inr valid)
        | inr (i, p) ↦ elim (Bool-cases query) [
          | inl q ↦ rw (map_setting, p, q) (inr valid)
          | inr q ↦ elim (Option-cases (e.malloc st.mallocs)) [
            | inl m ↦ rw (map_setting, p, q, m) (inr valid)
            | inr (c, m) ↦ elim (Bool-cases (leb (length values) (2 * max_map_points))) [
              | inl l ↦ elim (Bool-cases (makes_map (length values))) [
                | inl k ↦
                    rw (map_setting, p, q, m, l, k)
                      (inr (
                        h i (length values / 2 % 2 ^ 8) (rows_of values d) (allocate e st).1
                          (few_rows (length values) l) valid))
                | inr k ↦ rw (map_setting, p, q, m, l, k) (inr valid)
              ]
              | inr l ↦ rw (map_setting, p, q, m, l) (inl refl)
            ]
          ]
        ]
      ]

  allocate_for_keeps :
      (o : Option (FilterContext R)) (s : Session R) → Q s.config → Q (allocate_for e o s).1.config
  allocate_for_keeps none s h = h
  allocate_for_keeps (some c) s h = h

  if_keeps :
      (c : Bool) (x y : ℤ × Session R)
      → Q x.1.config
      → Q y.1.config
      → Q (if c then x else y).1.config
  if_keeps true x y p q = p
  if_keeps false x y p q = q

  filter_print_args_keeps :
      (f : FilterType) (ctx : Option ℕ) (s : List ℕ)
      → Q (filter_print_args e f ctx (print st s)).1.config
  unfolding filter_print_args
  filter_print_args_keeps filter_none ctx s = valid
  filter_print_args_keeps _ none s = valid
  filter_print_args_keeps _ (some p) s = valid

  pub filter_setting_keeps :
      (get : ℕ → FilterType × Option ℕ) (store : ℕ → FilterType → Option ℕ → Session R → Session R)
      (count : ℕ)
      → ((i : ℕ) (f : FilterType) (c : Option ℕ) (s : Session R)
          → Q s.config
          → Q (store i f c s).config)
      → Q (filter_setting e get store count args query prev st).1.config
  unfolding filter_setting
  filter_setting_keeps get store count h = elim (Option-cases (prev_place count prev 0)) [
    | inl p ↦ rw (filter_setting, p) valid
    | inr (i, p) ↦
        let printed = filter_print_args_keeps (get i).0 (get i).1 (filter2str (get i).0) in
        elim (Bool-cases query) [
          | inl q ↦
              elim (Option-cases
                (filter_print_args e (get i).0 (get i).1 (print st (filter2str (get i).0))).0) [
                  | inl t ↦ rw (filter_setting, p, q, t) printed
                  | inr (t, w) ↦ rw (filter_setting, p, q, w) printed
                ]
          | inr q ↦ elim (Option-cases (e.malloc st.mallocs)) [
            | inl m ↦ rw (filter_setting, p, q, m) valid
            | inr (c, m) ↦ elim (Option-cases (first_token b',' e.behind args)) [
              | inl t ↦ rw (filter_setting, p, q, m, t) valid
              | inr (w, t) ↦
                  rw (filter_setting, p, q, m, t)
                    (let made =
                        allocate_for_keeps
                          (filter_parse_args (str2filter w.0) (some w.1) true e.now)
                          (allocate e st).1 valid in
                      if_keeps _ _ _ (h i _ _ _ made) made)
            ]
          ]
        ]
  ]

  module _ ⦃o : IsOrdered R⦄ where
    not_less : (x y : R) → a.lt y x ≡ false → x ≼ y
    not_less x y h = ground (arith, o.lt-eq-not-le y x)

    pub array_float_setting_keeps :
        (offset count : ℕ) (get : ℕ → R) (put : ℕ → R → Session R) (low high : R)
        → ((i : ℕ) (v : R) → Between low high v → Q (put i v).config)
        → Q (array_float_setting e args query prev offset count get put low high st).1.config
    unfolding array_float_setting
    array_float_setting_keeps offset count get put low high h =
        elim (Option-cases (prev_place count prev offset)) [
          | inl p ↦ rw (array_float_setting, p) valid
          | inr (i, p) ↦ elim (Bool-cases query) [
            | inl q ↦ rw (array_float_setting, p, q) valid
            | inr q ↦ elim (Option-cases (a.strtof args)) [
              | inl n ↦ rw (array_float_setting, p, q, n) valid
              | inr (v, n) ↦ elim (Bool-cases (a.lt v low || a.lt high v)) [
                | inl out ↦ rw (array_float_setting, p, q, n, out) valid
                | inr fits ↦
                    rw (array_float_setting, p, q, n, fits)
                      (h i v (
                        not_less low v (or_left (a.lt v low) _ fits),
                        not_less v high (or_right (a.lt v low) _ fits),
                      ))
              ]
            ]
          ]
        ]

    pub float_setting_keeps :
        (var : R) (put : R → Session R) (low high : R)
        → ((v : R) → Between low high v → Q (put v).config)
        → Q (float_setting e args query var put low high st).1.config
    unfolding float_setting
    float_setting_keeps var put low high h = elim (Bool-cases query) [
      | inl q ↦ rw (float_setting, q) valid
      | inr q ↦ elim (Option-cases (a.strtof args)) [
        | inl n ↦ rw (float_setting, q, n) valid
        | inr (v, n) ↦ elim (Bool-cases (a.le low v && a.le v high)) [
          | inl fits ↦
              rw (float_setting, q, n, fits)
                (h v (&&-left (a.le low v) _ fits, &&-right (a.le low v) _ fits))
          | inr out ↦ rw (float_setting, q, n, out) valid
        ]
      ]
    ]
