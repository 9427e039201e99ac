-- ===== src/Json/Fleet.antt =====
-- src/config.c: the fans of a configuration, written as JSON and read.
use fanpico.Base.{
  true, ℕ, zero, suc, ◌+◌, ◌^◌, ◌≤◌, ◌<◌, ◌≡◌, ◌≢◌, refl, sym, ap, ◌∙◌, inl, inr, ◌==◌, arith,
  Option, none, some, List, [], ◌∷◌, update_self, update_ne, Bool-cases, Option-cases,
}
use mathlib.Core.Path.{subst}
use fanpico.Base.Int.{pos}
use fanpico.Base.Arith.{Arith, IsOrdered, IsScaling}
use fanpico.Base.Text.{codes, strcasecmp_eq, to_lower}
use fanpico.Types.{FanOutput, FilterType, filter_none, filter_lossypeak, filter_sma}
use fanpico.Types.Board.{Board}
use fanpico.Filters.{FilterContext, filter_parse_args}
use fanpico.Handlers.{Env, Session, set_fan}
use fanpico.Handlers.Filter.{filter_print_args, is_address, allocate_for}
use fanpico.Json.{Cjson, IsCjson, find_item, to_int}
use fanpico.Json.Filter.{json2filter, filter2json, with_args, read_args, item_filter}
use fanpico.Json.Fans.{
  read_fan_item, fan_fields, fan_to_json, json_to_fan, id_place, read_items, write_items,
  read_mbfan_item, json_to_mbfan, json_to_fans, fans_to_json,
}
use fanpico.Json.Round.{to_int-of_ℕ}
use fanpico.Json.Saved.{IsStorable, SameFan, read_fan_item-fan_fields}

placed : (count n : ℕ) → n < count → id_place count (pos n) ≡ some n
placed count n h = ground arith

-- The filter is not looked at.
SameFan-filter :
    {R : Type 0} (f g : FanOutput R) (type : FilterType) (ctx : Option ℕ)
    → SameFan R f g
    → SameFan R (record f { filter = type; filter_ctx = ctx }) g
SameFan-filter f g type ctx s = record {
  name = s.name;
  min_pwm = s.min_pwm;
  max_pwm = s.max_pwm;
  s_type = s.s_type;
  s_id = s.s_id;
  rpm_mode = s.rpm_mode;
  rpm_factor = s.rpm_factor;
  lra_low = s.lra_low;
  lra_high = s.lra_high;
  pwm_coefficient = s.pwm_coefficient;
  tacho_hyst = s.tacho_hyst;
  pwm_hyst = s.pwm_hyst;
  points = s.points;
  rows = s.rows;
}

module _ {R J : Type 0} ⦃a : Arith R⦄ (c : Cjson R J) (e : Env R) where
  allocate_for_config :
      (o : Option (FilterContext R)) (st : Session R) → (allocate_for e o st).1.config ≡ st.config
  allocate_for_config none st = refl
  allocate_for_config (some ctx) st = refl

  made_config :
      (f : FilterType) (args : Option (List ℕ)) (st : Session R) (o : Option (FilterContext R))
      → filter_parse_args f args
          (is_address e (allocate_for e (filter_parse_args f args true e.now) st).0)
          e.now
        ≡ o
      → (with_args c e f args st).1.config ≡ st.config
  unfolding with_args
  made_config f args st none n =
      rw (with_args, n) (allocate_for_config (filter_parse_args f args true e.now) st)
  made_config f args st (some ctx) n =
      rw (with_args, n) (allocate_for_config (filter_parse_args f args true e.now) st)

  read_args_config :
      (f : FilterType) (ctx : Option ℕ) (args : J) (st : Session R)
      → (read_args c e f ctx args st).1.config ≡ st.config
  unfolding read_args
  read_args_config filter_none ctx args st = refl
  read_args_config filter_lossypeak ctx args st =
      made_config filter_lossypeak (c.get_string (some args)) st _ refl
  read_args_config filter_sma ctx args st =
      made_config filter_sma (c.get_string (some args)) st _ refl

  -- Reading a filter changes no setting.
  json2filter_config :
      (item : J) (f : FilterType) (ctx : Option ℕ) (st : Session R)
      → (json2filter c e item (f, ctx) st).1.config ≡ st.config
  unfolding json2filter
  json2filter_config item f ctx st = elim (Option-cases (c.get_item (some item) (codes "args"))) [
    | inl n ↦ rw (json2filter, n) refl
    | inr (args, n) ↦ rw (json2filter, n) (read_args_config (item_filter c e item) ctx args st)
  ]

  print_args_config :
      (f : FilterType) (ctx : Option ℕ) (st : Session R)
      → (filter_print_args e f ctx st).1.config ≡ st.config
  unfolding filter_print_args
  print_args_config filter_none ctx st = refl
  print_args_config _ none st = refl
  print_args_config _ (some p) st = refl

  -- Writing a filter changes no setting.
  filter2json_config :
      (f : FilterType) (ctx : Option ℕ) (st : Session R)
      → (filter2json c e f ctx st).1.config ≡ st.config
  unfolding filter2json
  filter2json_config f ctx st = elim (Option-cases (filter_print_args e f ctx st).0) [
    | inl n ↦ rw (filter2json, n) (print_args_config f ctx st)
    | inr (s, n) ↦ rw (filter2json, n) (print_args_config f ctx st)
  ]

module _ {R J : Type 0} ⦃a : Arith R⦄ ⦃o : IsOrdered R⦄ ⦃w : IsScaling R⦄ (c : Cjson R J)
    (law : IsCjson R J c) (e : Env R) (b : Board) where
  -- What reading the item of fan i leaves: that fan as it was written, the others as they are.
  abbrev Restored : (st st' : Session R) → ℕ → Session R → Type 0
  Restored st st' i r =
      SameFan R (r.config.fans i) (st.config.fans i)
      × ((j : ℕ) → j ≢ i → r.config.fans j ≡ st'.config.fans j)

  set_back :
      (s st st' : Session R) (i : ℕ) (f : FanOutput R)
      → s.config ≡ st'.config
      → SameFan R f (st.config.fans i)
      → Restored st st' i (set_fan s i f)
  set_back s st st' i f same h = (
    subst (λ x. SameFan R x (st.config.fans i)) (sym (update_self s.config.fans i f)) h,
    λ j ne. update_ne s.config.fans i j f (λ q. ne (sym q)) ∙ ap (λ k. k.fans j) same,
  )

  json_to_fan_at :
      (item filter : J) (st : Session R) (i : ℕ)
      → id_place b.fan_count (to_int (c.get_number (c.get_item (some item) (codes "id")))) ≡ some i
      → c.get_item (some item) (codes "filter") ≡ some filter
      → (g : FanOutput R) → g ≡ read_fan_item c e b item (st.config.fans i)
      → (r : (FilterType × Option ℕ) × Session R)
      → r ≡ json2filter c e filter (g.filter, g.filter_ctx) st
      → json_to_fan c e b item st ≡ set_fan r.1 i (record g { filter = r.0.0; filter_ctx = r.0.1 })
  unfolding json_to_fan
  json_to_fan_at item filter st i p q g eg r er = rw (json_to_fan, p, q, er, eg) refl

  id_back :
      (i : ℕ) (fields : List (List ℕ × J))
      → i < b.fan_count
      → b.fan_count < 2 ^ 32
      → find_item fields (codes "id") ≡ some (c.number (a.of_ℕ i))
      → id_place b.fan_count
          (to_int (c.get_number (c.get_item (some (c.object fields)) (codes "id"))))
        ≡ some i
  id_back i fields h k p =
      rw
        (
          law.get_item-object fields (codes "id"),
          p,
          law.get_number-number (a.of_ℕ i),
          to_int-of_ℕ R i (ground arith),
        )
        (placed b.fan_count i h)

  -- Reading what was written for fan i restores that fan, and leaves the other fans as they are.
  read_back :
      (st st' : Session R) (i : ℕ) (filter : J)
      → i < b.fan_count
      → b.fan_count < 2 ^ 32
      → IsStorable R (st.config.fans i)
      → Restored st st' i
          (json_to_fan c e b (c.object (fan_fields c e b i (st.config.fans i) filter)) st')
  unfolding strcasecmp_eq to_lower
  read_back st st' i filter h k v =
      let f = st.config.fans i in
      let fields = fan_fields c e b i f filter in
      let g = read_fan_item c e b (c.object fields) (st'.config.fans i) in
      let r = json2filter c e filter (g.filter, g.filter_ctx) st' in
      let read =
        json_to_fan_at (c.object fields) filter st' i (id_back i fields h k refl)
          (law.get_item-object fields (codes "filter")) g refl r refl in
      let same = read_fan_item-fan_fields c law e b i f (st'.config.fans i) filter v in
      let back =
        set_back r.1 st st' i (record g { filter = r.0.0; filter_ctx = r.0.1 })
          (json2filter_config c e filter g.filter g.filter_ctx st')
          (SameFan-filter g f r.0.0 r.0.1 same) in
      subst (Restored st st' i) (sym read) back

  fan_item :
      (i : ℕ) (st : Session R)
      → (fan_to_json c e b i st).0
        ≡ c.object (
            fan_fields c e b i
              (st.config.fans i)
              (filter2json c e (st.config.fans i).filter (st.config.fans i).filter_ctx st).0)
  unfolding fan_to_json
  fan_item i st = refl

  fan_to_json_config : (i : ℕ) (st : Session R) → (fan_to_json c e b i st).1.config ≡ st.config
  unfolding fan_to_json
  fan_to_json_config i st =
      filter2json_config c e (st.config.fans i).filter (st.config.fans i).filter_ctx st

  item_back :
      (st st' : Session R) (i : ℕ)
      → i < b.fan_count
      → b.fan_count < 2 ^ 32
      → IsStorable R (st.config.fans i)
      → Restored st st' i (json_to_fan c e b (fan_to_json c e b i st).0 st')
  item_back st st' i h k v =
      subst (λ item. Restored st st' i (json_to_fan c e b item st')) (sym (fan_item i st))
        (read_back st st' i
          (filter2json c e (st.config.fans i).filter (st.config.fans i).filter_ctx st).0 h k v)

  none_between : (i j : ℕ) → i ≤ j → j < i + 0 → ⊥
  none_between i j h l = ground arith

  -- The first fan and those behind it.
  join_back :
      (st st1 st' st2 r : Session R) (i left : ℕ)
      → st1.config ≡ st.config
      → Restored st st' i st2
      → ((j : ℕ) → i + 1 ≤ j → j < i + 1 + left → SameFan R (r.config.fans j) (st1.config.fans j))
      → ((j : ℕ) → j < i + 1 → r.config.fans j ≡ st2.config.fans j)
      → ((j : ℕ) → i ≤ j → j < i + suc left → SameFan R (r.config.fans j) (st.config.fans j))
        × ((j : ℕ) → j < i → r.config.fans j ≡ st'.config.fans j)
  join_back st st1 st' st2 r i left same first after before = (
    λ j h l. elim (Bool-cases (i == j)) [
      | inl q ↦
          let here : i ≡ j = ground arith in
          subst (λ k. SameFan R (r.config.fans k) (st.config.fans k)) here
            (subst (λ f. SameFan R f (st.config.fans i)) (sym (before i (ground arith))) first.0)
      | inr q ↦
          subst (λ g. SameFan R (r.config.fans j) (g.fans j)) same
            (after j (ground arith) (ground arith))
    ],
    λ j h. before j (ground arith) ∙ first.1 j (ground arith),
  )

  -- On a board with fewer than 2 ^ 32 fans, each of whose settings fits its field: writing all
  -- fans from number i on and reading the items in any session restores each of these fans but
  -- for its filter, and leaves the fans before them as they are.
  read_items-write_items :
      (left i : ℕ) (st st' : Session R)
      → i + left ≤ b.fan_count
      → b.fan_count < 2 ^ 32
      → ((j : ℕ) → IsStorable R (st.config.fans j))
      → let r =
          read_items c e b
            (json_to_fan c e b)
            (write_items c e b (fan_to_json c e b) left i st).0
            st' in
        ((j : ℕ) → i ≤ j → j < i + left → SameFan R (r.config.fans j) (st.config.fans j))
        × ((j : ℕ) → j < i → r.config.fans j ≡ st'.config.fans j)
  unfolding read_items write_items
  read_items-write_items zero i st st' fits k v =
      (λ j h l. absurd (none_between i j h l), λ j h. refl)
  read_items-write_items (suc left) i st st' fits k v =
      let st1 = (fan_to_json c e b i st).1 in
      let st2 = json_to_fan c e b (fan_to_json c e b i st).0 st' in
      let same = fan_to_json_config i st in
      let rest =
        read_items-write_items left (i + 1) st1 st2 (ground arith) k
          (λ j. subst (λ g. IsStorable R (g.fans j)) (sym same) (v j)) in
      let r =
        read_items c e b (json_to_fan c e b)
          (write_items c e b (fan_to_json c e b) left (i + 1) st1).0 st2 in
      join_back st st1 st' st2 r i left same (item_back st st' i (ground arith) k (v i)) rest.0
        rest.1

  json_to_mbfan_fans :
      (item : J) (st : Session R) → (json_to_mbfan c e b item st).config.fans ≡ st.config.fans
  unfolding json_to_mbfan
  json_to_mbfan_fans item st =
      elim (Option-cases
        (id_place b.mbfan_count (to_int (c.get_number (c.get_item (some item) (codes "id")))))) [
          | inl n ↦ rw (json_to_mbfan, n) refl
          | inr (i, n) ↦ elim (Option-cases (c.get_item (some item) (codes "filter"))) [
            | inl q ↦ rw (json_to_mbfan, n, q) refl
            | inr (r, q) ↦
                let m = read_mbfan_item c e b item (st.config.mbfans i) in
                rw (json_to_mbfan, n, q)
                  (ap (λ k. k.fans) (json2filter_config c e r m.filter m.filter_ctx st))
          ]
        ]

  mbfan_items_fans :
      (items : List J) (st : Session R)
      → (read_items c e b (json_to_mbfan c e b) items st).config.fans ≡ st.config.fans
  unfolding read_items
  mbfan_items_fans [] st = refl
  mbfan_items_fans (item ∷ items) st =
      mbfan_items_fans items (json_to_mbfan c e b item st) ∙ json_to_mbfan_fans item st

  -- On a board with fewer than 2 ^ 32 fans, for a configuration each of whose fans fits its
  -- fields: reading the fans that were written, and then any motherboard inputs, in any session
  -- restores every fan of the board but for its filter.
  pub json_to_fans-fans_to_json :
      (st st' : Session R) (mbfans : Option J)
      → b.fan_count < 2 ^ 32
      → ((j : ℕ) → IsStorable R (st.config.fans j))
      → (j : ℕ) → j < b.fan_count
      → SameFan R
          ((json_to_fans c e b (some (fans_to_json c e b st).0) mbfans st').config.fans j)
          (st.config.fans j)
  unfolding json_to_fans fans_to_json
  json_to_fans-fans_to_json st st' mbfans k v j h =
      let items = (write_items c e b (fan_to_json c e b) b.fan_count 0 st).0 in
      let read = read_items c e b (json_to_fan c e b) in
      let back = read_items-write_items b.fan_count 0 st st' (ground arith) k v in
      let fan_same = ap (λ xs. read xs st') (law.elements-array items) in
      subst (λ f. SameFan R (f j) (st.config.fans j))
        (sym (
          mbfan_items_fans (c.elements mbfans) (read (c.elements (some (c.array items))) st')
          ∙ ap (λ s. s.config.fans) fan_same))
        (back.0 j (ground arith) (ground arith))
