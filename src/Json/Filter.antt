-- ===== src/Json/Filter.antt =====
-- src/config.c, `json2filter` and `filter2json`.
use fanpico.Base.{ℕ, true, Option, none, some, List, [], ◌∷◌}
use fanpico.Base.Text.{codes}
use fanpico.Base.Arith.{Arith}
use fanpico.Types.{FilterType, filter_none}
use fanpico.Filters.{str2filter, filter2str, filter_parse_args}
use fanpico.Handlers.{Env, Session}
use fanpico.Handlers.Filter.{filter_print_args, allocate_for, place_context, is_address}
use fanpico.Json.{Cjson}

module _ {R J : Type 0} ⦃a : Arith R⦄ (c : Cjson R J) (e : Env R) where
  -- The name of a filter; a name that is missing reads as the empty one.
  abbrev filter_named : Option (List ℕ) → FilterType
  filter_named none = str2filter []
  filter_named (some s) = str2filter s

  -- The filter for the arguments: none where no context is made.
  unfoldable pub with_args :
      FilterType → Option (List ℕ) → Session R → (FilterType × Option ℕ) × Session R
  with_args f args st =
      let (p, st') = allocate_for e (filter_parse_args f args true e.now) st in
      let made = filter_parse_args f args (is_address e p) e.now in
      elim made [
        | none ↦ ((filter_none, none), st')
        | some ctx ↦ ((f, p), record st' { heap = place_context e p (some ctx) st'.heap })
      ]

  abbrev pub item_filter : J → FilterType
  item_filter item = filter_named (elim (c.get_item (some item) (codes "name")) [
    | none ↦ none
    | some r ↦ c.get_string (some r)
  ])

  unfoldable pub read_args :
      FilterType → Option ℕ → J → Session R → (FilterType × Option ℕ) × Session R
  unfolding with_args
  read_args filter_none ctx args st = ((filter_none, ctx), st)
  read_args f ctx args st = with_args f (c.get_string (some args)) st

  -- The filter and the address of its context.
  unfoldable pub json2filter :
      J → FilterType × Option ℕ → Session R → (FilterType × Option ℕ) × Session R
  unfolding read_args
  json2filter item (old, ctx) st = elim (c.get_item (some item) (codes "args")) [
    | none ↦ ((item_filter item, ctx), st)
    | some args ↦ read_args (item_filter item) ctx args st
  ]

  unfoldable pub filter2json : FilterType → Option ℕ → Session R → J × Session R
  filter2json f ctx st =
      let (text, st') = filter_print_args e f ctx st in
      let name : List ℕ × J = (codes "name", c.string (filter2str f)) in
      elim text [
        | none ↦ (c.object (name ∷ []), st')
        | some s ↦ (c.object (name ∷ (codes "args", c.string s) ∷ []), st')
      ]
