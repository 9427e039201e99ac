-- ===== src/Handlers/Filter.antt =====
-- src/command.c: the four commands for the filter of a fan, an input or a sensor, which differ only
-- in the element, and src/filters.c, `filter_print_args`.
use fanpico.Base.{
  ℕ, ◌==◌, Bool, true, false, Option, none, some, List, [], ◌∷◌, ◌++◌, if◌then◌else◌, update,
}
use fanpico.Base.Int.{ℤ, pos}
use fanpico.Base.Arith.{Arith, of_ℤ}
use fanpico.Base.Text.{decimal}
use fanpico.Types.{FilterType, filter_none}
use fanpico.Filters.{Heap, FilterContext, lossypeak, sma, str2filter, filter2str, filter_parse_args}
use fanpico.Commands.Run.{PrevCmds}
use fanpico.Handlers.{Env, Session, print, print_line, allocate, prev_place}

-- A token up to a delimiter, and the text behind the delimiter; `behind` where there is none.
unfoldable pub token_end : ℕ → List ℕ → List ℕ → List ℕ × List ℕ
token_end d behind [] = ([], behind)
token_end d behind (c ∷ s) =
    let (token, rest) = token_end d behind s in if c == d then ([], s) else (c ∷ token, rest)

-- `strtok_r` once, and the text from the byte behind the token and its terminator on.
unfoldable pub first_token : ℕ → List ℕ → List ℕ → Option (List ℕ × List ℕ)
unfolding token_end
first_token d behind [] = none
first_token d behind (c ∷ s) =
    let next = first_token d behind s in if c == d then next else some (token_end d behind (c ∷ s))

module _ {R : Type 0} ⦃a : Arith R⦄ (e : Env R) where
  -- The text of `print_args_func`, before it is copied.
  unfoldable pub context_text : FilterContext R → List ℕ
  context_text (lossypeak c) =
      e.fmt 6 c.decay ++ (b',' ∷ e.fmt 6 (a.single (a.div (of_ℤ c.delay_us) (a.of_ℕ 1000000))))
  context_text (sma c) = decimal c.window

  unfoldable pub filter_print_args : FilterType → Option ℕ → Session R → Option (List ℕ) × Session R
  unfolding context_text
  filter_print_args filter_none ctx st = (none, st)
  filter_print_args f none st = (none, st)
  filter_print_args f (some p) st =
      let (mem, st') = allocate e st in
      (elim mem [ none ↦ none | some q ↦ some (context_text (st.heap p)) ], st')

  -- Whether a filter and what its arguments made of it are taken over.
  abbrev pub accepts : FilterType → Option (FilterContext R) → Bool
  accepts filter_none c = true
  accepts f none = false
  accepts f (some c) = true

  -- The context at the address that its allocation returns.
  abbrev pub place_context : Option ℕ → Option (FilterContext R) → Heap R → Heap R
  place_context none c heap = heap
  place_context (some p) none heap = heap
  place_context (some p) (some c) heap = update heap p c

  abbrev pub context_at : Option ℕ → Option (FilterContext R) → Option ℕ
  context_at p none = none
  context_at p (some c) = p

  abbrev pub is_address : Option ℕ → Bool
  is_address none = false
  is_address (some p) = true

  -- A context is allocated only for arguments that can be read.
  abbrev pub allocate_for : Option (FilterContext R) → Session R → Option ℕ × Session R
  allocate_for none st = (none, st)
  allocate_for (some c) st = allocate e st

  unfoldable pub filter_setting :
      (ℕ → FilterType × Option ℕ)
      → (ℕ → FilterType → Option ℕ → Session R → Session R)
      → ℕ
      → List ℕ
      → Bool
      → PrevCmds
      → Session R
      → ℤ × Session R
  unfolding first_token filter_print_args
  filter_setting get store count args query prev st = elim (prev_place count prev 0) [
    | none ↦ (pos 1, st)
    | some i ↦
        let (f, ctx) = get i in
        let (text, printed) = filter_print_args f ctx (print st (filter2str f)) in
        let (param, copied) = allocate e st in
        if query
        then elim text [
          | none ↦ (pos 0, print_line printed (b',' ∷ []))
          | some s ↦ (pos 0, print_line printed (b',' ∷ s))
        ]
        else elim param [
          | none ↦ (pos 2, copied)
          | some q ↦ elim (first_token b',' e.behind args) [
            | none ↦ (pos 0, copied)
            | some (token, rest) ↦
                let new_filter = str2filter token in
                let readable = filter_parse_args new_filter (some rest) true e.now in
                let (p, made) = allocate_for readable copied in
                let new_ctx = filter_parse_args new_filter (some rest) (is_address p) e.now in
                if accepts new_filter new_ctx
                then (
                  pos 0,
                  store i new_filter (context_at p new_ctx)
                      (record made { heap = place_context p new_ctx made.heap }),
                )
                else (pos 1, made)
          ]
        ]
  ]
