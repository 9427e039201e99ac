-- ===== src/Filters.antt =====
-- src/filters.c: the table of filters and its dispatch. A context is a cell of a heap, since
-- configurations share it through a `void *`. `now` is the time that `get_absolute_time` returns.
pub mod LossyPeak
pub mod Sma
pub mod Dispatch
mod Tests
use fanpico.Base.{ℕ, Bool, Option, none, some, List, [], ◌∷◌, leb, if◌then◌else◌, update}
use fanpico.Base.Text.{codes, strcasecmp_eq}
use fanpico.Base.Arith.{Arith}
use fanpico.Types.{FilterType, filter_none, filter_lossypeak, filter_sma}
use fanpico.Filters.LossyPeak.{LossypeakContext, lossy_peak_filter, lossy_peak_parse_args}
use fanpico.Filters.Sma.{SmaContext, sma_filter, sma_parse_args}

pub data FilterContext (R : Type 0) : Type 0 where
  lossypeak : LossypeakContext R → FilterContext R
  sma : SmaContext R → FilterContext R

abbrev pub Heap : Type 0 → Type 0
Heap R = ℕ → FilterContext R

-- The rows of `filters[]`, in the order of the enumeration, with their names.
abbrev filters : List (List ℕ × FilterType)
filters =
    (codes "none", filter_none)
    ∷ (codes "lossypeak", filter_lossypeak)
    ∷ (codes "sma", filter_sma)
    ∷ []

find_filter : List ℕ → List (List ℕ × FilterType) → FilterType
find_filter s [] = filter_none
find_filter s ((name, f) ∷ rows) = if strcasecmp_eq s name then f else find_filter s rows

pub str2filter : List ℕ → FilterType
unfolding find_filter
str2filter s = find_filter s filters

pub filter2str : FilterType → List ℕ
filter2str filter_none = codes "none"
filter2str filter_lossypeak = codes "lossypeak"
filter2str filter_sma = codes "sma"

module _ {R : Type 0} ⦃a : Arith R⦄ where
  -- `mem` says whether `malloc` succeeds.
  pub filter_parse_args : FilterType → Option (List ℕ) → Bool → ℕ → Option (FilterContext R)
  filter_parse_args filter_none args mem now = none
  filter_parse_args filter_lossypeak args mem now = elim (lossy_peak_parse_args args mem now) [
    | none ↦ none
    | some c ↦ some (lossypeak c)
  ]
  filter_parse_args filter_sma args mem now = elim (sma_parse_args args mem) [
    | none ↦ none
    | some c ↦ some (sma c)
  ]

  abbrev run_lossypeak : ℕ → R → ℕ → Heap R → FilterContext R → R × Heap R
  run_lossypeak p input now heap (lossypeak c) =
      let (y, c') = lossy_peak_filter c input now in (y, update heap p (lossypeak c'))
  run_lossypeak p input now heap (sma c) = (input, heap)

  abbrev run_sma : ℕ → R → Heap R → FilterContext R → R × Heap R
  run_sma p input heap (sma c) = let (y, c') = sma_filter c input in (y, update heap p (sma c'))
  run_sma p input heap (lossypeak c) = (input, heap)

  -- The argument is a `float`. A context of the other filter is undefined behaviour in C, and the
  -- code never makes one; here it acts as no filter.
  unfoldable pub filter : FilterType → Option ℕ → R → ℕ → Heap R → R × Heap R
  filter filter_none ctx input now heap = (input, heap)
  filter filter_lossypeak none input now heap = (input, heap)
  filter filter_lossypeak (some p) input now heap = run_lossypeak p input now heap (heap p)
  filter filter_sma none input now heap = (input, heap)
  filter filter_sma (some p) input now heap = run_sma p input heap (heap p)

  -- `if (x->filter != FILTER_NONE) { y = filter(..., v); if (y != v) v = y; }`, where `input` is v
  -- as a float.
  unfoldable pub apply_filter : FilterType → Option ℕ → R → R → ℕ → Heap R → R × Heap R
  unfolding filter
  apply_filter filter_none ctx v input now heap = (v, heap)
  apply_filter f ctx v input now heap =
      let (y, heap') = filter f ctx input now heap in ((if a.eq y v then v else y), heap')
