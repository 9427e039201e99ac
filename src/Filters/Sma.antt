-- ===== src/Filters/Sma.antt =====
-- src/filter_sma.c: the simple moving average over a ring of at most 32 samples.
pub mod Ring
use fanpico.Base.{
  ℕ, ◌+◌, ◌%◌, Bool, true, false, ◌||◌, Option, none, some, List, [], ◌∷◌, ltb, update,
  if◌then◌else◌,
}
use fanpico.Base.Int.{ℤ, pos, pos_part, ltb_ℤ}
use fanpico.Base.Text.{strtok, strtol}
use fanpico.Base.Arith.{Arith}

abbrev pub sma_window_max_size : ℕ
sma_window_max_size = 32

pub record SmaContext (R : Type 0) : Type 0 where
  pub values : ℕ → R
  pub sum : R
  pub index : ℕ
  pub used : ℕ
  pub window : ℕ

module _ {R : Type 0} ⦃a : Arith R⦄ where
  abbrev pub fresh : ℕ → SmaContext R
  fresh window = record {
    values = λ i. a.of_ℕ 0;
    sum = a.of_ℕ 0;
    index = 0;
    used = 0;
    window = window;
  }

  unfoldable pub parse_window : List (List ℕ) → Bool → Option (SmaContext R)
  parse_window [] mem = none
  parse_window (tok ∷ _) mem = elim (strtol tok) [
    | none ↦ none
    | some window ↦
        if ltb_ℤ window (pos 2) || ltb_ℤ (pos sma_window_max_size) window
        then none
        else (if mem then some (fresh (pos_part window)) else none)
  ]

  -- `mem` says whether `malloc` succeeds.
  unfoldable pub sma_parse_args : Option (List ℕ) → Bool → Option (SmaContext R)
  unfolding parse_window
  sma_parse_args none mem = none
  sma_parse_args (some args) mem = parse_window (strtok b',' args) mem

  unfoldable pub sma_filter : SmaContext R → R → R × SmaContext R
  sma_filter c input =
      let used = if ltb c.used c.window then c.used + 1 else c.used in
      let left = if ltb c.used c.window then c.sum else a.sub c.sum (c.values c.index) in
      let sum = a.add left input in
      (
        a.single (a.div sum (a.of_ℕ used)),
        record c {
          values = update c.values c.index input;
          sum = sum;
          used = used;
          index = (c.index + 1) % c.window;
        },
      )
