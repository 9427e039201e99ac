-- ===== src/Filters/Tests.antt =====
-- src/filters.c, src/filter_sma.c, src/filter_lossypeak.c: tests, and the theorems at inputs.
use fanpico.Base.{List, ℕ, ◌≡◌, refl, true, none, some, [], ◌∷◌, arith}
use fanpico.Base.Int.{pos}
use fanpico.Base.Text.{codes, strtok, strtol}
use fanpico.Base.Arith.{ℕ_arith, ℕ-IsOrdered, ℕ-IsExact, ◌≼◌}
use fanpico.Types.{filter_sma}
use fanpico.Filters.LossyPeak.{LossypeakContext, lossy_peak_filter}
use fanpico.Filters.LossyPeak.Envelope.{
  outputs, repeated, lossy_peak_filter_envelope, lossy_peak_filter_hold,
}
use fanpico.Filters.Sma.{sma_parse_args, sma_filter, fresh}
use fanpico.Filters.Sma.Ring.{sma_run, moving_average, sma_run-moving_average}
use fanpico.Filters.{Heap, sma, str2filter, filter2str}
use fanpico.Filters.Dispatch.{str2filter-filter2str}

-- The peak 50 was seen at 1 s, with a hold time of 2 s and a decay of 3 points a second.
abbrev held : LossypeakContext ℕ
held = record {
  peak = 50;
  delay_us = pos 2_000_000;
  decay = 3;
  last_t = 1_000_000;
  peak_t = 1_000_000;
  state = 0;
}

decays : (lossy_peak_filter {R = ℕ} held 20 7_000_000).0 ≡ 38
unfolding lossy_peak_filter
decays = refl

window_of_four : sma_parse_args {R = ℕ} (some (codes " 4,x")) true ≡ some (fresh 4)
unfolding sma_parse_args strtok strtol
window_of_four = refl

window_refused : sma_parse_args {R = ℕ} (some (codes "33")) true ≡ none
unfolding sma_parse_args strtok strtol
window_refused = refl

means : sma_run {R = ℕ} (fresh 2) (10 ∷ 20 ∷ 40 ∷ 0 ∷ []) ≡ 10 ∷ 15 ∷ 30 ∷ 20 ∷ []
unfolding sma_run sma_filter
means = refl

lossy_peak_filter_envelope_example :
    (20 ≼ (lossy_peak_filter held 20 7_000_000).0)
    × ((lossy_peak_filter held 20 7_000_000).0 ≡ (lossy_peak_filter held 20 7_000_000).1.peak)
lossy_peak_filter_envelope_example = lossy_peak_filter_envelope ℕ-IsOrdered held 20 7_000_000

abbrev lower_inputs : List (ℕ × ℕ)
lower_inputs = (20, 2_500_000) ∷ (55, 3_900_000) ∷ []

lossy_peak_filter_hold_example :
    outputs {R = ℕ} held ((60, 2_000_000) ∷ lower_inputs) ≡ 60 ∷ repeated {R = ℕ} 60 lower_inputs
lossy_peak_filter_hold_example =
    lossy_peak_filter_hold {R = ℕ} held 60 2_000_000 lower_inputs (ground arith) refl
      ((refl, ground arith), ((refl, ground arith), tt))

sma_run-moving_average_example :
    sma_run {R = ℕ} (fresh 2) (10 ∷ 20 ∷ 40 ∷ []) ≡ moving_average 2 [] (10 ∷ 20 ∷ 40 ∷ [])
sma_run-moving_average_example =
    sma_run-moving_average ℕ-IsExact 2 (10 ∷ 20 ∷ 40 ∷ []) (omega arith)

abbrev cells : Heap ℕ
cells p = sma (fresh 2)

named_filter : str2filter (filter2str filter_sma) ≡ filter_sma
named_filter = str2filter-filter2str filter_sma
