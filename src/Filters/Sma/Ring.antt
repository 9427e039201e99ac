-- ===== src/Filters/Sma/Ring.antt =====
-- src/filter_sma.c: the ring holds the latest samples, and the output is their mean.
use Prim.Native.Nat.{min}
use native.Mathlib.Nat.{mod-eq_of_lt}
use mathlib.Core.Path.{ap₂}
use fanpico.Base.{
  ℕ, zero, suc, ◌+◌, ◌-◌, ◌%◌, ◌≤◌, ◌<◌, ◌≡◌, refl, sym, ◌≢◌, inl, inr, List, [], ◌∷◌, arith, ltb,
  if◌then◌else◌, length, get_or, take, update, Bool-cases, ltb→lt, update_self, update_ne,
}
use fanpico.Base.Arith.{Arith, IsExact}
use fanpico.Filters.Sma.{SmaContext, sma_filter, fresh}

-- The cell of the k-th latest sample, for the next write at `index`.
unfoldable pub slot : ℕ → ℕ → ℕ → ℕ
slot window index k = if ltb k index then index - 1 - k else index + window - 1 - k

next : ℕ → ℕ → ℕ
next window index = if ltb (index + 1) window then index + 1 else 0

next_lem : (w i : ℕ) → i < w → (i + 1) % w ≡ next w i
unfolding next
next_lem w i h = grind (arith, mod-eq_of_lt {n = i + 1} {m = w})

slot-zero : (w i : ℕ) → i < w → slot w (next w i) 0 ≡ i
unfolding slot next
slot-zero w i h = ground arith

slot-suc : (w i k : ℕ) → i < w → k + 1 < w → slot w (next w i) (suc k) ≡ slot w i k
unfolding slot next
slot-suc w i k h hk = ground arith

slot-ne : (w i k : ℕ) → i < w → k + 1 < w → i ≢ slot w i k
unfolding slot
slot-ne w i k h hk = ground arith

slot_oldest : (w i : ℕ) → i < w → slot w i (w - 1) ≡ i
unfolding slot
slot_oldest w i h = ground arith

module _ {R : Type 0} ⦃a : Arith R⦄ where
  unfoldable pub total : List R → R
  total [] = a.of_ℕ 0
  total (x ∷ xs) = a.add x (total xs)

  -- The context after the samples `hist`, the latest first.
  pub record Represents (c : SmaContext R) (hist : List R) : Type 0 where
    pub window_pos : 0 < c.window
    pub index_in : c.index < c.window
    pub used_eq : c.used ≡ min c.window (length hist)
    pub holds : (k : ℕ) → k < c.used → c.values (slot c.window c.index k) ≡ get_or hist k (a.of_ℕ 0)
    pub sum_eq : c.sum ≡ total (take c.used hist)

  module _ (exact : IsExact R) where
    open exact use {add_comm, add_assoc, sub-add}

    -- The sum of the first n + 1 elements, split at the last.
    total-take-suc :
        (n : ℕ) (xs : List R)
        → n < length xs
        → total (take (suc n) xs) ≡ a.add (total (take n xs)) (get_or xs n (a.of_ℕ 0))
    unfolding total
    total-take-suc n [] h = absurd (omega arith)
    total-take-suc zero (x ∷ xs) h = add_comm x (a.of_ℕ 0)
    total-take-suc (suc n) (x ∷ xs) h =
        rw (total-take-suc n xs (omega arith)) (sym (add_assoc x _ _))

    oldest_out :
        (w : ℕ) (xs : List R)
        → 0 < w
        → w ≤ length xs
        → a.sub (total (take w xs)) (get_or xs (w - 1) (a.of_ℕ 0)) ≡ total (take (w - 1) xs)
    oldest_out zero xs h k = absurd (omega arith)
    oldest_out (suc n) xs h k =
        let e : suc n - 1 ≡ n = omega arith in
        rw (e, total-take-suc n xs (omega arith)) (sub-add _ _)

    add_newest :
        (w : ℕ) (x : R) (xs : List R)
        → 0 < w
        → a.add (total (take (w - 1) xs)) x ≡ total (take w (x ∷ xs))
    unfolding total
    add_newest zero x xs h = absurd (omega arith)
    add_newest (suc n) x xs h = let e : suc n - 1 ≡ n = omega arith in rw e (add_comm _ x)

    next_sum :
        (c : SmaContext R) (x : R) (hist : List R)
        → Represents c hist
        → (sma_filter c x).1.sum ≡ total (take (min c.window (length (x ∷ hist))) (x ∷ hist))
    unfolding sma_filter
    next_sum c x hist r = elim (Bool-cases (ltb c.used c.window)) [
      | inl room ↦
          let lt = ltb→lt c.used c.window room in
          let e : min c.window (suc (length hist)) ≡ suc c.used = omega (arith, r.used_eq) in
          let d : suc c.used - 1 ≡ c.used = omega arith in
          rw (room, r.sum_eq, e) (rw d at (add_newest (suc c.used) x hist (omega arith)))
      | inr full ↦
          let e : c.used ≡ c.window = ground (arith, r.used_eq) in
          let m : min c.window (suc (length hist)) ≡ c.window = omega (arith, r.used_eq) in
          let old : c.values c.index ≡ get_or hist (c.window - 1) (a.of_ℕ 0) =
            rw (slot_oldest c.window c.index r.index_in) at
              (r.holds (c.window - 1) (omega arith)) in
          rw
            (
              full,
              r.sum_eq,
              old,
              m,
              e,
              oldest_out c.window hist r.window_pos (omega (arith, r.used_eq)),
            )
            (add_newest c.window x hist r.window_pos)
    ]

    next_used :
        (c : SmaContext R) (x : R) (hist : List R)
        → Represents c hist
        → (sma_filter c x).1.used ≡ min c.window (length (x ∷ hist))
    unfolding sma_filter
    next_used c x hist r = ground (arith, r.used_eq)

    next_holds :
        (c : SmaContext R) (x : R) (hist : List R) (k : ℕ)
        → Represents c hist
        → k < min c.window (length (x ∷ hist))
        → update c.values c.index x (slot c.window (next c.window c.index) k)
          ≡ get_or (x ∷ hist) k (a.of_ℕ 0)
    next_holds c x hist zero r h =
        rw (slot-zero c.window c.index r.index_in) (update_self c.values c.index x)
    next_holds c x hist (suc k) r h =
        let ne : c.index ≢ slot c.window c.index k =
          slot-ne c.window c.index k r.index_in (omega arith) in
        rw
          (
            slot-suc c.window c.index k r.index_in (omega arith),
            update_ne c.values c.index (slot c.window c.index k) x ne,
          )
          (r.holds k (omega (arith, r.used_eq)))

    -- One sample: the ring holds it with the samples before, and the output is the mean.
    pub sma_filter-Represents :
        (c : SmaContext R) (x : R) (hist : List R)
        → Represents c hist
        → Represents (sma_filter c x).1 (x ∷ hist)
          × ((sma_filter c x).1.window ≡ c.window)
          × ((sma_filter c x).0 ≡ (
              let n = min c.window (length (x ∷ hist)) in
              a.single (a.div (total (take n (x ∷ hist))) (a.of_ℕ n))))
    unfolding sma_filter
    sma_filter-Represents c x hist r = (
      record {
        window_pos = r.window_pos;
        index_in = omega (arith, r.window_pos);
        used_eq = next_used c x hist r;
        holds = λ k h.
            rw (next_lem c.window c.index r.index_in)
              (next_holds c x hist k r (omega (arith, next_used c x hist r)));
        sum_eq = rw (next_used c x hist r) (next_sum c x hist r);
      },
      refl,
      ap₂ (λ s n. a.single (a.div s (a.of_ℕ n))) (next_sum c x hist r) (next_used c x hist r),
    )

-- The outputs for a sequence of samples.
module _ {R : Type 0} ⦃a : Arith R⦄ where
  unfoldable pub sma_run : SmaContext R → List R → List R
  sma_run c [] = []
  sma_run c (x ∷ xs) = let (y, c') = sma_filter c x in y ∷ sma_run c' xs

  -- The moving average of the samples to come, after the samples `hist` (the latest first).
  unfoldable pub moving_average : ℕ → List R → List R → List R
  moving_average w hist [] = []
  moving_average w hist (x ∷ xs) =
      let n = min w (length (x ∷ hist)) in
      a.single (a.div (total (take n (x ∷ hist))) (a.of_ℕ n)) ∷ moving_average w (x ∷ hist) xs

  sma_run-Represents :
      (exact : IsExact R) (c : SmaContext R) (hist xs : List R)
      → Represents c hist
      → sma_run c xs ≡ moving_average c.window hist xs
  unfolding sma_run moving_average
  sma_run-Represents exact c hist [] r = refl
  sma_run-Represents exact c hist (x ∷ xs) r =
      let (r', w, y) = sma_filter-Represents exact c x hist r in
      rw (y, sma_run-Represents exact (sma_filter c x).1 (x ∷ hist) xs r', w) refl

  fresh-Represents : (w : ℕ) → 0 < w → Represents {R = R} (fresh w) []
  unfolding total
  fresh-Represents w h = record {
    window_pos = h;
    index_in = h;
    used_eq = omega arith;
    holds = λ k l. absurd (omega arith);
    sum_eq = refl;
  }

  -- The filter that `sma_parse_args` makes for a window of w samples (w > 0) gives for every
  -- sequence of samples the means of the last w samples seen, of all of them while there are fewer,
  -- if sums and differences are exact.
  pub sma_run-moving_average :
      (exact : IsExact R) (w : ℕ) (xs : List R)
      → 0 < w
      → sma_run (fresh w) xs ≡ moving_average w [] xs
  sma_run-moving_average exact w xs h =
      sma_run-Represents exact (fresh w) [] xs (fresh-Represents w h)
