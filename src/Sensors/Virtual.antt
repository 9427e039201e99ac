-- ===== src/Sensors/Virtual.antt =====
-- src/sensors.c: what a virtual sensor computes in each of its modes.
use fanpico.Base.{
  ℕ, zero, suc, ◌+◌, ◌<◌, ◌≡◌, ◌≢◌, refl, true, false, ◌⊎◌, inl, inr, arith, List, [], ◌∷◌,
  Bool-cases, All, sym, ◌==◌, if◌then◌else◌,
}
use mathlib.Core.Path.{subst}
use fanpico.Base.Arith.{Arith, ◌≼◌, IsOrdered}
use fanpico.Types.{FanpicoState, VsensorInput, VsensorMode, vsmode_max, vsmode_min}
use fanpico.Sensors.{combine, combine_from, combined, source_temp}

module _ {R : Type 0} ⦃a : Arith R⦄ where
  -- The temperatures of the sources from j on, up to the first unused entry.
  unfoldable pub source_temps : FanpicoState R → (ℕ → ℕ) → ℕ → ℕ → List R
  source_temps st sources zero j = []
  source_temps st sources (suc rounds) j =
      let rest = source_temp st (sources j) ∷ source_temps st sources rounds (j + 1) in
      if sources j == 0 then [] else rest

  -- The greatest element, the least one, the sum and the first difference of a list of values.
  unfoldable pub greatest : R → List R → R
  greatest t [] = t
  greatest t (x ∷ xs) = greatest (if a.lt t x then x else t) xs

  unfoldable pub least : R → List R → R
  least t [] = t
  least t (x ∷ xs) = least (if a.lt x t then x else t) xs

  -- The loop over the sources after the first, as a function of their temperatures.
  greatest_from :
      (st : FanpicoState R) (sources : ℕ → ℕ) (rounds j count : ℕ) (t : R)
      → 0 < count
      → (combine_from vsmode_max st sources rounds j count t).1
        ≡ greatest t (source_temps st sources rounds j)
  unfolding combine_from combine source_temps greatest
  greatest_from st sources zero j count t h = refl
  greatest_from st sources (suc rounds) j count t h = elim (Bool-cases (sources j == 0)) [
    | inl stop ↦ rw stop refl
    | inr go ↦
        let later : (count + 1 == 1) ≡ false = ground arith in
        rw (go, later) (greatest_from st sources rounds (j + 1) (count + 1) _ (omega arith))
  ]

  least_from :
      (st : FanpicoState R) (sources : ℕ → ℕ) (rounds j count : ℕ) (t : R)
      → 0 < count
      → (combine_from vsmode_min st sources rounds j count t).1
        ≡ least t (source_temps st sources rounds j)
  unfolding combine_from combine source_temps least
  least_from st sources zero j count t h = refl
  least_from st sources (suc rounds) j count t h = elim (Bool-cases (sources j == 0)) [
    | inl stop ↦ rw stop refl
    | inr go ↦
        let later : (count + 1 == 1) ≡ false = ground arith in
        rw (go, later) (least_from st sources rounds (j + 1) (count + 1) _ (omega arith))
  ]

  -- The extreme of no sources is 0.
  unfoldable pub extreme : (R → List R → R) → List R → R
  extreme f [] = a.of_ℕ 0
  extreme f (x ∷ xs) = f x xs

  combined_max :
      (st : FanpicoState R) (s : VsensorInput R)
      → s.mode ≡ vsmode_max
      → combined st s ≡ extreme greatest (source_temps st s.sensors 8 0)
  unfolding combined combine source_temps extreme
  combined_max st s e = elim (Bool-cases (s.sensors 0 == 0)) [
    | inl stop ↦ rw (e, stop) refl
    | inr go ↦ rw (e, go) (greatest_from st s.sensors 7 1 1 _ (omega arith))
  ]

  combined_min :
      (st : FanpicoState R) (s : VsensorInput R)
      → s.mode ≡ vsmode_min
      → combined st s ≡ extreme least (source_temps st s.sensors 8 0)
  unfolding combined combine source_temps extreme
  combined_min st s e = elim (Bool-cases (s.sensors 0 == 0)) [
    | inl stop ↦ rw (e, stop) refl
    | inr go ↦ rw (e, go) (least_from st s.sensors 7 1 1 _ (omega arith))
  ]

  abbrev pub Among : R → List R → Type 0
  Among v [] = ⊥
  Among v (x ∷ xs) = (v ≡ x) ⊎ Among v xs

  -- One of the values, and at least (at most) each of them.
  abbrev pub IsGreatest : R → List R → Type 0
  IsGreatest v xs = Among v xs × All (λ x. x ≼ v) xs

  abbrev pub IsLeast : R → List R → Type 0
  IsLeast v xs = Among v xs × All (λ x. v ≼ x) xs

  greatest_up : (t x : R) (xs : List R) → a.lt t x ≡ true → greatest t (x ∷ xs) ≡ greatest x xs
  unfolding greatest
  greatest_up t x xs h = rw h refl

  greatest_down : (t x : R) (xs : List R) → a.lt t x ≡ false → greatest t (x ∷ xs) ≡ greatest t xs
  unfolding greatest
  greatest_down t x xs h = rw h refl

  least_down : (t x : R) (xs : List R) → a.lt x t ≡ true → least t (x ∷ xs) ≡ least x xs
  unfolding least
  least_down t x xs h = rw h refl

  least_up : (t x : R) (xs : List R) → a.lt x t ≡ false → least t (x ∷ xs) ≡ least t xs
  unfolding least
  least_up t x xs h = rw h refl

  greatest-nil : (t : R) → greatest t [] ≡ t
  unfolding greatest
  greatest-nil t = refl

  least-nil : (t : R) → least t [] ≡ t
  unfolding least
  least-nil t = refl

  module _ (ord : IsOrdered R) where
    open ord use {le_refl, le_trans, lt-eq-not-le, le_total}

    All-greatest : (t : R) (xs : List R) → (t ≼ greatest t xs) × All (λ x. x ≼ greatest t xs) xs
    All-greatest t [] = rw (greatest-nil t) (le_refl t, tt)
    All-greatest t (x ∷ xs) = elim (Bool-cases (a.lt t x)) [
      | inl up ↦
          let (h, hs) = All-greatest x xs in
          let le : t ≼ x = ground (arith, lt-eq-not-le t x, le_total t x) in
          subst (λ g. (t ≼ g) × All (λ y. y ≼ g) (x ∷ xs)) (sym (greatest_up t x xs up))
            (le_trans _ _ _ le h, (h, hs))
      | inr down ↦
          let (h, hs) = All-greatest t xs in
          let le : x ≼ t = ground (arith, lt-eq-not-le t x) in
          subst (λ g. (t ≼ g) × All (λ y. y ≼ g) (x ∷ xs)) (sym (greatest_down t x xs down))
            (h, (le_trans _ _ _ le h, hs))
    ]

    All-least : (t : R) (xs : List R) → (least t xs ≼ t) × All (λ x. least t xs ≼ x) xs
    All-least t [] = rw (least-nil t) (le_refl t, tt)
    All-least t (x ∷ xs) = elim (Bool-cases (a.lt x t)) [
      | inl down ↦
          let (h, hs) = All-least x xs in
          let le : x ≼ t = ground (arith, lt-eq-not-le x t, le_total t x) in
          subst (λ g. (g ≼ t) × All (λ y. g ≼ y) (x ∷ xs)) (sym (least_down t x xs down))
            (le_trans _ _ _ h le, (h, hs))
      | inr up ↦
          let (h, hs) = All-least t xs in
          let le : t ≼ x = ground (arith, lt-eq-not-le x t) in
          subst (λ g. (g ≼ t) × All (λ y. g ≼ y) (x ∷ xs)) (sym (least_up t x xs up))
            (h, (le_trans _ _ _ h le, hs))
    ]

  Among-greatest : (t : R) (xs : List R) → Among (greatest t xs) (t ∷ xs)
  Among-greatest t [] = inl (greatest-nil t)
  Among-greatest t (x ∷ xs) = elim (Bool-cases (a.lt t x)) [
    | inl up ↦
        subst (λ g. Among g (t ∷ x ∷ xs)) (sym (greatest_up t x xs up)) (inr (Among-greatest x xs))
    | inr down ↦
        subst (λ g. Among g (t ∷ x ∷ xs)) (sym (greatest_down t x xs down))
          (skip t x (greatest t xs) xs (Among-greatest t xs))
  ]
    where
      skip : (t x v : R) (xs : List R) → Among v (t ∷ xs) → Among v (t ∷ x ∷ xs)
      skip t x v xs (inl e) = inl e
      skip t x v xs (inr m) = inr (inr m)

  Among-least : (t : R) (xs : List R) → Among (least t xs) (t ∷ xs)
  Among-least t [] = inl (least-nil t)
  Among-least t (x ∷ xs) = elim (Bool-cases (a.lt x t)) [
    | inl down ↦
        subst (λ g. Among g (t ∷ x ∷ xs)) (sym (least_down t x xs down)) (inr (Among-least x xs))
    | inr up ↦
        subst (λ g. Among g (t ∷ x ∷ xs)) (sym (least_up t x xs up))
          (skip t x (least t xs) xs (Among-least t xs))
  ]
    where
      skip : (t x v : R) (xs : List R) → Among v (t ∷ xs) → Among v (t ∷ x ∷ xs)
      skip t x v xs (inl e) = inl e
      skip t x v xs (inr m) = inr (inr m)

  source_temps-cons :
      (st : FanpicoState R) (sources : ℕ → ℕ)
      → sources 0 ≢ 0
      → source_temps st sources 8 0 ≡ source_temp st (sources 0) ∷ source_temps st sources 7 1
  unfolding source_temps
  source_temps-cons st sources h = let e : (sources 0 == 0) ≡ false = ground arith in rw e refl

  -- The greatest or the least of the values, for the modes that take these.
  abbrev pub IsExtreme : VsensorMode → R → List R → Type 0
  IsExtreme vsmode_max t xs = IsGreatest t xs
  IsExtreme vsmode_min t xs = IsLeast t xs
  IsExtreme _ t xs = Unit

  IsExtreme-combined :
      (ord : IsOrdered R) (st : FanpicoState R) (s : VsensorInput R) (m : VsensorMode)
      → s.mode ≡ m
      → s.sensors 0 ≢ 0
      → IsExtreme m (combined st s) (source_temps st s.sensors 8 0)
  unfolding extreme
  IsExtreme-combined ord st s vsmode_max e h =
      let x = source_temp st (s.sensors 0) in
      let xs = source_temps st s.sensors 7 1 in
      rw (combined_max st s e, source_temps-cons st s.sensors h)
        (Among-greatest x xs, All-greatest ord x xs)
  IsExtreme-combined ord st s vsmode_min e h =
      let x = source_temp st (s.sensors 0) in
      let xs = source_temps st s.sensors 7 1 in
      rw (combined_min st s e, source_temps-cons st s.sensors h)
        (Among-least x xs, All-least ord x xs)
  IsExtreme-combined ord st s _ e h = tt

  -- A virtual sensor with a source that takes the greatest (the least) temperature gives one of the
  -- temperatures of its sources, and none of them is greater (less). The sources are the entries
  -- before the first unused one.
  -- The comparisons are a total order (no value is NaN).
  pub combined_extremes :
      (ord : IsOrdered R) (st : FanpicoState R) (s : VsensorInput R)
      → s.sensors 0 ≢ 0
      → IsExtreme s.mode (combined st s) (source_temps st s.sensors 8 0)
  combined_extremes ord st s h = IsExtreme-combined ord st s s.mode refl h
