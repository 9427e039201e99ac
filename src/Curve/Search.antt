-- ===== src/Curve/Search.antt =====
-- src/pwm.c, src/tacho.c, src/sensors.c: the search for the segment, and the values that a map
-- takes at its points and outside them.
use fanpico.Base.{
  ℕ, zero, suc, ◌+◌, ◌-◌, ◌≤◌, ◌<◌, ◌≡◌, refl, false, ◌&&◌, ◌⊎◌, inl, inr, arith, ltb, Bool-cases,
}
use fanpico.Base.Arith.{Arith, ◌≼◌, ◌≺◌, IsOrdered}
use fanpico.Types.{PwmMap, TachoMap, TempMap}
use fanpico.Curve.{
  find_from, find_point, interpolate, pwm_map, tacho_map, sensor_get_duty, difference,
  single_difference,
}

module _ {R : Type 0} ⦃a : Arith R⦄ where
  -- Where the loop stops, started at `start`.
  pub record Found (points : ℕ) (x : ℕ → R) (val : R) (start i : ℕ) : Type 0 where
    pub from_start : start ≤ i
    pub in_range : i < points
    pub before : (j : ℕ) → start ≤ j → j < i → x j ≺ val
    pub stopped : (i + 1 ≡ points) ⊎ (a.lt (x i) val ≡ false)

  find_from-Found :
      (rounds points : ℕ) (x : ℕ → R) (val : R) (i : ℕ)
      → i < points
      → points ≤ i + rounds
      → Found points x val i (find_from rounds points x val i)
  unfolding find_from
  find_from-Found zero points x val i h k = absurd (omega arith)
  find_from-Found (suc rounds) points x val i h k =
      elim (Bool-cases (ltb (i + 1) points && a.lt (x i) val)) [
        | inl go ↦
            let rest : Found points x val (i + 1) (find_from rounds points x val (i + 1)) =
              find_from-Found rounds points x val (i + 1) (ground arith) (omega arith) in
            rw go (record {
              from_start = omega (arith, rest.from_start);
              in_range = rest.in_range;
              before = λ j l m. elim (Bool-cases (ltb i j)) [
                | inl later ↦ rest.before j (ground arith) m
                | inr here ↦ let e : j ≡ i = ground arith in rw e (ground arith)
              ];
              stopped = rest.stopped;
            })
        | inr stop ↦ rw stop (record {
          from_start = omega arith;
          in_range = h;
          before = λ j l m. absurd (omega arith);
          stopped = ground arith;
        })
      ]

  pub find_point-Found :
      (points : ℕ) (x : ℕ → R) (val : R)
      → 2 ≤ points
      → Found points x val 1 (find_point points x val)
  unfolding find_point
  find_point-Found points x val h =
      find_from-Found points points x val 1 (omega arith) (omega arith)

  -- The x values of the points in use strictly increase.
  abbrev pub Increasing : ℕ → (ℕ → R) → Type 0
  Increasing points x = (i j : ℕ) → i < j → j < points → x i ≺ x j

  module _ (ord : IsOrdered R) where
    open ord use {le_refl, le_trans, lt-eq-not-le, le_total}

    pub not-le_of_lt : (u v : R) → u ≺ v → a.le v u ≡ false
    not-le_of_lt u v h = ground (arith, lt-eq-not-le u v)

    pub le_of_not_lt : (u v : R) → a.lt u v ≡ false → v ≼ u
    le_of_not_lt u v h = ground (arith, lt-eq-not-le u v)

    pub not-lt_of_le : (u v : R) → u ≼ v → a.lt v u ≡ false
    not-lt_of_le u v h = ground (arith, lt-eq-not-le v u)

    -- The search stops at a point whose x value it is given.
    find_point_at :
        (points : ℕ) (x : ℕ → R) (k : ℕ)
        → Increasing points x
        → 0 < k
        → k < points
        → find_point points x (x k) ≡ k
    find_point_at points x k inc pos h = elim (Bool-cases (ltb (find_point points x (x k)) k)) [
      | inl low ↦
          let i = find_point points x (x k) in
          let lt : i < k = ground arith in
          elim found.stopped [
            | inl last ↦ absurd (omega arith)
            | inr stop ↦ ground (arith, inc i k lt h)
          ]
      | inr high ↦ elim (Bool-cases (ltb k (find_point points x (x k)))) [
        | inl above ↦
            let lt : k < find_point points x (x k) = ground arith in
            ground (arith, found.before k pos lt, lt-eq-not-le (x k) (x k), le_refl (x k))
        | inr same ↦ ground arith
      ]
    ]
      where
        found : Found points x (x k) 1 (find_point points x (x k))
        found = find_point-Found points x (x k) (omega arith)

    pub interpolate_at :
        (points : ℕ) (x y rise run : ℕ → R) (k : ℕ)
        → Increasing points x
        → 2 ≤ points
        → k < points
        → interpolate points x y rise run (x k) ≡ y k
    unfolding interpolate
    interpolate_at points x y rise run zero inc two h = rw (le_refl (x 0)) refl
    interpolate_at points x y rise run (suc k) inc two h =
        rw
          (
            not-le_of_lt (x 0) (x (suc k)) (inc 0 (suc k) (omega arith) h),
            find_point_at points x (suc k) inc (omega arith) h,
            le_refl (x (suc k)),
          )
          refl

    find_point_above :
        (points : ℕ) (x : ℕ → R) (val : R)
        → Increasing points x
        → 2 ≤ points
        → x (points - 1) ≼ val
        → find_point points x val ≡ points - 1
    find_point_above points x val inc two h =
        elim (Bool-cases (ltb (find_point points x val) (points - 1))) [
          | inl low ↦
              let i = find_point points x val in
              let lt : i < points - 1 = ground arith in
              elim found.stopped [
                | inl last ↦ absurd (omega arith)
                | inr stop ↦ absurd (
                    ground (
                      arith,
                      inc i (points - 1) lt (omega arith),
                      lt-eq-not-le (x i) (x (points - 1)),
                      le_trans (x (points - 1)) val (x i) h (le_of_not_lt (x i) val stop),
                    ))
              ]
          | inr high ↦ ground (arith, found.in_range)
        ]
      where
        found : Found points x val 1 (find_point points x val)
        found = find_point-Found points x val two

    first_below :
        (points : ℕ) (x : ℕ → R) (val : R)
        → Increasing points x
        → 2 ≤ points
        → x (points - 1) ≼ val
        → a.le val (x 0) ≡ false
    first_below points x val inc two h = ground (
      arith,
      inc 0 (points - 1) (omega arith) (omega arith),
      lt-eq-not-le (x 0) (x (points - 1)),
      le_trans (x (points - 1)) val (x 0) h,
    )

    pub interpolate_outside :
        (points : ℕ) (x y rise run : ℕ → R) (val : R)
        → Increasing points x
        → 2 ≤ points
        → (val ≼ x 0 → interpolate points x y rise run val ≡ y 0)
          × (x (points - 1) ≼ val → interpolate points x y rise run val ≡ y (points - 1))
    unfolding interpolate
    interpolate_outside points x y rise run val inc two = (
      λ low. rw low refl,
      λ high.
          rw
            (
              first_below points x val inc two high,
              find_point_above points x val inc two high,
              high,
            )
            refl,
    )

  -- `f` takes the value y of each point at its x, and outside the points those of the first and last.
  abbrev pub Interpolates : ℕ → (ℕ → R) → (ℕ → R) → (R → R) → Type 0
  Interpolates points x y f =
      ((k : ℕ) → k < points → f (x k) ≡ y k)
      × ((val : R) → val ≼ x 0 → f val ≡ y 0)
      × ((val : R) → x (points - 1) ≼ val → f val ≡ y (points - 1))

  interpolate-Interpolates :
      (ord : IsOrdered R) (points : ℕ) (x y rise run : ℕ → R)
      → Increasing points x
      → 2 ≤ points
      → Interpolates points x y (interpolate points x y rise run)
  interpolate-Interpolates ord points x y rise run inc two = (
    λ k h. interpolate_at ord points x y rise run k inc two h,
    λ val. (interpolate_outside ord points x y rise run val inc two).0,
    λ val. (interpolate_outside ord points x y rise run val inc two).1,
  )

  -- With two points or more, at increasing inputs: each of the three maps takes at every point the
  -- value of that point, below the first point the first value, and above the last the last value.
  -- The comparisons are a total order (no value is NaN).
  pub maps-Interpolates :
      (ord : IsOrdered R) (p : PwmMap) (t : TachoMap) (s : TempMap R)
      → (2 ≤ p.points) × (2 ≤ t.points) × (2 ≤ s.points)
      → Increasing p.points (λ i. a.of_ℕ (p.pwm i).0)
      → Increasing t.points (λ i. a.of_ℕ (t.tacho i).0)
      → Increasing s.points (λ i. (s.temp i).0)
      → Interpolates p.points (λ i. a.of_ℕ (p.pwm i).0) (λ i. a.of_ℕ (p.pwm i).1) (pwm_map p)
        × Interpolates t.points
            (λ i. a.of_ℕ (t.tacho i).0)
            (λ i. a.of_ℕ (t.tacho i).1)
            (tacho_map t)
        × Interpolates s.points (λ i. (s.temp i).0) (λ i. (s.temp i).1) (sensor_get_duty s)
  unfolding pwm_map tacho_map sensor_get_duty
  maps-Interpolates ord p t s (n, m, k) hp ht hs = (
    interpolate-Interpolates ord p.points _ _ (difference (λ i. (p.pwm i).1))
        (difference (λ i. (p.pwm i).0)) hp n,
    interpolate-Interpolates ord t.points _ _ (difference (λ i. (t.tacho i).1))
        (difference (λ i. (t.tacho i).0)) ht m,
    interpolate-Interpolates ord s.points _ _ (single_difference (λ i. (s.temp i).1))
        (single_difference (λ i. (s.temp i).0)) hs k,
  )

  -- The search ends at a row of the 32 of the array, whatever the number of points in use is.
  pub find_point_in_array :
      (points : ℕ) (x : ℕ → R) (val : R) → points ≤ 32 → find_point points x val < 32
  unfolding find_point find_from
  find_point_in_array zero x val h = omega arith
  find_point_in_array (suc zero) x val h = omega arith
  find_point_in_array (suc (suc n)) x val h =
      omega (arith, (find_point-Found (suc (suc n)) x val (omega arith)).in_range)
