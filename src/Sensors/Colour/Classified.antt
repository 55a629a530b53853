-- ===== src/Sensors/Colour/Classified.antt =====
-- `getColor` answers the colour that is nearest to what was read.
use cg2111a_final_project.Base.{
  ℕ, zero, suc, ◌<◌, ◌≡◌, refl, sym, ap, ◌∙◌, inl, inr, Bool, true, false, arith, Bool-cases,
  if◌then◌else◌,
}
use cg2111a_final_project.Sensors.Floating.{Floating}
use cg2111a_final_project.Sensors.Colour.{
  Three, three, Pins, vect_incr, color_freq_min, nearer, classify, calc_dist, color_dist, get_color,
  white, red, green,
}
use cg2111a_final_project.Sensors.Colour.Least.{
  IsOrder, not_below, not_below_either, closest_on_lem,
}

-- What an array has at the index of a colour.
abbrev pub of_color {ℓ} : {A : Type ℓ} → Three A → ℕ → A
of_color t zero = t.first
of_color t (suc zero) = t.second
of_color t (suc (suc k)) = t.third

-- The distance between the reading and point `k` of a colour.
abbrev pub sample : (f : Floating) → Three (Three f.Real) → Three f.Real → ℕ → ℕ → f.Real
sample f step test color k =
    calc_dist f (of_color color_freq_min color) (of_color step color) test k

module _ (f : Floating) (o : IsOrder f) where
  open f use {Real, of_ℕ, lt}

  asymmetric : (x y : Real) → lt x y ≡ true → lt y x ≡ false
  asymmetric x y h = not_below f o y x y (inr h) (o.irreflexive y)

  each :
      (d : Three Real) (r : Real)
      → lt d.first r ≡ false
      → lt d.second r ≡ false
      → lt d.third r ≡ false
      → (c : ℕ) → lt (of_color d c) r ≡ false
  each d r x y z zero = x
  each d r x y z (suc zero) = y
  each d r x y z (suc (suc c)) = z

  classify-eq :
      (d : Three Real)
      → classify f d ≡ (
          if lt d.second d.first
          then (if lt d.third d.second then green else red)
          else (if lt d.third d.first then green else white))
  unfolding classify nearer
  classify-eq d = ground (arith, o.irreflexive d.first)

  -- No distance is below that of the colour that is found.
  classify_lem :
      (d : Three Real) (c : ℕ)
      → (classify f d < 3) × (lt (of_color d c) (of_color d (classify f d)) ≡ false)
  classify_lem d c = rw (classify-eq d) (elim (Bool-cases (lt d.second d.first)) [
    | inl a ↦ elim (Bool-cases (lt d.third d.second)) [
      | inl b ↦
          rw (a, b)
            (
              omega arith,
              each d d.third
                  (not_below f o d.first d.third d.second (inr b) (asymmetric d.second d.first a))
                  (asymmetric d.third d.second b) (o.irreflexive d.third) c,
            )
      | inr b ↦
          rw (a, b)
            (
              omega arith,
              each d d.second (asymmetric d.second d.first a) (o.irreflexive d.second) b c,
            )
    ]
    | inr a ↦ elim (Bool-cases (lt d.third d.first)) [
      | inl b ↦
          rw (a, b)
            (
              omega arith,
              each d d.third (asymmetric d.third d.first b)
                  (not_below f o d.second d.third d.first (inr b) a) (o.irreflexive d.third) c,
            )
      | inr b ↦ rw (a, b) (omega arith, each d d.first (o.irreflexive d.first) a b c)
    ]
  ])

  of_color-dist :
      (step : Three (Three Real)) (test : Three Real) (c : ℕ)
      → of_color
          (three
            (color_dist f color_freq_min.first step.first test)
            (color_dist f color_freq_min.second step.second test)
            (color_dist f color_freq_min.third step.third test))
          c
        ≡ color_dist f (of_color color_freq_min c) (of_color step c) test
  of_color-dist step test zero = refl
  of_color-dist step test (suc zero) = refl
  of_color-dist step test (suc (suc c)) = refl

  get_color-color :
      (sensor : Bool → Bool → ℕ → ℕ) (step : Three (Three Real)) (p : Pins)
      → (get_color f sensor step p).color ≡ classify f (get_color f sensor step p).dist
  unfolding get_color
  get_color-color sensor step p = refl

  get_color-dist :
      (sensor : Bool → Bool → ℕ → ℕ) (step : Three (Three Real)) (p : Pins) (c : ℕ)
      → of_color (get_color f sensor step p).dist c
        ≡ color_dist f
            (of_color color_freq_min c)
            (of_color step c)
            (get_color f sensor step p).test
  unfolding get_color
  get_color-dist sensor step p c = of_color-dist step (get_color f sensor step p).test c

  color_dist_lem :
      (step : Three (Three Real)) (test : Three Real) (c : ℕ)
      → ((k : ℕ) → k < vect_incr → lt (sample f step test c k) (of_ℕ 1) ≡ false)
      → (j : ℕ) × (j < vect_incr)
        × (color_dist f (of_color color_freq_min c) (of_color step c) test ≡ sample f step test c j)
        × ((k : ℕ)
            → k < vect_incr
            → lt
                (sample f step test c k)
                (color_dist f (of_color color_freq_min c) (of_color step c) test)
              ≡ false)
  unfolding color_dist
  color_dist_lem step test c far = closest_on_lem f o (sample f step test c) 99 far

  -- Whatever the sensor reads, where the tests of numbers are an order: if none of the 100 points of each
  -- of the three colours is nearer to the reading than 1, then `getColor` answers one of the three
  -- colours; the distance that it stores for it is that of one of its points, and no point of any colour
  -- is nearer to the reading.
  pub get_color_nearest :
      (sensor : Bool → Bool → ℕ → ℕ) (step : Three (Three Real)) (p : Pins) (c k : ℕ)
      → ((c k : ℕ)
          → c < 3
          → k < vect_incr
          → lt (sample f step (get_color f sensor step p).test c k) (of_ℕ 1) ≡ false)
      → c < 3
      → k < vect_incr
      → let r = get_color f sensor step p in
        (r.color < 3)
        × (j : ℕ) × (j < vect_incr)
        × (of_color r.dist r.color ≡ sample f step r.test r.color j)
        × (lt (sample f step r.test c k) (sample f step r.test r.color j) ≡ false)
  get_color_nearest sensor step p c k far hc hk =
      let r = get_color f sensor step p in
      let (small, closest) = classify_lem r.dist c in
      let found : r.color ≡ classify f r.dist = get_color-color sensor step p in
      let (j, hj, same, least) =
        color_dist_lem step r.test r.color (λ k h. far r.color k (rw found small) h) in
      let (j', hj', same', least') = color_dist_lem step r.test c (λ k h. far c k hc h) in
      (
        rw found small,
        j,
        hj,
        get_color-dist sensor step p r.color ∙ same,
        not_below_either f o (sample f step r.test c k) (of_color r.dist c) _
            (ap (lt (sample f step r.test c k)) (get_color-dist sensor step p c) ∙ least' k hk)
            (ap (lt (of_color r.dist c))
                (sym same ∙ sym (get_color-dist sensor step p r.color) ∙ ap (of_color r.dist) found)
              ∙ closest),
      )
