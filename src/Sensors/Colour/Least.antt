-- ===== src/Sensors/Colour/Least.antt =====
-- `color_dist` finds the least of its distances, as long as none of them is below 1.
use cg2111a_final_project.Base.{
  ℕ, zero, suc, ◌+◌, ◌≤◌, ◌<◌, ◌≡◌, refl, ap, ◌∙◌, subst, ◌⊎◌, inl, inr, true, false, arith, ◌==◌,
  ==_iff, Bool-cases,
}
use cg2111a_final_project.Sensors.Floating.{Floating}
use cg2111a_final_project.Sensors.Colour.{keep_closer, closest_on}

-- The order of the values of `float` that are numbers: the test is transitive, no number is below itself, a
-- number that is not above another is below all that the other is below, and 0 is below 1.
pub record IsOrder (f : Floating) : Type 0 where
  pub transitive : (x y z : f.Real) → f.lt x y ≡ true → f.lt y z ≡ true → f.lt x z ≡ true
  pub cotransitive : (x y z : f.Real) → f.lt x z ≡ true → f.lt y z ≡ false → f.lt x y ≡ true
  pub irreflexive : (x : f.Real) → f.lt x x ≡ false
  pub zero_below_one : f.lt (f.of_ℕ 0) (f.of_ℕ 1) ≡ true

module _ (f : Floating) (o : IsOrder f) where
  open f use {Real, of_ℕ, lt}
  open o use {transitive, irreflexive, zero_below_one}

  -- A number that is below `r` cannot be found when `r` is `m` or below it, and it is not below `m`.
  pub not_below : (c r m : Real) → (r ≡ m) ⊎ (lt r m ≡ true) → lt c m ≡ false → lt c r ≡ false
  not_below c r m (inl same) h = ap (lt c) same ∙ h
  not_below c r m (inr less) h = elim (Bool-cases (lt c r)) [
    | inl below ↦ cc (transitive c r m below less)
    | inr fine ↦ fine
  ]

  pub not_below_either : (x y z : Real) → lt x y ≡ false → lt y z ≡ false → lt x z ≡ false
  not_below_either x y z h k = elim (Bool-cases (lt x z)) [
    | inl below ↦ cc (o.cotransitive x y z below k, h)
    | inr fine ↦ fine
  ]

  module _ (calc : ℕ → Real) where
    -- `r` is the least of `m` and the `n` distances from `i` on.
    record IsLeast (n i : ℕ) (m r : Real) : Type 0 where
      below : (r ≡ m) ⊎ (lt r m ≡ true)
      least : (k : ℕ) → i ≤ k → k < i + n → lt (calc k) r ≡ false
      found : (r ≡ m) ⊎ ((j : ℕ) × (i ≤ j) × (j < i + n) × (r ≡ calc j))

    -- What holds of `i` and of the indices behind it.
    from :
        (P : ℕ → Type 0) (n i : ℕ)
        → P i
        → ((k : ℕ) → i + 1 ≤ k → k < i + 1 + n → P k)
        → (k : ℕ) → i ≤ k
        → k < i + suc n
        → P k
    from P n i here behind k h l = elim (Bool-cases (i == k)) [
      | inl same ↦ subst P ((==_iff i k).0 same) here
      | inr other ↦ behind k (ground arith) (omega (arith, l))
    ]

    at_first :
        (n i : ℕ) (m r : Real)
        → lt (calc i) m ≡ true
        → IsLeast n (i + 1) (calc i) r
        → IsLeast (suc n) i m r
    at_first n i m r h l = record {
      below = inr (elim l.below [
        | inl same ↦ ap (λ x. lt x m) same ∙ h
        | inr less ↦ transitive r (calc i) m less h
      ]);
      least =
          from (λ k. lt (calc k) r ≡ false) n i
            (not_below (calc i) r (calc i) l.below (irreflexive (calc i))) l.least;
      found = inr (elim l.found [
        | inl same ↦ (i, omega arith, omega arith, same)
        | inr (j, above, under, same) ↦ (j, omega arith, omega arith, same)
      ]);
    }

    later :
        (n i : ℕ) (m r : Real)
        → lt (calc i) m ≡ false
        → IsLeast n (i + 1) m r
        → IsLeast (suc n) i m r
    later n i m r h l = record {
      below = l.below;
      least = from (λ k. lt (calc k) r ≡ false) n i (not_below (calc i) r m l.below h) l.least;
      found = elim l.found [
        | inl same ↦ inl same
        | inr (j, above, under, same) ↦ inr (j, omega arith, omega arith, same)
      ];
    }

    -- From a distance that is not below 1, with none below 1 to come.
    closest_on-IsLeast :
        (n i : ℕ) (m : Real)
        → lt m (of_ℕ 1) ≡ false
        → ((k : ℕ) → k < i + n → lt (calc k) (of_ℕ 1) ≡ false)
        → IsLeast n i m (closest_on f calc n i m)
    unfolding closest_on keep_closer
    closest_on-IsLeast zero i m far fars = record {
      below = inl refl;
      least = λ k h l. absurd (omega arith);
      found = inl refl;
    }
    closest_on-IsLeast (suc n) i m far fars = elim (Bool-cases (lt (calc i) m)) [
      | inl less ↦
          rw (far, less)
            (at_first n i m _ less (
              closest_on-IsLeast n (i + 1) (calc i) (fars i (omega arith))
                (λ k l. fars k (omega (arith, l)))))
      | inr more ↦
          rw (far, more)
            (later n i m _ more
              (closest_on-IsLeast n (i + 1) m far (λ k l. fars k (omega (arith, l)))))
    ]

    -- The first round takes its distance, since the distance starts as 0.
    pub closest_on_lem :
        (n : ℕ)
        → ((k : ℕ) → k < suc n → lt (calc k) (of_ℕ 1) ≡ false)
        → (j : ℕ) × (j < suc n)
          × (closest_on f calc (suc n) 0 (of_ℕ 0) ≡ calc j)
          × ((k : ℕ) → k < suc n → lt (calc k) (closest_on f calc (suc n) 0 (of_ℕ 0)) ≡ false)
    unfolding closest_on keep_closer
    closest_on_lem n fars = rw zero_below_one (
        let rest =
          closest_on-IsLeast n 1 (calc 0) (fars 0 (omega arith))
            (λ k l. fars k (omega (arith, l))) in
        let all = λ (k : ℕ) (h : k < suc n).
          from (λ k. lt (calc k) (closest_on f calc n 1 (calc 0)) ≡ false) n 0
            (not_below (calc 0) _ (calc 0) rest.below (irreflexive (calc 0))) rest.least k
            (omega arith) (omega (arith, h)) in
        elim rest.found [
          | inl same ↦ (0, omega arith, same, all)
          | inr (j, above, under, same) ↦ (j, omega arith, same, all)
        ])
