-- ===== src/Base/Switch.antt =====
-- The rule for a `switch`: what holds of every case and of the default holds of the result.
use mathlib.Core.Bool.{true}
use Prim.Native.Nat.{ℕ}
use mathlib.Core.List.{List, [], ◌∷◌}
use mathlib.Core.Path.{◌≡◌, sym, subst}
use mathlib.Core.Option.{Option, none, some}
use mathlib.Core.Logic.{inl, inr}
use cg2111a_final_project.Base.Tests.{◌==◌, ==_iff, Bool-cases}
use cg2111a_final_project.Base.Lists.{elem, switch, ◌>>=◌}

module _ {ℓ κ} {A : Type ℓ} (Q : A → Type κ) where
  abbrev pub AllCases : List (List ℕ × A) → Type κ
  AllCases [] = Unit
  AllCases ((labels, a) ∷ cases) = Q a × AllCases cases

  pub switch_rule :
      (c : ℕ) (cases : List (List ℕ × A)) (d : A) → AllCases cases → Q d → Q (switch c cases d)
  switch_rule c [] d h k = k
  switch_rule c ((labels, a) ∷ cases) d h k = elim (Bool-cases (elem c labels)) [
    | inl hit ↦ rw hit h.0
    | inr miss ↦ rw miss (switch_rule c cases d h.1 k)
  ]

-- What holds of a result, if there is one.
abbrev pub OnSome {ℓ κ} : {A : Type ℓ} → (A → Type κ) → Option A → Type κ
OnSome P none = Unit
OnSome P (some x) = P x

pub OnSome-bind {ℓ κ ι} :
    {A : Type ℓ} {B : Type κ} (P : B → Type ι) (m : Option A) (k : A → Option B)
    → ((a : A) → OnSome P (k a))
    → OnSome P (m >>= k)
OnSome-bind P none k h = tt
OnSome-bind P (some a) k h = h a

pub of_OnSome {ℓ κ} :
    {A : Type ℓ} (P : A → Type κ) {o : Option A} {a : A} → OnSome P o → o ≡ some a → P a
of_OnSome P h e = subst (OnSome P) e h

-- What holds of each label holds of a value that is one of them.
abbrev pub AllLabels {κ} : (ℕ → Type κ) → List ℕ → Type κ
AllLabels P [] = Unit
AllLabels P (x ∷ xs) = P x × AllLabels P xs

pub elem_rule {κ} :
    (P : ℕ → Type κ) (c : ℕ) (labels : List ℕ) → AllLabels P labels → elem c labels ≡ true → P c
elem_rule P c [] h e = cc
elem_rule P c (x ∷ xs) h e = elim (Bool-cases (c == x)) [
  | inl same ↦ subst P (sym ((==_iff c x).0 same)) h.0
  | inr other ↦ elem_rule P c xs h.1 (rw other at e)
]

-- The rule for a `switch` whose cases name the value itself: each case may use that the value is one
-- of its labels.
module _ {ℓ κ} {A : Type ℓ} (Q : A → Type κ) (c : ℕ) where
  abbrev pub HitCases : List (List ℕ × A) → Type κ
  HitCases [] = Unit
  HitCases ((labels, a) ∷ cases) = (elem c labels ≡ true → Q a) × HitCases cases

  pub switch_hit_rule :
      (cases : List (List ℕ × A)) (d : A) → HitCases cases → Q d → Q (switch c cases d)
  switch_hit_rule [] d h k = k
  switch_hit_rule ((labels, a) ∷ cases) d h k = elim (Bool-cases (elem c labels)) [
    | inl hit ↦ rw hit (h.0 hit)
    | inr miss ↦ rw miss (switch_hit_rule cases d h.1 k)
  ]
