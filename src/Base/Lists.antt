-- ===== src/Base/Lists.antt =====
-- C arrays as lists indexed by native numbers. An access out of range, which C leaves undefined,
-- is `none`. `◌>>=◌` chains such accesses.
use Prim.Native.Nat.{ℕ, zero, suc, ◌+◌, ◌-◌, ◌≤◌, min}
use mathlib.Core.Path.{◌≡◌, refl, sym, ap, ◌∙◌}
use mathlib.Core.List.{List, [], ◌∷◌, ◌++◌}
use mathlib.Core.Option.{Option, none, some}
use native.Mathlib.Omega.{arith}
use mathlib.Core.Bool.{Bool, false, ◌||◌}
use cg2111a_final_project.Base.Tests.{leb, ◌==◌, if◌then◌else◌}

abbrev pub elem : ℕ → List ℕ → Bool
elem c [] = false
elem c (x ∷ xs) = c == x || elem c xs

infixl 5 ◌>>=◌
abbrev pub ◌>>=◌ {ℓ κ} : {A : Type ℓ} {B : Type κ} → Option A → (A → Option B) → Option B
none >>= k = none
some x >>= k = k x

module _ {ℓ} {A : Type ℓ} where
  abbrev pub length : List A → ℕ
  length [] = 0
  length (x ∷ xs) = suc (length xs)

  abbrev pub get_elem? : List A → ℕ → Option A
  get_elem? [] i = none
  get_elem? (x ∷ xs) zero = some x
  get_elem? (x ∷ xs) (suc i) = get_elem? xs i

  -- A checked write.
  abbrev pub store : List A → ℕ → A → Option (List A)
  store [] i v = none
  store (x ∷ xs) zero v = some (v ∷ xs)
  store (x ∷ xs) (suc i) v = store xs i v >>= λ ys. some (x ∷ ys)

  abbrev pub get_or : List A → ℕ → A → A
  get_or [] i d = d
  get_or (x ∷ xs) zero d = x
  get_or (x ∷ xs) (suc i) d = get_or xs i d

  abbrev pub take : ℕ → List A → List A
  take zero xs = []
  take (suc n) [] = []
  take (suc n) (x ∷ xs) = x ∷ take n xs

  abbrev pub drop : ℕ → List A → List A
  drop zero xs = xs
  drop (suc n) [] = []
  drop (suc n) (x ∷ xs) = drop n xs

  abbrev pub replicate : ℕ → A → List A
  replicate zero a = []
  replicate (suc n) a = a ∷ replicate n a

  pub length-append : (xs ys : List A) → length (xs ++ ys) ≡ length xs + length ys
  length-append [] ys = omega arith
  length-append (x ∷ xs) ys = omega (arith, length-append xs ys)

  pub take-append-drop : (n : ℕ) (xs : List A) → take n xs ++ drop n xs ≡ xs
  take-append-drop zero xs = refl
  take-append-drop (suc n) [] = refl
  take-append-drop (suc n) (x ∷ xs) = ap (λ l. x ∷ l) (take-append-drop n xs)

  pub length-take : (n : ℕ) (xs : List A) → length (take n xs) ≡ min n (length xs)
  length-take zero xs = omega arith
  length-take (suc n) [] = omega arith
  length-take (suc n) (x ∷ xs) = omega (arith, length-take n xs)

  pub length-drop : (n : ℕ) (xs : List A) → length (drop n xs) ≡ length xs - n
  length-drop zero xs = omega arith
  length-drop (suc n) [] = omega arith
  length-drop (suc n) (x ∷ xs) = omega (arith, length-drop n xs)

  pub length-replicate : (n : ℕ) (a : A) → length (replicate n a) ≡ n
  length-replicate zero a = refl
  length-replicate (suc n) a = ap suc (length-replicate n a)

  -- A block of known length at the front, cut off and left.
  pub take-append : (xs ys : List A) (n : ℕ) → n ≡ length xs → take n (xs ++ ys) ≡ xs
  take-append [] ys zero e = refl
  take-append [] ys (suc n) e = absurd (omega arith)
  take-append (x ∷ xs) ys zero e = absurd (omega arith)
  take-append (x ∷ xs) ys (suc n) e = ap (λ l. x ∷ l) (take-append xs ys n (omega arith))

  pub drop-append : (xs ys : List A) (n : ℕ) → n ≡ length xs → drop n (xs ++ ys) ≡ ys
  drop-append [] ys zero e = refl
  drop-append [] ys (suc n) e = absurd (omega arith)
  drop-append (x ∷ xs) ys zero e = absurd (omega arith)
  drop-append (x ∷ xs) ys (suc n) e = drop-append xs ys n (omega arith)

  pub take_all : (n : ℕ) (xs : List A) → length xs ≤ n → take n xs ≡ xs
  take_all zero [] h = refl
  take_all zero (x ∷ xs) h = absurd (omega arith)
  take_all (suc n) [] h = refl
  take_all (suc n) (x ∷ xs) h = ap (λ l. x ∷ l) (take_all n xs (omega arith))

  -- A cut inside the first of two blocks.
  pub take-append_left : (n : ℕ) (xs ys : List A) → n ≤ length xs → take n (xs ++ ys) ≡ take n xs
  take-append_left zero xs ys h = refl
  take-append_left (suc n) [] ys h = absurd (omega arith)
  take-append_left (suc n) (x ∷ xs) ys h = ap (λ l. x ∷ l) (take-append_left n xs ys (omega arith))

  pub drop-append_left :
      (n : ℕ) (xs ys : List A) → n ≤ length xs → drop n (xs ++ ys) ≡ drop n xs ++ ys
  drop-append_left zero xs ys h = refl
  drop-append_left (suc n) [] ys h = absurd (omega arith)
  drop-append_left (suc n) (x ∷ xs) ys h = drop-append_left n xs ys (omega arith)

  pub get_elem?-append : (xs ys : List A) (y : A) → get_elem? (xs ++ y ∷ ys) (length xs) ≡ some y
  get_elem?-append [] ys y = refl
  get_elem?-append (x ∷ xs) ys y = get_elem?-append xs ys y

  pub store-append :
      (xs ys : List A) (y v : A) → store (xs ++ y ∷ ys) (length xs) v ≡ some (xs ++ v ∷ ys)
  store-append [] ys y v = refl
  store-append (x ∷ xs) ys y v = ap (λ o. o >>= λ l. some (x ∷ l)) (store-append xs ys y v)

  -- A list as two blocks, the first of length `n`.
  pub split_at :
      (n : ℕ) (xs : List A) → n ≤ length xs → (ys zs : List A) × (xs ≡ ys ++ zs) × (length ys ≡ n)
  split_at zero xs h = ([], xs, refl, refl)
  split_at (suc n) [] h = absurd (omega arith)
  split_at (suc n) (x ∷ xs) h =
      let (ys, zs, e, l) = split_at n xs (omega arith) in (x ∷ ys, zs, ap (λ t. x ∷ t) e, ap suc l)

  -- Moving one element over to the front block.
  pub length-snoc : (xs : List A) (y : A) → length xs + 1 ≡ length (xs ++ y ∷ [])
  length-snoc xs y = omega (arith, length-append xs (y ∷ []))

  pub drop-nil : (n : ℕ) → drop n [] ≡ []
  drop-nil zero = refl
  drop-nil (suc n) = refl

  pub drop_add : (n m : ℕ) (xs : List A) → drop m (drop n xs) ≡ drop (n + m) xs
  drop_add zero m xs = ap (λ k. drop k xs) (omega arith)
  drop_add (suc n) m [] = drop-nil m ∙ sym (drop-nil (suc n + m))
  drop_add (suc n) m (x ∷ xs) =
      let same : suc (n + m) ≡ suc n + m = omega arith in
      drop_add n m xs ∙ ap (λ k. drop k (x ∷ xs)) same

  pub drop_all : (n : ℕ) (xs : List A) → length xs ≤ n → drop n xs ≡ []
  drop_all n [] h = drop-nil n
  drop_all zero (x ∷ xs) h = absurd (omega arith)
  drop_all (suc n) (x ∷ xs) h = drop_all n xs (omega arith)

  -- The `n` elements from index `i` on.
  abbrev pub slice? : List A → ℕ → ℕ → Option (List A)
  slice? xs i n = if leb (i + n) (length xs) then some (take n (drop i xs)) else none

  -- A `switch` whose cases have several labels, each case left by `break`.
  abbrev pub switch : ℕ → List (List ℕ × A) → A → A
  switch c [] default = default
  switch c ((labels, a) ∷ cases) default = if elem c labels then a else switch c cases default

  pub get_elem?-lt : (xs : List A) (i : ℕ) (x : A) → get_elem? xs i ≡ some x → i + 1 ≤ length xs
  get_elem?-lt [] i x e = cc
  get_elem?-lt (y ∷ ys) zero x e = omega arith
  get_elem?-lt (y ∷ ys) (suc i) x e = omega (arith, get_elem?-lt ys i x e)
