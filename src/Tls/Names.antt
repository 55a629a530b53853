-- ===== src/Tls/Names.antt =====
-- File and host names, which `createServer` and `createClient` copy into arrays by `strncpy`.
use cg2111a_final_project.Base.{
  ℕ, zero, suc, ◌+◌, ◌<◌, ◌≤◌, ◌≡◌, ◌≢◌, refl, List, [], ◌∷◌, ◌++◌, Option, none, some, ◌>>=◌,
  arith, length, take, replicate, ◌==◌, if◌then◌else◌, ne→==, ltb, ltb→lt, ltb→le, Bool-cases, inl,
  inr,
}

abbrev pub Name : Type 0
Name = List ℕ

-- `strncpy(dst, src, n)` into an array of `n` bytes; `src` without its terminator.
unfoldable pub strncpy : ℕ → Name → Name
strncpy n src = take n (src ++ replicate n 0)

-- The string that an array holds: up to the first 0; `none` is a read past its end.
unfoldable pub string_of : List ℕ → Option Name
string_of [] = none
string_of (x ∷ xs) =
    let rest = string_of xs in if x == 0 then some [] else (rest >>= λ s. some (x ∷ s))

abbrev pub AllNonzero : Name → Type 0
AllNonzero [] = Unit
AllNonzero (x ∷ xs) = (x ≢ 0) × AllNonzero xs

short_enough :
    (src : Name) (n m : ℕ)
    → AllNonzero src
    → length src < n
    → n ≤ length src + m
    → string_of (take n (src ++ replicate m 0)) ≡ some src
unfolding string_of
short_enough [] zero m v h k = absurd (omega (arith, h))
short_enough [] (suc n) zero v h k = absurd (omega (arith, k))
short_enough [] (suc n) (suc m) v h k = refl
short_enough (x ∷ src) zero m v h k = absurd (omega (arith, h))
short_enough (x ∷ src) (suc n) m v h k =
    rw (ne→== x 0 v.0, short_enough src n m v.1 (omega (arith, h)) (omega (arith, k))) refl

too_long :
    (src : Name) (n m : ℕ)
    → AllNonzero src
    → n ≤ length src
    → string_of (take n (src ++ replicate m 0)) ≡ none
unfolding string_of
too_long src zero m v h = refl
too_long [] (suc n) m v h = absurd (omega (arith, h))
too_long (x ∷ src) (suc n) m v h = rw (ne→== x 0 v.0, too_long src n m v.1 (omega (arith, h))) refl

-- A name is read back from its array exactly when it is shorter than the array; a longer one is left
-- without a terminator, and reading it goes past the end.
pub string_of-strncpy :
    (n : ℕ) (src : Name)
    → AllNonzero src
    → string_of (strncpy n src) ≡ (if ltb (length src) n then some src else none)
unfolding strncpy
string_of-strncpy n src v = elim (Bool-cases (ltb (length src) n)) [
  | inl short ↦ rw short (short_enough src n n v (ltb→lt _ _ short) (omega arith))
  | inr long ↦ rw long (too_long src n n v (ltb→le _ _ long))
]
