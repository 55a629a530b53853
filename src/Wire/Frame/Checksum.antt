-- ===== src/Wire/Frame/Checksum.antt =====
-- The checksum loop against a fold, and what the checksum detects.
use cg2111a_final_project.Base.{
  ℕ, ◌^◌, ◌<◌, ◌≡◌, refl, ◌≢◌, List, [], ◌∷◌, ◌++◌, some, arith, length, u8, bit_xor,
  get_elem?-append, append_assoc, length-snoc,
}
use cg2111a_final_project.Base.Xor.{bit_xor-lt, bit_xor_cancel, bit_xor_cancel_left}
use cg2111a_final_project.Wire.Frame.{checksum_from}

-- The exclusive or of all bytes, on top of `c`.
abbrev pub xor_all : ℕ → List ℕ → ℕ
xor_all c [] = c
xor_all c (b ∷ bs) = xor_all (u8 (bit_xor c b)) bs

abbrev pub AllBytes : List ℕ → Type 0
AllBytes [] = Unit
AllBytes (b ∷ bs) = (b < 2 ^ 8) × AllBytes bs

-- The loop, at the bytes `bs` that stand behind `pre`.
pub checksum_from_lem :
    (bs pre post : List ℕ) (c : ℕ)
    → checksum_from (length bs) (length pre) (pre ++ (bs ++ post)) c ≡ some (xor_all c bs)
unfolding checksum_from
checksum_from_lem [] pre post c = refl
checksum_from_lem (b ∷ bs) pre post c =
    rw (get_elem?-append pre (bs ++ post) b, length-snoc pre b)
      (rw (← append_assoc pre (b ∷ []) (bs ++ post))
        (checksum_from_lem bs (pre ++ b ∷ []) post (u8 (bit_xor c b))))

-- One round of the loop is injective in the sum so far, and in the byte.
round_injective :
    (c d b : ℕ) → c < 2 ^ 8 → d < 2 ^ 8 → b < 2 ^ 8 → u8 (bit_xor c b) ≡ u8 (bit_xor d b) → c ≡ d
round_injective c d b hc hd hb e =
    bit_xor_cancel c d b (omega (arith, bit_xor-lt 8 c b hc hb, bit_xor-lt 8 d b hd hb))

round_injective_left :
    (c x y : ℕ) → c < 2 ^ 8 → x < 2 ^ 8 → y < 2 ^ 8 → u8 (bit_xor c x) ≡ u8 (bit_xor c y) → x ≡ y
round_injective_left c x y hc hx hy e =
    bit_xor_cancel_left c x y (omega (arith, bit_xor-lt 8 c x hc hx, bit_xor-lt 8 c y hc hy))

xor_all_injective :
    (bs : List ℕ) (c d : ℕ)
    → c < 2 ^ 8
    → d < 2 ^ 8
    → AllBytes bs
    → xor_all c bs ≡ xor_all d bs
    → c ≡ d
xor_all_injective [] c d hc hd hb e = e
xor_all_injective (b ∷ bs) c d hc hd hb e =
    round_injective c d b hc hd hb.0 (
      xor_all_injective bs (u8 (bit_xor c b)) (u8 (bit_xor d b)) (omega arith) (omega arith) hb.1 e)

-- Replacing one byte by another changes the sum.
pub xor_all_detects :
    (pre post : List ℕ) (c x y : ℕ)
    → c < 2 ^ 8
    → x < 2 ^ 8
    → y < 2 ^ 8
    → x ≢ y
    → AllBytes post
    → xor_all c (pre ++ x ∷ post) ≢ xor_all c (pre ++ y ∷ post)
xor_all_detects [] post c x y hc hx hy ne hq e = ne (
    round_injective_left c x y hc hx hy (
      xor_all_injective post (u8 (bit_xor c x)) (u8 (bit_xor c y)) (omega arith) (omega arith) hq
        e))
xor_all_detects (b ∷ pre) post c x y hc hx hy ne hq e =
    xor_all_detects pre post (u8 (bit_xor c b)) x y (omega arith) hx hy ne hq e
