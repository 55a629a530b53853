-- ===== src/Wire/Assemble/Copy.antt =====
-- The copy loop over arrays that are written as blocks.
use cg2111a_final_project.Base.{
  ℕ, ◌≡◌, refl, List, [], ◌∷◌, ◌++◌, some, arith, length, get_elem?-append, store-append,
  length-snoc, append_assoc,
}
use cg2111a_final_project.Wire.Assemble.{copy_range}

-- The block `mid` of the source replaces the block `old` of the same length.
pub copy_range_lem :
    (mid old pre post spre spost : List ℕ)
    → length old ≡ length mid
    → copy_range
        (length mid)
        (pre ++ (old ++ post))
        (length pre)
        (spre ++ (mid ++ spost))
        (length spre)
      ≡ some (pre ++ (mid ++ post))
unfolding copy_range
copy_range_lem [] [] pre post spre spost e = refl
copy_range_lem [] (o ∷ old) pre post spre spost e = absurd (omega arith)
copy_range_lem (m ∷ mid) [] pre post spre spost e = absurd (omega arith)
copy_range_lem (m ∷ mid) (o ∷ old) pre post spre spost e =
    rw
      (
        get_elem?-append spre (mid ++ spost) m,
        store-append pre (old ++ post) o m,
        length-snoc spre m,
        length-snoc pre m,
        ← append_assoc pre (m ∷ []) (old ++ post),
        ← append_assoc spre (m ∷ []) (mid ++ spost),
        ← append_assoc pre (m ∷ []) (mid ++ post),
      )
      (copy_range_lem mid old (pre ++ m ∷ []) post (spre ++ m ∷ []) spost (omega arith))

-- At the start of the source, with numbers that are equal to the lengths.
pub copy_range_front :
    (n to : ℕ) (mid old pre post spost : List ℕ)
    → n ≡ length mid
    → to ≡ length pre
    → length old ≡ length mid
    → copy_range n (pre ++ (old ++ post)) to (mid ++ spost) 0 ≡ some (pre ++ (mid ++ post))
copy_range_front n to mid old pre post spost en et e =
    rw (en, et) (copy_range_lem mid old pre post [] spost e)
