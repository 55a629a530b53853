-- ===== src/Wire/Assemble/Stream.antt =====
-- `assemble` cuts the stream of received bytes into frames: none is lost, repeated or moved.
use cg2111a_final_project.Base.{
  ℕ, ◌+◌, ◌≤◌, ◌<◌, ◌≡◌, refl, ap, subst, sym, ◌∙◌, inl, inr, List, [], ◌∷◌, ◌++◌, Option, none,
  some, ◌>>=◌, arith, length, ltb, leb, ltb→lt, ltb→le, Bool-cases, length-append, split_at,
  append_assoc, append-nil, take-append-drop,
}
use cg2111a_final_project.Wire.Frame.{frame_size}
use cg2111a_final_project.Wire.Assemble.{Assembler, Result, packet_complete, assemble}
use cg2111a_final_project.Wire.Assemble.Waiting.{
  IsAssembling, pending, length-pending-lt, unload_lem,
}
use cg2111a_final_project.Wire.Assemble.Fill.{
  absorb, seen, continue_with, Continues, continue_short, continue_whole,
}

abbrev Absorbs : Assembler → List ℕ → Option (Result × Assembler) → Type 0
Absorbs a input out =
    (ra : Result × Assembler) × (out ≡ some ra)
    × IsAssembling ra.1
    × (seen ra ≡ absorb (pending a) input)

continues :
    (waiting rest buf input : List ℕ)
    → length (waiting ++ rest) ≡ frame_size
    → length buf ≡ frame_size
    → length waiting < frame_size
    → length input ≤ frame_size
    → Continues waiting rest buf input
continues waiting rest buf input whole bf hw hi =
    elim (Bool-cases (ltb (length waiting + length input) frame_size)) [
      | inl short ↦
          let h : length waiting + length input < frame_size = ltb→lt _ _ short in
          let (old, left, e, l) = split_at (length input) rest (omega (arith, sum, h)) in
          subst (λ r. Continues waiting r buf input) (sym e)
            (continue_short waiting old left buf input
              (subst (λ r. length (waiting ++ r) ≡ frame_size) e whole) bf l h)
      | inr filled ↦
          let h : frame_size ≤ length waiting + length input = ltb→le _ _ filled in
          let (now, later, ei, ln) = split_at (length rest) input (omega (arith, sum, h)) in
          let total : length input ≡ length now + length later =
            ap length ei ∙ length-append now later in
          let (old, left, eb, lo) =
            split_at (length later) buf (omega (arith, sum, hi, total, bf)) in
          subst (λ i. Continues waiting rest buf i) (sym ei)
            (subst (λ b. Continues waiting rest b (now ++ later)) (sym eb)
              (continue_whole waiting rest now later old left whole
                (subst (λ b. length b ≡ frame_size) eb bf) ln lo (omega (arith, sum, ln, total))))
    ]
  where
    sum : length waiting + length rest ≡ frame_size
    sum = sym (length-append waiting rest) ∙ whole

-- From an assembler that satisfies its invariant, a call of `assemble` with at most PACKET_SIZE
-- bytes stays inside its arrays and keeps the
-- invariant. With the pending bytes and the new ones it returns the first PACKET_SIZE as a frame if
-- there are so many, and leaves the others pending.
pub assemble_absorbs :
    (a : Assembler) (input : List ℕ)
    → IsAssembling a
    → length input ≤ frame_size
    → (ra : Result × Assembler) × (assemble a input ≡ some ra)
      × IsAssembling ra.1
      × (seen ra ≡ absorb (pending a) input)
unfolding assemble
assemble_absorbs a input v h =
    let (rest, whole, e) = unload_lem a v in
    subst (λ o. Absorbs a input (o >>= λ b. continue_with b input)) (sym e)
      (continues (pending a) rest a.leftover_buffer input whole v.leftover_fits
        (length-pending-lt a v) h)

abbrev pub concat : List (List ℕ) → List ℕ
concat [] = []
concat (x ∷ xs) = x ++ concat xs

abbrev pub AllLengths : (ℕ → Type 0) → List (List ℕ) → Type 0
AllLengths P [] = Unit
AllLengths P (x ∷ xs) = P (length x) × AllLengths P xs

-- The frame of a call, if it was completed, in front of the later ones.
abbrev pub emit : Result × Assembler → List (List ℕ) → List (List ℕ)
emit (packet_complete, a) fs = a.output ∷ fs
emit (r, a) fs = fs

-- The calls of `assemble` for a sequence of reads, and the frames that they completed.
pub assemble_all : Assembler → List (List ℕ) → Option (List (List ℕ) × Assembler)
assemble_all a [] = some ([], a)
assemble_all a (x ∷ xs) =
    assemble a x >>= λ ra. assemble_all ra.1 xs >>= λ rest. some (emit ra rest.0, rest.1)

-- The bytes of a result in the order of the stream.
abbrev joined : Result × Option (List ℕ) × List ℕ → List ℕ
joined (r, some f, w) = f ++ w
joined (r, none, w) = w

joined-absorb : (waiting input : List ℕ) → joined (absorb waiting input) ≡ waiting ++ input
joined-absorb waiting input = elim (Bool-cases (leb frame_size (length (waiting ++ input)))) [
  | inl whole ↦ rw whole (take-append-drop frame_size (waiting ++ input))
  | inr short ↦ rw short
]

emit-joined :
    (ra : Result × Assembler) (fs : List (List ℕ)) (rest more : List ℕ)
    → concat fs ++ rest ≡ pending ra.1 ++ more
    → concat (emit ra fs) ++ rest ≡ joined (seen ra) ++ more
emit-joined (packet_complete, a) fs rest more e =
    append_assoc a.output (concat fs) rest
    ∙ ap (λ l. a.output ++ l) e
    ∙ sym (append_assoc a.output (pending a) more)
emit-joined (_, a) fs rest more e = e

emit-AllLengths :
    (ra : Result × Assembler) (fs : List (List ℕ))
    → IsAssembling ra.1
    → AllLengths (λ n. n ≡ frame_size) fs
    → AllLengths (λ n. n ≡ frame_size) (emit ra fs)
emit-AllLengths (packet_complete, a) fs v h = (v.output_fits, h)
emit-AllLengths (_, a) fs v h = h

-- From an assembler that satisfies its invariant, however the stream is cut into reads of at most PACKET_SIZE bytes, the calls stay inside their
-- arrays, the frames that come out have PACKET_SIZE bytes each, and in order they and the fewer
-- than PACKET_SIZE bytes still pending are the bytes pending before and those received.
pub assemble_all_stream :
    (reads : List (List ℕ)) (a : Assembler)
    → IsAssembling a
    → AllLengths (λ n. n ≤ frame_size) reads
    → (frames : List (List ℕ)) × (a' : Assembler) × (assemble_all a reads ≡ some (frames, a'))
      × IsAssembling a'
      × AllLengths (λ n. n ≡ frame_size) frames
      × (length (pending a') < frame_size)
      × (concat frames ++ pending a' ≡ pending a ++ concat reads)
unfolding assemble_all
assemble_all_stream [] a v h =
    ([], a, refl, v, tt, length-pending-lt a v, sym (append-nil (pending a)))
assemble_all_stream (x ∷ xs) a v h =
    let (ra, e, kept, same) = assemble_absorbs a x v h.0 in
    let (fs, a', runs, kept', sized, small, stream) = assemble_all_stream xs ra.1 kept h.1 in
    (
      emit ra fs,
      a',
      rw (e, runs),
      kept',
      emit-AllLengths ra fs kept sized,
      small,
      emit-joined ra fs (pending a') (concat xs) stream
          ∙ ap (λ l. l ++ concat xs) (ap joined same ∙ joined-absorb (pending a) x)
          ∙ append_assoc (pending a) x (concat xs),
    )
