-- ===== src/Wire/Assemble/Waiting.antt =====
-- The static variables of `assemble` between two calls, and what the copy of the leftovers does.
use cg2111a_final_project.Base.{
  ℕ, ◌+◌, ◌-◌, ◌≤◌, ◌<◌, ◌≡◌, refl, ap, sym, ◌∙◌, ◌⊎◌, inl, inr, true, false, List, [], ◌++◌, some,
  arith, length, take, drop, length-append, length-take, split_at, append-nil, le→leb,
  take-append-drop,
}
use cg2111a_final_project.Wire.Frame.{frame_size}
use cg2111a_final_project.Wire.Assemble.{Assembler, copy_range, unload}
use cg2111a_final_project.Wire.Assemble.Copy.{copy_range_front}

-- The static variables between two calls: at most one buffer holds bytes of the next frame.
pub record IsAssembling (a : Assembler) : Type 0 where
  pub output_fits : length a.output ≡ frame_size
  pub leftover_fits : length a.leftover_buffer ≡ frame_size
  pub counter_in : a.counter < frame_size
  pub leftover_in : a.leftover_count < frame_size
  pub one_buffer :
      ((a.leftover_flag ≡ true) × (a.counter ≡ 0))
      ⊎ ((a.leftover_flag ≡ false) × (a.leftover_count ≡ 0))

-- The bytes that were received and belong to no whole frame yet.
abbrev pub pending : Assembler → List ℕ
pending a = take a.counter a.output ++ take a.leftover_count a.leftover_buffer

-- After `unload`: the pending bytes stand at the front of the output buffer.
abbrev pub unloaded : List ℕ → List ℕ → List ℕ → Assembler
unloaded waiting rest buf = record {
  counter = length waiting;
  leftover_flag = false;
  leftover_count = 0;
  leftover_buffer = buf;
  output = waiting ++ rest;
}

abbrev pub Unloads : Assembler → Type 0
Unloads a =
    (rest : List ℕ) × (length (pending a ++ rest) ≡ frame_size)
    × (unload a ≡ some (unloaded (pending a) rest a.leftover_buffer))

pub length-pending :
    (a : Assembler) → IsAssembling a → length (pending a) ≡ a.counter + a.leftover_count
length-pending a v = omega (
  arith,
  v.output_fits,
  v.leftover_fits,
  v.counter_in,
  v.leftover_in,
  length-append (take a.counter a.output) (take a.leftover_count a.leftover_buffer),
  length-take a.counter a.output,
  length-take a.leftover_count a.leftover_buffer,
)

-- Bytes wait in the second buffer.
unload_flagged :
    (count : ℕ) (buf old rest : List ℕ)
    → count ≤ frame_size
    → count ≤ length buf
    → length old ≡ count
    → unload (record {
      counter = 0;
      leftover_flag = true;
      leftover_count = count;
      leftover_buffer = buf;
      output = old ++ rest;
    })
      ≡ some (unloaded (take count buf) rest buf)
unfolding unload
unload_flagged count buf old rest h k e = rw (le→leb count frame_size h) (rw copied same)
  where
    cut : length (take count buf) ≡ count
    cut = omega (arith, length-take count buf)

    copied : copy_range count (old ++ rest) 0 buf 0 ≡ some (take count buf ++ rest)
    copied = rw (take-append-drop count buf) at (
        copy_range_front count 0 (take count buf) old [] rest (drop count buf) (sym cut) refl
          (e ∙ sym cut))

    same :
        (some (record {
          counter = 0 + count;
          leftover_flag = false;
          leftover_count = count - count;
          leftover_buffer = buf;
          output = take count buf ++ rest;
        }))
        ≡ some (unloaded (take count buf) rest buf)
    same = cc (the_counter, nothing_left)
      where
        the_counter : 0 + count ≡ length (take count buf)
        the_counter = omega (arith, cut)

        nothing_left : count - count ≡ 0
        nothing_left = omega arith

unload_from_flag :
    (a : Assembler) (old rest : List ℕ)
    → IsAssembling a
    → a.leftover_flag ≡ true
    → a.counter ≡ 0
    → a.output ≡ old ++ rest
    → length old ≡ a.leftover_count
    → Unloads a
unload_from_flag a old rest v flag none_yet e l = (
  rest,
  omega (
    arith,
    length-append (pending a) rest,
    length-append old rest,
    length-pending a v,
    ap length e,
    v.output_fits,
  ),
  ap unload shape
      ∙ unload_flagged a.leftover_count a.leftover_buffer old rest (omega (arith, v.leftover_in))
          (omega (arith, v.leftover_in, v.leftover_fits)) l
      ∙ ap (λ l. some (unloaded l rest a.leftover_buffer)) (sym waiting),
)
  where
    shape : a ≡ record {
      counter = 0;
      leftover_flag = true;
      leftover_count = a.leftover_count;
      leftover_buffer = a.leftover_buffer;
      output = old ++ rest;
    }
    shape = cc (none_yet, flag, e)

    waiting : pending a ≡ take a.leftover_count a.leftover_buffer
    waiting = ap (λ k. take k a.output ++ take a.leftover_count a.leftover_buffer) none_yet

unload_plain :
    (a : Assembler) → IsAssembling a → a.leftover_flag ≡ false → a.leftover_count ≡ 0 → Unloads a
unfolding unload
unload_plain a v flag none_left =
    (drop a.counter a.output, ap length whole ∙ v.output_fits, simp flag (ap some shape))
  where
    waiting : pending a ≡ take a.counter a.output
    waiting =
        ap (λ k. take a.counter a.output ++ take k a.leftover_buffer) none_left
        ∙ append-nil (take a.counter a.output)

    whole : pending a ++ drop a.counter a.output ≡ a.output
    whole = ap (λ l. l ++ drop a.counter a.output) waiting ∙ take-append-drop a.counter a.output

    counted : a.counter ≡ length (pending a)
    counted = omega (arith, length-pending a v)

    shape : a ≡ unloaded (pending a) (drop a.counter a.output) a.leftover_buffer
    shape = cc (counted, flag, none_left, whole)

pub unload_lem : (a : Assembler) → IsAssembling a → Unloads a
unload_lem a v = elim v.one_buffer [
  | inl (flag, none_yet) ↦
      let (old, rest, e, l) = split_at a.leftover_count a.output (omega (arith, v.output_fits)) in
      unload_from_flag a old rest v flag none_yet e l
  | inr (flag, none_left) ↦ unload_plain a v flag none_left
]

pub length-pending-lt : (a : Assembler) → IsAssembling a → length (pending a) < frame_size
length-pending-lt a v = elim v.one_buffer [
  | inl (flag, none_yet) ↦ omega (arith, length-pending a v, none_yet, v.leftover_in)
  | inr (flag, none_left) ↦ omega (arith, length-pending a v, none_left, v.counter_in)
]
