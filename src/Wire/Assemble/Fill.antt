-- ===== src/Wire/Assemble/Fill.antt =====
-- What the second half of `assemble` does to the pending bytes, for a short and for a filling read.
use cg2111a_final_project.Base.{
  ℕ, ◌+◌, ◌-◌, ◌≤◌, ◌<◌, ◌≡◌, refl, ap, sym, ◌∙◌, inl, inr, true, List, [], ◌++◌, Option, none,
  some, ◌>>=◌, arith, length, take, drop, leb, if◌then◌else◌, length-append, take-append,
  drop-append, append_assoc, append-nil, le→leb, lt→leb, ==_iff, ne→==,
}
use cg2111a_final_project.Wire.Frame.{frame_size}
use cg2111a_final_project.Wire.Assemble.{
  Assembler, Result, packet_complete, packet_incomplete, copy_range, fills, bytes_left, set_aside,
  fill,
}
use cg2111a_final_project.Wire.Assemble.Waiting.{IsAssembling, pending, unloaded}
use cg2111a_final_project.Wire.Assemble.Copy.{copy_range_lem, copy_range_front}

-- What a call does to the stream: the specification of `assemble`.
abbrev pub absorb : List ℕ → List ℕ → Result × Option (List ℕ) × List ℕ
absorb waiting input =
    let all = waiting ++ input in
    if leb frame_size (length all)
    then (packet_complete, some (take frame_size all), drop frame_size all)
    else (packet_incomplete, none, all)

-- What a caller sees of a call: its result, the frame, if there is one, and what waits.
abbrev pub seen : Result × Assembler → Result × Option (List ℕ) × List ℕ
seen (packet_complete, a) = (packet_complete, some a.output, pending a)
seen (r, a) = (r, none, pending a)

-- A read that does not fill the frame: `old` is the part of the output buffer that it overwrites.
fill_short :
    (waiting old left buf input : List ℕ)
    → length old ≡ length input
    → length waiting + length input < frame_size
    → fill (unloaded waiting (old ++ left) buf) input (length input)
      ≡ some (packet_incomplete, unloaded (waiting ++ input) left buf)
unfolding fill
fill_short waiting old left buf input l h =
    rw (copied, ne→== (length waiting + length input) frame_size (omega arith))
      (cc (counted, joined))
  where
    copied :
        copy_range (length input) (waiting ++ (old ++ left)) (length waiting) input 0
        ≡ some (waiting ++ (input ++ left))
    copied =
        rw (append-nil input) at
          (copy_range_front (length input) (length waiting) input old waiting left [] refl refl l)

    counted : length waiting + length input ≡ length (waiting ++ input)
    counted = sym (length-append waiting input)

    joined : waiting ++ (input ++ left) ≡ (waiting ++ input) ++ left
    joined = sym (append_assoc waiting input left)

-- A read that fills the frame with `now`.
fill_whole :
    (a : Assembler) (waiting rest now later : List ℕ)
    → a.output ≡ waiting ++ rest
    → a.counter ≡ length waiting
    → length rest ≡ length now
    → length waiting + length now ≡ frame_size
    → fill a (now ++ later) (length now)
      ≡ some (packet_complete, record a { counter = 0; output = waiting ++ now })
unfolding fill
fill_whole a waiting rest now later eo ec l h =
    rw (copied, (==_iff (a.counter + length now) frame_size).1 (omega (arith, ec, h)))
  where
    copied : copy_range (length now) a.output a.counter (now ++ later) 0 ≡ some (waiting ++ now)
    copied =
        ap (λ o. copy_range (length now) o a.counter (now ++ later) 0) eo
        ∙ (rw (append-nil rest, append-nil now) at
            (copy_range_front (length now) a.counter now rest waiting [] later refl ec l))

-- The rest of that read goes into the second buffer.
set_aside_later :
    (waiting rest now later old left : List ℕ)
    → length rest ≡ length now
    → length waiting + length now ≡ frame_size
    → length old ≡ length later
    → set_aside (unloaded waiting rest (old ++ left)) (now ++ later)
      ≡ some (record (unloaded waiting rest (old ++ left)) {
        leftover_flag = true;
        leftover_count = length later;
        leftover_buffer = later ++ left;
      })
unfolding set_aside bytes_left fills
set_aside_later waiting rest now later old left lr lw lo =
    rw (le→leb frame_size (length waiting + length (now ++ later)) over, moved, room, copied)
      (cc counted)
  where
    sum : length (now ++ later) ≡ length now + length later
    sum = length-append now later

    over : frame_size ≤ length waiting + length (now ++ later)
    over = omega (arith, sum, lw)

    moved : length (now ++ later) - (frame_size - length waiting) ≡ length later
    moved = omega (arith, sum, lw)

    room : frame_size - length waiting ≡ length now
    room = omega (arith, lw)

    copied :
        copy_range (length later) (old ++ left) 0 (now ++ later) (length now) ≡ some (later ++ left)
    copied = rw (append-nil later) at (copy_range_lem later old [] left now [] lo)

    counted : 0 + length later ≡ length later
    counted = omega arith

-- `assemble` behind `unload`.
abbrev pub continue_with : Assembler → List ℕ → Option (Result × Assembler)
continue_with a input = set_aside a input >>= λ b. fill b input (bytes_left a (length input))

-- The two cases of `absorb`.
absorb_short :
    (waiting input : List ℕ)
    → length waiting + length input < frame_size
    → absorb waiting input ≡ (packet_incomplete, none, waiting ++ input)
absorb_short waiting input h =
    rw (lt→leb frame_size (length (waiting ++ input)) (omega (arith, length-append waiting input)))

absorb_whole :
    (waiting now later : List ℕ)
    → length waiting + length now ≡ frame_size
    → absorb waiting (now ++ later) ≡ (packet_complete, some (waiting ++ now), later)
absorb_whole waiting now later h = rw (
  ← append_assoc waiting now later,
  le→leb frame_size (length ((waiting ++ now) ++ later)) (omega (arith, total, block)),
  take-append (waiting ++ now) later frame_size (omega (arith, block)),
  drop-append (waiting ++ now) later frame_size (omega (arith, block)),
)
  where
    block : length (waiting ++ now) ≡ frame_size
    block = length-append waiting now ∙ h

    total : length ((waiting ++ now) ++ later) ≡ length (waiting ++ now) + length later
    total = length-append (waiting ++ now) later

abbrev pub Continues : List ℕ → List ℕ → List ℕ → List ℕ → Type 0
Continues waiting rest buf input =
    (ra : Result × Assembler) × (continue_with (unloaded waiting rest buf) input ≡ some ra)
    × IsAssembling ra.1
    × (seen ra ≡ absorb waiting input)

pub continue_short :
    (waiting old left buf input : List ℕ)
    → length (waiting ++ (old ++ left)) ≡ frame_size
    → length buf ≡ frame_size
    → length old ≡ length input
    → length waiting + length input < frame_size
    → Continues waiting (old ++ left) buf input
continue_short waiting old left buf input whole buf_fits l h =
    ((packet_incomplete, unloaded (waiting ++ input) left buf), runs, kept, same)
  where
    runs :
        continue_with (unloaded waiting (old ++ left) buf) input
        ≡ some (packet_incomplete, unloaded (waiting ++ input) left buf)
    runs =
        unfold set_aside bytes_left fills in
        rw (lt→leb frame_size (length waiting + length input) h)
          (fill_short waiting old left buf input l h)

    sum : length (waiting ++ input) ≡ length waiting + length input
    sum = length-append waiting input

    kept : IsAssembling (unloaded (waiting ++ input) left buf)
    kept = record {
      output_fits = omega (
        arith,
        sum,
        whole,
        length-append (waiting ++ input) left,
        length-append waiting (old ++ left),
        length-append old left,
      );
      leftover_fits = buf_fits;
      counter_in = omega (arith, sum);
      leftover_in = omega arith;
      one_buffer = inr (refl, refl);
    }

    same : seen (packet_incomplete, unloaded (waiting ++ input) left buf) ≡ absorb waiting input
    same = rw (
      absorb_short waiting input h,
      take-append (waiting ++ input) left (length (waiting ++ input)) refl,
      append-nil (waiting ++ input),
    )

pub continue_whole :
    (waiting rest now later old left : List ℕ)
    → length (waiting ++ rest) ≡ frame_size
    → length (old ++ left) ≡ frame_size
    → length now ≡ length rest
    → length old ≡ length later
    → length later < frame_size
    → Continues waiting rest (old ++ left) (now ++ later)
continue_whole waiting rest now later old left whole buf_fits ln lo hl =
    ((packet_complete, after), runs, kept, same)
  where
    after : Assembler
    after = record {
      counter = 0;
      leftover_flag = true;
      leftover_count = length later;
      leftover_buffer = later ++ left;
      output = waiting ++ now;
    }

    block : length waiting + length now ≡ frame_size
    block = omega (arith, length-append waiting rest, whole, ln)

    over : frame_size ≤ length waiting + length (now ++ later)
    over = omega (arith, length-append now later, block)

    room : frame_size - length waiting ≡ length now
    room = omega (arith, block)

    runs :
        continue_with (unloaded waiting rest (old ++ left)) (now ++ later)
        ≡ some (packet_complete, after)
    runs = rw (set_aside_later waiting rest now later old left (sym ln) block lo) (
        unfold bytes_left fills in
        rw (le→leb frame_size (length waiting + length (now ++ later)) over, room)
          (fill_whole
            (record (unloaded waiting rest (later ++ left)) {
              leftover_flag = true;
              leftover_count = length later;
            })
            waiting rest now later refl refl (sym ln) block))

    kept : IsAssembling after
    kept = record {
      output_fits = omega (arith, length-append waiting now, block);
      leftover_fits = omega (arith, length-append later left, length-append old left, buf_fits, lo);
      counter_in = omega arith;
      leftover_in = hl;
      one_buffer = inl (refl, refl);
    }

    same : seen (packet_complete, after) ≡ absorb waiting (now ++ later)
    same = rw (absorb_whole waiting now later block, take-append later left (length later) refl)
