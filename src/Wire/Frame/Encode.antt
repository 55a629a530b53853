-- ===== src/Wire/Frame/Encode.antt =====
-- `serialize` as one equation, and its faults.
use cg2111a_final_project.Base.{
  ℕ, ◌≤◌, ◌<◌, ◌≡◌, ap, sym, ◌∙◌, List, [], ◌++◌, none, some, arith, length, take, drop, u32, ltb,
  length-take, length-append, length-drop, take-append, take-append-drop, ltb→lt, ltb→le,
  some_injective, Bool-cases, inl, inr, if◌then◌else◌,
}
use cg2111a_final_project.Wire.Frame.{
  Comms, IsComms, magic_number, max_data_size, frame_size, bytes_of_comms, checksum_from,
  copy_front, serialize,
}
use cg2111a_final_project.Wire.Frame.Checksum.{xor_all, checksum_from_lem}
use cg2111a_final_project.Wire.Frame.Layout.{length-bytes_of_comms}

pub copy_front_fits :
    (dst src : List ℕ) (n : ℕ)
    → n ≤ length dst
    → n ≤ length src
    → copy_front dst src n ≡ some (take n src ++ drop n dst)
unfolding copy_front
copy_front_fits dst src n h k = ground arith

pub copy_front_faults : (dst src : List ℕ) (n : ℕ) → length dst < n → copy_front dst src n ≡ none
unfolding copy_front
copy_front_faults dst src n h = ground arith

-- The loop over the first `n` bytes of an array.
pub checksum_from_front :
    (n : ℕ) (xs : List ℕ) → n ≤ length xs → checksum_from n 0 xs 0 ≡ some (xor_all 0 (take n xs))
checksum_from_front n xs h =
    rw (take-append-drop n xs, sized) at (checksum_from_lem (take n xs) [] (drop n xs) 0)
  where
    sized : length (take n xs) ≡ n
    sized = omega (arith, length-take n xs)

-- What `comms` holds when `serialize` copies it out.
abbrev pub framed : Comms → List ℕ → ℕ → Comms
framed stack source size = record {
  magic = magic_number;
  data_size = u32 size;
  buffer = take size source ++ drop size stack.buffer;
  checksum = xor_all 0 (take size source);
  dummy = stack.dummy;
}

-- With a source of at least `size` bytes that fit the frame, `serialize` writes that frame.
pub serialize_lem :
    (stack : Comms) (source : List ℕ) (size : ℕ)
    → IsComms stack
    → size ≤ max_data_size
    → size ≤ length source
    → serialize stack source size ≡ some (bytes_of_comms (framed stack source size))
unfolding serialize
serialize_lem stack source size v h k = rw (
  copy_front_fits stack.buffer source size (omega (arith, v.buffer_fits)) k,
  checksum_from_front size filled (omega (arith, filled_fits)),
  take-append (take size source) (drop size stack.buffer) size (omega (arith, cut)),
)
  where
    filled : List ℕ
    filled = take size source ++ drop size stack.buffer

    cut : length (take size source) ≡ size
    cut = omega (arith, length-take size source)

    filled_fits : length filled ≡ max_data_size
    filled_fits = omega (
      arith,
      length-append (take size source) (drop size stack.buffer),
      length-drop size stack.buffer,
      cut,
      v.buffer_fits,
    )

pub framed-IsComms :
    (stack : Comms) (source : List ℕ) (size : ℕ)
    → IsComms stack
    → size ≤ max_data_size
    → size ≤ length source
    → IsComms (framed stack source size)
framed-IsComms stack source size v h k = record {
  magic_word = omega arith;
  size_word = omega arith;
  buffer_fits = omega (
    arith,
    length-append (take size source) (drop size stack.buffer),
    length-drop size stack.buffer,
    length-take size source,
    v.buffer_fits,
  );
  dummy_fits = v.dummy_fits;
}

-- From a source of at least `size` bytes, `serialize` writes the frame when `size` fits the
-- frame's 128 bytes, and goes out of bounds otherwise, whatever the stack held.
pub serialize_total :
    (stack : Comms) (source : List ℕ) (size : ℕ)
    → IsComms stack
    → size ≤ length source
    → serialize stack source size
      ≡ (if ltb max_data_size size then none else some (bytes_of_comms (framed stack source size)))
serialize_total stack source size v k = elim (Bool-cases (ltb max_data_size size)) [
  | inl over ↦ rw over (faults (ltb→lt max_data_size size over))
  | inr fits ↦ rw fits (serialize_lem stack source size v (ltb→le max_data_size size fits) k)
]
  where
    faults : max_data_size < size → serialize stack source size ≡ none
    faults h =
        unfold serialize in
        rw (copy_front_faults stack.buffer source size (omega (arith, v.buffer_fits)))

-- What `serialize` writes fills exactly PACKET_SIZE bytes.
pub length-serialize :
    (stack : Comms) (source frame : List ℕ) (size : ℕ)
    → IsComms stack
    → size ≤ max_data_size
    → size ≤ length source
    → serialize stack source size ≡ some frame
    → length frame ≡ frame_size
length-serialize stack source frame size v h k e =
    ap length (some_injective (sym e ∙ serialize_lem stack source size v h k))
    ∙ length-bytes_of_comms (framed stack source size) (framed-IsComms stack source size v h k)
