-- ===== src/Wire/Assemble.antt =====
-- `assemble` of serialize.cpp: the bytes of each read go into a frame, and what is left over waits in
-- a second buffer for the next call.
pub mod Copy
pub mod Waiting
pub mod Fill
pub mod Stream
use cg2111a_final_project.Base.{
  ℕ, zero, suc, ◌+◌, ◌-◌, List, Option, none, some, ◌>>=◌, length, get_elem?, store, leb, Bool,
  true, false, ◌==◌, if◌then◌else◌, replicate,
}
use cg2111a_final_project.Wire.Frame.{frame_size}

-- `TResult`
pub data Result : Type 0 where
  packet_ok packet_bad packet_checksum_bad packet_incomplete packet_complete : Result

-- The static variables of `assemble`, and `_privateBuffer`, which it is called with.
pub record Assembler : Type 0 where
  pub counter : ℕ
  pub leftover_flag : Bool
  pub leftover_count : ℕ
  pub leftover_buffer : List ℕ
  pub output : List ℕ

abbrev pub fresh : Assembler
fresh = record {
  counter = 0;
  leftover_flag = false;
  leftover_count = 0;
  leftover_buffer = replicate frame_size 0;
  output = replicate frame_size 0;
}

-- `for(i=0; i<n; i++) dst[to+i] = src[from+i];` with `n` rounds left.
unfoldable pub copy_range : ℕ → List ℕ → ℕ → List ℕ → ℕ → Option (List ℕ)
copy_range zero dst to src from = some dst
copy_range (suc n) dst to src from =
    get_elem? src from >>= λ b. store dst to b >>= λ dst'. copy_range n dst' (to + 1) src (from + 1)

-- "Copy in leftovers"
unfoldable pub unload : Assembler → Option Assembler
unload a =
    if a.leftover_flag
    then (let whole = leb a.leftover_count frame_size in
        let copy_count = if whole then a.leftover_count else frame_size in
        copy_range copy_count a.output a.counter a.leftover_buffer 0 >>= λ out. some (record {
          counter = a.counter + copy_count;
          leftover_flag = if whole then false else true;
          leftover_count = a.leftover_count - copy_count;
          leftover_buffer = a.leftover_buffer;
          output = out;
        }))
    else some a

-- `counter + len >= PACKET_SIZE`
unfoldable pub fills : Assembler → ℕ → Bool
fills a len = leb frame_size (a.counter + len)

-- What goes into this frame. `counter <= PACKET_SIZE` here, since `unload` faults otherwise.
unfoldable pub bytes_left : Assembler → ℕ → ℕ
bytes_left a len = if fills a len then frame_size - a.counter else len

-- "Copy to leftover buffer"
unfoldable pub set_aside : Assembler → List ℕ → Option Assembler
set_aside a input =
    let len = length input in
    let left = bytes_left a len in
    if fills a len
    then (copy_range (len - left) a.leftover_buffer a.leftover_count input left >>= λ buf.
        some (record a {
          leftover_flag = true;
          leftover_count = a.leftover_count + (len - left);
          leftover_buffer = buf;
        }))
    else some a

-- The final copy, and the test for a whole frame.
unfoldable pub fill : Assembler → List ℕ → ℕ → Option (Result × Assembler)
fill a input left = copy_range left a.output a.counter input 0 >>= λ out.
    let counter = a.counter + left in
    if counter == frame_size
    then some (packet_complete, record a { counter = 0; output = out })
    else some (packet_incomplete, record a { counter = counter; output = out })

-- `assemble(_privateBuffer, input, len)` with `len` the length of `input`; `none` is an access past
-- the end of an array.
unfoldable pub assemble : Assembler → List ℕ → Option (Result × Assembler)
assemble a input =
    unload a >>= λ a1. set_aside a1 input >>= λ a2. fill a2 input (bytes_left a1 (length input))
