-- ===== src/Wire/Frame.antt =====
-- `TComms` and `serialize` of serialize.cpp: a frame of 140 bytes with a magic number, a length and
-- a checksum. `TComms` has no padding: 4 + 4 + 128 + 1 + 3 bytes.
pub mod Layout
pub mod Checksum
pub mod Encode
use cg2111a_final_project.Base.{
  ℕ, zero, suc, ◌+◌, ◌^◌, ◌<◌, ◌≡◌, List, ◌∷◌, ◌++◌, Option, none, some, ◌>>=◌, length, take, drop,
  get_or, get_elem?, ltb, if◌then◌else◌, u8, u32, bit_xor, u32_bytes, u32_of_bytes,
}

abbrev pub magic_number : ℕ
magic_number = 0xFCFDFEFF

-- `PACKET_SIZE`, which is `sizeof(TComms)`
abbrev pub frame_size : ℕ
frame_size = 140

abbrev pub max_data_size : ℕ
max_data_size = 128

pub record Comms : Type 0 where
  pub magic : ℕ
  pub data_size : ℕ
  pub buffer : List ℕ
  pub checksum : ℕ
  pub dummy : List ℕ

pub record IsComms (c : Comms) : Type 0 where
  pub magic_word : c.magic < 2 ^ 32
  pub size_word : c.data_size < 2 ^ 32
  pub buffer_fits : length c.buffer ≡ max_data_size
  pub dummy_fits : length c.dummy ≡ 3

unfoldable pub bytes_of_comms : Comms → List ℕ
bytes_of_comms c =
    u32_bytes c.magic ++ (u32_bytes c.data_size ++ (c.buffer ++ (c.checksum ∷ c.dummy)))

-- The cast `(TComms *) _privateBuffer`.
unfoldable pub comms_of_bytes : List ℕ → Comms
comms_of_bytes bs = record {
  magic = u32_of_bytes (take 4 bs);
  data_size = u32_of_bytes (take 4 (drop 4 bs));
  buffer = take max_data_size (drop 8 bs);
  checksum = get_or (drop 136 bs) 0 0;
  dummy = take 3 (drop 137 bs);
}

-- `for(i=0; i<n; i++) checksum ^= buffer[i];` with `n` rounds left at index `i`; `none` is a read
-- past the end of the array.
unfoldable pub checksum_from : ℕ → ℕ → List ℕ → ℕ → Option ℕ
checksum_from zero i buffer c = some c
checksum_from (suc n) i buffer c =
    get_elem? buffer i >>= λ b. checksum_from n (i + 1) buffer (u8 (bit_xor c b))

-- `memcpy(dst, src, n)` at the start of the array `dst`; `none` is an access past the end of either.
unfoldable pub copy_front : List ℕ → List ℕ → ℕ → Option (List ℕ)
copy_front dst src n =
    if ltb (length dst) n
    then none
    else (if ltb (length src) n then none else some (take n src ++ drop n dst))

-- `serialize(buffer, dataStructure, size)`: what is written to `buffer`. `stack` holds what the
-- local variable `comms` held before; it stands in every byte that is not assigned.
unfoldable pub serialize : Comms → List ℕ → ℕ → Option (List ℕ)
serialize stack source size = copy_front stack.buffer source size >>= λ filled.
    checksum_from size 0 filled 0 >>= λ sum. some (
      bytes_of_comms (record {
        magic = magic_number;
        data_size = u32 size;
        buffer = filled;
        checksum = sum;
        dummy = stack.dummy;
      }))
