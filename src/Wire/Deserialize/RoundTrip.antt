-- ===== src/Wire/Deserialize/RoundTrip.antt =====
-- A frame that `serialize` wrote, opened again, and frames that were damaged on the way.
use cg2111a_final_project.Base.{
  ℕ, ◌≤◌, ◌≡◌, refl, List, ◌++◌, some, arith, length, take, drop, u32, ==_refl, ==_iff, ◌==◌,
  if◌then◌else◌, length-take, take-append,
}
use cg2111a_final_project.Wire.Frame.{
  Comms, IsComms, magic_number, max_data_size, bytes_of_comms, serialize,
}
use cg2111a_final_project.Wire.Frame.Checksum.{xor_all}
use cg2111a_final_project.Wire.Frame.Layout.{comms_of_bytes-bytes_of_comms}
use cg2111a_final_project.Wire.Frame.Encode.{
  framed, framed-IsComms, serialize_lem, copy_front_fits, checksum_from_front,
}
use cg2111a_final_project.Wire.Assemble.{packet_ok, packet_checksum_bad}
use cg2111a_final_project.Wire.Deserialize.{open_frame}

-- What `open_frame` does with the bytes of a frame whose length field is in range.
pub open_frame_lem :
    (c : Comms) (output : List ℕ)
    → IsComms c
    → c.magic ≡ magic_number
    → c.data_size ≤ max_data_size
    → c.data_size ≤ length output
    → open_frame (bytes_of_comms c) output ≡ (
        if xor_all 0 (take c.data_size c.buffer) == c.checksum
        then some (packet_ok, take c.data_size c.buffer ++ drop c.data_size output)
        else some (packet_checksum_bad, output))
unfolding open_frame
open_frame_lem c output v m h k = rw (
  comms_of_bytes-bytes_of_comms c v,
  (==_iff c.magic magic_number).1 m,
  checksum_from_front c.data_size c.buffer in_buffer,
  copy_front_fits output c.buffer c.data_size k in_buffer,
)
  where
    in_buffer : c.data_size ≤ length c.buffer
    in_buffer = omega (arith, v.buffer_fits)

-- What `serialize` wrote of a payload of at most 128 bytes, from a source and for an object of at
-- least that many, is opened as PACKET_OK, and the first `size` bytes of the caller's object
-- become those of the source, whatever the stack held.
pub open_frame-serialize :
    (stack : Comms) (source output : List ℕ) (size : ℕ)
    → IsComms stack
    → size ≤ max_data_size
    → size ≤ length source
    → size ≤ length output
    → (frame : List ℕ) × (serialize stack source size ≡ some frame)
      × (open_frame frame output ≡ some (packet_ok, take size source ++ drop size output))
open_frame-serialize stack source output size v h k l =
    (bytes_of_comms sent, serialize_lem stack source size v h k, opened)
  where
    sent : Comms
    sent = framed stack source size

    word : u32 size ≡ size
    word = omega arith

    cut : take size (take size source ++ drop size stack.buffer) ≡ take size source
    cut =
        take-append (take size source) (drop size stack.buffer) size
          (omega (arith, length-take size source))

    opened :
        open_frame (bytes_of_comms sent) output
        ≡ some (packet_ok, take size source ++ drop size output)
    opened = rw (
      open_frame_lem sent output (framed-IsComms stack source size v h k) refl (omega arith)
          (omega arith),
      word,
      cut,
      ==_refl,
    )
