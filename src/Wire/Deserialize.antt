-- ===== src/Wire/Deserialize.antt =====
-- `deserialize` of serialize.cpp.
pub mod RoundTrip
pub mod PacketFrame
pub mod Damage
pub mod Split
pub mod Framed
use cg2111a_final_project.Base.{ℕ, List, Option, none, some, ◌>>=◌, ◌==◌, if◌then◌else◌}
use cg2111a_final_project.Wire.Frame.{
  Comms, magic_number, comms_of_bytes, checksum_from, copy_front,
}
use cg2111a_final_project.Wire.Assemble.{
  Assembler, Result, packet_ok, packet_bad, packet_checksum_bad, packet_incomplete, packet_complete,
  assemble,
}

-- What `deserialize` does with a whole frame: its result and the caller's object afterwards.
unfoldable pub open_frame : List ℕ → List ℕ → Option (Result × List ℕ)
open_frame frame output =
    let comms = comms_of_bytes frame in
    if comms.magic == magic_number
    then (checksum_from comms.data_size 0 comms.buffer 0 >>= λ sum.
        if sum == comms.checksum
        then (copy_front output comms.buffer comms.data_size >>= λ out. some (packet_ok, out))
        else some (packet_checksum_bad, output))
    else some (packet_bad, output)

unfoldable pub on_result : List ℕ → Result × Assembler → Option (Result × List ℕ × Assembler)
on_result output (packet_complete, a) = open_frame a.output output >>= λ (r, out). some (r, out, a)
on_result output (r, a) = some (r, output, a)

-- `deserialize(buffer, len, output)` with `len` the length of `buffer`.
unfoldable pub deserialize : Assembler → List ℕ → List ℕ → Option (Result × List ℕ × Assembler)
deserialize a input output = assemble a input >>= λ ra. on_result output ra
