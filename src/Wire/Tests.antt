-- ===== src/Wire/Tests.antt =====
-- The theorems on the wire format at concrete packets, frames and reads.
use cg2111a_final_project.Base.{
  ◌==◌, ℕ, ◌<◌, ◌^◌, u32_bytes, ◌≡◌, refl, List, [], ◌∷◌, ◌++◌, none, some, arith, inr, length,
  take, drop, replicate, if◌then◌else◌, ltb,
}
use cg2111a_final_project.Wire.Packet.{Packet, IsPacket}
use cg2111a_final_project.Wire.Frame.{
  Comms, IsComms, magic_number, frame_size, max_data_size, bytes_of_comms, copy_front,
  checksum_from, serialize,
}
use cg2111a_final_project.Wire.Frame.Checksum.{xor_all}
use cg2111a_final_project.Wire.Frame.Encode.{framed, serialize_total}
use cg2111a_final_project.Wire.Assemble.{
  Assembler, Result, fresh, packet_ok, packet_bad, packet_checksum_bad, packet_incomplete, assemble,
}
use cg2111a_final_project.Wire.Assemble.Waiting.{IsAssembling, pending}
use cg2111a_final_project.Wire.Assemble.Fill.{absorb, seen}
use cg2111a_final_project.Wire.Assemble.Stream.{
  assemble_absorbs, assemble_all, assemble_all_stream, concat, AllLengths,
}
use cg2111a_final_project.Wire.Deserialize.{open_frame, deserialize}
use cg2111a_final_project.Wire.Deserialize.RoundTrip.{open_frame-serialize}
use cg2111a_final_project.Wire.Deserialize.Damage.{open_frame_damaged, open_frame_total}
use cg2111a_final_project.Wire.Deserialize.Split.{deserialize-serialize_split}

abbrev hello_packet : Packet
hello_packet = record {
  packet_type = 8;
  command = 3;
  dummy = 0 ∷ 0 ∷ [];
  text = b'h' ∷ b'i' ∷ replicate 30 0;
  params = 70000 ∷ 5 ∷ replicate 14 0;
}

hello_packet-IsPacket : IsPacket hello_packet
hello_packet-IsPacket = record {
  dummy_fits = refl;
  text_fits = refl;
  params_fit = refl;
  params_words = (
    omega arith,
    (
      omega arith,
      (
        small,
        (
          small,
          (
            small,
            (
              small,
              (
                small,
                (small, (small, (small, (small, (small, (small, (small, (small, (small, tt))))))))),
              ),
            ),
          ),
        ),
      ),
    ),
  );
}
  where
    small : 0 < 2 ^ 32
    small = omega arith

-- A frame on a stack of zeros.
abbrev pub blank : Comms
blank = record {
  magic = 0;
  data_size = 0;
  buffer = replicate max_data_size 0;
  checksum = 0;
  dummy = replicate 3 0;
}

pub blank-IsComms : IsComms blank
blank-IsComms = record {
  magic_word = omega arith;
  size_word = omega arith;
  buffer_fits = refl;
  dummy_fits = refl;
}

abbrev oversized : Comms
oversized = record blank { magic = magic_number; data_size = 200 }

oversized-IsComms : IsComms oversized
oversized-IsComms = record {
  magic_word = omega arith;
  size_word = omega arith;
  buffer_fits = refl;
  dummy_fits = refl;
}

abbrev pub payload : List ℕ
payload = 7 ∷ 20 ∷ 255 ∷ []

serialize_total_example :
    serialize blank payload 3
    ≡ (if ltb max_data_size 3 then none else some (bytes_of_comms (framed blank payload 3)))
serialize_total_example = serialize_total blank payload 3 blank-IsComms (omega arith)

open_frame-serialize_example :
    (frame : List ℕ) × (serialize blank payload 3 ≡ some frame)
    × (open_frame frame (replicate 5 1)
        ≡ some (packet_ok, take 3 payload ++ drop 3 (replicate 5 1)))
open_frame-serialize_example =
    open_frame-serialize blank payload (replicate 5 1) 3 blank-IsComms (omega arith) (omega arith)
      (omega arith)

open_frame_total_example : open_frame (bytes_of_comms blank) payload ≡ (
    if 0 == magic_number
    then (if ltb max_data_size 0
        then none
        else (if xor_all 0 (take 0 blank.buffer) == 0
            then (if ltb 3 0 then none else some (packet_ok, take 0 blank.buffer ++ drop 0 payload))
            else some (packet_checksum_bad, payload)))
    else some (packet_bad, payload))
open_frame_total_example = open_frame_total blank payload blank-IsComms

open_frame_damaged_example :
    (front back : List ℕ) × (serialize blank payload 3 ≡ some (front ++ 20 ∷ back))
    × (length front ≡ 9)
    × (open_frame (front ++ 21 ∷ back) (replicate 5 1) ≡ some (packet_checksum_bad, replicate 5 1))
open_frame_damaged_example =
    open_frame_damaged blank (7 ∷ []) (255 ∷ []) (replicate 5 1) 20 21 blank-IsComms (omega arith)
      (omega arith) (omega arith, tt) (omega arith) (omega arith) (λ e. cc)

pub fresh-IsAssembling : IsAssembling fresh
fresh-IsAssembling = record {
  output_fits = refl;
  leftover_fits = refl;
  counter_in = omega arith;
  leftover_in = omega arith;
  one_buffer = inr (refl, refl);
}

abbrev reads : List (List ℕ)
reads = replicate 100 3 ∷ replicate 90 4 ∷ replicate 140 5 ∷ []

assemble_absorbs_example :
    (ra : Result × Assembler) × (assemble fresh (replicate 100 3) ≡ some ra)
    × IsAssembling ra.1
    × (seen ra ≡ absorb (pending fresh) (replicate 100 3))
assemble_absorbs_example = assemble_absorbs fresh (replicate 100 3) fresh-IsAssembling (omega arith)

assemble_all_stream_example :
    (frames : List (List ℕ)) × (a' : Assembler) × (assemble_all fresh reads ≡ some (frames, a'))
    × IsAssembling a'
    × AllLengths (λ n. n ≡ frame_size) frames
    × (length (pending a') < frame_size)
    × (concat frames ++ pending a' ≡ pending fresh ++ concat reads)
assemble_all_stream_example =
    assemble_all_stream reads fresh fresh-IsAssembling
      (omega arith, (omega arith, (omega arith, tt)))

abbrev front_bytes : List ℕ
front_bytes = take 50 (bytes_of_comms (framed blank payload 3))

abbrev back_bytes : List ℕ
back_bytes = drop 50 (bytes_of_comms (framed blank payload 3))

payload_sent : serialize blank payload 3 ≡ some (front_bytes ++ back_bytes)
unfolding serialize copy_front checksum_from bytes_of_comms u32_bytes
payload_sent = refl

front_short : length front_bytes < frame_size
unfolding bytes_of_comms u32_bytes
front_short = omega arith

deserialize-serialize_split_example :
    (a1 : Assembler) × (a2 : Assembler) × (deserialize fresh front_bytes (replicate 5 1)
      ≡ some (packet_incomplete, replicate 5 1, a1))
    × (deserialize a1 back_bytes (replicate 5 1)
        ≡ some (packet_ok, take 3 payload ++ drop 3 (replicate 5 1), a2))
    × IsAssembling a2
    × (pending a2 ≡ [])
deserialize-serialize_split_example =
    deserialize-serialize_split blank payload (replicate 5 1) front_bytes back_bytes 3 fresh
      blank-IsComms (omega arith) (omega arith) (omega arith) fresh-IsAssembling refl payload_sent
      front_short
