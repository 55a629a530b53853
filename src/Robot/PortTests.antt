-- ===== src/Robot/PortTests.antt =====
-- The theorems on the serial reads of the Arduino at a concrete frame.
use cg2111a_final_project.Base.{
  ◌==◌, ◌≡◌, refl, inl, [], ◌∷◌, ◌++◌, none, some, arith, length, take, drop, replicate, leb,
  if◌then◌else◌, u32_bytes, List, false, ℕ,
}
use cg2111a_final_project.Wire.Frame.{bytes_of_comms, checksum_from, copy_front, serialize}
use cg2111a_final_project.Wire.Frame.Encode.{framed}
use cg2111a_final_project.Wire.Assemble.{packet_ok, Assembler, fresh}
use cg2111a_final_project.Wire.Assemble.Waiting.{IsAssembling, pending}
use cg2111a_final_project.Wire.Tests.{blank, blank-IsComms, payload, fresh-IsAssembling}
use cg2111a_final_project.Uart.{
  Uart, buffer_size, write_slot, write_interrupted, write, interrupts, interrupt, tx_interrupt,
}
use cg2111a_final_project.Uart.Cbuffer as Cbuffer
use cg2111a_final_project.Uart.Arrays.{undisturbed}
use cg2111a_final_project.Uart.Fifo.{IsUart, to_read}
use cg2111a_final_project.Uart.Tests.{port, clear-IsRing}
use cg2111a_final_project.Robot.Port.{read_serial, read_packet, remaining, read_serial_total}
use cg2111a_final_project.Robot.Receive.{read_packet_receives}
use cg2111a_final_project.Wire.Packet.{packet_size, bytes_of_packet, words_bytes}
use cg2111a_final_project.Wire.Deserialize.{open_frame}
use cg2111a_final_project.Uart.Fifo.{to_send}
use cg2111a_final_project.Uart.Tests.{port-IsUart}
use cg2111a_final_project.Server.Tests.{blank_packet, blank_packet-IsPacket}
use cg2111a_final_project.Robot.Send.{Hardware, Undisturbed, send_response, send_response_sends}

-- A port where a frame waits.
abbrev loaded : Uart
loaded = record port {
  rx_buffer = record {
    array = 0 ∷ (bytes_of_comms (framed blank payload 3) ++ replicate 371 0);
    head = 140;
    tail = 0;
  };
}

loaded-IsUart : IsUart loaded
unfolding bytes_of_comms u32_bytes
loaded-IsUart = record {
  rx_ring = record { array_fits = refl; head_in = omega arith; tail_in = omega arith };
  tx_ring = clear-IsRing;
  announced = inl refl;
}

loaded_frame : serialize blank payload 3 ≡ some (to_read loaded)
unfolding serialize copy_front checksum_from bytes_of_comms u32_bytes
loaded_frame = refl

read_serial_total_example :
    remaining (read_serial buffer_size loaded [])
    ≡ (if leb (length (to_read loaded)) 140 then some (to_read loaded, []) else none)
read_serial_total_example = read_serial_total loaded loaded-IsUart

read_packet_receives_example :
    (u' : Uart) × (a' : Assembler) × (read_packet loaded fresh (replicate 5 1)
      ≡ some (u', (packet_ok, take 3 payload ++ drop 3 (replicate 5 1), a')))
    × IsUart u'
    × (to_read u' ≡ [])
    × IsAssembling a'
    × (pending a' ≡ [])
read_packet_receives_example =
    read_packet_receives blank payload (replicate 5 1) 3 loaded fresh blank-IsComms (omega arith)
      (omega arith) (omega arith) loaded-IsUart loaded_frame fresh-IsAssembling refl

-- The first byte waits, an interrupt comes inside the second write, and one before each later byte.
abbrev busy : Hardware
busy = record { before = λ i. if leb i 1 then 0 else 1; udre0 = λ i. false; inside = λ i. i == 1 }

busy-Undisturbed : Undisturbed blank port busy blank_packet
unfolding undisturbed write_slot write_interrupted write interrupts interrupt tx_interrupt
    Cbuffer.write Cbuffer.read Cbuffer.is_full Cbuffer.is_empty Cbuffer.advance_head
    Cbuffer.store_item serialize copy_front checksum_from bytes_of_comms u32_bytes bytes_of_packet
    words_bytes
busy-Undisturbed = refl

send_response_sends_example :
    (frame : List ℕ) × (u' : Uart) × (out : List ℕ) × (send_response blank port busy blank_packet
      ≡ some (u', out))
    × IsUart u'
    × (to_send port ++ frame ≡ out ++ to_send u')
    × (open_frame frame (replicate packet_size 0) ≡ some (packet_ok, bytes_of_packet blank_packet))
send_response_sends_example =
    send_response_sends blank port busy blank_packet (replicate packet_size 0) blank-IsComms
      blank_packet-IsPacket port-IsUart (omega arith) refl busy-Undisturbed
