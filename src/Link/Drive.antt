-- ===== src/Link/Drive.antt =====
-- Commands, from the client's ten bytes in `handleNetworkData` to the robot's `loop`.
use cg2111a_final_project.Base.{
  ℕ, ◌<◌, ◌^◌, ◌≡◌, refl, ◌∙◌, List, [], ◌∷◌, ◌++◌, append_assoc, some, ◌>>=◌,
}
use cg2111a_final_project.Wire.Packet.{Packet, IsPacket}
use cg2111a_final_project.Wire.Frame.{IsComms}
use cg2111a_final_project.Wire.Assemble.{Assembler, packet_ok}
use cg2111a_final_project.Wire.Assemble.Waiting.{pending}
use cg2111a_final_project.Wire.Deserialize.Framed.{Framed}
use cg2111a_final_project.Server.{Server, Conn, print, serial_write, command_received}
use cg2111a_final_project.Server.Commands.{Stack, command_of, command_packet, handle_network_data}
use cg2111a_final_project.Server.Relay.{
  command_bytes, command_packet-IsPacket, handle_network_data_framed,
}
use cg2111a_final_project.Uart.{Uart}
use cg2111a_final_project.Robot.{Floats, Robot}
use cg2111a_final_project.Robot.Encoders.{supervise}
use cg2111a_final_project.Robot.Commands.{Input, handle_command, handle_packet, on_packet, loop}
use cg2111a_final_project.Robot.Hello.Rounds.{IsIdle}
use cg2111a_final_project.Robot.Hello.Greeted.{AllFit, stream}
use cg2111a_final_project.Robot.Serve.{Turn, preceded, serve}
use cg2111a_final_project.Robot.Serve.Served.{rounds_of, supervised, served}

-- A command that the Pi relays: its shared variables before and after, what its stack held, the
-- connection, the letter with its code and parameters, what follows them in the buffer, and the frame.
pub record Order : Type 0 where
  pub before : Server
  pub after : Server
  pub stack : Stack
  pub conn : Conn
  pub cmd : ℕ
  pub code : ℕ
  pub param0 : ℕ
  pub param1 : ℕ
  pub rest : List ℕ
  pub frame : List ℕ

-- The letter is one that the Pi knows, the parameters are below 2^32, and the Pi writes the frame to the
-- serial port.
pub record IsRelayed (o : Order) : Type 0 where
  pub comms : IsComms o.stack.comms
  pub packet : IsPacket o.stack.packet
  pub param0_fits : o.param0 < 2 ^ 32
  pub param1_fits : o.param1 < 2 ^ 32
  pub known : command_of o.cmd ≡ some o.code
  pub relayed :
      handle_network_data o.before o.stack o.conn (command_bytes o.cmd o.param0 o.param1 o.rest)
      ≡ some (o.after, print (command_received o.cmd o.param0 o.param1) ∷ serial_write o.frame ∷ [])

abbrev pub AllRelayed : List Order → Type 0
AllRelayed [] = Unit
AllRelayed (o ∷ os) = IsRelayed o × AllRelayed os

abbrev pub packet_of : Order → Packet
packet_of o = command_packet o.stack.packet o.code o.param0 o.param1

abbrev pub frames_of : List Order → List ℕ
frames_of [] = []
frames_of (o ∷ os) = o.frame ++ frames_of os

-- The robot's turns `front ++ turn ∷ ts`: in those of `front` it only supervises its motors, in `turn` it
-- handles the command, and after that the same holds of the commands that follow, up to an idle port
-- with `more` left to be read.
abbrev pub AllServed : Floats → List Order → List ℕ → List Turn → Robot → Uart → Assembler → Type 0
AllServed f [] more turns r u asm =
    IsIdle u asm × AllFit (rounds_of turns) × (pending asm ++ stream (rounds_of turns) ≡ more)
AllServed f (o ∷ os) more turns r u asm =
    (front : List Turn) × (turn : Turn) × (ts : List Turn) × (u' : Uart) × (asm' : Assembler)
    × (turns ≡ front ++ turn ∷ ts)
    × (serve f turns r u asm ≡ (
        let out = handle_command f turn.input (supervised f front r) (packet_of o) in
        serve f ts (supervise f out.0) u' asm' >>= preceded out.1))
    × AllServed f os more ts
        (supervise f (handle_command f turn.input (supervised f front r) (packet_of o)).0) u' asm'

IsRelayed-Framed : (o : Order) → IsRelayed o → Framed (packet_of o) o.frame
IsRelayed-Framed o v = (
  o.stack.comms,
  v.comms,
  command_packet-IsPacket o.stack.packet o.code o.param0 o.param1 v.packet v.param0_fits
      v.param1_fits,
  handle_network_data_framed o.before o.after o.stack o.conn o.cmd o.code o.param0 o.param1 o.rest
      o.frame v.param0_fits v.param1_fits v.known v.relayed,
)

loop_command :
    (f : Floats) (i : Input) (r : Robot) (o : Order)
    → loop f i r packet_ok (packet_of o)
      ≡ (let out = handle_command f i r (packet_of o) in (supervise f out.0, out.1))
unfolding loop on_packet handle_packet command_packet
loop_command f i r o = refl

-- For each of any commands in a row, the Pi gets a letter that it knows with two parameters below 2^32
-- and writes a frame to the serial port, whatever packet and frame its stack held before. However the
-- bytes of these frames and of what follows them are spread over the calls of the robot's `loop`, none of
-- which meets more than a frame's bytes: if they begin at an idle port, the robot's loop handles the
-- Pi's packets for the commands once each and in order, each in the call in which its frame is
-- whole; in the calls between it only supervises the motors, and the bytes after the last frame wait or
-- are still to arrive.
pub commands_served :
    (os : List Order) (more : List ℕ) (f : Floats) (turns : List Turn) (r : Robot) (u : Uart)
    (asm : Assembler)
    → AllRelayed os
    → IsIdle u asm
    → AllFit (rounds_of turns)
    → pending asm ++ stream (rounds_of turns) ≡ frames_of os ++ more
    → AllServed f os more turns r u asm
commands_served [] more f turns r u asm v idle fit cut = (idle, fit, cut)
commands_served (o ∷ os) more f turns r u asm v idle fit cut =
    let h =
      served f turns r u asm (packet_of o) o.frame (frames_of os ++ more) idle fit
        (IsRelayed-Framed o v.0) (cut ∙ append_assoc o.frame (frames_of os) more) in
    (
      h.front,
      h.turn,
      h.ts,
      h.u',
      h.a',
      h.split,
      h.run ∙ rw (loop_command f h.turn.input (supervised f h.front r) o) refl,
      commands_served os more f h.ts
          (supervise f (handle_command f h.turn.input (supervised f h.front r) (packet_of o)).0)
          h.u' h.a' v.1 h.idle h.fit h.left,
    )
