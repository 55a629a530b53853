-- ===== src/Lib.antt =====
-- A verification library for the remote-controlled robot Alex. The operator's client
-- (W9S2_TLS_Client) talks over TLS to a server on a Raspberry Pi (W9S2_TLS_Server), and the server
-- talks over a serial line to the Arduino that drives the robot (Working/Alex-a). A command is ten
-- bytes from the client; the server makes a packet of it, puts the packet into a frame and writes the
-- frame to the serial line. Answers are packets of the Arduino, from which the server takes the
-- parameters and passes them on to the client it heard from last.
--
-- Files:
--   Wire        W9S2_TLS_Server/serialize.cpp, packet.h, constants.h, netconstants.h.
--     Packet      TPacket and its 100 bytes.
--     Frame       TComms and its 140 bytes, `serialize`. Frame/Layout, Frame/Checksum and Frame/Encode
--                 have the lemmas.
--     Assemble    `assemble` with its static variables as the record Assembler. Assemble/Copy, /Waiting
--                 and /Fill have the lemmas, /Stream what holds of a sequence of calls.
--     Deserialize `deserialize`: `open_frame` is its work on a whole frame.
--   Server      W9S2_TLS_Server/tls-alex-server.cpp. The record Server is `networkActive` and `tls_conn`;
--               a handler returns the new state and its effects in order (prints, writes to the
--               connection, writes to the serial port).
--     Uart        the handlers for packets of the Arduino, from `handleUARTPacket` down.
--     Commands    `handleNetworkData`, `handleCommand`, `uartSendPacket`, `sendHello`.
--     Threads     one round of `uartReceiveThread` and of `worker`.
--     Receive     `uartReceiveThread` round after round; Receive/Received has its proof.
--     System      the threads as a step relation: the accesses of a thread to `networkActive` and
--                 `tls_conn` are steps of their own, since `sslRead` and `sslWrite` block.
--     Start       the settings and the call of `createServer` in `main`.
--     Sending, Relay, Silence   proofs.
--   Client      W9S2_TLS_Client/tls-alex-client.cpp. The record Client is `networkActive`, `manualMode`
--               and the flag that `stopClient` sets.
--     Reader      `handleNetwork`, its handlers and one round of `readerThread`.
--     Keys, Writer   the two key tables of `writerThread`, and one round of it.
--     Start       `connectToServer`, and what `main` sets.
--     Known, Mode    proofs.
--   Link        the client, the server and the Arduino together: Drive takes commands to the robot's
--               loop, Status its counters to the client's screen, Toggle the drive mode.
--   Uart        Working/Alex-a/uart.h and uart.cpp: the Arduino's end of the serial line.
--     Cbuffer     cbuffer.h, the circular buffer; Cbuffer/Index and /Count have the lemmas, /Queue the
--                 queue that it is compared with.
--     Fifo, Traffic   the calls and interrupts one by one, and in sequence.
--     Drained, Interrupted, Arrays   the writes of a whole array, with interrupts between and inside them.
--     Race        an interrupt between the two assignments of `CBuffer::write`.
--   Tls         tls_common_lib.cpp, make_tls_server.cpp, make_tls_client.cpp, tls_server_lib.cpp,
--               tls_client_lib.cpp and tls_pthread.cpp of W9S2_TLS_Server and W9S2_TLS_Client.
--     Names       arrays that hold a name, and Settings what is kept of the names given.
--     Common      contexts, sessions and the test of a certificate.
--     Listener    `createServer` and `_tls_listener`; Listener/Trust whom it lets in.
--     Locks       tls_pthread.cpp: the callback that takes and gives back locks; Locks/Entry its steps
--                 on one lock, Locks/Exclusive and Locks/Life the proofs.
--     Dialer      `createClient` and `_client_loop`; Dialer/Threads when it starts its two threads.
--   Robot       Working/Alex-a/Alex-a.ino and robotlib.ino. The record Robot is the sketch's variables;
--               what the floating-point computations give is the record Floats.
--     Direction, Moves   constants.h, `move`, `forward` to `cw`, `left`, `right`.
--     Encoders    the interrupts, the counters, and the half of `loop` that stops the robot.
--     Replies     the packets that the Arduino sends.
--     Commands    `handleCommand`, `handlePacket`, `loop`.
--     Port        `readSerial` and `readPacket` over the serial port of Uart.
--     Send        `sendResponse`, down to the bytes that go out while the transmit interrupt runs.
--     Hello       `waitForHello`, one call of `readPacket` after the other; Hello/Rounds and
--                 Hello/Greeted have the proofs.
--     Setup       `setup` and the registers that it sets; Setup/Ready what it leaves behind.
--     Reckoning   the computations behind Floats, over a `float` that is a parameter.
--     Modes, Drive, Going, Journey, Receive   proofs.
--   Sensors     ultrasound.ino, colorsensor.ino and buzzer.ino of Working/Alex-a.
--     Floating    `float` as a record of operations.
--     Ultrasound  `getDistance` with the interrupt of the echo pin and Timer 5; Ultrasound/Echo and
--                 Ultrasound/Measured have the proofs.
--     Colour      `getColor` and `color_dist`; Colour/Least and Colour/Classified have the proofs.
--     Buzzer      the tunes: Buzzer/Notes and Buzzer/Songs their tables, Buzzer/Played their proofs.
--   Sketch      Working/Alex-sb, the older sketch of the robot: Codes its constants, Encoders, Replies and
--               Commands its functions, Agreement how it compares with Robot.
--   Bench       the bench sketches of the colour sensor: Calibration is Working/coloursensorTest, with
--               its proofs in Endpoints, and Mapped is Working/coloursensor_main.
--   Serial      W9S2_TLS_Server/serial.cpp and serial.h: the Pi's end of the serial line; Serial/Attempts
--               has the loop that opens it.
--   Base        lists with bounds, options, Boolean tests, machine words, exclusive or, and the rules for
--               `switch` statements.
-- Each Tests file has the theorems at concrete inputs.
--
-- Conventions. A `char` is its byte, a number below 256; a `uint32_t` is a number with the wrap-around
-- written out (`u32`), least significant byte first in memory. A read or write outside an array is
-- `none`. Local variables that the code does not initialise are parameters (`Stack`, `Outcome.unset`),
-- so the theorems hold whatever they contain. What a library call returns (`sslRead`, `sslWrite`,
-- `serialRead`, `clock`, the keyboard) is a parameter of a round. Loops over arrays are recursion on the
-- number of rounds left. Only `readSerial` has fuel: 512 rounds, one more than its port's buffer can hold.
-- The endless loops are one definition per round; Robot/Serve and Server/Receive run two of them over a
-- list of rounds.
--
-- Not modelled: the texts that are printed, which are constructors of a type of lines; OpenSSL, sockets,
-- threads and terminal settings of the operating system; the other bench sketches, the third-party
-- colour sensor library and HC-SR04 driver, and the samples of the TLS library.
pub mod Base
pub mod Wire
pub mod Server
pub mod Client
pub mod Uart
pub mod Tls
pub mod Robot
pub mod Sensors
pub mod Sketch
pub mod Bench
pub mod Serial
pub mod Link
