-- ===== src/Wire.antt =====
-- The wire format between the Pi and the Arduino: packet.h, constants.h, netconstants.h and
-- serialize.cpp of W9S2_TLS_Server.
pub mod Constants
pub mod Packet
pub mod Frame
pub mod Assemble
pub mod Deserialize
pub mod Tests
