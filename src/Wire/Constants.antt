-- ===== src/Wire/Constants.antt =====
-- The numbers of constants.h and netconstants.h, each enumeration a module.
-- They are `abbrev`, so that every test on them computes.
pub mod PacketType
pub mod Response
pub mod Command
pub mod Net
