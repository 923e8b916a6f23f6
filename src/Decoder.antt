-- ===== src/Decoder.antt =====
-- decoder.c: from an instruction word to the handler's call.
pub mod Imm
pub mod Insn
pub mod Row
pub mod Rows
pub mod Decode
pub mod Length
pub mod Operands
