-- ===== src/Disassembly.antt =====
-- impl_disassembly.c, and its use in cpu_cm3.c: the text of an instruction.
pub mod Text
pub mod Print
pub mod Operands
pub mod Arith
pub mod Logic
pub mod Move
pub mod Branch
pub mod Load
pub mod Store
pub mod Multiple
pub mod System
pub mod Dispatch
pub mod Lengths
pub mod Buffer
pub mod Trace
pub mod Hexdump
pub mod Reading
pub mod Agreement
pub mod Testcase
