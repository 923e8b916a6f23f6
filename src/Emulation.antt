-- ===== src/Emulation.antt =====
-- impl_emulation.c: one module for each group of instructions, and the helpers they share.
pub mod Flags
pub mod Shift
pub mod Arith
pub mod Logic
pub mod Move
pub mod Branch
pub mod Memory
pub mod Multiple
pub mod System
pub mod Execute
pub mod Machine
