-- ===== src/Emulation/Machine.antt =====
-- impl_emulation.c: the handlers and the validity of the machine.
pub mod State
pub mod Partial
pub mod Steps
pub mod Arith
pub mod Logic
pub mod Move
pub mod Branch
pub mod Memory
pub mod Multiple
pub mod Execute
