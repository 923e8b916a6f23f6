-- ===== src/Emulation/Memory/RoundTrip.antt =====
-- impl_emulation.c: STR and then LDR of a word at the same place.
use libthumb2sim.Base.{ℕ, ◌+◌, ◌^◌, ◌≤◌, ◌≡◌, refl, ap, false, some, add32, u32, arith}
use libthumb2sim.Cpu.{InsnEmuCtx, IsMachine, get_reg, memory, set_reg, set_memory}
use libthumb2sim.AddressSpace.{AddressSlice, getslice}
use libthumb2sim.AddressSpace.Laws.{read32-write32}
use libthumb2sim.Emulation.Memory.{i32_str_imm_t3, i32_ldr_imm_t3}

-- In a machine state, when the base register plus the offset lies in a writable slice and the word
-- there does not wrap round, STR with an immediate offset is defined, and LDR with the same base
-- and offset then puts the stored register into any register and changes nothing else.
pub i32_ldr_imm_t3-i32_str_imm_t3 :
    (ctx : InsnEmuCtx) (rt rd rn imm : ℕ) (s : AddressSlice)
    → IsMachine ctx
    → add32 (get_reg ctx rn) imm + 4 ≤ 2 ^ 32
    → getslice (memory ctx).slices (add32 (get_reg ctx rn) imm) 4 ≡ some s
    → s.read_only ≡ false
    → (ctx' : InsnEmuCtx) × (i32_str_imm_t3 ctx rt rn imm ≡ some ctx')
      × (i32_ldr_imm_t3 ctx' rd rn imm ≡ some (set_reg ctx' rd (get_reg ctx rt)))
unfolding i32_str_imm_t3 i32_ldr_imm_t3
i32_ldr_imm_t3-i32_str_imm_t3 ctx rt rd rn imm s machine no_wrap found writable =
    let target = add32 (get_reg ctx rn) imm in
    let (m, written, back) =
      read32-write32 machine.memory_valid target target (get_reg ctx rt) s s no_wrap found writable
        found refl refl in
    let value : u32 (get_reg ctx rt) ≡ get_reg ctx rt = omega (arith, machine.reg_bounds rt) in
    (
      set_memory ctx m,
      rw written refl,
      rw back (ap (λ v. some (set_reg (set_memory ctx m) rd v)) value),
    )
