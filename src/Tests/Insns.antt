-- ===== src/Tests/Insns.antt =====
-- impl_emulation.c: single instructions and flags on the concrete state.
use libthumb2sim.Emulation.Shift.{barrel_shift, type_ror}
use libthumb2sim.Emulation.Shift.Rotate.{barrel_shift_ror}
use libthumb2sim.Emulation.Memory.{i32_str_imm_t3, i32_ldr_imm_t3}
use libthumb2sim.Emulation.Memory.RoundTrip.{i32_ldr_imm_t3-i32_str_imm_t3}
use libthumb2sim.Emulation.Arith.{i32_umull_t1}
use libthumb2sim.Emulation.Arith.Product.{i32_umull_t1-product}
use libthumb2sim.Base.{
  ◌/◌, ℕ, ◌+◌, ◌-◌, ◌*◌, ◌%◌, ◌^◌, ◌≡◌, refl, true, false, not, some, ltb, leb, ◌==◌, if◌then◌else◌,
  add32, arith,
}
use libthumb2sim.Cpu.{InsnEmuCtx, get_reg, get_psr, set_reg}
use libthumb2sim.Emulation.Flags.{
  set_cond_code, cond_satisfied_psr, cond_satisfied, add_cond_code, sub_cond_code,
}
use libthumb2sim.AddressSpace.{covers, getslice}
use libthumb2sim.Base.{some, none}
use libthumb2sim.Base.Int.{ltbℤ, signed32, ◌+ℤ◌, fits32}
use libthumb2sim.Emulation.Flags.Codes.{no_overflow, nzcv, add_cond_code_lem, sub_cond_code_lem}
use libthumb2sim.Emulation.Flags.Conditions.{holds, cond_satisfied_psr-nzcv}
use libthumb2sim.Emulation.Flags.Compare.{compare_holds, psr-set_cond_code, cond_satisfied-cmp}
use libthumb2sim.Emulation.Arith.{i16_cmp_reg_t1}
use libthumb2sim.Emulation.Branch.{relative_branch_target}
use libthumb2sim.Emulation.Branch.Targets.{relative_branch_target_lem}
use libthumb2sim.Emulation.Logic.{i32_clz_t1}
use libthumb2sim.Emulation.Logic.Clz.{LeadingZeros, i32_clz_t1-LeadingZeros}
use libthumb2sim.Simulator.{start}
use libthumb2sim.Tests.{ram, registers, state, state-IsMachine}

add_cond_code_lem_example :
    add_cond_code 0x7fffffff 1
    ≡ nzcv
        (leb (2 ^ 31) (add32 0x7fffffff 1))
        (add32 0x7fffffff 1 == 0)
        (leb (2 ^ 32) (0x7fffffff + 1))
        (not (fits32 (signed32 0x7fffffff +ℤ signed32 1)))
add_cond_code_lem_example = add_cond_code_lem 0x7fffffff 1 (omega arith) (omega arith)

sub_cond_code_lem_example : sub_cond_code 3 5 ≡ (
    if no_overflow 3 5
    then some (nzcv (ltbℤ (signed32 3) (signed32 5)) (3 == 5) (leb 5 3) false)
    else none)
sub_cond_code_lem_example = sub_cond_code_lem 3 5 (omega arith) (omega arith)

cond_satisfied_psr-nzcv_example :
    cond_satisfied_psr (nzcv true false true false + 0x173) 8 ≡ holds true false true false 8
cond_satisfied_psr-nzcv_example =
    cond_satisfied_psr-nzcv true false true false 0x173 8 (omega arith)

psr-set_cond_code_example :
    get_psr (set_cond_code (start state) (nzcv true false true false))
    ≡ nzcv true false true false + get_psr (start state) % 2 ^ 27
psr-set_cond_code_example = psr-set_cond_code (start state) true false true false

cond_satisfied-cmp_example :
    (ctx' : InsnEmuCtx) × (i16_cmp_reg_t1 (start state) 0 1 ≡ some ctx')
    × (cond_satisfied ctx' 12 ≡ compare_holds 5 0xfffffff0 12)
    × (ctx'.emu_ctx.cpu.reg ≡ registers)
cond_satisfied-cmp_example = cond_satisfied-cmp (start state) 0 1 12 state-IsMachine refl

i32_clz_t1-LeadingZeros_example :
    (r : ℕ) × (i32_clz_t1 (start state) 2 0 0 ≡ set_reg (start state) 2 r) × LeadingZeros 5 r
i32_clz_t1-LeadingZeros_example = i32_clz_t1-LeadingZeros (start state) 2 0 0 (omega arith)

relative_branch_target_lem_example :
    relative_branch_target 100 0x7fe 11
    ≡ (if ltb 0x7fe (2 ^ 10)
        then 100 + 4 + 2 * 0x7fe
        else 100 + 4 + 2 ^ 32 + 2 * 0x7fe - 2 * 2 ^ 11)
      % 2 ^ 32
relative_branch_target_lem_example =
    relative_branch_target_lem 100 0x7fe 10 (omega arith) (omega arith) (omega arith)

-- The base register holds 0xfffffff0, so that the sum wraps round into the RAM.
i32_ldr_imm_t3-i32_str_imm_t3_example :
    (ctx' : InsnEmuCtx) × (i32_str_imm_t3 (start state) 0 1 0x20000014 ≡ some ctx')
    × (i32_ldr_imm_t3 ctx' 7 1 0x20000014 ≡ some (set_reg ctx' 7 5))
unfolding getslice covers
i32_ldr_imm_t3-i32_str_imm_t3_example =
    i32_ldr_imm_t3-i32_str_imm_t3 (start state) 0 7 1 0x20000014 ram state-IsMachine (omega arith)
      refl refl

i32_umull_t1-product_example :
    get_reg (i32_umull_t1 (start state) 0 1 2 3) 3 * 2 ^ 32
      + get_reg (i32_umull_t1 (start state) 0 1 2 3) 2
    ≡ 5 * 0xfffffff0
i32_umull_t1-product_example =
    i32_umull_t1-product (start state) 0 1 2 3 state-IsMachine (omega arith)

barrel_shift_ror_example :
    barrel_shift 0x80000005 type_ror 4
    ≡ some
        (record { value = 0x80000005 % 2 ^ 4 * 2 ^ (32 - 4) + 0x80000005 / 2 ^ 4; carry = false })
barrel_shift_ror_example = barrel_shift_ror 4 0x80000005 (omega arith) (omega arith) (omega arith)
