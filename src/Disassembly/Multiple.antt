-- ===== src/Disassembly/Multiple.antt =====
-- impl_disassembly.c: lists of registers.
use libthumb2sim.Base.{ℕ, ◌^◌, Bool, List, ◌++◌, ◌==◌, if◌then◌else◌, sub32, bit_and, bit_or}
use libthumb2sim.Disassembly.Text.{Text, codes}
use libthumb2sim.Disassembly.Print.{
  DisasCtx, say, print_opcode, print_reglist, reg_string, opcode_wide,
}
use libthumb2sim.Cpu.{reg_sp, reg_lr, reg_pc}
use libthumb2sim.Disassembly.Operands.{print_r, print_r_at_ro, print_r_at_r_i}

-- `if (flag) register_list |= (1 << reg)`
abbrev pub listing : ℕ → Bool → ℕ → ℕ
listing reg flag register_list = if flag then bit_or register_list (2 ^ reg) else register_list

unfoldable pub disassembly_i16_ldm_t1 : DisasCtx → ℕ → ℕ → List Text
disassembly_i16_ldm_t1 ctx rn register_list =
    print_opcode ctx (codes "ldmia") 0
    ++ say (
        codes " "
        ++ reg_string rn
        ++ (if bit_and register_list (2 ^ rn) == 0 then codes "!" else codes "")
        ++ codes ",")
    ++ print_reglist register_list

unfoldable pub disassembly_i32_ldm_t2 : DisasCtx → ℕ → ℕ → Bool → Bool → Bool → List Text
disassembly_i32_ldm_t2 ctx rn register_list p m w =
    print_opcode ctx (codes "ldmia") opcode_wide
    ++ say (codes " " ++ reg_string rn ++ (if w then codes "!" else codes "") ++ codes ",")
    ++ print_reglist (listing reg_lr m (listing reg_pc p register_list))

unfoldable pub disassembly_i32_ldmdb_t1 : DisasCtx → ℕ → ℕ → Bool → Bool → Bool → List Text
disassembly_i32_ldmdb_t1 ctx rn register_list p m w =
    print_opcode ctx (codes "ldmdb") 0
    ++ say (codes " " ++ reg_string rn ++ codes ",")
    ++ print_reglist (listing reg_lr m (listing reg_pc p register_list))

unfoldable pub disassembly_i16_pop_t1 : DisasCtx → ℕ → Bool → List Text
disassembly_i16_pop_t1 ctx register_list p =
    print_opcode ctx (codes "pop") 0 ++ print_reglist (listing reg_pc p register_list)

unfoldable pub disassembly_i32_pop_t2 : DisasCtx → ℕ → Bool → Bool → List Text
disassembly_i32_pop_t2 ctx register_list p m =
    print_opcode ctx (codes "ldmia") opcode_wide
    ++ print_r reg_sp
    ++ say (codes "!, ")
    ++ print_reglist (listing reg_lr m (listing reg_pc p register_list))

unfoldable pub disassembly_i32_pop_t3 : DisasCtx → ℕ → List Text
disassembly_i32_pop_t3 ctx rt =
    print_opcode ctx (codes "ldr") opcode_wide ++ print_r_at_r_i rt reg_sp 4

unfoldable pub disassembly_i16_push_t1 : DisasCtx → ℕ → Bool → List Text
disassembly_i16_push_t1 ctx register_list m =
    print_opcode ctx (codes "push") 0 ++ print_reglist (listing reg_lr m register_list)

unfoldable pub disassembly_i32_push_t2 : DisasCtx → ℕ → Bool → List Text
disassembly_i32_push_t2 ctx register_list m =
    print_opcode ctx (codes "push") 0 ++ print_reglist (listing reg_lr m register_list)

unfoldable pub disassembly_i32_push_t3 : DisasCtx → ℕ → List Text
disassembly_i32_push_t3 ctx rt =
    print_opcode ctx (codes "str") opcode_wide
    ++ print_r_at_ro rt reg_sp (sub32 0 4)
    ++ say (codes "!")

unfoldable pub disassembly_i16_stm_t1 : DisasCtx → ℕ → ℕ → List Text
disassembly_i16_stm_t1 ctx rn register_list =
    print_opcode ctx (codes "stmia") 0
    ++ say (codes " " ++ reg_string rn ++ codes "!,")
    ++ print_reglist register_list

unfoldable pub disassembly_i32_stm_t2 : DisasCtx → ℕ → ℕ → Bool → Bool → List Text
disassembly_i32_stm_t2 ctx rn register_list m w =
    print_opcode ctx (codes "stmia") opcode_wide
    ++ say (codes " " ++ reg_string rn ++ (if w then codes "!" else codes "") ++ codes ",")
    ++ print_reglist (listing reg_lr m register_list)

unfoldable pub disassembly_i32_stmdb_t1 : DisasCtx → ℕ → ℕ → Bool → Bool → List Text
disassembly_i32_stmdb_t1 ctx rn register_list m w =
    print_opcode ctx (codes "stmdb") 0
    ++ say (codes " " ++ reg_string rn ++ codes "!,")
    ++ print_reglist (listing reg_lr m register_list)
