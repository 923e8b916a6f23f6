-- ===== src/Disassembly/System.antt =====
-- impl_disassembly.c: hints, breakpoints and calls.
use libthumb2sim.Base.{ℕ, Bool, ◌||◌, List, [], ◌++◌, if◌then◌else◌, u8}
use libthumb2sim.Disassembly.Text.{Text, codes, decimal, hex_padded}
use libthumb2sim.Disassembly.Print.{DisasCtx, say, print_opcode, opcode_wide}
use libthumb2sim.Disassembly.Operands.{print_i}

unfoldable pub disassembly_i16_bkpt_t1 : DisasCtx → ℕ → List Text
disassembly_i16_bkpt_t1 ctx imm =
    print_opcode ctx (codes "bkpt") 0 ++ say (codes " 0x" ++ hex_padded 4 imm)

unfoldable pub disassembly_i16_cps_t1 : DisasCtx → Bool → Bool → Bool → List Text
disassembly_i16_cps_t1 ctx imm f i =
    print_opcode ctx (if imm then codes "cpsid" else codes "cpsie") 0
    ++ (if i || f then say (codes " ") else [])
    ++ (if i then say (codes "i") else [])
    ++ (if f then say (codes "f") else [])

unfoldable pub disassembly_i16_nop_t1 : DisasCtx → List Text
disassembly_i16_nop_t1 ctx = print_opcode ctx (codes "nop") 0

unfoldable pub disassembly_i32_nop_t2 : DisasCtx → List Text
disassembly_i32_nop_t2 ctx = print_opcode ctx (codes "nop") opcode_wide

unfoldable pub disassembly_i16_sev_t1 : DisasCtx → List Text
disassembly_i16_sev_t1 ctx = print_opcode ctx (codes "sev") 0

unfoldable pub disassembly_i32_sev_t2 : DisasCtx → List Text
disassembly_i32_sev_t2 ctx = print_opcode ctx (codes "sev") 0

unfoldable pub disassembly_i16_svc_t1 : DisasCtx → ℕ → List Text
disassembly_i16_svc_t1 ctx imm =
    print_opcode ctx (codes "svc") 0 ++ say (codes " " ++ decimal (u8 imm))

unfoldable pub disassembly_i16_udf_t1 : DisasCtx → ℕ → List Text
disassembly_i16_udf_t1 ctx imm = print_opcode ctx (codes "udf") 0 ++ print_i imm

unfoldable pub disassembly_i16_yield_t1 : DisasCtx → List Text
disassembly_i16_yield_t1 ctx = print_opcode ctx (codes "yield") 0

unfoldable pub disassembly_i32_yield_t2 : DisasCtx → List Text
disassembly_i32_yield_t2 ctx = print_opcode ctx (codes "yield") opcode_wide
