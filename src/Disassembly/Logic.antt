-- ===== src/Disassembly/Logic.antt =====
-- impl_disassembly.c: logic, shifts and bit fields.
use libthumb2sim.Base.{ℕ, ◌+◌, Bool, not, ◌&&◌, List, ◌++◌, ◌==◌, if◌then◌else◌, bit_or}
use libthumb2sim.Emulation.Shift.{type_lsl, type_lsr, type_asr, type_ror}
use libthumb2sim.Disassembly.Text.{Text, codes}
use libthumb2sim.Disassembly.Print.{
  DisasCtx, print_opcode, opcode_wide, opcode_setflags, opcode_setflags_if_uncond,
}
use libthumb2sim.Cpu.{reg_pc}
use libthumb2sim.Disassembly.Operands.{
  print_rr, print_rrr, print_s, print_rrs, print_rrrs, print_rri, print_rrii, print_ri,
}

unfoldable pub disassembly_i32_and_imm_t1 : DisasCtx → ℕ → ℕ → ℕ → Bool → List Text
disassembly_i32_and_imm_t1 ctx rd rn imm s =
    (if rd == reg_pc && s
      then print_opcode ctx (codes "tst") opcode_wide ++ print_ri rn imm
      else print_opcode ctx (codes "and") (bit_or opcode_wide (if s then opcode_setflags else 0))
        ++ print_rri rd rn imm)

unfoldable pub disassembly_i16_and_reg_t1 : DisasCtx → ℕ → ℕ → List Text
disassembly_i16_and_reg_t1 ctx rdn rm =
    print_opcode ctx (codes "and") opcode_setflags_if_uncond ++ print_rr rdn rm

unfoldable pub disassembly_i32_and_reg_t2 : DisasCtx → ℕ → ℕ → ℕ → ℕ → ℕ → Bool → List Text
disassembly_i32_and_reg_t2 ctx rd rn rm imm shift_type s =
    print_opcode ctx (codes "and") (bit_or opcode_wide (if s then opcode_setflags else 0))
    ++ print_rrrs rd rn rm shift_type imm

unfoldable pub disassembly_i16_asr_imm_t1 : DisasCtx → ℕ → ℕ → ℕ → List Text
disassembly_i16_asr_imm_t1 ctx rd rm imm =
    let shift = if imm == 0 then 32 else imm in
    print_opcode ctx (codes "asr") opcode_setflags_if_uncond ++ print_rri rd rm shift

unfoldable pub disassembly_i32_asr_imm_t2 : DisasCtx → ℕ → ℕ → ℕ → Bool → List Text
disassembly_i32_asr_imm_t2 ctx rd rm imm s =
    print_opcode ctx (codes "mov") (bit_or opcode_wide (if s then opcode_setflags else 0))
    ++ print_rrs rd rm type_asr imm

unfoldable pub disassembly_i16_asr_reg_t1 : DisasCtx → ℕ → ℕ → List Text
disassembly_i16_asr_reg_t1 ctx rdn rm =
    print_opcode ctx (codes "asr") opcode_setflags_if_uncond ++ print_rr rdn rm

unfoldable pub disassembly_i32_asr_reg_t2 : DisasCtx → ℕ → ℕ → ℕ → Bool → List Text
disassembly_i32_asr_reg_t2 ctx rd rn rm s =
    print_opcode ctx (codes "asr") (bit_or opcode_wide (if s then opcode_setflags else 0))
    ++ print_rrr rd rn rm

unfoldable pub disassembly_i32_bic_imm_t1 : DisasCtx → ℕ → ℕ → ℕ → Bool → List Text
disassembly_i32_bic_imm_t1 ctx rd rn imm s =
    print_opcode ctx (codes "bic") (bit_or opcode_wide (if s then opcode_setflags else 0))
    ++ print_rri rd rn imm

unfoldable pub disassembly_i16_bic_reg_t1 : DisasCtx → ℕ → ℕ → List Text
disassembly_i16_bic_reg_t1 ctx rdn rm =
    print_opcode ctx (codes "bic") opcode_setflags_if_uncond ++ print_rr rdn rm

unfoldable pub disassembly_i32_bic_reg_t2 : DisasCtx → ℕ → ℕ → ℕ → ℕ → ℕ → Bool → List Text
disassembly_i32_bic_reg_t2 ctx rd rn rm imm shift_type s =
    print_opcode ctx (codes "bic") (bit_or opcode_wide (if s then opcode_setflags else 0))
    ++ print_rrrs rd rn rm shift_type imm

unfoldable pub disassembly_i32_clz_t1 : DisasCtx → ℕ → ℕ → ℕ → List Text
disassembly_i32_clz_t1 ctx rd rm rmx = print_opcode ctx (codes "clz") 0 ++ print_rr rd rm

unfoldable pub disassembly_i32_eor_imm_t1 : DisasCtx → ℕ → ℕ → ℕ → Bool → List Text
disassembly_i32_eor_imm_t1 ctx rd rn imm s =
    (if rd == reg_pc && s
      then print_opcode ctx (codes "teq") 0 ++ print_ri rn imm
      else print_opcode ctx (codes "eor") (bit_or opcode_wide (if s then opcode_setflags else 0))
        ++ print_rri rd rn imm)

unfoldable pub disassembly_i16_eor_reg_t1 : DisasCtx → ℕ → ℕ → List Text
disassembly_i16_eor_reg_t1 ctx rdn rm =
    print_opcode ctx (codes "eor") opcode_setflags_if_uncond ++ print_rr rdn rm

unfoldable pub disassembly_i32_eor_reg_t2 : DisasCtx → ℕ → ℕ → ℕ → ℕ → ℕ → Bool → List Text
disassembly_i32_eor_reg_t2 ctx rd rn rm imm shift_type s =
    (if rd == reg_pc && s
      then print_opcode ctx (codes "teq") 0 ++ print_rr rn rm
      else print_opcode ctx (codes "eor") (bit_or opcode_wide (if s then opcode_setflags else 0))
        ++ print_rrrs rd rn rm shift_type imm)

unfoldable pub disassembly_i16_lsl_imm_t1 : DisasCtx → ℕ → ℕ → ℕ → List Text
disassembly_i16_lsl_imm_t1 ctx rd rm imm =
    (if not (imm == 0)
      then print_opcode ctx (codes "lsl") opcode_setflags_if_uncond ++ print_rri rd rm imm
      else print_opcode ctx (codes "mov") opcode_setflags_if_uncond ++ print_rr rd rm)

unfoldable pub disassembly_i32_lsl_imm_t2 : DisasCtx → ℕ → ℕ → ℕ → Bool → List Text
disassembly_i32_lsl_imm_t2 ctx rd rm imm s =
    print_opcode ctx (codes "mov") (bit_or opcode_wide (if s then opcode_setflags else 0))
    ++ print_rrs rd rm type_lsl imm

unfoldable pub disassembly_i16_lsl_reg_t1 : DisasCtx → ℕ → ℕ → List Text
disassembly_i16_lsl_reg_t1 ctx rdn rm =
    print_opcode ctx (codes "lsl") opcode_setflags_if_uncond ++ print_rr rdn rm

unfoldable pub disassembly_i32_lsl_reg_t2 : DisasCtx → ℕ → ℕ → ℕ → Bool → List Text
disassembly_i32_lsl_reg_t2 ctx rd rn rm s =
    print_opcode ctx (codes "lsl") (bit_or opcode_wide (if s then opcode_setflags else 0))
    ++ print_rrr rd rn rm

unfoldable pub disassembly_i16_lsr_imm_t1 : DisasCtx → ℕ → ℕ → ℕ → List Text
disassembly_i16_lsr_imm_t1 ctx rd rm imm =
    let shift = if imm == 0 then 32 else imm in
    print_opcode ctx (codes "lsr") opcode_setflags_if_uncond ++ print_rri rd rm shift

unfoldable pub disassembly_i32_lsr_imm_t2 : DisasCtx → ℕ → ℕ → ℕ → Bool → List Text
disassembly_i32_lsr_imm_t2 ctx rd rm imm s =
    print_opcode ctx (codes "mov") (bit_or opcode_wide (if s then opcode_setflags else 0))
    ++ print_rrs rd rm type_lsr imm

unfoldable pub disassembly_i16_lsr_reg_t1 : DisasCtx → ℕ → ℕ → List Text
disassembly_i16_lsr_reg_t1 ctx rdn rm =
    print_opcode ctx (codes "lsr") opcode_setflags_if_uncond ++ print_rr rdn rm

unfoldable pub disassembly_i32_lsr_reg_t2 : DisasCtx → ℕ → ℕ → ℕ → Bool → List Text
disassembly_i32_lsr_reg_t2 ctx rd rn rm s =
    print_opcode ctx (codes "lsr") (bit_or opcode_wide (if s then opcode_setflags else 0))
    ++ print_rrr rd rn rm

unfoldable pub disassembly_i32_orr_imm_t1 : DisasCtx → ℕ → ℕ → ℕ → Bool → List Text
disassembly_i32_orr_imm_t1 ctx rd rn imm s =
    print_opcode ctx (codes "orr") (bit_or opcode_wide (if s then opcode_setflags else 0))
    ++ print_rri rd rn imm

unfoldable pub disassembly_i16_orr_reg_t1 : DisasCtx → ℕ → ℕ → List Text
disassembly_i16_orr_reg_t1 ctx rdn rm =
    print_opcode ctx (codes "orr") opcode_setflags_if_uncond ++ print_rr rdn rm

unfoldable pub disassembly_i32_orr_reg_t2 : DisasCtx → ℕ → ℕ → ℕ → ℕ → ℕ → Bool → List Text
disassembly_i32_orr_reg_t2 ctx rd rn rm imm shift_type s =
    (if not (rn == 0x0f)
      then print_opcode ctx (codes "orr") (bit_or opcode_wide (if s then opcode_setflags else 0))
        ++ print_rrrs rd rn rm shift_type imm
      else print_opcode ctx (codes "mov") (bit_or opcode_wide (if s then opcode_setflags else 0))
        ++ print_rrs rd rm shift_type imm)

unfoldable pub disassembly_i32_ror_imm_t1 : DisasCtx → ℕ → ℕ → ℕ → Bool → List Text
disassembly_i32_ror_imm_t1 ctx rd rm imm s =
    print_opcode ctx (codes "mov") (bit_or opcode_wide (if s then opcode_setflags else 0))
    ++ print_rr rd rm
    ++ print_s type_ror imm

unfoldable pub disassembly_i16_ror_reg_t1 : DisasCtx → ℕ → ℕ → List Text
disassembly_i16_ror_reg_t1 ctx rdn rm =
    print_opcode ctx (codes "ror") opcode_setflags_if_uncond ++ print_rr rdn rm

unfoldable pub disassembly_i32_tst_imm_t1 : DisasCtx → ℕ → ℕ → List Text
disassembly_i32_tst_imm_t1 ctx rn imm =
    print_opcode ctx (codes "tst") opcode_wide ++ print_ri rn imm

unfoldable pub disassembly_i16_tst_reg_t1 : DisasCtx → ℕ → ℕ → List Text
disassembly_i16_tst_reg_t1 ctx rn rm = print_opcode ctx (codes "tst") 0 ++ print_rr rn rm

unfoldable pub disassembly_i32_ubfx_t1 : DisasCtx → ℕ → ℕ → ℕ → ℕ → List Text
disassembly_i32_ubfx_t1 ctx rd rn imm width =
    print_opcode ctx (codes "ubfx") 0 ++ print_rrii rd rn imm (width + 1)
