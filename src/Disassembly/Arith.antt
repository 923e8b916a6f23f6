-- ===== src/Disassembly/Arith.antt =====
-- impl_disassembly.c: arithmetic and comparison.
use libthumb2sim.Base.{ℕ, ◌*◌, Bool, List, ◌++◌, if◌then◌else◌, bit_or}
use libthumb2sim.Disassembly.Text.{Text, codes}
use libthumb2sim.Disassembly.Print.{
  DisasCtx, print_opcode, opcode_wide, opcode_setflags, opcode_setflags_if_uncond,
}
use libthumb2sim.Cpu.{reg_sp}
use libthumb2sim.Disassembly.Operands.{
  print_rr, print_rrr, print_rrrr, print_rrs, print_rrrs, print_rri, print_ri,
}

unfoldable pub disassembly_i32_adc_imm_t1 : DisasCtx → ℕ → ℕ → ℕ → Bool → List Text
disassembly_i32_adc_imm_t1 ctx rd rn imm s =
    print_opcode ctx (codes "adc") (bit_or opcode_wide (if s then opcode_setflags else 0))
    ++ print_rri rd rn imm

unfoldable pub disassembly_i16_adc_reg_t1 : DisasCtx → ℕ → ℕ → List Text
disassembly_i16_adc_reg_t1 ctx rdn rm =
    print_opcode ctx (codes "adc") opcode_setflags_if_uncond ++ print_rr rdn rm

unfoldable pub disassembly_i32_adc_reg_t2 : DisasCtx → ℕ → ℕ → ℕ → ℕ → ℕ → Bool → List Text
disassembly_i32_adc_reg_t2 ctx rd rn rm imm shift_type s =
    print_opcode ctx (codes "adc") (bit_or opcode_wide (if s then opcode_setflags else 0))
    ++ print_rrrs rd rn rm shift_type imm

unfoldable pub disassembly_i16_add_spi_t1 : DisasCtx → ℕ → ℕ → List Text
disassembly_i16_add_spi_t1 ctx rd imm =
    print_opcode ctx (codes "add") 0 ++ print_rri rd reg_sp (imm * 4)

unfoldable pub disassembly_i16_add_spi_t2 : DisasCtx → ℕ → List Text
disassembly_i16_add_spi_t2 ctx imm = print_opcode ctx (codes "add") 0 ++ print_ri reg_sp (imm * 4)

unfoldable pub disassembly_i32_add_spi_t3 : DisasCtx → ℕ → ℕ → Bool → List Text
disassembly_i32_add_spi_t3 ctx rd imm s =
    print_opcode ctx (codes "add") (bit_or opcode_wide (if s then opcode_setflags else 0))
    ++ print_rri rd reg_sp imm

unfoldable pub disassembly_i32_add_spi_t4 : DisasCtx → ℕ → ℕ → List Text
disassembly_i32_add_spi_t4 ctx rd imm =
    print_opcode ctx (codes "add") opcode_wide ++ print_rri reg_sp rd imm

unfoldable pub disassembly_i16_add_spr_t1 : DisasCtx → ℕ → List Text
disassembly_i16_add_spr_t1 ctx rdm = print_opcode ctx (codes "add") 0 ++ print_rr rdm reg_sp

unfoldable pub disassembly_i16_add_spr_t2 : DisasCtx → ℕ → List Text
disassembly_i16_add_spr_t2 ctx rm = print_opcode ctx (codes "add") 0 ++ print_rr reg_sp rm

unfoldable pub disassembly_i16_add_imm_t1 : DisasCtx → ℕ → ℕ → ℕ → List Text
disassembly_i16_add_imm_t1 ctx rd rn imm =
    print_opcode ctx (codes "add") opcode_setflags_if_uncond ++ print_rri rd rn imm

unfoldable pub disassembly_i16_add_imm_t2 : DisasCtx → ℕ → ℕ → List Text
disassembly_i16_add_imm_t2 ctx rdn imm =
    print_opcode ctx (codes "add") opcode_setflags_if_uncond ++ print_ri rdn imm

unfoldable pub disassembly_i32_add_imm_t3 : DisasCtx → ℕ → ℕ → ℕ → Bool → List Text
disassembly_i32_add_imm_t3 ctx rd rn imm s =
    print_opcode ctx (codes "add") (bit_or opcode_wide (if s then opcode_setflags else 0))
    ++ print_rri rd rn imm

unfoldable pub disassembly_i32_add_imm_t4 : DisasCtx → ℕ → ℕ → ℕ → List Text
disassembly_i32_add_imm_t4 ctx rd rn imm = print_opcode ctx (codes "addw") 0 ++ print_rri rd rn imm

unfoldable pub disassembly_i16_add_reg_t1 : DisasCtx → ℕ → ℕ → ℕ → List Text
disassembly_i16_add_reg_t1 ctx rd rn rm =
    print_opcode ctx (codes "add") opcode_setflags_if_uncond ++ print_rrr rd rn rm

unfoldable pub disassembly_i16_add_reg_t2 : DisasCtx → ℕ → ℕ → List Text
disassembly_i16_add_reg_t2 ctx rdn rm = print_opcode ctx (codes "add") 0 ++ print_rr rdn rm

unfoldable pub disassembly_i32_add_reg_t3 : DisasCtx → ℕ → ℕ → ℕ → ℕ → ℕ → Bool → List Text
disassembly_i32_add_reg_t3 ctx rd rn rm imm shift_type s =
    print_opcode ctx (codes "add") (bit_or opcode_wide (if s then opcode_setflags else 0))
    ++ print_rrrs rd rn rm shift_type imm

unfoldable pub disassembly_i32_cmn_imm_t1 : DisasCtx → ℕ → ℕ → List Text
disassembly_i32_cmn_imm_t1 ctx rn imm =
    print_opcode ctx (codes "cmn") opcode_wide ++ print_ri rn imm

unfoldable pub disassembly_i16_cmn_reg_t1 : DisasCtx → ℕ → ℕ → List Text
disassembly_i16_cmn_reg_t1 ctx rn rm = print_opcode ctx (codes "cmn") 0 ++ print_rr rn rm

unfoldable pub disassembly_i32_cmn_reg_t2 : DisasCtx → ℕ → ℕ → ℕ → ℕ → List Text
disassembly_i32_cmn_reg_t2 ctx rn rm imm shift_type =
    print_opcode ctx (codes "cmn") 0 ++ print_rrs rn rm shift_type imm

unfoldable pub disassembly_i16_cmp_imm_t1 : DisasCtx → ℕ → ℕ → List Text
disassembly_i16_cmp_imm_t1 ctx rn imm = print_opcode ctx (codes "cmp") 0 ++ print_ri rn imm

unfoldable pub disassembly_i32_cmp_imm_t2 : DisasCtx → ℕ → ℕ → List Text
disassembly_i32_cmp_imm_t2 ctx rn imm =
    print_opcode ctx (codes "cmp") opcode_wide ++ print_ri rn imm

unfoldable pub disassembly_i16_cmp_reg_t1 : DisasCtx → ℕ → ℕ → List Text
disassembly_i16_cmp_reg_t1 ctx rn rm = print_opcode ctx (codes "cmp") 0 ++ print_rr rn rm

unfoldable pub disassembly_i16_cmp_reg_t2 : DisasCtx → ℕ → ℕ → List Text
disassembly_i16_cmp_reg_t2 ctx rn rm = print_opcode ctx (codes "cmp") 0 ++ print_rr rn rm

unfoldable pub disassembly_i32_cmp_reg_t3 : DisasCtx → ℕ → ℕ → ℕ → ℕ → List Text
disassembly_i32_cmp_reg_t3 ctx rn rm imm shift_type =
    print_opcode ctx (codes "cmp") opcode_wide ++ print_rrs rn rm shift_type imm

unfoldable pub disassembly_i32_mla_t1 : DisasCtx → ℕ → ℕ → ℕ → ℕ → List Text
disassembly_i32_mla_t1 ctx rd rn rm ra = print_opcode ctx (codes "mla") 0 ++ print_rrrr rd rn rm ra

unfoldable pub disassembly_i16_mul_t1 : DisasCtx → ℕ → ℕ → List Text
disassembly_i16_mul_t1 ctx rdm rn =
    print_opcode ctx (codes "mul") opcode_setflags_if_uncond ++ print_rr rdm rn

unfoldable pub disassembly_i32_mul_t2 : DisasCtx → ℕ → ℕ → ℕ → List Text
disassembly_i32_mul_t2 ctx rd rn rm =
    print_opcode ctx (codes "mul") opcode_wide ++ print_rrr rd rn rm

unfoldable pub disassembly_i16_rsb_imm_t1 : DisasCtx → ℕ → ℕ → List Text
disassembly_i16_rsb_imm_t1 ctx rd rn =
    print_opcode ctx (codes "neg") opcode_setflags_if_uncond ++ print_rr rd rn

unfoldable pub disassembly_i32_rsb_imm_t2 : DisasCtx → ℕ → ℕ → ℕ → Bool → List Text
disassembly_i32_rsb_imm_t2 ctx rd rn imm s =
    print_opcode ctx (codes "rsb") (if s then opcode_setflags else 0) ++ print_rri rd rn imm

unfoldable pub disassembly_i32_rsb_reg_t1 : DisasCtx → ℕ → ℕ → ℕ → ℕ → ℕ → Bool → List Text
disassembly_i32_rsb_reg_t1 ctx rd rn rm imm shift_type s =
    print_opcode ctx (codes "rsb") (if s then opcode_setflags else 0)
    ++ print_rrrs rd rn rm shift_type imm

unfoldable pub disassembly_i32_sbc_imm_t1 : DisasCtx → ℕ → ℕ → ℕ → Bool → List Text
disassembly_i32_sbc_imm_t1 ctx rd rn imm s =
    print_opcode ctx (codes "sbc") (bit_or opcode_wide (if s then opcode_setflags else 0))
    ++ print_rri rd rn imm

unfoldable pub disassembly_i16_sbc_reg_t1 : DisasCtx → ℕ → ℕ → List Text
disassembly_i16_sbc_reg_t1 ctx rdn rm =
    print_opcode ctx (codes "sbc") opcode_setflags_if_uncond ++ print_rr rdn rm

unfoldable pub disassembly_i32_sbc_reg_t2 : DisasCtx → ℕ → ℕ → ℕ → ℕ → ℕ → Bool → List Text
disassembly_i32_sbc_reg_t2 ctx rd rn rm imm shift_type s =
    print_opcode ctx (codes "sbc") (bit_or opcode_wide (if s then opcode_setflags else 0))
    ++ print_rrrs rd rn rm shift_type imm

unfoldable pub disassembly_i32_sdiv_t1 : DisasCtx → ℕ → ℕ → ℕ → List Text
disassembly_i32_sdiv_t1 ctx rd rn rm = print_opcode ctx (codes "sdiv") 0 ++ print_rrr rd rn rm

unfoldable pub disassembly_i32_smull_t1 : DisasCtx → ℕ → ℕ → ℕ → ℕ → List Text
disassembly_i32_smull_t1 ctx rn rm rd_lo rd_hi =
    print_opcode ctx (codes "smull") 0 ++ print_rrrr rd_lo rd_hi rn rm

unfoldable pub disassembly_i16_sub_spimm_t1 : DisasCtx → ℕ → List Text
disassembly_i16_sub_spimm_t1 ctx imm = print_opcode ctx (codes "sub") 0 ++ print_ri reg_sp (imm * 4)

unfoldable pub disassembly_i16_sub_imm_t1 : DisasCtx → ℕ → ℕ → ℕ → List Text
disassembly_i16_sub_imm_t1 ctx rd rn imm =
    print_opcode ctx (codes "sub") opcode_setflags_if_uncond ++ print_rri rd rn imm

unfoldable pub disassembly_i16_sub_imm_t2 : DisasCtx → ℕ → ℕ → List Text
disassembly_i16_sub_imm_t2 ctx rdn imm =
    print_opcode ctx (codes "sub") opcode_setflags_if_uncond ++ print_ri rdn imm

unfoldable pub disassembly_i32_sub_imm_t3 : DisasCtx → ℕ → ℕ → ℕ → Bool → List Text
disassembly_i32_sub_imm_t3 ctx rd rn imm s =
    print_opcode ctx (codes "sub") (bit_or opcode_wide (if s then opcode_setflags else 0))
    ++ print_rri rd rn imm

unfoldable pub disassembly_i32_sub_imm_t4 : DisasCtx → ℕ → ℕ → ℕ → List Text
disassembly_i32_sub_imm_t4 ctx rd rn imm = print_opcode ctx (codes "subw") 0 ++ print_rri rd rn imm

unfoldable pub disassembly_i16_sub_reg_t1 : DisasCtx → ℕ → ℕ → ℕ → List Text
disassembly_i16_sub_reg_t1 ctx rd rn rm =
    print_opcode ctx (codes "sub") opcode_setflags_if_uncond ++ print_rrr rd rn rm

unfoldable pub disassembly_i32_sub_reg_t2 : DisasCtx → ℕ → ℕ → ℕ → ℕ → ℕ → Bool → List Text
disassembly_i32_sub_reg_t2 ctx rd rn rm imm shift_type s =
    print_opcode ctx (codes "sub") (bit_or opcode_wide (if s then opcode_setflags else 0))
    ++ print_rrrs rd rn rm shift_type imm

unfoldable pub disassembly_i32_udiv_t1 : DisasCtx → ℕ → ℕ → ℕ → List Text
disassembly_i32_udiv_t1 ctx rd rn rm = print_opcode ctx (codes "udiv") 0 ++ print_rrr rd rn rm

unfoldable pub disassembly_i32_umlal_t1 : DisasCtx → ℕ → ℕ → ℕ → ℕ → List Text
disassembly_i32_umlal_t1 ctx rn rm rd_lo rd_hi =
    print_opcode ctx (codes "umlal") 0 ++ print_rrrr rd_lo rd_hi rn rm

unfoldable pub disassembly_i32_umull_t1 : DisasCtx → ℕ → ℕ → ℕ → ℕ → List Text
disassembly_i32_umull_t1 ctx rn rm rd_lo rd_hi =
    print_opcode ctx (codes "umull") 0 ++ print_rrrr rd_lo rd_hi rn rm
