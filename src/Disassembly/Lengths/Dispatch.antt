-- ===== src/Disassembly/Lengths/Dispatch.antt =====
-- impl_disassembly.c: how long the text of an instruction is.
use libthumb2sim.Base.{◌≤◌, arith}
use libthumb2sim.Decoder.Insn.{Insn}
use libthumb2sim.Disassembly.Print.{DisasCtx}
use libthumb2sim.Disassembly.Dispatch.{disassemble}
use libthumb2sim.Disassembly.Arith.{
  disassembly_i32_adc_imm_t1, disassembly_i16_adc_reg_t1, disassembly_i32_adc_reg_t2,
  disassembly_i16_add_spi_t1, disassembly_i16_add_spi_t2, disassembly_i32_add_spi_t3,
  disassembly_i32_add_spi_t4, disassembly_i16_add_spr_t1, disassembly_i16_add_spr_t2,
  disassembly_i16_add_imm_t1, disassembly_i16_add_imm_t2, disassembly_i32_add_imm_t3,
  disassembly_i32_add_imm_t4, disassembly_i16_add_reg_t1, disassembly_i16_add_reg_t2,
  disassembly_i32_add_reg_t3, disassembly_i32_cmn_imm_t1, disassembly_i16_cmn_reg_t1,
  disassembly_i32_cmn_reg_t2, disassembly_i16_cmp_imm_t1, disassembly_i32_cmp_imm_t2,
  disassembly_i16_cmp_reg_t1, disassembly_i16_cmp_reg_t2, disassembly_i32_cmp_reg_t3,
  disassembly_i32_mla_t1, disassembly_i16_mul_t1, disassembly_i32_mul_t2,
  disassembly_i16_rsb_imm_t1, disassembly_i32_rsb_imm_t2, disassembly_i32_rsb_reg_t1,
  disassembly_i32_sbc_imm_t1, disassembly_i16_sbc_reg_t1, disassembly_i32_sbc_reg_t2,
  disassembly_i32_sdiv_t1, disassembly_i32_smull_t1, disassembly_i16_sub_spimm_t1,
  disassembly_i16_sub_imm_t1, disassembly_i16_sub_imm_t2, disassembly_i32_sub_imm_t3,
  disassembly_i32_sub_imm_t4, disassembly_i16_sub_reg_t1, disassembly_i32_sub_reg_t2,
  disassembly_i32_udiv_t1, disassembly_i32_umlal_t1, disassembly_i32_umull_t1,
}
use libthumb2sim.Disassembly.Move.{
  disassembly_i16_adr_t1, disassembly_i16_mov_imm_t1, disassembly_i32_mov_imm_t2,
  disassembly_i32_mov_imm_t3, disassembly_i16_mov_reg_t1, disassembly_i16_mov_reg_t2,
  disassembly_i32_movt_t1, disassembly_i32_mvn_imm_t1, disassembly_i16_mvn_reg_t1,
  disassembly_i32_mvn_reg_t2, disassembly_i16_rev16_t1, disassembly_i16_rev_t1,
  disassembly_i32_rev_t2, disassembly_i16_revsh_t1, disassembly_i32_sxtb16_t1,
  disassembly_i16_sxtb_t1, disassembly_i16_sxth_t1, disassembly_i16_uxtb_t1,
  disassembly_i32_uxtb_t2, disassembly_i16_uxth_t1, disassembly_i32_uxth_t2,
}
use libthumb2sim.Disassembly.Logic.{
  disassembly_i32_and_imm_t1, disassembly_i16_and_reg_t1, disassembly_i32_and_reg_t2,
  disassembly_i16_asr_imm_t1, disassembly_i32_asr_imm_t2, disassembly_i16_asr_reg_t1,
  disassembly_i32_asr_reg_t2, disassembly_i32_bic_imm_t1, disassembly_i16_bic_reg_t1,
  disassembly_i32_bic_reg_t2, disassembly_i32_clz_t1, disassembly_i32_eor_imm_t1,
  disassembly_i16_eor_reg_t1, disassembly_i32_eor_reg_t2, disassembly_i16_lsl_imm_t1,
  disassembly_i32_lsl_imm_t2, disassembly_i16_lsl_reg_t1, disassembly_i32_lsl_reg_t2,
  disassembly_i16_lsr_imm_t1, disassembly_i32_lsr_imm_t2, disassembly_i16_lsr_reg_t1,
  disassembly_i32_lsr_reg_t2, disassembly_i32_orr_imm_t1, disassembly_i16_orr_reg_t1,
  disassembly_i32_orr_reg_t2, disassembly_i32_ror_imm_t1, disassembly_i16_ror_reg_t1,
  disassembly_i32_tst_imm_t1, disassembly_i16_tst_reg_t1, disassembly_i32_ubfx_t1,
}
use libthumb2sim.Disassembly.Branch.{
  disassembly_i16_b_t1, disassembly_i16_b_t2, disassembly_i32_b_t3, disassembly_i32_b_t4,
  disassembly_i32_bl_t1, disassembly_i16_blx_reg_t1, disassembly_i16_bx_t1, disassembly_i16_cbnz_t1,
  disassembly_i16_it_t1, disassembly_i32_tbb_t1,
}
use libthumb2sim.Disassembly.System.{
  disassembly_i16_bkpt_t1, disassembly_i16_cps_t1, disassembly_i16_nop_t1, disassembly_i32_nop_t2,
  disassembly_i16_sev_t1, disassembly_i32_sev_t2, disassembly_i16_svc_t1, disassembly_i16_udf_t1,
  disassembly_i16_yield_t1, disassembly_i32_yield_t2,
}
use libthumb2sim.Disassembly.Multiple.{
  disassembly_i16_ldm_t1, disassembly_i32_ldm_t2, disassembly_i32_ldmdb_t1, disassembly_i16_pop_t1,
  disassembly_i32_pop_t2, disassembly_i32_pop_t3, disassembly_i16_push_t1, disassembly_i32_push_t2,
  disassembly_i32_push_t3, disassembly_i16_stm_t1, disassembly_i32_stm_t2, disassembly_i32_stmdb_t1,
}
use libthumb2sim.Disassembly.Load.{
  disassembly_i16_ldr_imm_t1, disassembly_i16_ldr_imm_t2, disassembly_i32_ldr_imm_t3,
  disassembly_i32_ldr_imm_t4, disassembly_i16_ldr_lit_t1, disassembly_i32_ldr_lit_t2,
  disassembly_i16_ldr_reg_t1, disassembly_i32_ldr_reg_t2, disassembly_i16_ldrb_imm_t1,
  disassembly_i32_ldrb_imm_t2, disassembly_i32_ldrb_imm_t3, disassembly_i16_ldrb_reg_t1,
  disassembly_i32_ldrb_reg_t2, disassembly_i32_ldrd_imm_t1, disassembly_i16_ldrh_imm_t1,
  disassembly_i32_ldrh_imm_t2, disassembly_i16_ldrh_reg_t1, disassembly_i16_ldrsb_reg_t1,
  disassembly_i32_ldrsh_imm_t1, disassembly_i16_ldrsh_reg_t1,
}
use libthumb2sim.Disassembly.Store.{
  disassembly_i16_str_imm_t1, disassembly_i16_str_imm_t2, disassembly_i32_str_imm_t3,
  disassembly_i32_str_imm_t4, disassembly_i16_str_reg_t1, disassembly_i32_str_reg_t2,
  disassembly_i16_strb_imm_t1, disassembly_i32_strb_imm_t2, disassembly_i32_strb_imm_t3,
  disassembly_i16_strb_reg_t1, disassembly_i32_strb_reg_t2, disassembly_i32_strd_imm_t1,
  disassembly_i16_strh_imm_t1, disassembly_i32_strh_imm_t2, disassembly_i16_strh_reg_t1,
}
use libthumb2sim.Disassembly.Lengths.{total}
use libthumb2sim.Disassembly.Lengths.Texts.{texts}

pub disassemble_le : (insn : Insn) (ctx : DisasCtx) → total (disassemble insn ctx) ≤ 127
unfolding disassemble disassembly_i32_adc_imm_t1 disassembly_i16_adc_reg_t1
    disassembly_i32_adc_reg_t2 disassembly_i16_add_spi_t1 disassembly_i16_add_spi_t2
    disassembly_i32_add_spi_t3 disassembly_i32_add_spi_t4 disassembly_i16_add_spr_t1
    disassembly_i16_add_spr_t2 disassembly_i16_add_imm_t1 disassembly_i16_add_imm_t2
    disassembly_i32_add_imm_t3 disassembly_i32_add_imm_t4 disassembly_i16_add_reg_t1
    disassembly_i16_add_reg_t2 disassembly_i32_add_reg_t3 disassembly_i32_cmn_imm_t1
    disassembly_i16_cmn_reg_t1 disassembly_i32_cmn_reg_t2 disassembly_i16_cmp_imm_t1
    disassembly_i32_cmp_imm_t2 disassembly_i16_cmp_reg_t1 disassembly_i16_cmp_reg_t2
    disassembly_i32_cmp_reg_t3 disassembly_i32_mla_t1 disassembly_i16_mul_t1 disassembly_i32_mul_t2
    disassembly_i16_rsb_imm_t1 disassembly_i32_rsb_imm_t2 disassembly_i32_rsb_reg_t1
    disassembly_i32_sbc_imm_t1 disassembly_i16_sbc_reg_t1 disassembly_i32_sbc_reg_t2
    disassembly_i32_sdiv_t1 disassembly_i32_smull_t1 disassembly_i16_sub_spimm_t1
    disassembly_i16_sub_imm_t1 disassembly_i16_sub_imm_t2 disassembly_i32_sub_imm_t3
    disassembly_i32_sub_imm_t4 disassembly_i16_sub_reg_t1 disassembly_i32_sub_reg_t2
    disassembly_i32_udiv_t1 disassembly_i32_umlal_t1 disassembly_i32_umull_t1 disassembly_i16_adr_t1
    disassembly_i16_mov_imm_t1 disassembly_i32_mov_imm_t2 disassembly_i32_mov_imm_t3
    disassembly_i16_mov_reg_t1 disassembly_i16_mov_reg_t2 disassembly_i32_movt_t1
    disassembly_i32_mvn_imm_t1 disassembly_i16_mvn_reg_t1 disassembly_i32_mvn_reg_t2
    disassembly_i16_rev16_t1 disassembly_i16_rev_t1 disassembly_i32_rev_t2 disassembly_i16_revsh_t1
    disassembly_i32_sxtb16_t1 disassembly_i16_sxtb_t1 disassembly_i16_sxth_t1
    disassembly_i16_uxtb_t1 disassembly_i32_uxtb_t2 disassembly_i16_uxth_t1 disassembly_i32_uxth_t2
    disassembly_i32_and_imm_t1 disassembly_i16_and_reg_t1 disassembly_i32_and_reg_t2
    disassembly_i16_asr_imm_t1 disassembly_i32_asr_imm_t2 disassembly_i16_asr_reg_t1
    disassembly_i32_asr_reg_t2 disassembly_i32_bic_imm_t1 disassembly_i16_bic_reg_t1
    disassembly_i32_bic_reg_t2 disassembly_i32_clz_t1 disassembly_i32_eor_imm_t1
    disassembly_i16_eor_reg_t1 disassembly_i32_eor_reg_t2 disassembly_i16_lsl_imm_t1
    disassembly_i32_lsl_imm_t2 disassembly_i16_lsl_reg_t1 disassembly_i32_lsl_reg_t2
    disassembly_i16_lsr_imm_t1 disassembly_i32_lsr_imm_t2 disassembly_i16_lsr_reg_t1
    disassembly_i32_lsr_reg_t2 disassembly_i32_orr_imm_t1 disassembly_i16_orr_reg_t1
    disassembly_i32_orr_reg_t2 disassembly_i32_ror_imm_t1 disassembly_i16_ror_reg_t1
    disassembly_i32_tst_imm_t1 disassembly_i16_tst_reg_t1 disassembly_i32_ubfx_t1
    disassembly_i16_b_t1 disassembly_i16_b_t2 disassembly_i32_b_t3 disassembly_i32_b_t4
    disassembly_i32_bl_t1 disassembly_i16_blx_reg_t1 disassembly_i16_bx_t1 disassembly_i16_cbnz_t1
    disassembly_i16_it_t1 disassembly_i32_tbb_t1 disassembly_i16_bkpt_t1 disassembly_i16_cps_t1
    disassembly_i16_nop_t1 disassembly_i32_nop_t2 disassembly_i16_sev_t1 disassembly_i32_sev_t2
    disassembly_i16_svc_t1 disassembly_i16_udf_t1 disassembly_i16_yield_t1 disassembly_i32_yield_t2
    disassembly_i16_ldm_t1 disassembly_i32_ldm_t2 disassembly_i32_ldmdb_t1 disassembly_i16_pop_t1
    disassembly_i32_pop_t2 disassembly_i32_pop_t3 disassembly_i16_push_t1 disassembly_i32_push_t2
    disassembly_i32_push_t3 disassembly_i16_stm_t1 disassembly_i32_stm_t2 disassembly_i32_stmdb_t1
    disassembly_i16_ldr_imm_t1 disassembly_i16_ldr_imm_t2 disassembly_i32_ldr_imm_t3
    disassembly_i32_ldr_imm_t4 disassembly_i16_ldr_lit_t1 disassembly_i32_ldr_lit_t2
    disassembly_i16_ldr_reg_t1 disassembly_i32_ldr_reg_t2 disassembly_i16_ldrb_imm_t1
    disassembly_i32_ldrb_imm_t2 disassembly_i32_ldrb_imm_t3 disassembly_i16_ldrb_reg_t1
    disassembly_i32_ldrb_reg_t2 disassembly_i32_ldrd_imm_t1 disassembly_i16_ldrh_imm_t1
    disassembly_i32_ldrh_imm_t2 disassembly_i16_ldrh_reg_t1 disassembly_i16_ldrsb_reg_t1
    disassembly_i32_ldrsh_imm_t1 disassembly_i16_ldrsh_reg_t1 disassembly_i16_str_imm_t1
    disassembly_i16_str_imm_t2 disassembly_i32_str_imm_t3 disassembly_i32_str_imm_t4
    disassembly_i16_str_reg_t1 disassembly_i32_str_reg_t2 disassembly_i16_strb_imm_t1
    disassembly_i32_strb_imm_t2 disassembly_i32_strb_imm_t3 disassembly_i16_strb_reg_t1
    disassembly_i32_strb_reg_t2 disassembly_i32_strd_imm_t1 disassembly_i16_strh_imm_t1
    disassembly_i32_strh_imm_t2 disassembly_i16_strh_reg_t1
disassemble_le (Insn.adc_imm_t1 rd rn imm s) ctx = grind texts
disassemble_le (Insn.adc_reg_t1 rdn rm) ctx = grind texts
disassemble_le (Insn.adc_reg_t2 rd rn rm imm shift_type s) ctx = grind texts
disassemble_le (Insn.add_spi_t1 rd imm) ctx = grind texts
disassemble_le (Insn.add_spi_t2 imm) ctx = grind texts
disassemble_le (Insn.add_spi_t3 rd imm s) ctx = grind texts
disassemble_le (Insn.add_spi_t4 rd imm) ctx = grind texts
disassemble_le (Insn.add_spr_t1 rdm) ctx = grind texts
disassemble_le (Insn.add_spr_t2 rm) ctx = grind texts
disassemble_le (Insn.add_imm_t1 rd rn imm) ctx = grind texts
disassemble_le (Insn.add_imm_t2 rdn imm) ctx = grind texts
disassemble_le (Insn.add_imm_t3 rd rn imm s) ctx = grind texts
disassemble_le (Insn.add_imm_t4 rd rn imm) ctx = grind texts
disassemble_le (Insn.add_reg_t1 rd rn rm) ctx = grind texts
disassemble_le (Insn.add_reg_t2 rdn rm) ctx = grind texts
disassemble_le (Insn.add_reg_t3 rd rn rm imm shift_type s) ctx = grind texts
disassemble_le (Insn.cmn_imm_t1 rn imm) ctx = grind texts
disassemble_le (Insn.cmn_reg_t1 rn rm) ctx = grind texts
disassemble_le (Insn.cmn_reg_t2 rn rm imm shift_type) ctx = grind texts
disassemble_le (Insn.cmp_imm_t1 rn imm) ctx = grind texts
disassemble_le (Insn.cmp_imm_t2 rn imm) ctx = grind texts
disassemble_le (Insn.cmp_reg_t1 rn rm) ctx = grind texts
disassemble_le (Insn.cmp_reg_t2 rn rm) ctx = grind texts
disassemble_le (Insn.cmp_reg_t3 rn rm imm shift_type) ctx = grind texts
disassemble_le (Insn.mla_t1 rd rn rm ra) ctx = grind texts
disassemble_le (Insn.mul_t1 rdm rn) ctx = grind texts
disassemble_le (Insn.mul_t2 rd rn rm) ctx = grind texts
disassemble_le (Insn.rsb_imm_t1 rd rn) ctx = grind texts
disassemble_le (Insn.rsb_imm_t2 rd rn imm s) ctx = grind texts
disassemble_le (Insn.rsb_reg_t1 rd rn rm imm shift_type s) ctx = grind texts
disassemble_le (Insn.sbc_imm_t1 rd rn imm s) ctx = grind texts
disassemble_le (Insn.sbc_reg_t1 rdn rm) ctx = grind texts
disassemble_le (Insn.sbc_reg_t2 rd rn rm imm shift_type s) ctx = grind texts
disassemble_le (Insn.sdiv_t1 rd rn rm) ctx = grind texts
disassemble_le (Insn.smull_t1 rn rm rd_lo rd_hi) ctx = grind texts
disassemble_le (Insn.sub_spimm_t1 imm) ctx = grind texts
disassemble_le (Insn.sub_imm_t1 rd rn imm) ctx = grind texts
disassemble_le (Insn.sub_imm_t2 rdn imm) ctx = grind texts
disassemble_le (Insn.sub_imm_t3 rd rn imm s) ctx = grind texts
disassemble_le (Insn.sub_imm_t4 rd rn imm) ctx = grind texts
disassemble_le (Insn.sub_reg_t1 rd rn rm) ctx = grind texts
disassemble_le (Insn.sub_reg_t2 rd rn rm imm shift_type s) ctx = grind texts
disassemble_le (Insn.udiv_t1 rd rn rm) ctx = grind texts
disassemble_le (Insn.umlal_t1 rn rm rd_lo rd_hi) ctx = grind texts
disassemble_le (Insn.umull_t1 rn rm rd_lo rd_hi) ctx = grind texts
disassemble_le (Insn.adr_t1 rd imm) ctx = grind texts
disassemble_le (Insn.mov_imm_t1 rd imm) ctx = grind texts
disassemble_le (Insn.mov_imm_t2 rd imm s) ctx = grind texts
disassemble_le (Insn.mov_imm_t3 rd imm) ctx = grind texts
disassemble_le (Insn.mov_reg_t1 rd rm) ctx = grind texts
disassemble_le (Insn.mov_reg_t2 rd rm) ctx = grind texts
disassemble_le (Insn.movt_t1 rd imm) ctx = grind texts
disassemble_le (Insn.mvn_imm_t1 rd imm s) ctx = grind texts
disassemble_le (Insn.mvn_reg_t1 rd rm) ctx = grind texts
disassemble_le (Insn.mvn_reg_t2 rd rm imm shift_type s) ctx = grind texts
disassemble_le (Insn.rev16_t1 rd rm) ctx = grind texts
disassemble_le (Insn.rev_t1 rd rm) ctx = grind texts
disassemble_le (Insn.rev_t2 rd rm rmx) ctx = grind texts
disassemble_le (Insn.revsh_t1 rd rm) ctx = grind texts
disassemble_le (Insn.sxtb16_t1 rd rm rotate) ctx = grind texts
disassemble_le (Insn.sxtb_t1 rd rm) ctx = grind texts
disassemble_le (Insn.sxth_t1 rd rm) ctx = grind texts
disassemble_le (Insn.uxtb_t1 rd rm) ctx = grind texts
disassemble_le (Insn.uxtb_t2 rd rm rotate) ctx = grind texts
disassemble_le (Insn.uxth_t1 rd rm) ctx = grind texts
disassemble_le (Insn.uxth_t2 rd rm rotate) ctx = grind texts
disassemble_le (Insn.and_imm_t1 rd rn imm s) ctx = grind texts
disassemble_le (Insn.and_reg_t1 rdn rm) ctx = grind texts
disassemble_le (Insn.and_reg_t2 rd rn rm imm shift_type s) ctx = grind texts
disassemble_le (Insn.asr_imm_t1 rd rm imm) ctx = grind texts
disassemble_le (Insn.asr_imm_t2 rd rm imm s) ctx = grind texts
disassemble_le (Insn.asr_reg_t1 rdn rm) ctx = grind texts
disassemble_le (Insn.asr_reg_t2 rd rn rm s) ctx = grind texts
disassemble_le (Insn.bic_imm_t1 rd rn imm s) ctx = grind texts
disassemble_le (Insn.bic_reg_t1 rdn rm) ctx = grind texts
disassemble_le (Insn.bic_reg_t2 rd rn rm imm shift_type s) ctx = grind texts
disassemble_le (Insn.clz_t1 rd rm rmx) ctx = grind texts
disassemble_le (Insn.eor_imm_t1 rd rn imm s) ctx = grind texts
disassemble_le (Insn.eor_reg_t1 rdn rm) ctx = grind texts
disassemble_le (Insn.eor_reg_t2 rd rn rm imm shift_type s) ctx = grind texts
disassemble_le (Insn.lsl_imm_t1 rd rm imm) ctx = grind texts
disassemble_le (Insn.lsl_imm_t2 rd rm imm s) ctx = grind texts
disassemble_le (Insn.lsl_reg_t1 rdn rm) ctx = grind texts
disassemble_le (Insn.lsl_reg_t2 rd rn rm s) ctx = grind texts
disassemble_le (Insn.lsr_imm_t1 rd rm imm) ctx = grind texts
disassemble_le (Insn.lsr_imm_t2 rd rm imm s) ctx = grind texts
disassemble_le (Insn.lsr_reg_t1 rdn rm) ctx = grind texts
disassemble_le (Insn.lsr_reg_t2 rd rn rm s) ctx = grind texts
disassemble_le (Insn.orr_imm_t1 rd rn imm s) ctx = grind texts
disassemble_le (Insn.orr_reg_t1 rdn rm) ctx = grind texts
disassemble_le (Insn.orr_reg_t2 rd rn rm imm shift_type s) ctx = grind texts
disassemble_le (Insn.ror_imm_t1 rd rm imm s) ctx = grind texts
disassemble_le (Insn.ror_reg_t1 rdn rm) ctx = grind texts
disassemble_le (Insn.tst_imm_t1 rn imm) ctx = grind texts
disassemble_le (Insn.tst_reg_t1 rn rm) ctx = grind texts
disassemble_le (Insn.ubfx_t1 rd rn imm width) ctx = grind texts
disassemble_le (Insn.b_t1 imm cond) ctx = grind texts
disassemble_le (Insn.b_t2 imm) ctx = grind texts
disassemble_le (Insn.b_t3 imm cond) ctx = grind texts
disassemble_le (Insn.b_t4 imm) ctx = grind texts
disassemble_le (Insn.bl_t1 imm) ctx = grind texts
disassemble_le (Insn.blx_reg_t1 rm) ctx = grind texts
disassemble_le (Insn.bx_t1 rm) ctx = grind texts
disassemble_le (Insn.cbnz_t1 rn imm op) ctx = grind texts
disassemble_le (Insn.it_t1 firstcond mask) ctx = grind texts
disassemble_le (Insn.tbb_t1 rn rm h) ctx = grind texts
disassemble_le (Insn.bkpt_t1 imm) ctx = grind texts
disassemble_le (Insn.cps_t1 imm f i) ctx = grind texts
disassemble_le Insn.nop_t1 ctx = grind texts
disassemble_le Insn.nop_t2 ctx = grind texts
disassemble_le Insn.sev_t1 ctx = grind texts
disassemble_le Insn.sev_t2 ctx = grind texts
disassemble_le (Insn.svc_t1 imm) ctx = grind texts
disassemble_le (Insn.udf_t1 imm) ctx = grind texts
disassemble_le Insn.yield_t1 ctx = grind texts
disassemble_le Insn.yield_t2 ctx = grind texts
disassemble_le (Insn.ldm_t1 rn register_list) ctx = grind texts
disassemble_le (Insn.ldm_t2 rn register_list p m w) ctx = grind texts
disassemble_le (Insn.ldmdb_t1 rn register_list p m w) ctx = grind texts
disassemble_le (Insn.pop_t1 register_list p) ctx = grind texts
disassemble_le (Insn.pop_t2 register_list p m) ctx = grind texts
disassemble_le (Insn.pop_t3 rt) ctx = grind texts
disassemble_le (Insn.push_t1 register_list m) ctx = grind texts
disassemble_le (Insn.push_t2 register_list m) ctx = grind texts
disassemble_le (Insn.push_t3 rt) ctx = grind texts
disassemble_le (Insn.stm_t1 rn register_list) ctx = grind texts
disassemble_le (Insn.stm_t2 rn register_list m w) ctx = grind texts
disassemble_le (Insn.stmdb_t1 rn register_list m w) ctx = grind texts
disassemble_le (Insn.ldr_imm_t1 rt rn imm) ctx = grind texts
disassemble_le (Insn.ldr_imm_t2 rt imm) ctx = grind texts
disassemble_le (Insn.ldr_imm_t3 rt rn imm) ctx = grind texts
disassemble_le (Insn.ldr_imm_t4 rt rn imm p u w) ctx = grind texts
disassemble_le (Insn.ldr_lit_t1 rt imm) ctx = grind texts
disassemble_le (Insn.ldr_lit_t2 rt imm u) ctx = grind texts
disassemble_le (Insn.ldr_reg_t1 rt rn rm) ctx = grind texts
disassemble_le (Insn.ldr_reg_t2 rt rn rm imm) ctx = grind texts
disassemble_le (Insn.ldrb_imm_t1 rt rn imm) ctx = grind texts
disassemble_le (Insn.ldrb_imm_t2 rt rn imm) ctx = grind texts
disassemble_le (Insn.ldrb_imm_t3 rt rn imm p u w) ctx = grind texts
disassemble_le (Insn.ldrb_reg_t1 rt rn rm) ctx = grind texts
disassemble_le (Insn.ldrb_reg_t2 rt rn rm imm) ctx = grind texts
disassemble_le (Insn.ldrd_imm_t1 rt rn rtx imm p u w) ctx = grind texts
disassemble_le (Insn.ldrh_imm_t1 rt rn imm) ctx = grind texts
disassemble_le (Insn.ldrh_imm_t2 rt rn imm) ctx = grind texts
disassemble_le (Insn.ldrh_reg_t1 rt rn rm) ctx = grind texts
disassemble_le (Insn.ldrsb_reg_t1 rt rn rm) ctx = grind texts
disassemble_le (Insn.ldrsh_imm_t1 rt rn imm) ctx = grind texts
disassemble_le (Insn.ldrsh_reg_t1 rt rn rm) ctx = grind texts
disassemble_le (Insn.str_imm_t1 rt rn imm) ctx = grind texts
disassemble_le (Insn.str_imm_t2 rt imm) ctx = grind texts
disassemble_le (Insn.str_imm_t3 rt rn imm) ctx = grind texts
disassemble_le (Insn.str_imm_t4 rt rn imm p u w) ctx = grind texts
disassemble_le (Insn.str_reg_t1 rt rn rm) ctx = grind texts
disassemble_le (Insn.str_reg_t2 rt rn rm imm) ctx = grind texts
disassemble_le (Insn.strb_imm_t1 rt rn imm) ctx = grind texts
disassemble_le (Insn.strb_imm_t2 rt rn imm) ctx = grind texts
disassemble_le (Insn.strb_imm_t3 rt rn imm p u w) ctx = grind texts
disassemble_le (Insn.strb_reg_t1 rt rn rm) ctx = grind texts
disassemble_le (Insn.strb_reg_t2 rt rn rm imm) ctx = grind texts
disassemble_le (Insn.strd_imm_t1 rt rn rtx imm p u w) ctx = grind texts
disassemble_le (Insn.strh_imm_t1 rt rn imm) ctx = grind texts
disassemble_le (Insn.strh_imm_t2 rt rn imm) ctx = grind texts
disassemble_le (Insn.strh_reg_t1 rt rn rm) ctx = grind texts
disassemble_le _ ctx = omega arith
