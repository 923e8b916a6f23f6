-- ===== src/Emulation/Machine/Execute.antt =====
-- impl_emulation.c, `emulation_callbacks`: every handler keeps the machine valid.
use libthumb2sim.Base.OnSome.{OnSome, defined}
use libthumb2sim.Cpu.{InsnEmuCtx, IsMachine}
use libthumb2sim.Decoder.Insn.{Insn}
use libthumb2sim.Decoder.Operands.{OperandsFit}
use libthumb2sim.Emulation.Execute.{run_insn}
use libthumb2sim.Emulation.Machine.Arith.{
  i32_adc_imm_t1-IsMachine, i32_adc_reg_t2-IsMachine, i16_add_spi_t1-IsMachine,
  i16_add_spi_t2-IsMachine, i32_add_spi_t3-IsMachine, i16_add_spr_t1-IsMachine,
  i32_add_spr_t3-IsMachine, i16_add_imm_t1-IsMachine, i16_add_imm_t2-IsMachine,
  i32_add_imm_t3-IsMachine, i16_add_reg_t1-IsMachine, i16_add_reg_t2-IsMachine,
  i32_add_reg_t3-IsMachine, i16_cmp_imm_t1-IsMachine, i32_cmp_imm_t2-IsMachine,
  i16_cmp_reg_t1-IsMachine, i16_cmp_reg_t2-IsMachine, i32_mul_t2-IsMachine,
  i32_rsb_imm_t2-IsMachine, i32_rsb_reg_t1-IsMachine, i32_sdiv_t1-IsMachine,
  i16_sub_spimm_t1-IsMachine, i16_sub_imm_t1-IsMachine, i16_sub_imm_t2-IsMachine,
  i32_sub_imm_t3-IsMachine, i32_sub_imm_t4-IsMachine, i16_sub_reg_t1-IsMachine,
  i32_sub_reg_t2-IsMachine, i32_umull_t1-IsMachine,
}
use libthumb2sim.Emulation.Machine.Logic.{
  i32_and_imm_t1-IsMachine, i16_and_reg_t1-IsMachine, i32_and_reg_t2-IsMachine,
  i16_asr_imm_t1-IsMachine, i32_bfi_t1-IsMachine, i32_bic_imm_t1-IsMachine,
  i32_bic_reg_t2-IsMachine, i32_clz_t1-IsMachine, i32_eor_imm_t1-IsMachine,
  i16_eor_reg_t1-IsMachine, i32_eor_reg_t2-IsMachine, i16_lsl_imm_t1-IsMachine,
  i32_lsl_imm_t2-IsMachine, i16_lsl_reg_t1-IsMachine, i32_lsl_reg_t2-IsMachine,
  i16_lsr_imm_t1-IsMachine, i32_lsr_imm_t2-IsMachine, i16_lsr_reg_t1-IsMachine,
  i32_lsr_reg_t2-IsMachine,
}
use libthumb2sim.Emulation.Machine.Branch.{
  i16_b_t1-IsMachine, i16_b_t2-IsMachine, i32_b_t3-IsMachine, i32_b_t4-IsMachine,
  i32_bl_t1-IsMachine, i16_bx_t1-IsMachine, i16_cbnz_t1-IsMachine, i16_it_t1-IsMachine,
  i32_tbb_t1-IsMachine,
}
use libthumb2sim.Emulation.Machine.Multiple.{
  i16_ldm_t1-IsMachine, i32_ldm_t2-IsMachine, i16_pop_t1-IsMachine, i32_pop_t2-IsMachine,
  i32_pop_t3-IsMachine, i16_push_t1-IsMachine, i32_push_t2-IsMachine, i16_stm_t1-IsMachine,
  i32_stm_t2-IsMachine, i32_stmdb_t1-IsMachine,
}
use libthumb2sim.Emulation.Machine.Memory.{
  i16_ldr_imm_t1-IsMachine, i16_ldr_imm_t2-IsMachine, i32_ldr_imm_t3-IsMachine,
  i32_ldr_imm_t4-IsMachine, i16_ldr_lit_t1-IsMachine, i32_ldr_lit_t2-IsMachine,
  i16_ldr_reg_t1-IsMachine, i32_ldr_reg_t2-IsMachine, i16_ldrb_imm_t1-IsMachine,
  i32_ldrb_imm_t2-IsMachine, i32_ldrb_imm_t3-IsMachine, i16_ldrb_reg_t1-IsMachine,
  i32_ldrb_reg_t2-IsMachine, i32_ldrd_imm_t1-IsMachine, i16_ldrh_imm_t1-IsMachine,
  i32_ldrh_imm_t2-IsMachine, i16_str_imm_t1-IsMachine, i16_str_imm_t2-IsMachine,
  i32_str_imm_t3-IsMachine, i32_str_imm_t4-IsMachine, i16_str_reg_t1-IsMachine,
  i32_str_reg_t2-IsMachine, i16_strb_imm_t1-IsMachine, i32_strb_imm_t2-IsMachine,
  i32_strb_imm_t3-IsMachine, i16_strb_reg_t1-IsMachine, i32_strb_reg_t2-IsMachine,
  i32_strd_imm_t1-IsMachine, i16_strh_imm_t1-IsMachine, i32_strh_imm_t2-IsMachine,
}
use libthumb2sim.Emulation.Machine.Move.{
  i16_mov_imm_t1-IsMachine, i32_mov_imm_t2-IsMachine, i32_mov_imm_t3-IsMachine,
  i16_mov_reg_t1-IsMachine, i16_mov_reg_t2-IsMachine, i32_movt_t1-IsMachine, i32_msr_t1-IsMachine,
  i32_mvn_imm_t1-IsMachine, i16_mvn_reg_t1-IsMachine, i32_mvn_reg_t2-IsMachine,
  i32_orn_reg_t1-IsMachine, i32_orr_imm_t1-IsMachine, i16_orr_reg_t1-IsMachine,
  i32_orr_reg_t2-IsMachine, i32_ror_imm_t1-IsMachine, i16_sxtb_t1-IsMachine,
  i32_tst_imm_t1-IsMachine, i16_tst_reg_t1-IsMachine, i32_ubfx_t1-IsMachine, i16_uxtb_t1-IsMachine,
  i32_uxtb_t2-IsMachine, i16_uxth_t1-IsMachine,
}

pub run_insn-IsMachine :
    {ctx : InsnEmuCtx} (insn : Insn)
    → IsMachine ctx
    → OperandsFit insn
    → OnSome IsMachine (run_insn insn ctx)
unfolding run_insn OperandsFit
run_insn-IsMachine (Insn.adc_imm_t1 rd rn imm s) valid fits =
    defined (i32_adc_imm_t1-IsMachine valid rd rn imm s)
run_insn-IsMachine (Insn.adc_reg_t2 rd rn rm imm shift_type s) valid fits =
    i32_adc_reg_t2-IsMachine valid rd rn rm imm shift_type s
run_insn-IsMachine (Insn.add_spi_t1 rd imm) valid fits =
    defined (i16_add_spi_t1-IsMachine valid rd imm)
run_insn-IsMachine (Insn.add_spi_t2 imm) valid fits = defined (i16_add_spi_t2-IsMachine valid imm)
run_insn-IsMachine (Insn.add_spi_t3 rd imm s) valid fits =
    defined (i32_add_spi_t3-IsMachine valid rd imm s)
run_insn-IsMachine (Insn.add_spr_t1 rdm) valid fits = defined (i16_add_spr_t1-IsMachine valid rdm)
run_insn-IsMachine (Insn.add_spr_t3 rd rm imm shift_type s) valid fits =
    i32_add_spr_t3-IsMachine valid rd rm imm shift_type s
run_insn-IsMachine (Insn.add_imm_t1 rd rn imm) valid fits =
    defined (i16_add_imm_t1-IsMachine valid rd rn imm)
run_insn-IsMachine (Insn.add_imm_t2 rdn imm) valid fits =
    defined (i16_add_imm_t2-IsMachine valid rdn imm)
run_insn-IsMachine (Insn.add_imm_t3 rd rn imm s) valid fits =
    defined (i32_add_imm_t3-IsMachine valid rd rn imm s)
run_insn-IsMachine (Insn.add_reg_t1 rd rn rm) valid fits =
    defined (i16_add_reg_t1-IsMachine valid rd rn rm)
run_insn-IsMachine (Insn.add_reg_t2 rdn rm) valid fits =
    defined (i16_add_reg_t2-IsMachine valid rdn rm)
run_insn-IsMachine (Insn.add_reg_t3 rd rn rm imm shift_type s) valid fits =
    i32_add_reg_t3-IsMachine valid rd rn rm imm shift_type s
run_insn-IsMachine (Insn.and_imm_t1 rd rn imm s) valid fits =
    defined (i32_and_imm_t1-IsMachine valid rd rn imm s)
run_insn-IsMachine (Insn.and_reg_t1 rdn rm) valid fits =
    defined (i16_and_reg_t1-IsMachine valid rdn rm)
run_insn-IsMachine (Insn.and_reg_t2 rd rn rm imm shift_type s) valid fits =
    i32_and_reg_t2-IsMachine valid rd rn rm imm shift_type s
run_insn-IsMachine (Insn.asr_imm_t1 rd rm imm) valid fits = i16_asr_imm_t1-IsMachine valid rd rm imm
run_insn-IsMachine (Insn.b_t1 imm cond) valid fits = defined (i16_b_t1-IsMachine valid imm cond)
run_insn-IsMachine (Insn.b_t2 imm) valid fits = defined (i16_b_t2-IsMachine valid imm)
run_insn-IsMachine (Insn.b_t3 imm cond) valid fits = defined (i32_b_t3-IsMachine valid imm cond)
run_insn-IsMachine (Insn.b_t4 imm) valid fits = defined (i32_b_t4-IsMachine valid imm)
run_insn-IsMachine (Insn.bfi_t1 rd rn imm msb) valid fits = i32_bfi_t1-IsMachine valid rd rn imm msb
run_insn-IsMachine (Insn.bic_imm_t1 rd rn imm s) valid fits =
    defined (i32_bic_imm_t1-IsMachine valid rd rn imm s)
run_insn-IsMachine (Insn.bic_reg_t2 rd rn rm imm shift_type s) valid fits =
    i32_bic_reg_t2-IsMachine valid rd rn rm imm shift_type s
run_insn-IsMachine (Insn.bl_t1 imm) valid fits = defined (i32_bl_t1-IsMachine valid imm)
run_insn-IsMachine (Insn.bx_t1 rm) valid fits = defined (i16_bx_t1-IsMachine valid rm)
run_insn-IsMachine (Insn.cbnz_t1 rn imm op) valid fits =
    defined (i16_cbnz_t1-IsMachine valid rn imm op)
run_insn-IsMachine (Insn.clz_t1 rd rm rmx) valid fits =
    defined (i32_clz_t1-IsMachine valid rd rm rmx)
run_insn-IsMachine (Insn.cmp_imm_t1 rn imm) valid fits = i16_cmp_imm_t1-IsMachine valid rn imm
run_insn-IsMachine (Insn.cmp_imm_t2 rn imm) valid fits = i32_cmp_imm_t2-IsMachine valid rn imm
run_insn-IsMachine (Insn.cmp_reg_t1 rn rm) valid fits = i16_cmp_reg_t1-IsMachine valid rn rm
run_insn-IsMachine (Insn.cmp_reg_t2 rn rm) valid fits = i16_cmp_reg_t2-IsMachine valid rn rm
run_insn-IsMachine (Insn.eor_imm_t1 rd rn imm s) valid fits =
    defined (i32_eor_imm_t1-IsMachine valid rd rn imm s (fits.2))
run_insn-IsMachine (Insn.eor_reg_t1 rdn rm) valid fits =
    defined (i16_eor_reg_t1-IsMachine valid rdn rm)
run_insn-IsMachine (Insn.eor_reg_t2 rd rn rm imm shift_type s) valid fits =
    i32_eor_reg_t2-IsMachine valid rd rn rm imm shift_type s
run_insn-IsMachine (Insn.it_t1 firstcond mask) valid fits =
    defined (i16_it_t1-IsMachine valid firstcond mask (fits))
run_insn-IsMachine (Insn.ldm_t1 rn register_list) valid fits =
    i16_ldm_t1-IsMachine valid rn register_list
run_insn-IsMachine (Insn.ldm_t2 rn register_list p m w) valid fits =
    i32_ldm_t2-IsMachine valid rn register_list p m w
run_insn-IsMachine (Insn.ldr_imm_t1 rt rn imm) valid fits = i16_ldr_imm_t1-IsMachine valid rt rn imm
run_insn-IsMachine (Insn.ldr_imm_t2 rt imm) valid fits = i16_ldr_imm_t2-IsMachine valid rt imm
run_insn-IsMachine (Insn.ldr_imm_t3 rt rn imm) valid fits = i32_ldr_imm_t3-IsMachine valid rt rn imm
run_insn-IsMachine (Insn.ldr_imm_t4 rt rn imm p u w) valid fits =
    i32_ldr_imm_t4-IsMachine valid rt rn imm p u w
run_insn-IsMachine (Insn.ldr_lit_t1 rt imm) valid fits = i16_ldr_lit_t1-IsMachine valid rt imm
run_insn-IsMachine (Insn.ldr_lit_t2 rt imm u) valid fits = i32_ldr_lit_t2-IsMachine valid rt imm u
run_insn-IsMachine (Insn.ldr_reg_t1 rt rn rm) valid fits = i16_ldr_reg_t1-IsMachine valid rt rn rm
run_insn-IsMachine (Insn.ldr_reg_t2 rt rn rm imm) valid fits =
    i32_ldr_reg_t2-IsMachine valid rt rn rm imm
run_insn-IsMachine (Insn.ldrb_imm_t1 rt rn imm) valid fits =
    i16_ldrb_imm_t1-IsMachine valid rt rn imm
run_insn-IsMachine (Insn.ldrb_imm_t2 rt rn imm) valid fits =
    i32_ldrb_imm_t2-IsMachine valid rt rn imm
run_insn-IsMachine (Insn.ldrb_imm_t3 rt rn imm p u w) valid fits =
    i32_ldrb_imm_t3-IsMachine valid rt rn imm p u w
run_insn-IsMachine (Insn.ldrb_reg_t1 rt rn rm) valid fits = i16_ldrb_reg_t1-IsMachine valid rt rn rm
run_insn-IsMachine (Insn.ldrb_reg_t2 rt rn rm imm) valid fits =
    i32_ldrb_reg_t2-IsMachine valid rt rn rm imm
run_insn-IsMachine (Insn.ldrd_imm_t1 rt rn rtx imm p u w) valid fits =
    i32_ldrd_imm_t1-IsMachine valid rt rn rtx imm p u w
run_insn-IsMachine (Insn.ldrh_imm_t1 rt rn imm) valid fits =
    i16_ldrh_imm_t1-IsMachine valid rt rn imm
run_insn-IsMachine (Insn.ldrh_imm_t2 rt rn imm) valid fits =
    i32_ldrh_imm_t2-IsMachine valid rt rn imm
run_insn-IsMachine (Insn.lsl_imm_t1 rd rm imm) valid fits = i16_lsl_imm_t1-IsMachine valid rd rm imm
run_insn-IsMachine (Insn.lsl_imm_t2 rd rm imm s) valid fits =
    i32_lsl_imm_t2-IsMachine valid rd rm imm s
run_insn-IsMachine (Insn.lsl_reg_t1 rdn rm) valid fits = i16_lsl_reg_t1-IsMachine valid rdn rm
run_insn-IsMachine (Insn.lsl_reg_t2 rd rn rm s) valid fits =
    i32_lsl_reg_t2-IsMachine valid rd rn rm s
run_insn-IsMachine (Insn.lsr_imm_t1 rd rm imm) valid fits = i16_lsr_imm_t1-IsMachine valid rd rm imm
run_insn-IsMachine (Insn.lsr_imm_t2 rd rm imm s) valid fits =
    i32_lsr_imm_t2-IsMachine valid rd rm imm s
run_insn-IsMachine (Insn.lsr_reg_t1 rdn rm) valid fits = i16_lsr_reg_t1-IsMachine valid rdn rm
run_insn-IsMachine (Insn.lsr_reg_t2 rd rn rm s) valid fits =
    i32_lsr_reg_t2-IsMachine valid rd rn rm s
run_insn-IsMachine (Insn.mov_imm_t1 rd imm) valid fits =
    defined (i16_mov_imm_t1-IsMachine valid rd imm (fits.1))
run_insn-IsMachine (Insn.mov_imm_t2 rd imm s) valid fits =
    defined (i32_mov_imm_t2-IsMachine valid rd imm s (fits.1))
run_insn-IsMachine (Insn.mov_imm_t3 rd imm) valid fits =
    defined (i32_mov_imm_t3-IsMachine valid rd imm (fits.1))
run_insn-IsMachine (Insn.mov_reg_t1 rd rm) valid fits =
    defined (i16_mov_reg_t1-IsMachine valid rd rm)
run_insn-IsMachine (Insn.mov_reg_t2 rd rm) valid fits =
    defined (i16_mov_reg_t2-IsMachine valid rd rm)
run_insn-IsMachine (Insn.movt_t1 rd imm) valid fits = defined (i32_movt_t1-IsMachine valid rd imm)
run_insn-IsMachine (Insn.msr_t1 rn mask sysm) valid fits =
    defined (i32_msr_t1-IsMachine valid rn mask sysm)
run_insn-IsMachine (Insn.mul_t2 rd rn rm) valid fits = defined (i32_mul_t2-IsMachine valid rd rn rm)
run_insn-IsMachine (Insn.mvn_imm_t1 rd imm s) valid fits =
    defined (i32_mvn_imm_t1-IsMachine valid rd imm s)
run_insn-IsMachine (Insn.mvn_reg_t1 rd rm) valid fits =
    defined (i16_mvn_reg_t1-IsMachine valid rd rm)
run_insn-IsMachine (Insn.mvn_reg_t2 rd rm imm shift_type s) valid fits =
    i32_mvn_reg_t2-IsMachine valid rd rm imm shift_type s
run_insn-IsMachine (Insn.orn_reg_t1 rd rn rm imm shift_type s) valid fits =
    i32_orn_reg_t1-IsMachine valid rd rn rm imm shift_type s
run_insn-IsMachine (Insn.orr_imm_t1 rd rn imm s) valid fits =
    defined (i32_orr_imm_t1-IsMachine valid rd rn imm s (fits.2))
run_insn-IsMachine (Insn.orr_reg_t1 rdn rm) valid fits =
    defined (i16_orr_reg_t1-IsMachine valid rdn rm)
run_insn-IsMachine (Insn.orr_reg_t2 rd rn rm imm shift_type s) valid fits =
    i32_orr_reg_t2-IsMachine valid rd rn rm imm shift_type s
run_insn-IsMachine (Insn.pop_t1 register_list p) valid fits =
    i16_pop_t1-IsMachine valid register_list p
run_insn-IsMachine (Insn.pop_t2 register_list p m) valid fits =
    i32_pop_t2-IsMachine valid register_list p m
run_insn-IsMachine (Insn.pop_t3 rt) valid fits = i32_pop_t3-IsMachine valid rt
run_insn-IsMachine (Insn.push_t1 register_list m) valid fits =
    i16_push_t1-IsMachine valid register_list m
run_insn-IsMachine (Insn.push_t2 register_list m) valid fits =
    i32_push_t2-IsMachine valid register_list m
run_insn-IsMachine (Insn.ror_imm_t1 rd rm imm s) valid fits =
    i32_ror_imm_t1-IsMachine valid rd rm imm s
run_insn-IsMachine (Insn.rsb_imm_t2 rd rn imm s) valid fits =
    i32_rsb_imm_t2-IsMachine valid rd rn imm s
run_insn-IsMachine (Insn.rsb_reg_t1 rd rn rm imm shift_type s) valid fits =
    i32_rsb_reg_t1-IsMachine valid rd rn rm imm shift_type s
run_insn-IsMachine (Insn.sdiv_t1 rd rn rm) valid fits = i32_sdiv_t1-IsMachine valid rd rn rm
run_insn-IsMachine (Insn.stm_t1 rn register_list) valid fits =
    i16_stm_t1-IsMachine valid rn register_list
run_insn-IsMachine (Insn.stm_t2 rn register_list m w) valid fits =
    i32_stm_t2-IsMachine valid rn register_list m w
run_insn-IsMachine (Insn.stmdb_t1 rn register_list m w) valid fits =
    i32_stmdb_t1-IsMachine valid rn register_list m w
run_insn-IsMachine (Insn.str_imm_t1 rt rn imm) valid fits = i16_str_imm_t1-IsMachine valid rt rn imm
run_insn-IsMachine (Insn.str_imm_t2 rt imm) valid fits = i16_str_imm_t2-IsMachine valid rt imm
run_insn-IsMachine (Insn.str_imm_t3 rt rn imm) valid fits = i32_str_imm_t3-IsMachine valid rt rn imm
run_insn-IsMachine (Insn.str_imm_t4 rt rn imm p u w) valid fits =
    i32_str_imm_t4-IsMachine valid rt rn imm p u w
run_insn-IsMachine (Insn.str_reg_t1 rt rn rm) valid fits = i16_str_reg_t1-IsMachine valid rt rn rm
run_insn-IsMachine (Insn.str_reg_t2 rt rn rm imm) valid fits =
    i32_str_reg_t2-IsMachine valid rt rn rm imm
run_insn-IsMachine (Insn.strb_imm_t1 rt rn imm) valid fits =
    i16_strb_imm_t1-IsMachine valid rt rn imm
run_insn-IsMachine (Insn.strb_imm_t2 rt rn imm) valid fits =
    i32_strb_imm_t2-IsMachine valid rt rn imm
run_insn-IsMachine (Insn.strb_imm_t3 rt rn imm p u w) valid fits =
    i32_strb_imm_t3-IsMachine valid rt rn imm p u w
run_insn-IsMachine (Insn.strb_reg_t1 rt rn rm) valid fits = i16_strb_reg_t1-IsMachine valid rt rn rm
run_insn-IsMachine (Insn.strb_reg_t2 rt rn rm imm) valid fits =
    i32_strb_reg_t2-IsMachine valid rt rn rm imm
run_insn-IsMachine (Insn.strd_imm_t1 rt rn rtx imm p u w) valid fits =
    i32_strd_imm_t1-IsMachine valid rt rn rtx imm p u w
run_insn-IsMachine (Insn.strh_imm_t1 rt rn imm) valid fits =
    i16_strh_imm_t1-IsMachine valid rt rn imm
run_insn-IsMachine (Insn.strh_imm_t2 rt rn imm) valid fits =
    i32_strh_imm_t2-IsMachine valid rt rn imm
run_insn-IsMachine (Insn.sub_spimm_t1 imm) valid fits =
    defined (i16_sub_spimm_t1-IsMachine valid imm)
run_insn-IsMachine (Insn.sub_imm_t1 rd rn imm) valid fits = i16_sub_imm_t1-IsMachine valid rd rn imm
run_insn-IsMachine (Insn.sub_imm_t2 rdn imm) valid fits = i16_sub_imm_t2-IsMachine valid rdn imm
run_insn-IsMachine (Insn.sub_imm_t3 rd rn imm s) valid fits =
    i32_sub_imm_t3-IsMachine valid rd rn imm s
run_insn-IsMachine (Insn.sub_imm_t4 rd rn imm) valid fits = i32_sub_imm_t4-IsMachine valid rd rn imm
run_insn-IsMachine (Insn.sub_reg_t1 rd rn rm) valid fits = i16_sub_reg_t1-IsMachine valid rd rn rm
run_insn-IsMachine (Insn.sub_reg_t2 rd rn rm imm shift_type s) valid fits =
    i32_sub_reg_t2-IsMachine valid rd rn rm imm shift_type s
run_insn-IsMachine (Insn.sxtb_t1 rd rm) valid fits = defined (i16_sxtb_t1-IsMachine valid rd rm)
run_insn-IsMachine (Insn.tbb_t1 rn rm h) valid fits = i32_tbb_t1-IsMachine valid rn rm h
run_insn-IsMachine (Insn.tst_imm_t1 rn imm) valid fits =
    defined (i32_tst_imm_t1-IsMachine valid rn imm)
run_insn-IsMachine (Insn.tst_reg_t1 rn rm) valid fits =
    defined (i16_tst_reg_t1-IsMachine valid rn rm)
run_insn-IsMachine (Insn.ubfx_t1 rd rn imm width) valid fits =
    i32_ubfx_t1-IsMachine valid rd rn imm width
run_insn-IsMachine (Insn.umull_t1 rn rm rd_lo rd_hi) valid fits =
    defined (i32_umull_t1-IsMachine valid rn rm rd_lo rd_hi)
run_insn-IsMachine (Insn.uxtb_t1 rd rm) valid fits = defined (i16_uxtb_t1-IsMachine valid rd rm)
run_insn-IsMachine (Insn.uxtb_t2 rd rm rotate) valid fits =
    defined (i32_uxtb_t2-IsMachine valid rd rm rotate)
run_insn-IsMachine (Insn.uxth_t1 rd rm) valid fits = defined (i16_uxth_t1-IsMachine valid rd rm)
run_insn-IsMachine _ valid fits = defined valid
