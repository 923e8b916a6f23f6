-- ===== src/Decoder/Insn.antt =====
-- decoder.h, `struct decoding_handler_t`: one constructor for each handler that `decode_insn` calls,
-- with the operands it hands over. An `int32_t` operand is its 32-bit pattern.
use libthumb2sim.Base.{ℕ, Bool}

pub data Insn : Type 0 where
  adc_imm_t1 asr_reg_t2 bic_imm_t1 lsl_reg_t2 lsr_reg_t2 ror_reg_t2 rsb_imm_t2 :
      ℕ → ℕ → ℕ → Bool → Insn
  sbc_imm_t1 smmul_t1 smuad_t1 smulwb_t1 smusd_t1 and_imm_t1 asr_imm_t2 : ℕ → ℕ → ℕ → Bool → Insn
  eor_imm_t1 lsl_imm_t2 lsr_imm_t2 orn_imm_t1 orr_imm_t1 ror_imm_t1 add_imm_t3 :
      ℕ → ℕ → ℕ → Bool → Insn
  sub_imm_t3 : ℕ → ℕ → ℕ → Bool → Insn
  adc_reg_t1 add_spi_t1 add_imm_t2 adr_t1 and_reg_t1 asr_reg_t1 bic_reg_t1 : ℕ → ℕ → Insn
  cmn_reg_t1 cmp_imm_t1 cmp_reg_t1 cmp_reg_t2 eor_reg_t1 ldm_t1 ldr_imm_t2 : ℕ → ℕ → Insn
  ldr_lit_t1 lsl_reg_t1 lsr_reg_t1 mov_imm_t1 mov_reg_t1 movt_t1 mul_t1 : ℕ → ℕ → Insn
  mvn_reg_t1 orr_reg_t1 rbit_t1 rev16_t1 rev16_t2 rev_t1 revsh_t1 revsh_t2 : ℕ → ℕ → Insn
  ror_reg_t1 rsb_imm_t1 sbc_reg_t1 stm_t1 str_imm_t2 sub_imm_t2 sxtb_t1 sxth_t1 : ℕ → ℕ → Insn
  tst_reg_t1 uxtb_t1 uxth_t1 add_spi_t4 adr_t2 adr_t3 cmn_imm_t1 ldrexb_t1 : ℕ → ℕ → Insn
  ldrexh_t1 mov_reg_t2 sub_spimm_t3 teq_imm_t1 tst_imm_t1 b_t1 it_t1 mov_imm_t3 : ℕ → ℕ → Insn
  add_reg_t2 pld_imm_t2 pld_immlit_t2 pld_imm_t1 pld_immlit_t1 mrs_t1 cmp_imm_t2 : ℕ → ℕ → Insn
  b_t3 : ℕ → ℕ → Insn
  adc_reg_t2 bic_reg_t2 rsb_reg_t1 sbc_reg_t2 and_reg_t2 eor_reg_t2 orn_reg_t1 :
      ℕ → ℕ → ℕ → ℕ → ℕ → Bool → Insn
  add_reg_t3 orr_reg_t2 sub_reg_t2 : ℕ → ℕ → ℕ → ℕ → ℕ → Bool → Insn
  add_spi_t2 b_t2 bkpt_t1 blx_reg_t1 bx_t1 sub_spimm_t1 add_spr_t2 pop_t3 push_t3 : ℕ → Insn
  svc_t1 udf_t1 add_spr_t1 udf_t2 vmrs_t1 vmsr_t1 dbg_t1 dmb_t1 dsb_t1 isb_t1 : ℕ → Insn
  b_t4 bl_t1 : ℕ → Insn
  add_imm_t1 add_reg_t1 asr_imm_t1 clz_t1 ldr_imm_t1 ldr_reg_t1 ldrb_imm_t1 : ℕ → ℕ → ℕ → Insn
  ldrb_reg_t1 ldrh_imm_t1 ldrh_reg_t1 ldrsb_reg_t1 ldrsh_reg_t1 lsr_imm_t1 : ℕ → ℕ → ℕ → Insn
  qadd16_t1 qadd8_t1 qadd_t1 qdadd_t1 qdsub_t1 qsub16_t1 qsub8_t1 qsub_t1 rev_t2 : ℕ → ℕ → ℕ → Insn
  sadd16_t1 sadd8_t1 sasx_t1 sdiv_t1 sel_t1 shadd16_t1 shadd8_t1 shasx_t1 : ℕ → ℕ → ℕ → Insn
  shsax_t1 shsub16_t1 shsub8_t1 ssax_t1 ssub16_t1 ssub8_t1 str_imm_t1 str_imm_t3 : ℕ → ℕ → ℕ → Insn
  str_reg_t1 strb_imm_t1 strb_imm_t2 strb_reg_t1 strh_imm_t1 strh_imm_t2 : ℕ → ℕ → ℕ → Insn
  strh_reg_t1 sub_imm_t1 sub_reg_t1 uadd16_t1 uadd8_t1 uasx_t1 udiv_t1 uhadd16_t1 : ℕ → ℕ → ℕ → Insn
  uhadd8_t1 uhasx_t1 uhsax_t1 uhsub16_t1 uhsub8_t1 uqadd16_t1 uqadd8_t1 uqasx_t1 : ℕ → ℕ → ℕ → Insn
  uqsax_t1 uqsub16_t1 uqsub8_t1 usax_t1 usub16_t1 usub8_t1 bfc_t1 ldrsh_t1 mul_t2 : ℕ → ℕ → ℕ → Insn
  qasx_t1 qsax_t1 ssat16_t1 strb_t1 strexb_t1 strexh_t1 strht_t1 sxtb16_t1 : ℕ → ℕ → ℕ → Insn
  sxtb_t2 sxth_t2 usad8_t1 usat16_t1 uxtb16_t1 uxtb_t2 uxth_t2 add_imm_t4 : ℕ → ℕ → ℕ → Insn
  ldrex_t1 ldrht_t1 lsl_imm_t1 pld_reg_t1 strt_t1 sub_imm_t4 ldrsh_imm_t1 ldrt_t1 : ℕ → ℕ → ℕ → Insn
  ldrh_imm_t2 ldr_imm_t3 ldrbt_t1 ldrsbt_t1 msr_t1 ldrsb_imm_t1 ldrb_imm_t2 : ℕ → ℕ → ℕ → Insn
  cbnz_t1 mov_imm_t2 mov_reg_t3 mvn_imm_t1 rrx_t1 add_spi_t3 ldr_lit_t2 : ℕ → ℕ → Bool → Insn
  ldrsb_lit_t1 vpop_t1 vpop_t2 vpush_t1 vpush_t2 ldrh_lit_t1 ldrsh_lit_t1 tbb_t1 :
      ℕ → ℕ → Bool → Insn
  sub_spimm_t2 ldrb_lit_t1 : ℕ → ℕ → Bool → Insn
  cps_t1 : Bool → Bool → Bool → Insn
  ldmdb_t1 vabs_t1 vcvt_dpsp_t1 vmov_reg_t1 vneg_t1 vrintx_t1 vsqrt_t1 ldm_t2 :
      ℕ → ℕ → Bool → Bool → Bool → Insn
  mcr2_t2 mrc2_t2 mcr_t1 mrc_t1 cdp2_t2 cdp_t1 : ℕ → ℕ → ℕ → ℕ → ℕ → ℕ → Insn
  mls_t1 sbfx_t1 smlal_t1 smull_t1 str_reg_t2 strb_reg_t2 strh_reg_t2 ubfx_t1 : ℕ → ℕ → ℕ → ℕ → Insn
  umaal_t1 umlal_t1 umull_t1 cmn_reg_t2 cmp_reg_t3 ldrh_reg_t2 ldrsh_reg_t2 : ℕ → ℕ → ℕ → ℕ → Insn
  teq_reg_t1 tst_reg_t2 bfi_t1 mla_t1 strex_t1 sxtab16_t1 sxtab_t1 sxtah_t1 : ℕ → ℕ → ℕ → ℕ → Insn
  usada8_t1 uxtab16_t1 uxtab_t1 uxtah_t1 ldr_reg_t2 ldrb_reg_t2 ldrsb_reg_t2 : ℕ → ℕ → ℕ → ℕ → Insn
  pkhbt_t1 strd_imm_t1 ldrd_imm_t1 : ℕ → ℕ → ℕ → ℕ → Bool → Bool → Bool → Insn
  pop_t1 push_t1 pld_immlit_t3 pld_lit_t1 push_t2 : ℕ → Bool → Insn
  smlalbb_t1 smlabb_t1 : ℕ → ℕ → ℕ → ℕ → Bool → Bool → Insn
  smlald_t1 smlsld_t1 smmls_t1 mvn_reg_t2 add_spr_t3 smlad_t1 smlawb_t1 smlsd_t1 :
      ℕ → ℕ → ℕ → ℕ → Bool → Insn
  smmla_t1 sub_spreg_t1 : ℕ → ℕ → ℕ → ℕ → Bool → Insn
  stm_t2 vmov_armscl_t1 vmov_sclarm_t1 stmdb_t1 vmov_armsp_t1 vmov_imm_t1 :
      ℕ → ℕ → Bool → Bool → Insn
  mcrr2_t2 mrrc2_t2 mcrr_t1 mrrc_t1 : ℕ → ℕ → ℕ → ℕ → ℕ → Insn
  nop_t1 nop_t2 sev_t1 wfe_t1 wfi_t1 yield_t1 sev_t2 wfe_t2 wfi_t2 yield_t2 : Insn
  clrex_t1 : Insn
  pop_t2 : ℕ → Bool → Bool → Insn
  smulbb_t1 vmov_2arm2sp_t1 vmov_2armdw_t1 vldr_t1 vldr_t2 vstr_t1 vstr_t2 :
      ℕ → ℕ → ℕ → Bool → Bool → Insn
  vrinta_t1 ldrsh_imm_t2 strb_imm_t3 strh_imm_t3 str_imm_t4 ldrd_lit_t1 :
      ℕ → ℕ → ℕ → Bool → Bool → Bool → Insn
  ldrh_imm_t3 ldr_imm_t4 ldrb_imm_t3 ldrsb_imm_t2 : ℕ → ℕ → ℕ → Bool → Bool → Bool → Insn
  ldc2_lit_t2 vldm_t1 vldm_t2 vstm_t1 vstm_t2 ldc_lit_t1 vadd_t1 vdiv_t1 vmul_t1 :
      ℕ → ℕ → ℕ → Bool → Bool → Bool → Bool → Insn
  vnmla_t2 vsub_t1 : ℕ → ℕ → ℕ → Bool → Bool → Bool → Bool → Insn
  ssat_t1 usat_t1 : ℕ → ℕ → Bool → ℕ → ℕ → Insn
  stc2_t2 ldc2_imm_t2 vsel_t1 ldc_imm_t1 stc_t1 : ℕ → ℕ → ℕ → ℕ → Bool → Bool → Bool → Bool → Insn
  vcmp_t1 vrintz_t1 : ℕ → ℕ → Bool → Bool → Bool → Bool → Insn
  vcmp_t2 : ℕ → Bool → Bool → Bool → Insn
  vcvt_fltint_t1 vcvta_t1 : ℕ → ℕ → Bool → ℕ → Bool → Bool → Bool → Insn
  vcvtb_t1 vcvt_fltfpt_t1 : ℕ → ℕ → Bool → Bool → Bool → Bool → Bool → Insn
  vmaxnm_t1 vfma_t1 vfnma_t1 vmla_t1 vnmla_t1 : ℕ → ℕ → ℕ → Bool → Bool → Bool → Bool → Bool → Insn
