-- ===== src/Disassembly/Dispatch.antt =====
-- impl_disassembly.c, `disassemblyCallbacks`: the handler of each instruction.
--
-- Handlers with an empty body, and instructions for which the table has no handler, print nothing.
use libthumb2sim.Base.{List, []}
use libthumb2sim.Decoder.Insn.{Insn}
use libthumb2sim.Disassembly.Text.{Text}
use libthumb2sim.Disassembly.Print.{DisasCtx}
use libthumb2sim.Disassembly.Arith
use libthumb2sim.Disassembly.Move
use libthumb2sim.Disassembly.Logic
use libthumb2sim.Disassembly.Branch
use libthumb2sim.Disassembly.System
use libthumb2sim.Disassembly.Multiple
use libthumb2sim.Disassembly.Load
use libthumb2sim.Disassembly.Store

unfoldable pub disassemble : Insn → DisasCtx → List Text
disassemble (Insn.adc_imm_t1 rd rn imm s) ctx = Arith.disassembly_i32_adc_imm_t1 ctx rd rn imm s
disassemble (Insn.adc_reg_t1 rdn rm) ctx = Arith.disassembly_i16_adc_reg_t1 ctx rdn rm
disassemble (Insn.adc_reg_t2 rd rn rm imm shift_type s) ctx =
    Arith.disassembly_i32_adc_reg_t2 ctx rd rn rm imm shift_type s
disassemble (Insn.add_spi_t1 rd imm) ctx = Arith.disassembly_i16_add_spi_t1 ctx rd imm
disassemble (Insn.add_spi_t2 imm) ctx = Arith.disassembly_i16_add_spi_t2 ctx imm
disassemble (Insn.add_spi_t3 rd imm s) ctx = Arith.disassembly_i32_add_spi_t3 ctx rd imm s
disassemble (Insn.add_spi_t4 rd imm) ctx = Arith.disassembly_i32_add_spi_t4 ctx rd imm
disassemble (Insn.add_spr_t1 rdm) ctx = Arith.disassembly_i16_add_spr_t1 ctx rdm
disassemble (Insn.add_spr_t2 rm) ctx = Arith.disassembly_i16_add_spr_t2 ctx rm
disassemble (Insn.add_imm_t1 rd rn imm) ctx = Arith.disassembly_i16_add_imm_t1 ctx rd rn imm
disassemble (Insn.add_imm_t2 rdn imm) ctx = Arith.disassembly_i16_add_imm_t2 ctx rdn imm
disassemble (Insn.add_imm_t3 rd rn imm s) ctx = Arith.disassembly_i32_add_imm_t3 ctx rd rn imm s
disassemble (Insn.add_imm_t4 rd rn imm) ctx = Arith.disassembly_i32_add_imm_t4 ctx rd rn imm
disassemble (Insn.add_reg_t1 rd rn rm) ctx = Arith.disassembly_i16_add_reg_t1 ctx rd rn rm
disassemble (Insn.add_reg_t2 rdn rm) ctx = Arith.disassembly_i16_add_reg_t2 ctx rdn rm
disassemble (Insn.add_reg_t3 rd rn rm imm shift_type s) ctx =
    Arith.disassembly_i32_add_reg_t3 ctx rd rn rm imm shift_type s
disassemble (Insn.cmn_imm_t1 rn imm) ctx = Arith.disassembly_i32_cmn_imm_t1 ctx rn imm
disassemble (Insn.cmn_reg_t1 rn rm) ctx = Arith.disassembly_i16_cmn_reg_t1 ctx rn rm
disassemble (Insn.cmn_reg_t2 rn rm imm shift_type) ctx =
    Arith.disassembly_i32_cmn_reg_t2 ctx rn rm imm shift_type
disassemble (Insn.cmp_imm_t1 rn imm) ctx = Arith.disassembly_i16_cmp_imm_t1 ctx rn imm
disassemble (Insn.cmp_imm_t2 rn imm) ctx = Arith.disassembly_i32_cmp_imm_t2 ctx rn imm
disassemble (Insn.cmp_reg_t1 rn rm) ctx = Arith.disassembly_i16_cmp_reg_t1 ctx rn rm
disassemble (Insn.cmp_reg_t2 rn rm) ctx = Arith.disassembly_i16_cmp_reg_t2 ctx rn rm
disassemble (Insn.cmp_reg_t3 rn rm imm shift_type) ctx =
    Arith.disassembly_i32_cmp_reg_t3 ctx rn rm imm shift_type
disassemble (Insn.mla_t1 rd rn rm ra) ctx = Arith.disassembly_i32_mla_t1 ctx rd rn rm ra
disassemble (Insn.mul_t1 rdm rn) ctx = Arith.disassembly_i16_mul_t1 ctx rdm rn
disassemble (Insn.mul_t2 rd rn rm) ctx = Arith.disassembly_i32_mul_t2 ctx rd rn rm
disassemble (Insn.rsb_imm_t1 rd rn) ctx = Arith.disassembly_i16_rsb_imm_t1 ctx rd rn
disassemble (Insn.rsb_imm_t2 rd rn imm s) ctx = Arith.disassembly_i32_rsb_imm_t2 ctx rd rn imm s
disassemble (Insn.rsb_reg_t1 rd rn rm imm shift_type s) ctx =
    Arith.disassembly_i32_rsb_reg_t1 ctx rd rn rm imm shift_type s
disassemble (Insn.sbc_imm_t1 rd rn imm s) ctx = Arith.disassembly_i32_sbc_imm_t1 ctx rd rn imm s
disassemble (Insn.sbc_reg_t1 rdn rm) ctx = Arith.disassembly_i16_sbc_reg_t1 ctx rdn rm
disassemble (Insn.sbc_reg_t2 rd rn rm imm shift_type s) ctx =
    Arith.disassembly_i32_sbc_reg_t2 ctx rd rn rm imm shift_type s
disassemble (Insn.sdiv_t1 rd rn rm) ctx = Arith.disassembly_i32_sdiv_t1 ctx rd rn rm
disassemble (Insn.smull_t1 rn rm rd_lo rd_hi) ctx =
    Arith.disassembly_i32_smull_t1 ctx rn rm rd_lo rd_hi
disassemble (Insn.sub_spimm_t1 imm) ctx = Arith.disassembly_i16_sub_spimm_t1 ctx imm
disassemble (Insn.sub_imm_t1 rd rn imm) ctx = Arith.disassembly_i16_sub_imm_t1 ctx rd rn imm
disassemble (Insn.sub_imm_t2 rdn imm) ctx = Arith.disassembly_i16_sub_imm_t2 ctx rdn imm
disassemble (Insn.sub_imm_t3 rd rn imm s) ctx = Arith.disassembly_i32_sub_imm_t3 ctx rd rn imm s
disassemble (Insn.sub_imm_t4 rd rn imm) ctx = Arith.disassembly_i32_sub_imm_t4 ctx rd rn imm
disassemble (Insn.sub_reg_t1 rd rn rm) ctx = Arith.disassembly_i16_sub_reg_t1 ctx rd rn rm
disassemble (Insn.sub_reg_t2 rd rn rm imm shift_type s) ctx =
    Arith.disassembly_i32_sub_reg_t2 ctx rd rn rm imm shift_type s
disassemble (Insn.udiv_t1 rd rn rm) ctx = Arith.disassembly_i32_udiv_t1 ctx rd rn rm
disassemble (Insn.umlal_t1 rn rm rd_lo rd_hi) ctx =
    Arith.disassembly_i32_umlal_t1 ctx rn rm rd_lo rd_hi
disassemble (Insn.umull_t1 rn rm rd_lo rd_hi) ctx =
    Arith.disassembly_i32_umull_t1 ctx rn rm rd_lo rd_hi
disassemble (Insn.adr_t1 rd imm) ctx = Move.disassembly_i16_adr_t1 ctx rd imm
disassemble (Insn.mov_imm_t1 rd imm) ctx = Move.disassembly_i16_mov_imm_t1 ctx rd imm
disassemble (Insn.mov_imm_t2 rd imm s) ctx = Move.disassembly_i32_mov_imm_t2 ctx rd imm s
disassemble (Insn.mov_imm_t3 rd imm) ctx = Move.disassembly_i32_mov_imm_t3 ctx rd imm
disassemble (Insn.mov_reg_t1 rd rm) ctx = Move.disassembly_i16_mov_reg_t1 ctx rd rm
disassemble (Insn.mov_reg_t2 rd rm) ctx = Move.disassembly_i16_mov_reg_t2 ctx rd rm
disassemble (Insn.movt_t1 rd imm) ctx = Move.disassembly_i32_movt_t1 ctx rd imm
disassemble (Insn.mvn_imm_t1 rd imm s) ctx = Move.disassembly_i32_mvn_imm_t1 ctx rd imm s
disassemble (Insn.mvn_reg_t1 rd rm) ctx = Move.disassembly_i16_mvn_reg_t1 ctx rd rm
disassemble (Insn.mvn_reg_t2 rd rm imm shift_type s) ctx =
    Move.disassembly_i32_mvn_reg_t2 ctx rd rm imm shift_type s
disassemble (Insn.rev16_t1 rd rm) ctx = Move.disassembly_i16_rev16_t1 ctx rd rm
disassemble (Insn.rev_t1 rd rm) ctx = Move.disassembly_i16_rev_t1 ctx rd rm
disassemble (Insn.rev_t2 rd rm rmx) ctx = Move.disassembly_i32_rev_t2 ctx rd rm rmx
disassemble (Insn.revsh_t1 rd rm) ctx = Move.disassembly_i16_revsh_t1 ctx rd rm
disassemble (Insn.sxtb16_t1 rd rm rotate) ctx = Move.disassembly_i32_sxtb16_t1 ctx rd rm rotate
disassemble (Insn.sxtb_t1 rd rm) ctx = Move.disassembly_i16_sxtb_t1 ctx rd rm
disassemble (Insn.sxth_t1 rd rm) ctx = Move.disassembly_i16_sxth_t1 ctx rd rm
disassemble (Insn.uxtb_t1 rd rm) ctx = Move.disassembly_i16_uxtb_t1 ctx rd rm
disassemble (Insn.uxtb_t2 rd rm rotate) ctx = Move.disassembly_i32_uxtb_t2 ctx rd rm rotate
disassemble (Insn.uxth_t1 rd rm) ctx = Move.disassembly_i16_uxth_t1 ctx rd rm
disassemble (Insn.uxth_t2 rd rm rotate) ctx = Move.disassembly_i32_uxth_t2 ctx rd rm rotate
disassemble (Insn.and_imm_t1 rd rn imm s) ctx = Logic.disassembly_i32_and_imm_t1 ctx rd rn imm s
disassemble (Insn.and_reg_t1 rdn rm) ctx = Logic.disassembly_i16_and_reg_t1 ctx rdn rm
disassemble (Insn.and_reg_t2 rd rn rm imm shift_type s) ctx =
    Logic.disassembly_i32_and_reg_t2 ctx rd rn rm imm shift_type s
disassemble (Insn.asr_imm_t1 rd rm imm) ctx = Logic.disassembly_i16_asr_imm_t1 ctx rd rm imm
disassemble (Insn.asr_imm_t2 rd rm imm s) ctx = Logic.disassembly_i32_asr_imm_t2 ctx rd rm imm s
disassemble (Insn.asr_reg_t1 rdn rm) ctx = Logic.disassembly_i16_asr_reg_t1 ctx rdn rm
disassemble (Insn.asr_reg_t2 rd rn rm s) ctx = Logic.disassembly_i32_asr_reg_t2 ctx rd rn rm s
disassemble (Insn.bic_imm_t1 rd rn imm s) ctx = Logic.disassembly_i32_bic_imm_t1 ctx rd rn imm s
disassemble (Insn.bic_reg_t1 rdn rm) ctx = Logic.disassembly_i16_bic_reg_t1 ctx rdn rm
disassemble (Insn.bic_reg_t2 rd rn rm imm shift_type s) ctx =
    Logic.disassembly_i32_bic_reg_t2 ctx rd rn rm imm shift_type s
disassemble (Insn.clz_t1 rd rm rmx) ctx = Logic.disassembly_i32_clz_t1 ctx rd rm rmx
disassemble (Insn.eor_imm_t1 rd rn imm s) ctx = Logic.disassembly_i32_eor_imm_t1 ctx rd rn imm s
disassemble (Insn.eor_reg_t1 rdn rm) ctx = Logic.disassembly_i16_eor_reg_t1 ctx rdn rm
disassemble (Insn.eor_reg_t2 rd rn rm imm shift_type s) ctx =
    Logic.disassembly_i32_eor_reg_t2 ctx rd rn rm imm shift_type s
disassemble (Insn.lsl_imm_t1 rd rm imm) ctx = Logic.disassembly_i16_lsl_imm_t1 ctx rd rm imm
disassemble (Insn.lsl_imm_t2 rd rm imm s) ctx = Logic.disassembly_i32_lsl_imm_t2 ctx rd rm imm s
disassemble (Insn.lsl_reg_t1 rdn rm) ctx = Logic.disassembly_i16_lsl_reg_t1 ctx rdn rm
disassemble (Insn.lsl_reg_t2 rd rn rm s) ctx = Logic.disassembly_i32_lsl_reg_t2 ctx rd rn rm s
disassemble (Insn.lsr_imm_t1 rd rm imm) ctx = Logic.disassembly_i16_lsr_imm_t1 ctx rd rm imm
disassemble (Insn.lsr_imm_t2 rd rm imm s) ctx = Logic.disassembly_i32_lsr_imm_t2 ctx rd rm imm s
disassemble (Insn.lsr_reg_t1 rdn rm) ctx = Logic.disassembly_i16_lsr_reg_t1 ctx rdn rm
disassemble (Insn.lsr_reg_t2 rd rn rm s) ctx = Logic.disassembly_i32_lsr_reg_t2 ctx rd rn rm s
disassemble (Insn.orr_imm_t1 rd rn imm s) ctx = Logic.disassembly_i32_orr_imm_t1 ctx rd rn imm s
disassemble (Insn.orr_reg_t1 rdn rm) ctx = Logic.disassembly_i16_orr_reg_t1 ctx rdn rm
disassemble (Insn.orr_reg_t2 rd rn rm imm shift_type s) ctx =
    Logic.disassembly_i32_orr_reg_t2 ctx rd rn rm imm shift_type s
disassemble (Insn.ror_imm_t1 rd rm imm s) ctx = Logic.disassembly_i32_ror_imm_t1 ctx rd rm imm s
disassemble (Insn.ror_reg_t1 rdn rm) ctx = Logic.disassembly_i16_ror_reg_t1 ctx rdn rm
disassemble (Insn.tst_imm_t1 rn imm) ctx = Logic.disassembly_i32_tst_imm_t1 ctx rn imm
disassemble (Insn.tst_reg_t1 rn rm) ctx = Logic.disassembly_i16_tst_reg_t1 ctx rn rm
disassemble (Insn.ubfx_t1 rd rn imm width) ctx = Logic.disassembly_i32_ubfx_t1 ctx rd rn imm width
disassemble (Insn.b_t1 imm cond) ctx = Branch.disassembly_i16_b_t1 ctx imm cond
disassemble (Insn.b_t2 imm) ctx = Branch.disassembly_i16_b_t2 ctx imm
disassemble (Insn.b_t3 imm cond) ctx = Branch.disassembly_i32_b_t3 ctx imm cond
disassemble (Insn.b_t4 imm) ctx = Branch.disassembly_i32_b_t4 ctx imm
disassemble (Insn.bl_t1 imm) ctx = Branch.disassembly_i32_bl_t1 ctx imm
disassemble (Insn.blx_reg_t1 rm) ctx = Branch.disassembly_i16_blx_reg_t1 ctx rm
disassemble (Insn.bx_t1 rm) ctx = Branch.disassembly_i16_bx_t1 ctx rm
disassemble (Insn.cbnz_t1 rn imm op) ctx = Branch.disassembly_i16_cbnz_t1 ctx rn imm op
disassemble (Insn.it_t1 firstcond mask) ctx = Branch.disassembly_i16_it_t1 ctx firstcond mask
disassemble (Insn.tbb_t1 rn rm h) ctx = Branch.disassembly_i32_tbb_t1 ctx rn rm h
disassemble (Insn.bkpt_t1 imm) ctx = System.disassembly_i16_bkpt_t1 ctx imm
disassemble (Insn.cps_t1 imm f i) ctx = System.disassembly_i16_cps_t1 ctx imm f i
disassemble Insn.nop_t1 ctx = System.disassembly_i16_nop_t1 ctx
disassemble Insn.nop_t2 ctx = System.disassembly_i32_nop_t2 ctx
disassemble Insn.sev_t1 ctx = System.disassembly_i16_sev_t1 ctx
disassemble Insn.sev_t2 ctx = System.disassembly_i32_sev_t2 ctx
disassemble (Insn.svc_t1 imm) ctx = System.disassembly_i16_svc_t1 ctx imm
disassemble (Insn.udf_t1 imm) ctx = System.disassembly_i16_udf_t1 ctx imm
disassemble Insn.yield_t1 ctx = System.disassembly_i16_yield_t1 ctx
disassemble Insn.yield_t2 ctx = System.disassembly_i32_yield_t2 ctx
disassemble (Insn.ldm_t1 rn register_list) ctx =
    Multiple.disassembly_i16_ldm_t1 ctx rn register_list
disassemble (Insn.ldm_t2 rn register_list p m w) ctx =
    Multiple.disassembly_i32_ldm_t2 ctx rn register_list p m w
disassemble (Insn.ldmdb_t1 rn register_list p m w) ctx =
    Multiple.disassembly_i32_ldmdb_t1 ctx rn register_list p m w
disassemble (Insn.pop_t1 register_list p) ctx = Multiple.disassembly_i16_pop_t1 ctx register_list p
disassemble (Insn.pop_t2 register_list p m) ctx =
    Multiple.disassembly_i32_pop_t2 ctx register_list p m
disassemble (Insn.pop_t3 rt) ctx = Multiple.disassembly_i32_pop_t3 ctx rt
disassemble (Insn.push_t1 register_list m) ctx =
    Multiple.disassembly_i16_push_t1 ctx register_list m
disassemble (Insn.push_t2 register_list m) ctx =
    Multiple.disassembly_i32_push_t2 ctx register_list m
disassemble (Insn.push_t3 rt) ctx = Multiple.disassembly_i32_push_t3 ctx rt
disassemble (Insn.stm_t1 rn register_list) ctx =
    Multiple.disassembly_i16_stm_t1 ctx rn register_list
disassemble (Insn.stm_t2 rn register_list m w) ctx =
    Multiple.disassembly_i32_stm_t2 ctx rn register_list m w
disassemble (Insn.stmdb_t1 rn register_list m w) ctx =
    Multiple.disassembly_i32_stmdb_t1 ctx rn register_list m w
disassemble (Insn.ldr_imm_t1 rt rn imm) ctx = Load.disassembly_i16_ldr_imm_t1 ctx rt rn imm
disassemble (Insn.ldr_imm_t2 rt imm) ctx = Load.disassembly_i16_ldr_imm_t2 ctx rt imm
disassemble (Insn.ldr_imm_t3 rt rn imm) ctx = Load.disassembly_i32_ldr_imm_t3 ctx rt rn imm
disassemble (Insn.ldr_imm_t4 rt rn imm p u w) ctx =
    Load.disassembly_i32_ldr_imm_t4 ctx rt rn imm p u w
disassemble (Insn.ldr_lit_t1 rt imm) ctx = Load.disassembly_i16_ldr_lit_t1 ctx rt imm
disassemble (Insn.ldr_lit_t2 rt imm u) ctx = Load.disassembly_i32_ldr_lit_t2 ctx rt imm u
disassemble (Insn.ldr_reg_t1 rt rn rm) ctx = Load.disassembly_i16_ldr_reg_t1 ctx rt rn rm
disassemble (Insn.ldr_reg_t2 rt rn rm imm) ctx = Load.disassembly_i32_ldr_reg_t2 ctx rt rn rm imm
disassemble (Insn.ldrb_imm_t1 rt rn imm) ctx = Load.disassembly_i16_ldrb_imm_t1 ctx rt rn imm
disassemble (Insn.ldrb_imm_t2 rt rn imm) ctx = Load.disassembly_i32_ldrb_imm_t2 ctx rt rn imm
disassemble (Insn.ldrb_imm_t3 rt rn imm p u w) ctx =
    Load.disassembly_i32_ldrb_imm_t3 ctx rt rn imm p u w
disassemble (Insn.ldrb_reg_t1 rt rn rm) ctx = Load.disassembly_i16_ldrb_reg_t1 ctx rt rn rm
disassemble (Insn.ldrb_reg_t2 rt rn rm imm) ctx = Load.disassembly_i32_ldrb_reg_t2 ctx rt rn rm imm
disassemble (Insn.ldrd_imm_t1 rt rn rtx imm p u w) ctx =
    Load.disassembly_i32_ldrd_imm_t1 ctx rt rn rtx imm p u w
disassemble (Insn.ldrh_imm_t1 rt rn imm) ctx = Load.disassembly_i16_ldrh_imm_t1 ctx rt rn imm
disassemble (Insn.ldrh_imm_t2 rt rn imm) ctx = Load.disassembly_i32_ldrh_imm_t2 ctx rt rn imm
disassemble (Insn.ldrh_reg_t1 rt rn rm) ctx = Load.disassembly_i16_ldrh_reg_t1 ctx rt rn rm
disassemble (Insn.ldrsb_reg_t1 rt rn rm) ctx = Load.disassembly_i16_ldrsb_reg_t1 ctx rt rn rm
disassemble (Insn.ldrsh_imm_t1 rt rn imm) ctx = Load.disassembly_i32_ldrsh_imm_t1 ctx rt rn imm
disassemble (Insn.ldrsh_reg_t1 rt rn rm) ctx = Load.disassembly_i16_ldrsh_reg_t1 ctx rt rn rm
disassemble (Insn.str_imm_t1 rt rn imm) ctx = Store.disassembly_i16_str_imm_t1 ctx rt rn imm
disassemble (Insn.str_imm_t2 rt imm) ctx = Store.disassembly_i16_str_imm_t2 ctx rt imm
disassemble (Insn.str_imm_t3 rt rn imm) ctx = Store.disassembly_i32_str_imm_t3 ctx rt rn imm
disassemble (Insn.str_imm_t4 rt rn imm p u w) ctx =
    Store.disassembly_i32_str_imm_t4 ctx rt rn imm p u w
disassemble (Insn.str_reg_t1 rt rn rm) ctx = Store.disassembly_i16_str_reg_t1 ctx rt rn rm
disassemble (Insn.str_reg_t2 rt rn rm imm) ctx = Store.disassembly_i32_str_reg_t2 ctx rt rn rm imm
disassemble (Insn.strb_imm_t1 rt rn imm) ctx = Store.disassembly_i16_strb_imm_t1 ctx rt rn imm
disassemble (Insn.strb_imm_t2 rt rn imm) ctx = Store.disassembly_i32_strb_imm_t2 ctx rt rn imm
disassemble (Insn.strb_imm_t3 rt rn imm p u w) ctx =
    Store.disassembly_i32_strb_imm_t3 ctx rt rn imm p u w
disassemble (Insn.strb_reg_t1 rt rn rm) ctx = Store.disassembly_i16_strb_reg_t1 ctx rt rn rm
disassemble (Insn.strb_reg_t2 rt rn rm imm) ctx = Store.disassembly_i32_strb_reg_t2 ctx rt rn rm imm
disassemble (Insn.strd_imm_t1 rt rn rtx imm p u w) ctx =
    Store.disassembly_i32_strd_imm_t1 ctx rt rn rtx imm p u w
disassemble (Insn.strh_imm_t1 rt rn imm) ctx = Store.disassembly_i16_strh_imm_t1 ctx rt rn imm
disassemble (Insn.strh_imm_t2 rt rn imm) ctx = Store.disassembly_i32_strh_imm_t2 ctx rt rn imm
disassemble (Insn.strh_reg_t1 rt rn rm) ctx = Store.disassembly_i16_strh_reg_t1 ctx rt rn rm
disassemble _ ctx = []
