-- ===== src/Emulation/Execute.antt =====
-- impl_emulation.c, `emulation_callbacks`: the handler of each instruction.
--
-- Handlers that only report that they are not implemented, the NOPs, and instructions for which the
-- table has no handler, leave the context as it is.
use libthumb2sim.Base.{Option, some, ◌>>=◌}
use libthumb2sim.Cpu.{InsnEmuCtx}
use libthumb2sim.Decoder.Insn.{Insn}
use libthumb2sim.Emulation.Arith
use libthumb2sim.Emulation.Logic
use libthumb2sim.Emulation.Move
use libthumb2sim.Emulation.Branch
use libthumb2sim.Emulation.Memory
use libthumb2sim.Emulation.Multiple
use libthumb2sim.Emulation.System.{Callbacks, i16_bkpt_t1}

unfoldable pub run_insn : Insn → InsnEmuCtx → Option InsnEmuCtx
run_insn (Insn.adc_imm_t1 rd rn imm s) ctx = some (Arith.i32_adc_imm_t1 ctx rd rn imm s)
run_insn (Insn.adc_reg_t2 rd rn rm imm shift_type s) ctx =
    Arith.i32_adc_reg_t2 ctx rd rn rm imm shift_type s
run_insn (Insn.add_spi_t1 rd imm) ctx = some (Arith.i16_add_spi_t1 ctx rd imm)
run_insn (Insn.add_spi_t2 imm) ctx = some (Arith.i16_add_spi_t2 ctx imm)
run_insn (Insn.add_spi_t3 rd imm s) ctx = some (Arith.i32_add_spi_t3 ctx rd imm s)
run_insn (Insn.add_spr_t1 rdm) ctx = some (Arith.i16_add_spr_t1 ctx rdm)
run_insn (Insn.add_spr_t3 rd rm imm shift_type s) ctx =
    Arith.i32_add_spr_t3 ctx rd rm imm shift_type s
run_insn (Insn.add_imm_t1 rd rn imm) ctx = some (Arith.i16_add_imm_t1 ctx rd rn imm)
run_insn (Insn.add_imm_t2 rdn imm) ctx = some (Arith.i16_add_imm_t2 ctx rdn imm)
run_insn (Insn.add_imm_t3 rd rn imm s) ctx = some (Arith.i32_add_imm_t3 ctx rd rn imm s)
run_insn (Insn.add_reg_t1 rd rn rm) ctx = some (Arith.i16_add_reg_t1 ctx rd rn rm)
run_insn (Insn.add_reg_t2 rdn rm) ctx = some (Arith.i16_add_reg_t2 ctx rdn rm)
run_insn (Insn.add_reg_t3 rd rn rm imm shift_type s) ctx =
    Arith.i32_add_reg_t3 ctx rd rn rm imm shift_type s
run_insn (Insn.and_imm_t1 rd rn imm s) ctx = some (Logic.i32_and_imm_t1 ctx rd rn imm s)
run_insn (Insn.and_reg_t1 rdn rm) ctx = some (Logic.i16_and_reg_t1 ctx rdn rm)
run_insn (Insn.and_reg_t2 rd rn rm imm shift_type s) ctx =
    Logic.i32_and_reg_t2 ctx rd rn rm imm shift_type s
run_insn (Insn.asr_imm_t1 rd rm imm) ctx = Logic.i16_asr_imm_t1 ctx rd rm imm
run_insn (Insn.b_t1 imm cond) ctx = some (Branch.i16_b_t1 ctx imm cond)
run_insn (Insn.b_t2 imm) ctx = some (Branch.i16_b_t2 ctx imm)
run_insn (Insn.b_t3 imm cond) ctx = some (Branch.i32_b_t3 ctx imm cond)
run_insn (Insn.b_t4 imm) ctx = some (Branch.i32_b_t4 ctx imm)
run_insn (Insn.bfi_t1 rd rn imm msb) ctx = Logic.i32_bfi_t1 ctx rd rn imm msb
run_insn (Insn.bic_imm_t1 rd rn imm s) ctx = some (Logic.i32_bic_imm_t1 ctx rd rn imm s)
run_insn (Insn.bic_reg_t2 rd rn rm imm shift_type s) ctx =
    Logic.i32_bic_reg_t2 ctx rd rn rm imm shift_type s
run_insn (Insn.bl_t1 imm) ctx = some (Branch.i32_bl_t1 ctx imm)
run_insn (Insn.bx_t1 rm) ctx = some (Branch.i16_bx_t1 ctx rm)
run_insn (Insn.cbnz_t1 rn imm op) ctx = some (Branch.i16_cbnz_t1 ctx rn imm op)
run_insn (Insn.clz_t1 rd rm rmx) ctx = some (Logic.i32_clz_t1 ctx rd rm rmx)
run_insn (Insn.cmp_imm_t1 rn imm) ctx = Arith.i16_cmp_imm_t1 ctx rn imm
run_insn (Insn.cmp_imm_t2 rn imm) ctx = Arith.i32_cmp_imm_t2 ctx rn imm
run_insn (Insn.cmp_reg_t1 rn rm) ctx = Arith.i16_cmp_reg_t1 ctx rn rm
run_insn (Insn.cmp_reg_t2 rn rm) ctx = Arith.i16_cmp_reg_t2 ctx rn rm
run_insn (Insn.eor_imm_t1 rd rn imm s) ctx = some (Logic.i32_eor_imm_t1 ctx rd rn imm s)
run_insn (Insn.eor_reg_t1 rdn rm) ctx = some (Logic.i16_eor_reg_t1 ctx rdn rm)
run_insn (Insn.eor_reg_t2 rd rn rm imm shift_type s) ctx =
    Logic.i32_eor_reg_t2 ctx rd rn rm imm shift_type s
run_insn (Insn.it_t1 firstcond mask) ctx = some (Branch.i16_it_t1 ctx firstcond mask)
run_insn (Insn.ldm_t1 rn register_list) ctx = Multiple.i16_ldm_t1 ctx rn register_list
run_insn (Insn.ldm_t2 rn register_list p m w) ctx = Multiple.i32_ldm_t2 ctx rn register_list p m w
run_insn (Insn.ldr_imm_t1 rt rn imm) ctx = Memory.i16_ldr_imm_t1 ctx rt rn imm
run_insn (Insn.ldr_imm_t2 rt imm) ctx = Memory.i16_ldr_imm_t2 ctx rt imm
run_insn (Insn.ldr_imm_t3 rt rn imm) ctx = Memory.i32_ldr_imm_t3 ctx rt rn imm
run_insn (Insn.ldr_imm_t4 rt rn imm p u w) ctx = Memory.i32_ldr_imm_t4 ctx rt rn imm p u w
run_insn (Insn.ldr_lit_t1 rt imm) ctx = Memory.i16_ldr_lit_t1 ctx rt imm
run_insn (Insn.ldr_lit_t2 rt imm u) ctx = Memory.i32_ldr_lit_t2 ctx rt imm u
run_insn (Insn.ldr_reg_t1 rt rn rm) ctx = Memory.i16_ldr_reg_t1 ctx rt rn rm
run_insn (Insn.ldr_reg_t2 rt rn rm imm) ctx = Memory.i32_ldr_reg_t2 ctx rt rn rm imm
run_insn (Insn.ldrb_imm_t1 rt rn imm) ctx = Memory.i16_ldrb_imm_t1 ctx rt rn imm
run_insn (Insn.ldrb_imm_t2 rt rn imm) ctx = Memory.i32_ldrb_imm_t2 ctx rt rn imm
run_insn (Insn.ldrb_imm_t3 rt rn imm p u w) ctx = Memory.i32_ldrb_imm_t3 ctx rt rn imm p u w
run_insn (Insn.ldrb_reg_t1 rt rn rm) ctx = Memory.i16_ldrb_reg_t1 ctx rt rn rm
run_insn (Insn.ldrb_reg_t2 rt rn rm imm) ctx = Memory.i32_ldrb_reg_t2 ctx rt rn rm imm
run_insn (Insn.ldrd_imm_t1 rt rn rtx imm p u w) ctx = Memory.i32_ldrd_imm_t1 ctx rt rn rtx imm p u w
run_insn (Insn.ldrh_imm_t1 rt rn imm) ctx = Memory.i16_ldrh_imm_t1 ctx rt rn imm
run_insn (Insn.ldrh_imm_t2 rt rn imm) ctx = Memory.i32_ldrh_imm_t2 ctx rt rn imm
run_insn (Insn.lsl_imm_t1 rd rm imm) ctx = Logic.i16_lsl_imm_t1 ctx rd rm imm
run_insn (Insn.lsl_imm_t2 rd rm imm s) ctx = Logic.i32_lsl_imm_t2 ctx rd rm imm s
run_insn (Insn.lsl_reg_t1 rdn rm) ctx = Logic.i16_lsl_reg_t1 ctx rdn rm
run_insn (Insn.lsl_reg_t2 rd rn rm s) ctx = Logic.i32_lsl_reg_t2 ctx rd rn rm s
run_insn (Insn.lsr_imm_t1 rd rm imm) ctx = Logic.i16_lsr_imm_t1 ctx rd rm imm
run_insn (Insn.lsr_imm_t2 rd rm imm s) ctx = Logic.i32_lsr_imm_t2 ctx rd rm imm s
run_insn (Insn.lsr_reg_t1 rdn rm) ctx = Logic.i16_lsr_reg_t1 ctx rdn rm
run_insn (Insn.lsr_reg_t2 rd rn rm s) ctx = Logic.i32_lsr_reg_t2 ctx rd rn rm s
run_insn (Insn.mov_imm_t1 rd imm) ctx = some (Move.i16_mov_imm_t1 ctx rd imm)
run_insn (Insn.mov_imm_t2 rd imm s) ctx = some (Move.i32_mov_imm_t2 ctx rd imm s)
run_insn (Insn.mov_imm_t3 rd imm) ctx = some (Move.i32_mov_imm_t3 ctx rd imm)
run_insn (Insn.mov_reg_t1 rd rm) ctx = some (Move.i16_mov_reg_t1 ctx rd rm)
run_insn (Insn.mov_reg_t2 rd rm) ctx = some (Move.i16_mov_reg_t2 ctx rd rm)
run_insn (Insn.movt_t1 rd imm) ctx = some (Move.i32_movt_t1 ctx rd imm)
run_insn (Insn.msr_t1 rn mask sysm) ctx = some (Move.i32_msr_t1 ctx rn mask sysm)
run_insn (Insn.mul_t2 rd rn rm) ctx = some (Arith.i32_mul_t2 ctx rd rn rm)
run_insn (Insn.mvn_imm_t1 rd imm s) ctx = some (Move.i32_mvn_imm_t1 ctx rd imm s)
run_insn (Insn.mvn_reg_t1 rd rm) ctx = some (Move.i16_mvn_reg_t1 ctx rd rm)
run_insn (Insn.mvn_reg_t2 rd rm imm shift_type s) ctx =
    Move.i32_mvn_reg_t2 ctx rd rm imm shift_type s
run_insn (Insn.orn_reg_t1 rd rn rm imm shift_type s) ctx =
    Move.i32_orn_reg_t1 ctx rd rn rm imm shift_type s
run_insn (Insn.orr_imm_t1 rd rn imm s) ctx = some (Move.i32_orr_imm_t1 ctx rd rn imm s)
run_insn (Insn.orr_reg_t1 rdn rm) ctx = some (Move.i16_orr_reg_t1 ctx rdn rm)
run_insn (Insn.orr_reg_t2 rd rn rm imm shift_type s) ctx =
    Move.i32_orr_reg_t2 ctx rd rn rm imm shift_type s
run_insn (Insn.pop_t1 register_list p) ctx = Multiple.i16_pop_t1 ctx register_list p
run_insn (Insn.pop_t2 register_list p m) ctx = Multiple.i32_pop_t2 ctx register_list p m
run_insn (Insn.pop_t3 rt) ctx = Multiple.i32_pop_t3 ctx rt
run_insn (Insn.push_t1 register_list m) ctx = Multiple.i16_push_t1 ctx register_list m
run_insn (Insn.push_t2 register_list m) ctx = Multiple.i32_push_t2 ctx register_list m
run_insn (Insn.ror_imm_t1 rd rm imm s) ctx = Move.i32_ror_imm_t1 ctx rd rm imm s
run_insn (Insn.rsb_imm_t2 rd rn imm s) ctx = Arith.i32_rsb_imm_t2 ctx rd rn imm s
run_insn (Insn.rsb_reg_t1 rd rn rm imm shift_type s) ctx =
    Arith.i32_rsb_reg_t1 ctx rd rn rm imm shift_type s
run_insn (Insn.sdiv_t1 rd rn rm) ctx = Arith.i32_sdiv_t1 ctx rd rn rm
run_insn (Insn.stm_t1 rn register_list) ctx = Multiple.i16_stm_t1 ctx rn register_list
run_insn (Insn.stm_t2 rn register_list m w) ctx = Multiple.i32_stm_t2 ctx rn register_list m w
run_insn (Insn.stmdb_t1 rn register_list m w) ctx = Multiple.i32_stmdb_t1 ctx rn register_list m w
run_insn (Insn.str_imm_t1 rt rn imm) ctx = Memory.i16_str_imm_t1 ctx rt rn imm
run_insn (Insn.str_imm_t2 rt imm) ctx = Memory.i16_str_imm_t2 ctx rt imm
run_insn (Insn.str_imm_t3 rt rn imm) ctx = Memory.i32_str_imm_t3 ctx rt rn imm
run_insn (Insn.str_imm_t4 rt rn imm p u w) ctx = Memory.i32_str_imm_t4 ctx rt rn imm p u w
run_insn (Insn.str_reg_t1 rt rn rm) ctx = Memory.i16_str_reg_t1 ctx rt rn rm
run_insn (Insn.str_reg_t2 rt rn rm imm) ctx = Memory.i32_str_reg_t2 ctx rt rn rm imm
run_insn (Insn.strb_imm_t1 rt rn imm) ctx = Memory.i16_strb_imm_t1 ctx rt rn imm
run_insn (Insn.strb_imm_t2 rt rn imm) ctx = Memory.i32_strb_imm_t2 ctx rt rn imm
run_insn (Insn.strb_imm_t3 rt rn imm p u w) ctx = Memory.i32_strb_imm_t3 ctx rt rn imm p u w
run_insn (Insn.strb_reg_t1 rt rn rm) ctx = Memory.i16_strb_reg_t1 ctx rt rn rm
run_insn (Insn.strb_reg_t2 rt rn rm imm) ctx = Memory.i32_strb_reg_t2 ctx rt rn rm imm
run_insn (Insn.strd_imm_t1 rt rn rtx imm p u w) ctx = Memory.i32_strd_imm_t1 ctx rt rn rtx imm p u w
run_insn (Insn.strh_imm_t1 rt rn imm) ctx = Memory.i16_strh_imm_t1 ctx rt rn imm
run_insn (Insn.strh_imm_t2 rt rn imm) ctx = Memory.i32_strh_imm_t2 ctx rt rn imm
run_insn (Insn.sub_spimm_t1 imm) ctx = some (Arith.i16_sub_spimm_t1 ctx imm)
run_insn (Insn.sub_imm_t1 rd rn imm) ctx = Arith.i16_sub_imm_t1 ctx rd rn imm
run_insn (Insn.sub_imm_t2 rdn imm) ctx = Arith.i16_sub_imm_t2 ctx rdn imm
run_insn (Insn.sub_imm_t3 rd rn imm s) ctx = Arith.i32_sub_imm_t3 ctx rd rn imm s
run_insn (Insn.sub_imm_t4 rd rn imm) ctx = Arith.i32_sub_imm_t4 ctx rd rn imm
run_insn (Insn.sub_reg_t1 rd rn rm) ctx = Arith.i16_sub_reg_t1 ctx rd rn rm
run_insn (Insn.sub_reg_t2 rd rn rm imm shift_type s) ctx =
    Arith.i32_sub_reg_t2 ctx rd rn rm imm shift_type s
run_insn (Insn.sxtb_t1 rd rm) ctx = some (Move.i16_sxtb_t1 ctx rd rm)
run_insn (Insn.tbb_t1 rn rm h) ctx = Branch.i32_tbb_t1 ctx rn rm h
run_insn (Insn.tst_imm_t1 rn imm) ctx = some (Move.i32_tst_imm_t1 ctx rn imm)
run_insn (Insn.tst_reg_t1 rn rm) ctx = some (Move.i16_tst_reg_t1 ctx rn rm)
run_insn (Insn.ubfx_t1 rd rn imm width) ctx = Move.i32_ubfx_t1 ctx rd rn imm width
run_insn (Insn.umull_t1 rn rm rd_lo rd_hi) ctx = some (Arith.i32_umull_t1 ctx rn rm rd_lo rd_hi)
run_insn (Insn.uxtb_t1 rd rm) ctx = some (Move.i16_uxtb_t1 ctx rd rm)
run_insn (Insn.uxtb_t2 rd rm rotate) ctx = some (Move.i32_uxtb_t2 ctx rd rm rotate)
run_insn (Insn.uxth_t1 rd rm) ctx = some (Move.i16_uxth_t1 ctx rd rm)
run_insn _ ctx = some ctx

module _ {U : Type 0} (host : Callbacks U) where
  unfoldable pub execute : Insn → InsnEmuCtx × U → Option (InsnEmuCtx × U)
  unfolding run_insn
  execute (Insn.bkpt_t1 imm) s = i16_bkpt_t1 host s imm
  execute insn (ctx, user) = do ctx' ← run_insn insn ctx; some (ctx', user)
