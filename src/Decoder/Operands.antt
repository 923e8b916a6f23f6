-- ===== src/Decoder/Operands.antt =====
-- decoder.c: the width of the operands that are handed over.
pub mod Rows
pub mod Words
use libthumb2sim.Base.{
  ℕ, ◌^◌, ◌<◌, ◌≤◌, ◌*◌, ◌/◌, Bool, if◌then◌else◌, either, arith, List, All, bit_and, bit_or, u32,
  sub32,
}
use libthumb2sim.Base.Bits.{bit_and-le_right, bit_and_comm, bit_or-lt}
use native.Mathlib.Nat.{div-le_self}
use libthumb2sim.Decoder.Imm.{ror32, thumb_expand_imm}
use libthumb2sim.Decoder.Insn.{Insn}
use libthumb2sim.Decoder.Row.{Row}

-- Of an instruction with a handler that changes the state: registers are below 16, and an operand
-- that is stored as it is has the width of what it is stored in.
unfoldable pub OperandsFit : Insn → Type 0
OperandsFit (Insn.adc_imm_t1 rd rn imm s) = (rd < 16) × (rn < 16)
OperandsFit (Insn.adc_reg_t2 rd rn rm imm shift_type s) = (rd < 16) × (rn < 16) × (rm < 16)
OperandsFit (Insn.add_spi_t1 rd imm) = (rd < 16)
OperandsFit (Insn.add_spi_t3 rd imm s) = (rd < 16)
OperandsFit (Insn.add_spr_t1 rdm) = (rdm < 16)
OperandsFit (Insn.add_spr_t3 rd rm imm shift_type s) = (rd < 16) × (rm < 16)
OperandsFit (Insn.add_imm_t1 rd rn imm) = (rd < 16) × (rn < 16)
OperandsFit (Insn.add_imm_t2 rdn imm) = (rdn < 16)
OperandsFit (Insn.add_imm_t3 rd rn imm s) = (rd < 16) × (rn < 16)
OperandsFit (Insn.add_reg_t1 rd rn rm) = (rd < 16) × (rn < 16) × (rm < 16)
OperandsFit (Insn.add_reg_t2 rdn rm) = (rdn < 16) × (rm < 16)
OperandsFit (Insn.add_reg_t3 rd rn rm imm shift_type s) = (rd < 16) × (rn < 16) × (rm < 16)
OperandsFit (Insn.and_imm_t1 rd rn imm s) = (rd < 16) × (rn < 16)
OperandsFit (Insn.and_reg_t1 rdn rm) = (rdn < 16) × (rm < 16)
OperandsFit (Insn.and_reg_t2 rd rn rm imm shift_type s) = (rd < 16) × (rn < 16) × (rm < 16)
OperandsFit (Insn.asr_imm_t1 rd rm imm) = (rd < 16) × (rm < 16)
OperandsFit (Insn.bfi_t1 rd rn imm msb) = (rd < 16) × (rn < 16)
OperandsFit (Insn.bic_imm_t1 rd rn imm s) = (rd < 16) × (rn < 16)
OperandsFit (Insn.bic_reg_t2 rd rn rm imm shift_type s) = (rd < 16) × (rn < 16) × (rm < 16)
OperandsFit (Insn.bx_t1 rm) = (rm < 16)
OperandsFit (Insn.cbnz_t1 rn imm op) = (rn < 16)
OperandsFit (Insn.clz_t1 rd rm rmx) = (rd < 16) × (rm < 16)
OperandsFit (Insn.cmp_imm_t1 rn imm) = (rn < 16)
OperandsFit (Insn.cmp_imm_t2 rn imm) = (rn < 16)
OperandsFit (Insn.cmp_reg_t1 rn rm) = (rn < 16) × (rm < 16)
OperandsFit (Insn.cmp_reg_t2 rn rm) = (rn < 16) × (rm < 16)
OperandsFit (Insn.eor_imm_t1 rd rn imm s) = (rd < 16) × (rn < 16) × (imm < 2 ^ 32)
OperandsFit (Insn.eor_reg_t1 rdn rm) = (rdn < 16) × (rm < 16)
OperandsFit (Insn.eor_reg_t2 rd rn rm imm shift_type s) = (rd < 16) × (rn < 16) × (rm < 16)
OperandsFit (Insn.it_t1 firstcond mask) = (firstcond < 2 ^ 8)
OperandsFit (Insn.ldm_t1 rn register_list) = (rn < 16)
OperandsFit (Insn.ldm_t2 rn register_list p m w) = (rn < 16)
OperandsFit (Insn.ldr_imm_t1 rt rn imm) = (rt < 16) × (rn < 16)
OperandsFit (Insn.ldr_imm_t2 rt imm) = (rt < 16)
OperandsFit (Insn.ldr_imm_t3 rt rn imm) = (rt < 16) × (rn < 16)
OperandsFit (Insn.ldr_imm_t4 rt rn imm p u w) = (rt < 16) × (rn < 16)
OperandsFit (Insn.ldr_lit_t1 rt imm) = (rt < 16)
OperandsFit (Insn.ldr_lit_t2 rt imm u) = (rt < 16)
OperandsFit (Insn.ldr_reg_t1 rt rn rm) = (rt < 16) × (rn < 16) × (rm < 16)
OperandsFit (Insn.ldr_reg_t2 rt rn rm imm) = (rt < 16) × (rn < 16) × (rm < 16)
OperandsFit (Insn.ldrb_imm_t1 rt rn imm) = (rt < 16) × (rn < 16)
OperandsFit (Insn.ldrb_imm_t2 rt rn imm) = (rt < 16) × (rn < 16)
OperandsFit (Insn.ldrb_imm_t3 rt rn imm p u w) = (rt < 16) × (rn < 16)
OperandsFit (Insn.ldrb_reg_t1 rt rn rm) = (rt < 16) × (rn < 16) × (rm < 16)
OperandsFit (Insn.ldrb_reg_t2 rt rn rm imm) = (rt < 16) × (rn < 16) × (rm < 16)
OperandsFit (Insn.ldrd_imm_t1 rt rn rtx imm p u w) = (rt < 16) × (rn < 16) × (rtx < 16)
OperandsFit (Insn.ldrh_imm_t1 rt rn imm) = (rt < 16) × (rn < 16)
OperandsFit (Insn.ldrh_imm_t2 rt rn imm) = (rt < 16) × (rn < 16)
OperandsFit (Insn.lsl_imm_t1 rd rm imm) = (rd < 16) × (rm < 16)
OperandsFit (Insn.lsl_imm_t2 rd rm imm s) = (rd < 16) × (rm < 16)
OperandsFit (Insn.lsl_reg_t1 rdn rm) = (rdn < 16) × (rm < 16)
OperandsFit (Insn.lsl_reg_t2 rd rn rm s) = (rd < 16) × (rn < 16) × (rm < 16)
OperandsFit (Insn.lsr_imm_t1 rd rm imm) = (rd < 16) × (rm < 16)
OperandsFit (Insn.lsr_imm_t2 rd rm imm s) = (rd < 16) × (rm < 16)
OperandsFit (Insn.lsr_reg_t1 rdn rm) = (rdn < 16) × (rm < 16)
OperandsFit (Insn.lsr_reg_t2 rd rn rm s) = (rd < 16) × (rn < 16) × (rm < 16)
OperandsFit (Insn.mov_imm_t1 rd imm) = (rd < 16) × (imm < 2 ^ 32)
OperandsFit (Insn.mov_imm_t2 rd imm s) = (rd < 16) × (imm < 2 ^ 32)
OperandsFit (Insn.mov_imm_t3 rd imm) = (rd < 16) × (imm < 2 ^ 32)
OperandsFit (Insn.mov_reg_t1 rd rm) = (rd < 16) × (rm < 16)
OperandsFit (Insn.mov_reg_t2 rd rm) = (rd < 16) × (rm < 16)
OperandsFit (Insn.movt_t1 rd imm) = (rd < 16)
OperandsFit (Insn.msr_t1 rn mask sysm) = (rn < 16)
OperandsFit (Insn.mul_t2 rd rn rm) = (rd < 16) × (rn < 16) × (rm < 16)
OperandsFit (Insn.mvn_imm_t1 rd imm s) = (rd < 16)
OperandsFit (Insn.mvn_reg_t1 rd rm) = (rd < 16) × (rm < 16)
OperandsFit (Insn.mvn_reg_t2 rd rm imm shift_type s) = (rd < 16) × (rm < 16)
OperandsFit (Insn.orn_reg_t1 rd rn rm imm shift_type s) = (rd < 16) × (rn < 16) × (rm < 16)
OperandsFit (Insn.orr_imm_t1 rd rn imm s) = (rd < 16) × (rn < 16) × (imm < 2 ^ 32)
OperandsFit (Insn.orr_reg_t1 rdn rm) = (rdn < 16) × (rm < 16)
OperandsFit (Insn.orr_reg_t2 rd rn rm imm shift_type s) = (rd < 16) × (rn < 16) × (rm < 16)
OperandsFit (Insn.pop_t3 rt) = (rt < 16)
OperandsFit (Insn.ror_imm_t1 rd rm imm s) = (rd < 16) × (rm < 16)
OperandsFit (Insn.rsb_imm_t2 rd rn imm s) = (rd < 16) × (rn < 16)
OperandsFit (Insn.rsb_reg_t1 rd rn rm imm shift_type s) = (rd < 16) × (rn < 16) × (rm < 16)
OperandsFit (Insn.sdiv_t1 rd rn rm) = (rd < 16) × (rn < 16) × (rm < 16)
OperandsFit (Insn.stm_t1 rn register_list) = (rn < 16)
OperandsFit (Insn.stm_t2 rn register_list m w) = (rn < 16)
OperandsFit (Insn.stmdb_t1 rn register_list m w) = (rn < 16)
OperandsFit (Insn.str_imm_t1 rt rn imm) = (rt < 16) × (rn < 16)
OperandsFit (Insn.str_imm_t2 rt imm) = (rt < 16)
OperandsFit (Insn.str_imm_t3 rt rn imm) = (rt < 16) × (rn < 16)
OperandsFit (Insn.str_imm_t4 rt rn imm p u w) = (rt < 16) × (rn < 16)
OperandsFit (Insn.str_reg_t1 rt rn rm) = (rt < 16) × (rn < 16) × (rm < 16)
OperandsFit (Insn.str_reg_t2 rt rn rm imm) = (rt < 16) × (rn < 16) × (rm < 16)
OperandsFit (Insn.strb_imm_t1 rt rn imm) = (rt < 16) × (rn < 16)
OperandsFit (Insn.strb_imm_t2 rt rn imm) = (rt < 16) × (rn < 16)
OperandsFit (Insn.strb_imm_t3 rt rn imm p u w) = (rt < 16) × (rn < 16)
OperandsFit (Insn.strb_reg_t1 rt rn rm) = (rt < 16) × (rn < 16) × (rm < 16)
OperandsFit (Insn.strb_reg_t2 rt rn rm imm) = (rt < 16) × (rn < 16) × (rm < 16)
OperandsFit (Insn.strd_imm_t1 rt rn rtx imm p u w) = (rt < 16) × (rn < 16) × (rtx < 16)
OperandsFit (Insn.strh_imm_t1 rt rn imm) = (rt < 16) × (rn < 16)
OperandsFit (Insn.strh_imm_t2 rt rn imm) = (rt < 16) × (rn < 16)
OperandsFit (Insn.sub_imm_t1 rd rn imm) = (rd < 16) × (rn < 16)
OperandsFit (Insn.sub_imm_t2 rdn imm) = (rdn < 16)
OperandsFit (Insn.sub_imm_t3 rd rn imm s) = (rd < 16) × (rn < 16)
OperandsFit (Insn.sub_imm_t4 rd rn imm) = (rd < 16) × (rn < 16)
OperandsFit (Insn.sub_reg_t1 rd rn rm) = (rd < 16) × (rn < 16) × (rm < 16)
OperandsFit (Insn.sub_reg_t2 rd rn rm imm shift_type s) = (rd < 16) × (rn < 16) × (rm < 16)
OperandsFit (Insn.sxtb_t1 rd rm) = (rd < 16) × (rm < 16)
OperandsFit (Insn.tbb_t1 rn rm h) = (rn < 16) × (rm < 16)
OperandsFit (Insn.tst_imm_t1 rn imm) = (rn < 16)
OperandsFit (Insn.tst_reg_t1 rn rm) = (rn < 16) × (rm < 16)
OperandsFit (Insn.ubfx_t1 rd rn imm width) = (rd < 16) × (rn < 16)
OperandsFit (Insn.umull_t1 rn rm rd_lo rd_hi) = (rn < 16) × (rm < 16) × (rd_lo < 16) × (rd_hi < 16)
OperandsFit (Insn.uxtb_t1 rd rm) = (rd < 16) × (rm < 16)
OperandsFit (Insn.uxtb_t2 rd rm rotate) = (rd < 16) × (rm < 16)
OperandsFit (Insn.uxth_t1 rd rm) = (rd < 16) × (rm < 16)
OperandsFit _ = Unit

-- A branch of the decoder hands over operands that fit.
abbrev pub RowFits : Row → Type 0
RowFits r = (opcode : ℕ) → OperandsFit (r.call opcode)

-- A digit and a word are closed under `bit_or`.
pub bit_or-nibble : (a b : ℕ) → a < 16 → b < 16 → bit_or a b < 16
bit_or-nibble a b h k = bit_or-lt 4 a b h k

pub bit_or-word : (a b : ℕ) → a < 2 ^ 32 → b < 2 ^ 32 → bit_or a b < 2 ^ 32
bit_or-word a b h k = bit_or-lt 32 a b h k

ror32-lt : (v k : ℕ) → ror32 v k < 2 ^ 32
unfolding ror32
ror32-lt v k =
    bit_or-word (u32 _) (bit_and v _ / 2 ^ k) (omega arith)
      (omega (arith, div-le_self (bit_and v _) (2 ^ k), bit_and-le_right v _))

pub thumb_expand_imm-lt : (imm : ℕ) → thumb_expand_imm imm < 2 ^ 32
unfolding thumb_expand_imm
thumb_expand_imm-lt imm = grind (arith, bit_or-word, ror32-lt, bit_and-le_right)
