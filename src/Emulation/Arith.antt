-- ===== src/Emulation/Arith.antt =====
-- impl_emulation.c: additions, subtractions, comparisons, multiplication and division.
pub mod Product
use libthumb2sim.Base.{
  ℕ, ◌*◌, ◌/◌, ◌^◌, Bool, true, false, ◌&&◌, Option, none, some, ◌==◌, if◌then◌else◌, ◌>>=◌, u32,
  add32, sub32, mul32, bit_and,
}
use libthumb2sim.Cpu.{InsnEmuCtx, reg_sp, get_reg, get_psr, set_reg}
use libthumb2sim.Emulation.Flags.{flag_carry, is_negative, set_sub_cond_code, set_add_cond_code}
use libthumb2sim.Emulation.Shift.{barrel_shift}

-- `(psr & FLAG_CARRY) ? 1 : 0`
abbrev pub carry_in : InsnEmuCtx → ℕ
carry_in ctx = if bit_and (get_psr ctx) flag_carry == 0 then 0 else 1

unfoldable pub i32_adc_imm_t1 : InsnEmuCtx → ℕ → ℕ → ℕ → Bool → InsnEmuCtx
i32_adc_imm_t1 ctx rd rn imm s =
    let imm' = add32 imm (carry_in ctx) in
    let ctx' = if s then set_add_cond_code ctx true (get_reg ctx rn) (add32 imm' 1) else ctx in
    set_reg ctx' rd (add32 (get_reg ctx' rn) imm')

unfoldable pub i32_adc_reg_t2 : InsnEmuCtx → ℕ → ℕ → ℕ → ℕ → ℕ → Bool → Option InsnEmuCtx
i32_adc_reg_t2 ctx rd rn rm imm shift_type s = do
  out ← barrel_shift (get_reg ctx rm) shift_type imm
  let value = add32 out.value (carry_in ctx)
  let ctx' = if s then set_add_cond_code ctx true (get_reg ctx rd) value else ctx
  some (set_reg ctx' rd (add32 (get_reg ctx' rn) value))

unfoldable pub i16_add_spi_t1 : InsnEmuCtx → ℕ → ℕ → InsnEmuCtx
i16_add_spi_t1 ctx rd imm = set_reg ctx rd (add32 (get_reg ctx reg_sp) (imm * 4))

unfoldable pub i16_add_spi_t2 : InsnEmuCtx → ℕ → InsnEmuCtx
i16_add_spi_t2 ctx imm = set_reg ctx reg_sp (add32 (get_reg ctx reg_sp) (imm * 4))

unfoldable pub i32_add_spi_t3 : InsnEmuCtx → ℕ → ℕ → Bool → InsnEmuCtx
i32_add_spi_t3 ctx rd imm s =
    let ctx' = if s then set_add_cond_code ctx true (get_reg ctx reg_sp) imm else ctx in
    set_reg ctx' rd (add32 (get_reg ctx' reg_sp) imm)

unfoldable pub i16_add_spr_t1 : InsnEmuCtx → ℕ → InsnEmuCtx
i16_add_spr_t1 ctx rdm = set_reg ctx rdm (add32 (get_reg ctx rdm) (get_reg ctx reg_sp))

unfoldable pub i32_add_spr_t3 : InsnEmuCtx → ℕ → ℕ → ℕ → ℕ → Bool → Option InsnEmuCtx
i32_add_spr_t3 ctx rd rm imm shift_type s = do
  out ← barrel_shift (get_reg ctx rm) shift_type imm
  let ctx' = if s then set_add_cond_code ctx true (get_reg ctx reg_sp) out.value else ctx
  some (set_reg ctx' rd (add32 (get_reg ctx' reg_sp) out.value))

unfoldable pub i16_add_imm_t1 : InsnEmuCtx → ℕ → ℕ → ℕ → InsnEmuCtx
i16_add_imm_t1 ctx rd rn imm =
    let ctx' = set_add_cond_code ctx false (get_reg ctx rn) imm in
    set_reg ctx' rd (add32 (get_reg ctx' rn) imm)

unfoldable pub i16_add_imm_t2 : InsnEmuCtx → ℕ → ℕ → InsnEmuCtx
i16_add_imm_t2 ctx rdn imm =
    let ctx' = set_add_cond_code ctx false (get_reg ctx rdn) imm in
    set_reg ctx' rdn (add32 (get_reg ctx' rdn) imm)

unfoldable pub i32_add_imm_t3 : InsnEmuCtx → ℕ → ℕ → ℕ → Bool → InsnEmuCtx
i32_add_imm_t3 ctx rd rn imm s =
    let ctx' = if s then set_add_cond_code ctx true (get_reg ctx rn) imm else ctx in
    set_reg ctx' rd (add32 (get_reg ctx' rn) imm)

unfoldable pub i16_add_reg_t1 : InsnEmuCtx → ℕ → ℕ → ℕ → InsnEmuCtx
i16_add_reg_t1 ctx rd rn rm =
    let ctx' = set_add_cond_code ctx false (get_reg ctx rn) (get_reg ctx rm) in
    set_reg ctx' rd (add32 (get_reg ctx' rn) (get_reg ctx' rm))

unfoldable pub i16_add_reg_t2 : InsnEmuCtx → ℕ → ℕ → InsnEmuCtx
i16_add_reg_t2 ctx rdn rm = set_reg ctx rdn (add32 (get_reg ctx rdn) (get_reg ctx rm))

unfoldable pub i32_add_reg_t3 : InsnEmuCtx → ℕ → ℕ → ℕ → ℕ → ℕ → Bool → Option InsnEmuCtx
i32_add_reg_t3 ctx rd rn rm imm shift_type s = do
  out ← barrel_shift (get_reg ctx rm) shift_type imm
  let ctx' = if s then set_add_cond_code ctx true (get_reg ctx rn) out.value else ctx
  some (set_reg ctx' rd (add32 (get_reg ctx' rn) out.value))

unfoldable pub i16_cmp_imm_t1 : InsnEmuCtx → ℕ → ℕ → Option InsnEmuCtx
i16_cmp_imm_t1 ctx rn imm = set_sub_cond_code ctx true (get_reg ctx rn) imm

unfoldable pub i32_cmp_imm_t2 : InsnEmuCtx → ℕ → ℕ → Option InsnEmuCtx
i32_cmp_imm_t2 ctx rn imm = set_sub_cond_code ctx true (get_reg ctx rn) imm

unfoldable pub i16_cmp_reg_t1 : InsnEmuCtx → ℕ → ℕ → Option InsnEmuCtx
i16_cmp_reg_t1 ctx rn rm = set_sub_cond_code ctx true (get_reg ctx rn) (get_reg ctx rm)

unfoldable pub i16_cmp_reg_t2 : InsnEmuCtx → ℕ → ℕ → Option InsnEmuCtx
i16_cmp_reg_t2 ctx rn rm = set_sub_cond_code ctx true (get_reg ctx rn) (get_reg ctx rm)

unfoldable pub i32_mul_t2 : InsnEmuCtx → ℕ → ℕ → ℕ → InsnEmuCtx
i32_mul_t2 ctx rd rn rm = set_reg ctx rd (mul32 (get_reg ctx rn) (get_reg ctx rm))

unfoldable pub i32_umull_t1 : InsnEmuCtx → ℕ → ℕ → ℕ → ℕ → InsnEmuCtx
i32_umull_t1 ctx rn rm rd_lo rd_hi =
    let result = get_reg ctx rn * get_reg ctx rm in
    set_reg (set_reg ctx rd_lo (u32 result)) rd_hi (u32 (result / 2 ^ 32))

-- `(int32_t)a / (int32_t)b` rounds towards 0; the quotient -2^31 / -1 does not fit and is undefined.
unfoldable pub sdiv32 : ℕ → ℕ → Option ℕ
sdiv32 a b =
    if a == 0x80000000 && b == 0xffffffff
    then none
    else if is_negative a
    then (if is_negative b then some (sub32 0 a / sub32 0 b) else some (sub32 0 (sub32 0 a / b)))
    else (if is_negative b then some (sub32 0 (a / sub32 0 b)) else some (a / b))

unfoldable pub i32_sdiv_t1 : InsnEmuCtx → ℕ → ℕ → ℕ → Option InsnEmuCtx
i32_sdiv_t1 ctx rd rn rm =
    if get_reg ctx rm == 0
    then some (set_reg ctx rd 0)
    else do quotient ← sdiv32 (get_reg ctx rn) (get_reg ctx rm); some (set_reg ctx rd quotient)

unfoldable pub i32_rsb_imm_t2 : InsnEmuCtx → ℕ → ℕ → ℕ → Bool → Option InsnEmuCtx
i32_rsb_imm_t2 ctx rd rn imm s = do
  ctx' ← if s then set_sub_cond_code ctx true imm (get_reg ctx rn) else some ctx
  some (set_reg ctx' rd (sub32 imm (get_reg ctx' rn)))

unfoldable pub i32_rsb_reg_t1 : InsnEmuCtx → ℕ → ℕ → ℕ → ℕ → ℕ → Bool → Option InsnEmuCtx
i32_rsb_reg_t1 ctx rd rn rm imm shift_type s = do
  out ← barrel_shift (get_reg ctx rm) shift_type imm
  ctx' ← if s then set_sub_cond_code ctx true out.value (get_reg ctx rn) else some ctx
  some (set_reg ctx' rd (sub32 out.value (get_reg ctx' rn)))

unfoldable pub i16_sub_spimm_t1 : InsnEmuCtx → ℕ → InsnEmuCtx
i16_sub_spimm_t1 ctx imm = set_reg ctx reg_sp (sub32 (get_reg ctx reg_sp) (imm * 4))

unfoldable pub i16_sub_imm_t1 : InsnEmuCtx → ℕ → ℕ → ℕ → Option InsnEmuCtx
i16_sub_imm_t1 ctx rd rn imm = do
  ctx' ← set_sub_cond_code ctx false (get_reg ctx rn) imm
  some (set_reg ctx' rd (sub32 (get_reg ctx' rn) imm))

unfoldable pub i16_sub_imm_t2 : InsnEmuCtx → ℕ → ℕ → Option InsnEmuCtx
i16_sub_imm_t2 ctx rdn imm = do
  ctx' ← set_sub_cond_code ctx false (get_reg ctx rdn) imm
  some (set_reg ctx' rdn (sub32 (get_reg ctx' rdn) imm))

unfoldable pub i32_sub_imm_t3 : InsnEmuCtx → ℕ → ℕ → ℕ → Bool → Option InsnEmuCtx
i32_sub_imm_t3 ctx rd rn imm s = do
  ctx' ← if s then set_sub_cond_code ctx true (get_reg ctx rn) imm else some ctx
  some (set_reg ctx' rd (sub32 (get_reg ctx' rn) imm))

unfoldable pub i32_sub_imm_t4 : InsnEmuCtx → ℕ → ℕ → ℕ → Option InsnEmuCtx
i32_sub_imm_t4 ctx rd rn imm = do
  ctx' ← set_sub_cond_code ctx false (get_reg ctx rn) imm
  some (set_reg ctx' rd (sub32 (get_reg ctx' rn) imm))

unfoldable pub i16_sub_reg_t1 : InsnEmuCtx → ℕ → ℕ → ℕ → Option InsnEmuCtx
i16_sub_reg_t1 ctx rd rn rm = do
  ctx' ← set_sub_cond_code ctx false (get_reg ctx rn) (get_reg ctx rm)
  some (set_reg ctx' rd (sub32 (get_reg ctx' rn) (get_reg ctx' rm)))

unfoldable pub i32_sub_reg_t2 : InsnEmuCtx → ℕ → ℕ → ℕ → ℕ → ℕ → Bool → Option InsnEmuCtx
i32_sub_reg_t2 ctx rd rn rm imm shift_type s = do
  out ← barrel_shift (get_reg ctx rm) shift_type imm
  ctx' ← if s then set_sub_cond_code ctx true (get_reg ctx rn) out.value else some ctx
  some (set_reg ctx' rd (sub32 (get_reg ctx' rn) out.value))
