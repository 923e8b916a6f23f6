-- ===== src/Emulation/Flags.antt =====
-- impl_emulation.c: the condition flags, how an instruction sets them, and when a condition holds.
pub mod Codes
pub mod Conditions
pub mod Compare
use libthumb2sim.Base.{
  ℕ, ◌+◌, ◌-◌, ◌*◌, ◌/◌, ◌%◌, ◌^◌, ◌<◌, Bool, true, false, not, ◌&&◌, ◌||◌, ltb, leb, ◌==◌, same,
  if◌then◌else◌, bit_and, bit_or, bit_xor, u32, add32, sub32, not32,
}
use libthumb2sim.Base.{Option, none, some, ◌>>=◌}
use libthumb2sim.Base.Int.{signed32, ◌-ℤ◌, fits32}
use libthumb2sim.Cpu.{InsnEmuCtx, get_psr, set_psr}

abbrev pub flag_negative : ℕ
flag_negative = 0x80000000

abbrev pub flag_zero : ℕ
flag_zero = 0x40000000

abbrev pub flag_carry : ℕ
flag_carry = 0x20000000

abbrev pub flag_overflow : ℕ
flag_overflow = 0x10000000

abbrev pub flag_saturation : ℕ
flag_saturation = 0x08000000

abbrev pub flag_mask : ℕ
flag_mask = 0xf8000000

abbrev pub it_none : ℕ
it_none = 0

abbrev pub it_then : ℕ
it_then = 1

abbrev pub it_else : ℕ
it_else = 2

-- `(int32_t)x < 0`
abbrev pub is_negative : ℕ → Bool
is_negative x = leb (2 ^ 31) x

unfoldable pub set_cond_code : InsnEmuCtx → ℕ → InsnEmuCtx
set_cond_code ctx value = set_psr ctx (bit_or (bit_and (get_psr ctx) (not32 flag_mask)) value)

-- The tests of `cond_satisfied` on the status register.
unfoldable pub cond_satisfied_psr : ℕ → ℕ → Bool
cond_satisfied_psr psr cond =
    let zero_clear = bit_and psr flag_zero == 0 in
    let negative_clear = bit_and psr flag_negative == 0 in
    let overflow_clear = bit_and psr flag_overflow == 0 in
    if cond == 0
    then bit_and psr flag_zero == flag_zero
    else if cond == 1
    then zero_clear
    else if cond == 2
    then bit_and psr flag_carry == flag_carry
    else if cond == 3
    then bit_and psr flag_carry == 0
    else if cond == 4
    then bit_and psr flag_negative == flag_negative
    else if cond == 5
    then negative_clear
    else if cond == 6
    then bit_and psr flag_overflow == flag_overflow
    else if cond == 7
    then overflow_clear
    else if cond == 8
    then bit_and psr (bit_or flag_carry flag_zero) == flag_carry
    else if cond == 9
    then not (bit_and psr (bit_or flag_carry flag_zero) == flag_carry)
    else if cond == 10
    then same negative_clear overflow_clear
    else if cond == 11
    then not (same negative_clear overflow_clear)
    else if cond == 12
    then zero_clear && same negative_clear overflow_clear
    else if cond == 13
    then bit_and psr flag_zero == flag_zero || not (same negative_clear overflow_clear)
    else true

abbrev pub cond_satisfied : InsnEmuCtx → ℕ → Bool
cond_satisfied ctx cond = cond_satisfied_psr (get_psr ctx) cond

unfoldable pub should_exec_next_insn : InsnEmuCtx → Bool
should_exec_next_insn ctx =
    let current = bit_and ctx.emu_ctx.cpu.it_state 3 in
    let cond = ctx.emu_ctx.cpu.it_cond in
    current == it_none
    || (current == it_then && cond_satisfied ctx cond)
    || (current == it_else && cond_satisfied ctx (bit_xor cond 1))

unfoldable pub execution_unconditionally : InsnEmuCtx → Bool
execution_unconditionally ctx = bit_and ctx.emu_ctx.cpu.it_state 3 == it_none

unfoldable pub add_cond_code : ℕ → ℕ → ℕ
add_cond_code x y =
    let result = add32 x y in
    let with_zero = bit_or 0 (if result == 0 then flag_zero else 0) in
    let with_negative = bit_or with_zero (if is_negative result then flag_negative else 0) in
    let with_carry =
      bit_or with_negative (if ltb result x || ltb result y then flag_carry else 0) in
    if bit_and x 0x80000000 == bit_and y 0x80000000
    then bit_or with_carry
        (if bit_and x 0x80000000 == bit_and result 0x80000000 then 0 else flag_overflow)
    else with_carry

-- `a - b` of two `int32_t`, which is undefined when the difference does not fit.
unfoldable pub int_sub : ℕ → ℕ → Option ℕ
int_sub a b = if fits32 (signed32 a -ℤ signed32 b) then some (sub32 a b) else none

-- The last line of `subCondCode`, whose right operand is evaluated only if the signs differ.
unfoldable pub sub_overflow : ℕ → ℕ → Option ℕ
sub_overflow x y = if same (not (is_negative x)) (not (is_negative y)) then some 0 else do
  opposite ← int_sub y x
  below ← int_sub opposite 1
  some (if same (not (is_negative below)) (ltb x y) then flag_overflow else 0)

unfoldable pub sub_cond_code : ℕ → ℕ → Option ℕ
sub_cond_code x y = do
  difference ← int_sub x y
  let with_negative = bit_or 0 (if is_negative difference then flag_negative else 0)
  let with_zero = bit_or with_negative (if x == y then flag_zero else 0)
  let with_carry = bit_or with_zero (if leb y x then flag_carry else 0)
  overflow ← sub_overflow x y
  some (bit_or with_carry overflow)

unfoldable pub mov_cond_code : ℕ → ℕ
mov_cond_code x =
    bit_or (bit_or 0 (if bit_and x 0x80000000 == 0 then 0 else flag_negative))
      (if x == 0 then flag_zero else 0)

unfoldable pub set_mov_cond_code : InsnEmuCtx → Bool → ℕ → InsnEmuCtx
set_mov_cond_code ctx always_set value =
    if always_set || execution_unconditionally ctx
    then set_psr ctx (
        bit_or (bit_and (get_psr ctx) (not32 (bit_or flag_negative flag_zero)))
          (mov_cond_code value))
    else ctx

unfoldable pub set_lsl_cond_code : InsnEmuCtx → Bool → ℕ → Bool → InsnEmuCtx
set_lsl_cond_code ctx always_set value carry =
    if always_set || execution_unconditionally ctx
    then set_psr ctx (
        bit_or (bit_and (get_psr ctx) (not32 (bit_or (bit_or flag_negative flag_zero) flag_carry)))
          (bit_or (mov_cond_code value) (if carry then flag_carry else 0)))
    else ctx

unfoldable pub set_sub_cond_code : InsnEmuCtx → Bool → ℕ → ℕ → Option InsnEmuCtx
set_sub_cond_code ctx always_set a b =
    if always_set || execution_unconditionally ctx
    then (do value ← sub_cond_code a b; some (set_cond_code ctx value))
    else some ctx

unfoldable pub set_add_cond_code : InsnEmuCtx → Bool → ℕ → ℕ → InsnEmuCtx
set_add_cond_code ctx always_set a b =
    if always_set || execution_unconditionally ctx
    then set_cond_code ctx (add_cond_code a b)
    else ctx
