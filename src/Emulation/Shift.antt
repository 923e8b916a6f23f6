-- ===== src/Emulation/Shift.antt =====
-- impl_emulation.c: the barrel shifter.
--
-- A shift by 32 or more, or by a negative count, is undefined in C and is `none` here.
pub mod Rotate
use libthumb2sim.Base.{
  ℕ, ◌-◌, Bool, false, not, Option, none, some, ◌==◌, if◌then◌else◌, ◌>>=◌, sub32, not32, shl32,
  shr32, bit_and, bit_or,
}

abbrev pub type_lsl : ℕ
type_lsl = 0

abbrev pub type_lsr : ℕ
type_lsr = 1

abbrev pub type_asr : ℕ
type_asr = 2

abbrev pub type_ror : ℕ
type_ror = 3

-- `struct barrelshifter_output_t`
pub record Shifted : Type 0 where
  pub value : ℕ
  pub carry : Bool

-- `in_value & mask` as a truth value.
abbrev pub any_bit : ℕ → ℕ → Bool
any_bit a mask = not (bit_and a mask == 0)

-- `1 << (imm - 1)`
abbrev pub bit_below : ℕ → Option ℕ
bit_below imm = if imm == 0 then none else shl32 1 (imm - 1)

-- The three shifts of `barrel_shift`, each a branch of it.
unfoldable pub shift_left : ℕ → ℕ → Option Shifted
shift_left in_value imm = do
  value ← shl32 in_value imm
  some (record { value = value; carry = any_bit in_value 0x80000000 })

unfoldable pub shift_right : ℕ → ℕ → Option Shifted
shift_right in_value imm = do
  bit ← bit_below imm
  value ← shr32 in_value imm
  some (record { value = value; carry = any_bit in_value bit })

unfoldable pub rotate_right : ℕ → ℕ → Option Shifted
rotate_right in_value imm = do
  one ← shl32 1 imm
  let lo_mask = sub32 one 1
  let hi_mask = not32 lo_mask
  high ← shl32 (bit_and in_value lo_mask) (32 - imm)
  low ← shr32 (bit_and in_value hi_mask) imm
  some (record { value = bit_or high low; carry = false })

unfoldable pub barrel_shift : ℕ → ℕ → ℕ → Option Shifted
unfolding shift_left shift_right rotate_right
barrel_shift in_value shift_type imm =
    if shift_type == type_lsl
    then shift_left in_value imm
    else if shift_type == type_lsr
    then shift_right in_value imm
    else if shift_type == type_ror
    then rotate_right in_value imm
    else some (record { value = 0xabcdef; carry = false })
