-- ===== src/Decoder/Imm.antt =====
-- decoder.c: the immediates that an instruction word encodes. An `int32_t` is its 32-bit pattern.
pub mod Offset
pub mod Laws
use libthumb2sim.Base.{
  ℕ, ◌+◌, ◌-◌, ◌*◌, ◌/◌, ◌^◌, ◌==◌, if◌then◌else◌, bit_and, bit_or, bit_xor, u32, not32, sub32, ltb,
}

-- For counts from 8 to 31, which are the only ones that `thumb_expand_imm` asks for.
unfoldable pub ror32 : ℕ → ℕ → ℕ
ror32 in_value rotate =
    let lo_mask = sub32 (u32 (2 ^ rotate)) 1 in
    let hi_mask = u32 (sub32 (u32 (2 ^ (32 - rotate))) 1 * 2 ^ rotate) in
    bit_or (u32 (bit_and in_value lo_mask * 2 ^ (32 - rotate)))
      (bit_and in_value hi_mask / 2 ^ rotate)

unfoldable pub thumb_expand_imm : ℕ → ℕ
unfolding ror32
thumb_expand_imm imm =
    let b = bit_and imm 0xff in
    if bit_and imm 0xc00 == 0
    then (if bit_and imm 0x300 == 0
        then b
        else if bit_and imm 0x300 == 0x100
        then bit_or (b * 2 ^ 16) b
        else if bit_and imm 0x300 == 0x200
        then bit_or (b * 2 ^ 24) (b * 2 ^ 8)
        else bit_or (bit_or (bit_or (b * 2 ^ 24) (b * 2 ^ 16)) (b * 2 ^ 8)) b)
    else ror32 (bit_or 0x80 (bit_and imm 0x7f)) (bit_and imm 0xf80 / 2 ^ 7)

unfoldable pub thumb_sign_extend : ℕ → ℕ → ℕ
thumb_sign_extend imm bit_length =
    if bit_and imm (2 ^ (bit_length - 1)) == 0 then imm else bit_or imm (not32 (2 ^ bit_length - 1))

unfoldable pub thumb_sign_extend20 : ℕ → ℕ
unfolding thumb_sign_extend
thumb_sign_extend20 imm = thumb_sign_extend imm 20

unfoldable pub thumb_sign_extend24_eor : ℕ → ℕ
unfolding thumb_sign_extend
thumb_sign_extend24_eor imm =
    let imm₁ = bit_xor imm (bit_xor (2 ^ 21) (bit_and imm (2 ^ 23) / 2 ^ 2)) in
    let imm₂ = bit_xor imm₁ (bit_xor (2 ^ 22) (bit_and imm₁ (2 ^ 23) / 2 ^ 1)) in
    thumb_sign_extend imm₂ 24
