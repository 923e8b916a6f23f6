-- ===== src/Decoder/Imm/Laws.antt =====
-- decoder.c: the immediates against the definitions of the architecture.
use libthumb2sim.Base.{
  ℕ, ◌+◌, ◌-◌, ◌*◌, ◌/◌, ◌%◌, ◌^◌, ◌<◌, ◌≡◌, refl, true, ltb, ◌==◌, if◌then◌else◌, arith, ==_iff,
  holds_below, holds_below_sound,
}
use libthumb2sim.Base.Bits.{bit_and_bit, bit_or_fields_low}
use libthumb2sim.Decoder.Imm.{thumb_expand_imm, thumb_sign_extend, thumb_sign_extend20}

-- A rotation to the right by `n` bits, for `n` from 1 to 31.
abbrev pub rotated : ℕ → ℕ → ℕ
rotated a n = a / 2 ^ n + a * 2 ^ (32 - n) % 2 ^ 32

-- ThumbExpandImm of the architecture: a byte, repeated in three ways, or a rotated byte whose top
-- bit is set.
abbrev pub expanded_imm : ℕ → ℕ
expanded_imm imm =
    let b = imm % 256 in
    let form = imm / 256 in
    if form == 0
    then b
    else if form == 1
    then b * 0x00010001
    else if form == 2
    then b * 0x01000100
    else if form == 3
    then b * 0x01010101
    else rotated (128 + imm % 128) (imm / 128)

expand_table : holds_below 4096 (λ imm. thumb_expand_imm imm == expanded_imm imm) ≡ true
unfolding holds_below thumb_expand_imm
expand_table = refl

-- Every 12-bit modified immediate is expanded as the architecture says: by repetition of its low
-- byte, or by rotating a byte with the top bit set.
pub thumb_expand_imm_lem : (imm : ℕ) → imm < 4096 → thumb_expand_imm imm ≡ expanded_imm imm
thumb_expand_imm_lem imm h = (==_iff _ _).0 (holds_below_sound 4096 _ imm expand_table h)

-- An `n`-bit number with the value of its sign bit.
abbrev pub sign_extended : ℕ → ℕ → ℕ
sign_extended n imm = if ltb imm (2 ^ (n - 1)) then imm else imm + 2 ^ 32 - 2 ^ n

-- A 20-bit offset is sign-extended to 32 bits.
pub thumb_sign_extend20_lem :
    (imm : ℕ) → imm < 2 ^ 20 → thumb_sign_extend20 imm ≡ sign_extended 20 imm
unfolding thumb_sign_extend20
thumb_sign_extend20_lem imm h =
    ground (arith, bit_and_bit 19 imm, bit_or_fields_low 20 (2 ^ 12 - 1) imm h)

pub sign_extend24 : (imm : ℕ) → imm < 2 ^ 24 → thumb_sign_extend imm 24 ≡ sign_extended 24 imm
unfolding thumb_sign_extend
sign_extend24 imm h = ground (arith, bit_and_bit 23 imm, bit_or_fields_low 24 (2 ^ 8 - 1) imm h)
