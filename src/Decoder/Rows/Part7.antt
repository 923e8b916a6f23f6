-- ===== src/Decoder/Rows/Part7.antt =====
-- decoder.c, `decode_insn`, lines 6069 to 6298: each branch of its chain of tests as a row.
use libthumb2sim.Base.{◌*◌, ◌/◌, ◌^◌, not, List, [], ◌∷◌, ◌==◌, bit_and, bit_or}
use libthumb2sim.Decoder.Imm.{thumb_expand_imm, thumb_sign_extend20, thumb_sign_extend24_eor}
use libthumb2sim.Decoder.Insn.{Insn}
use libthumb2sim.Decoder.Row.{Row, row}

unfoldable pub rows_43 : List Row
rows_43 =
    row 0xfe100000 0xec100000 4 (λ opcode.
      Insn.ldc_imm_t1 (bit_and opcode 0xf0000 / 2 ^ 16) (bit_and opcode 0xff)
        (bit_and opcode 0xf00 / 2 ^ 8) (bit_and opcode 0xf000 / 2 ^ 12)
        (not (bit_and opcode 0x400000 / 2 ^ 22 == 0)) (not (bit_and opcode 0x1000000 / 2 ^ 24 == 0))
        (not (bit_and opcode 0x800000 / 2 ^ 23 == 0)) (not (bit_and opcode 0x200000 / 2 ^ 21 == 0)))
    ∷ row 0xfff00800 0xf8100800 4 (λ opcode.
      Insn.ldrb_imm_t3 (bit_and opcode 0xf000 / 2 ^ 12) (bit_and opcode 0xf0000 / 2 ^ 16)
        (bit_and opcode 0xff) (not (bit_and opcode 0x400 / 2 ^ 10 == 0))
        (not (bit_and opcode 0x200 / 2 ^ 9 == 0)) (not (bit_and opcode 0x100 / 2 ^ 8 == 0)))
    ∷ row 0xfff00800 0xf9100800 4 (λ opcode.
      Insn.ldrsb_imm_t2 (bit_and opcode 0xf000 / 2 ^ 12) (bit_and opcode 0xf0000 / 2 ^ 16)
        (bit_and opcode 0xff) (not (bit_and opcode 0x400 / 2 ^ 10 == 0))
        (not (bit_and opcode 0x200 / 2 ^ 9 == 0)) (not (bit_and opcode 0x100 / 2 ^ 8 == 0)))
    ∷ row 0xfe100000 0xec000000 4 (λ opcode.
      Insn.stc_t1 (bit_and opcode 0xf0000 / 2 ^ 16) (bit_and opcode 0xff)
        (bit_and opcode 0xf00 / 2 ^ 8) (bit_and opcode 0xf000 / 2 ^ 12)
        (not (bit_and opcode 0x1000000 / 2 ^ 24 == 0)) (not (bit_and opcode 0x400000 / 2 ^ 22 == 0))
        (not (bit_and opcode 0x800000 / 2 ^ 23 == 0)) (not (bit_and opcode 0x200000 / 2 ^ 21 == 0)))
    ∷ row 0xfbef8000 0xf1ad0000 4 (λ opcode.
      Insn.sub_spimm_t2 (bit_and opcode 0xf00 / 2 ^ 8)
        (bit_or (bit_or (bit_and opcode 0x4000000 / 2 ^ 15) (bit_and opcode 0x7000 / 2 ^ 4))
          (bit_and opcode 0xff))
        (not (bit_and opcode 0x100000 / 2 ^ 20 == 0)))
    ∷ row 0xfbf00f00 0xf1b00f00 4 (λ opcode. Insn.cmp_imm_t2 (bit_and opcode 0xf0000 / 2 ^ 16) (
        thumb_expand_imm (
          bit_or (bit_or (bit_and opcode 0x4000000 / 2 ^ 15) (bit_and opcode 0x7000 / 2 ^ 4))
            (bit_and opcode 0xff))))
    ∷ row 0xff7f0000 0xf81f0000 4 (λ opcode.
      Insn.ldrb_lit_t1 (bit_and opcode 0xf000 / 2 ^ 12) (bit_and opcode 0xfff)
        (not (bit_and opcode 0x800000 / 2 ^ 23 == 0)))
    ∷ []

unfoldable pub rows_44 : List Row
rows_44 =
    row 0xfff00000 0xf9900000 4 (λ opcode.
      Insn.ldrsb_imm_t1 (bit_and opcode 0xf000 / 2 ^ 12) (bit_and opcode 0xf0000 / 2 ^ 16)
        (bit_and opcode 0xfff))
    ∷ row 0xfff00000 0xf8900000 4 (λ opcode.
      Insn.ldrb_imm_t2 (bit_and opcode 0xf000 / 2 ^ 12) (bit_and opcode 0xf0000 / 2 ^ 16)
        (bit_and opcode 0xfff))
    ∷ row 0xfbe08000 0xf1a00000 4 (λ opcode.
      Insn.sub_imm_t3 (bit_and opcode 0xf00 / 2 ^ 8) (bit_and opcode 0xf0000 / 2 ^ 16)
        (thumb_expand_imm (
          bit_or (bit_or (bit_and opcode 0x4000000 / 2 ^ 15) (bit_and opcode 0x7000 / 2 ^ 4))
            (bit_and opcode 0xff)))
        (not (bit_and opcode 0x100000 / 2 ^ 20 == 0)))
    ∷ row 0xf800d000 0xf0008000 4 (λ opcode.
      Insn.b_t3
        (thumb_sign_extend20 (
          bit_or
            (bit_or
              (bit_or (bit_or (bit_and opcode 0x4000000 / 2 ^ 7) (bit_and opcode 0x3f0000 / 2 ^ 5))
                (bit_and opcode 0x7ff))
              (bit_and opcode 0x2000 * 2 ^ 4))
            (bit_and opcode 0x800 * 2 ^ 7)))
        (bit_and opcode 0x3c00000 / 2 ^ 22))
    ∷ row 0xf800d000 0xf0009000 4 (λ opcode. Insn.b_t4 (
        thumb_sign_extend24_eor (
          bit_or
            (bit_or
              (bit_or (bit_or (bit_and opcode 0x3ff0000 / 2 ^ 5) (bit_and opcode 0x4000000 / 2 ^ 3))
                (bit_and opcode 0x7ff))
              (bit_and opcode 0x2000 * 2 ^ 9))
            (bit_and opcode 0x800 * 2 ^ 10))))
    ∷ row 0xf800d000 0xf000d000 4 (λ opcode. Insn.bl_t1 (
        thumb_sign_extend24_eor (
          bit_or
            (bit_or
              (bit_or (bit_or (bit_and opcode 0x3ff0000 / 2 ^ 5) (bit_and opcode 0x4000000 / 2 ^ 3))
                (bit_and opcode 0x7ff))
              (bit_and opcode 0x2000 * 2 ^ 9))
            (bit_and opcode 0x800 * 2 ^ 10))))
    ∷ []
