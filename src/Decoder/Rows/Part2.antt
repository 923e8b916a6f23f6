-- ===== src/Decoder/Rows/Part2.antt =====
-- decoder.c, `decode_insn`, lines 1077 to 2084: each branch of its chain of tests as a row.
use libthumb2sim.Base.{◌/◌, ◌^◌, not, List, [], ◌∷◌, ◌==◌, bit_and, bit_or}
use libthumb2sim.Decoder.Imm.{thumb_expand_imm}
use libthumb2sim.Decoder.Insn.{Insn}
use libthumb2sim.Decoder.Row.{Row, row}

unfoldable pub rows_8 : List Row
rows_8 =
    row 0xfff0f0f0 0xfa80f0a0 4 (λ opcode.
      Insn.qsub_t1 (bit_and opcode 0xf00 / 2 ^ 8) (bit_and opcode 0xf0000 / 2 ^ 16)
        (bit_and opcode 0xf))
    ∷ row 0xfff0f0f0 0xfa90f0a0 4 (λ opcode.
      Insn.rbit_t1 (bit_and opcode 0xf00 / 2 ^ 8)
        (bit_or (bit_and opcode 0xf0000 / 2 ^ 12) (bit_and opcode 0xf)))
    ∷ row 0xffc00000 0xba400000 2 (λ opcode.
      Insn.rev16_t1 (bit_and opcode 0x70000 / 2 ^ 16) (bit_and opcode 0x380000 / 2 ^ 19))
    ∷ row 0xfff0f0f0 0xfa90f090 4 (λ opcode.
      Insn.rev16_t2 (bit_and opcode 0xf00 / 2 ^ 8)
        (bit_or (bit_and opcode 0xf0000 / 2 ^ 12) (bit_and opcode 0xf)))
    ∷ row 0xffc00000 0xba000000 2
        (λ opcode. Insn.rev_t1 (bit_and opcode 0x70000 / 2 ^ 16) (bit_and opcode 0x380000 / 2 ^ 19))
    ∷ row 0xfff0f0f0 0xfa90f080 4 (λ opcode.
      Insn.rev_t2 (bit_and opcode 0xf00 / 2 ^ 8) (bit_and opcode 0xf)
        (bit_and opcode 0xf0000 / 2 ^ 16))
    ∷ row 0xffc00000 0xbac00000 2 (λ opcode.
      Insn.revsh_t1 (bit_and opcode 0x70000 / 2 ^ 16) (bit_and opcode 0x380000 / 2 ^ 19))
    ∷ row 0xfff0f0f0 0xfa90f0b0 4 (λ opcode.
      Insn.revsh_t2 (bit_and opcode 0xf00 / 2 ^ 8)
        (bit_or (bit_and opcode 0xf0000 / 2 ^ 12) (bit_and opcode 0xf)))
    ∷ row 0xffc00000 0x41c00000 2 (λ opcode.
      Insn.ror_reg_t1 (bit_and opcode 0x70000 / 2 ^ 16) (bit_and opcode 0x380000 / 2 ^ 19))
    ∷ row 0xffe0f0f0 0xfa60f000 4 (λ opcode.
      Insn.ror_reg_t2 (bit_and opcode 0xf00 / 2 ^ 8) (bit_and opcode 0xf0000 / 2 ^ 16)
        (bit_and opcode 0xf) (not (bit_and opcode 0x100000 / 2 ^ 20 == 0)))
    ∷ []

unfoldable pub rows_9 : List Row
rows_9 =
    row 0xffc00000 0x42400000 2 (λ opcode.
      Insn.rsb_imm_t1 (bit_and opcode 0x70000 / 2 ^ 16) (bit_and opcode 0x380000 / 2 ^ 19))
    ∷ row 0xfbe08000 0xf1c00000 4 (λ opcode.
      Insn.rsb_imm_t2 (bit_and opcode 0xf00 / 2 ^ 8) (bit_and opcode 0xf0000 / 2 ^ 16)
        (thumb_expand_imm (
          bit_or (bit_or (bit_and opcode 0x4000000 / 2 ^ 15) (bit_and opcode 0x7000 / 2 ^ 4))
            (bit_and opcode 0xff)))
        (not (bit_and opcode 0x100000 / 2 ^ 20 == 0)))
    ∷ row 0xffe00000 0xebc00000 4 (λ opcode.
      Insn.rsb_reg_t1 (bit_and opcode 0xf00 / 2 ^ 8) (bit_and opcode 0xf0000 / 2 ^ 16)
        (bit_and opcode 0xf) (bit_or (bit_and opcode 0x7000 / 2 ^ 10) (bit_and opcode 0xc0 / 2 ^ 6))
        (bit_and opcode 0x30 / 2 ^ 4) (not (bit_and opcode 0x100000 / 2 ^ 20 == 0)))
    ∷ row 0xfff0f0f0 0xfa90f000 4 (λ opcode.
      Insn.sadd16_t1 (bit_and opcode 0xf00 / 2 ^ 8) (bit_and opcode 0xf0000 / 2 ^ 16)
        (bit_and opcode 0xf))
    ∷ row 0xfff0f0f0 0xfa80f000 4 (λ opcode.
      Insn.sadd8_t1 (bit_and opcode 0xf00 / 2 ^ 8) (bit_and opcode 0xf0000 / 2 ^ 16)
        (bit_and opcode 0xf))
    ∷ row 0xfff0f0f0 0xfaa0f000 4 (λ opcode.
      Insn.sasx_t1 (bit_and opcode 0xf00 / 2 ^ 8) (bit_and opcode 0xf0000 / 2 ^ 16)
        (bit_and opcode 0xf))
    ∷ row 0xfbe08000 0xf1600000 4 (λ opcode.
      Insn.sbc_imm_t1 (bit_and opcode 0xf00 / 2 ^ 8) (bit_and opcode 0xf0000 / 2 ^ 16)
        (thumb_expand_imm (
          bit_or (bit_or (bit_and opcode 0x4000000 / 2 ^ 15) (bit_and opcode 0x7000 / 2 ^ 4))
            (bit_and opcode 0xff)))
        (not (bit_and opcode 0x100000 / 2 ^ 20 == 0)))
    ∷ row 0xffc00000 0x41800000 2 (λ opcode.
      Insn.sbc_reg_t1 (bit_and opcode 0x70000 / 2 ^ 16) (bit_and opcode 0x380000 / 2 ^ 19))
    ∷ []

unfoldable pub rows_10 : List Row
rows_10 =
    row 0xffe00000 0xeb600000 4 (λ opcode.
      Insn.sbc_reg_t2 (bit_and opcode 0xf00 / 2 ^ 8) (bit_and opcode 0xf0000 / 2 ^ 16)
        (bit_and opcode 0xf) (bit_or (bit_and opcode 0x7000 / 2 ^ 10) (bit_and opcode 0xc0 / 2 ^ 6))
        (bit_and opcode 0x30 / 2 ^ 4) (not (bit_and opcode 0x100000 / 2 ^ 20 == 0)))
    ∷ row 0xfbf08000 0xf3400000 4 (λ opcode.
      Insn.sbfx_t1 (bit_and opcode 0xf00 / 2 ^ 8) (bit_and opcode 0xf0000 / 2 ^ 16)
        (bit_or (bit_and opcode 0x7000 / 2 ^ 10) (bit_and opcode 0xc0 / 2 ^ 6))
        (bit_and opcode 0x1f))
    ∷ row 0xfff000f0 0xfb9000f0 4 (λ opcode.
      Insn.sdiv_t1 (bit_and opcode 0xf00 / 2 ^ 8) (bit_and opcode 0xf0000 / 2 ^ 16)
        (bit_and opcode 0xf))
    ∷ row 0xfff0f0f0 0xfaa0f080 4 (λ opcode.
      Insn.sel_t1 (bit_and opcode 0xf00 / 2 ^ 8) (bit_and opcode 0xf0000 / 2 ^ 16)
        (bit_and opcode 0xf))
    ∷ row 0xfff0f0f0 0xfa90f020 4 (λ opcode.
      Insn.shadd16_t1 (bit_and opcode 0xf00 / 2 ^ 8) (bit_and opcode 0xf0000 / 2 ^ 16)
        (bit_and opcode 0xf))
    ∷ row 0xfff0f0f0 0xfa80f020 4 (λ opcode.
      Insn.shadd8_t1 (bit_and opcode 0xf00 / 2 ^ 8) (bit_and opcode 0xf0000 / 2 ^ 16)
        (bit_and opcode 0xf))
    ∷ row 0xfff0f0f0 0xfaa0f020 4 (λ opcode.
      Insn.shasx_t1 (bit_and opcode 0xf00 / 2 ^ 8) (bit_and opcode 0xf0000 / 2 ^ 16)
        (bit_and opcode 0xf))
    ∷ row 0xfff0f0f0 0xfae0f020 4 (λ opcode.
      Insn.shsax_t1 (bit_and opcode 0xf00 / 2 ^ 8) (bit_and opcode 0xf0000 / 2 ^ 16)
        (bit_and opcode 0xf))
    ∷ []

unfoldable pub rows_11 : List Row
rows_11 =
    row 0xfff0f0f0 0xfad0f020 4 (λ opcode.
      Insn.shsub16_t1 (bit_and opcode 0xf00 / 2 ^ 8) (bit_and opcode 0xf0000 / 2 ^ 16)
        (bit_and opcode 0xf))
    ∷ row 0xfff0f0f0 0xfac0f020 4 (λ opcode.
      Insn.shsub8_t1 (bit_and opcode 0xf00 / 2 ^ 8) (bit_and opcode 0xf0000 / 2 ^ 16)
        (bit_and opcode 0xf))
    ∷ row 0xfff000f0 0xfbc00000 4 (λ opcode.
      Insn.smlal_t1 (bit_and opcode 0xf0000 / 2 ^ 16) (bit_and opcode 0xf)
        (bit_and opcode 0xf000 / 2 ^ 12) (bit_and opcode 0xf00 / 2 ^ 8))
    ∷ row 0xfff000c0 0xfbc00080 4 (λ opcode.
      Insn.smlalbb_t1 (bit_and opcode 0xf0000 / 2 ^ 16) (bit_and opcode 0xf)
        (bit_and opcode 0xf000 / 2 ^ 12) (bit_and opcode 0xf00 / 2 ^ 8)
        (not (bit_and opcode 0x20 / 2 ^ 5 == 0)) (not (bit_and opcode 0x10 / 2 ^ 4 == 0)))
    ∷ row 0xfff000e0 0xfbc000c0 4 (λ opcode.
      Insn.smlald_t1 (bit_and opcode 0xf0000 / 2 ^ 16) (bit_and opcode 0xf)
        (bit_and opcode 0xf000 / 2 ^ 12) (bit_and opcode 0xf00 / 2 ^ 8)
        (not (bit_and opcode 0x10 / 2 ^ 4 == 0)))
    ∷ row 0xfff000e0 0xfbd000c0 4 (λ opcode.
      Insn.smlsld_t1 (bit_and opcode 0xf0000 / 2 ^ 16) (bit_and opcode 0xf)
        (bit_and opcode 0xf000 / 2 ^ 12) (bit_and opcode 0xf00 / 2 ^ 8)
        (not (bit_and opcode 0x10 / 2 ^ 4 == 0)))
    ∷ row 0xfff000e0 0xfb600000 4 (λ opcode.
      Insn.smmls_t1 (bit_and opcode 0xf00 / 2 ^ 8) (bit_and opcode 0xf0000 / 2 ^ 16)
        (bit_and opcode 0xf) (bit_and opcode 0xf000 / 2 ^ 12)
        (not (bit_and opcode 0x10 / 2 ^ 4 == 0)))
    ∷ row 0xfff000f0 0xfb800000 4 (λ opcode.
      Insn.smull_t1 (bit_and opcode 0xf0000 / 2 ^ 16) (bit_and opcode 0xf)
        (bit_and opcode 0xf000 / 2 ^ 12) (bit_and opcode 0xf00 / 2 ^ 8))
    ∷ []

unfoldable pub rows_12 : List Row
rows_12 =
    row 0xfff0f0f0 0xfae0f000 4 (λ opcode.
      Insn.ssax_t1 (bit_and opcode 0xf00 / 2 ^ 8) (bit_and opcode 0xf0000 / 2 ^ 16)
        (bit_and opcode 0xf))
    ∷ row 0xfff0f0f0 0xfad0f000 4 (λ opcode.
      Insn.ssub16_t1 (bit_and opcode 0xf00 / 2 ^ 8) (bit_and opcode 0xf0000 / 2 ^ 16)
        (bit_and opcode 0xf))
    ∷ row 0xfff0f0f0 0xfac0f000 4 (λ opcode.
      Insn.ssub8_t1 (bit_and opcode 0xf00 / 2 ^ 8) (bit_and opcode 0xf0000 / 2 ^ 16)
        (bit_and opcode 0xf))
    ∷ row 0xf8000000 0xc0000000 2 (λ opcode.
      Insn.stm_t1 (bit_and opcode 0x7000000 / 2 ^ 24) (bit_and opcode 0xff0000 / 2 ^ 16))
    ∷ row 0xffd0a000 0xe8800000 4 (λ opcode.
      Insn.stm_t2 (bit_and opcode 0xf0000 / 2 ^ 16) (bit_and opcode 0x1fff)
        (not (bit_and opcode 0x4000 / 2 ^ 14 == 0)) (not (bit_and opcode 0x200000 / 2 ^ 21 == 0)))
    ∷ row 0xf8000000 0x60000000 2 (λ opcode.
      Insn.str_imm_t1 (bit_and opcode 0x70000 / 2 ^ 16) (bit_and opcode 0x380000 / 2 ^ 19)
        (bit_and opcode 0x7c00000 / 2 ^ 22))
    ∷ row 0xf8000000 0x90000000 2 (λ opcode.
      Insn.str_imm_t2 (bit_and opcode 0x7000000 / 2 ^ 24) (bit_and opcode 0xff0000 / 2 ^ 16))
    ∷ row 0xfff00000 0xf8c00000 4 (λ opcode.
      Insn.str_imm_t3 (bit_and opcode 0xf000 / 2 ^ 12) (bit_and opcode 0xf0000 / 2 ^ 16)
        (bit_and opcode 0xfff))
    ∷ row 0xfe000000 0x50000000 2 (λ opcode.
      Insn.str_reg_t1 (bit_and opcode 0x70000 / 2 ^ 16) (bit_and opcode 0x380000 / 2 ^ 19)
        (bit_and opcode 0x1c00000 / 2 ^ 22))
    ∷ []

unfoldable pub rows_13 : List Row
rows_13 =
    row 0xfff00fc0 0xf8400000 4 (λ opcode.
      Insn.str_reg_t2 (bit_and opcode 0xf000 / 2 ^ 12) (bit_and opcode 0xf0000 / 2 ^ 16)
        (bit_and opcode 0xf) (bit_and opcode 0x30 / 2 ^ 4))
    ∷ row 0xf8000000 0x70000000 2 (λ opcode.
      Insn.strb_imm_t1 (bit_and opcode 0x70000 / 2 ^ 16) (bit_and opcode 0x380000 / 2 ^ 19)
        (bit_and opcode 0x7c00000 / 2 ^ 22))
    ∷ row 0xfff00000 0xf8800000 4 (λ opcode.
      Insn.strb_imm_t2 (bit_and opcode 0xf000 / 2 ^ 12) (bit_and opcode 0xf0000 / 2 ^ 16)
        (bit_and opcode 0xfff))
    ∷ row 0xfe000000 0x54000000 2 (λ opcode.
      Insn.strb_reg_t1 (bit_and opcode 0x70000 / 2 ^ 16) (bit_and opcode 0x380000 / 2 ^ 19)
        (bit_and opcode 0x1c00000 / 2 ^ 22))
    ∷ row 0xfff00fc0 0xf8000000 4 (λ opcode.
      Insn.strb_reg_t2 (bit_and opcode 0xf000 / 2 ^ 12) (bit_and opcode 0xf0000 / 2 ^ 16)
        (bit_and opcode 0xf) (bit_and opcode 0x30 / 2 ^ 4))
    ∷ row 0xf8000000 0x80000000 2 (λ opcode.
      Insn.strh_imm_t1 (bit_and opcode 0x70000 / 2 ^ 16) (bit_and opcode 0x380000 / 2 ^ 19)
        (bit_and opcode 0x7c00000 / 2 ^ 22))
    ∷ row 0xfff00000 0xf8a00000 4 (λ opcode.
      Insn.strh_imm_t2 (bit_and opcode 0xf000 / 2 ^ 12) (bit_and opcode 0xf0000 / 2 ^ 16)
        (bit_and opcode 0xfff))
    ∷ row 0xfe000000 0x52000000 2 (λ opcode.
      Insn.strh_reg_t1 (bit_and opcode 0x70000 / 2 ^ 16) (bit_and opcode 0x380000 / 2 ^ 19)
        (bit_and opcode 0x1c00000 / 2 ^ 22))
    ∷ row 0xfff00fc0 0xf8200000 4 (λ opcode.
      Insn.strh_reg_t2 (bit_and opcode 0xf000 / 2 ^ 12) (bit_and opcode 0xf0000 / 2 ^ 16)
        (bit_and opcode 0xf) (bit_and opcode 0x30 / 2 ^ 4))
    ∷ []

unfoldable pub rows_14 : List Row
rows_14 =
    row 0xff800000 0xb0800000 2 (λ opcode. Insn.sub_spimm_t1 (bit_and opcode 0x7f0000 / 2 ^ 16))
    ∷ row 0xfe000000 0x1e000000 2 (λ opcode.
      Insn.sub_imm_t1 (bit_and opcode 0x70000 / 2 ^ 16) (bit_and opcode 0x380000 / 2 ^ 19)
        (bit_and opcode 0x1c00000 / 2 ^ 22))
    ∷ row 0xf8000000 0x38000000 2 (λ opcode.
      Insn.sub_imm_t2 (bit_and opcode 0x7000000 / 2 ^ 24) (bit_and opcode 0xff0000 / 2 ^ 16))
    ∷ row 0xfe000000 0x1a000000 2 (λ opcode.
      Insn.sub_reg_t1 (bit_and opcode 0x70000 / 2 ^ 16) (bit_and opcode 0x380000 / 2 ^ 19)
        (bit_and opcode 0x1c00000 / 2 ^ 22))
    ∷ row 0xffc00000 0xb2400000 2 (λ opcode.
      Insn.sxtb_t1 (bit_and opcode 0x70000 / 2 ^ 16) (bit_and opcode 0x380000 / 2 ^ 19))
    ∷ row 0xffc00000 0xb2000000 2 (λ opcode.
      Insn.sxth_t1 (bit_and opcode 0x70000 / 2 ^ 16) (bit_and opcode 0x380000 / 2 ^ 19))
    ∷ row 0xffc00000 0x42000000 2 (λ opcode.
      Insn.tst_reg_t1 (bit_and opcode 0x70000 / 2 ^ 16) (bit_and opcode 0x380000 / 2 ^ 19))
    ∷ row 0xfff0f0f0 0xfa90f040 4 (λ opcode.
      Insn.uadd16_t1 (bit_and opcode 0xf00 / 2 ^ 8) (bit_and opcode 0xf0000 / 2 ^ 16)
        (bit_and opcode 0xf))
    ∷ row 0xfff0f0f0 0xfa80f040 4 (λ opcode.
      Insn.uadd8_t1 (bit_and opcode 0xf00 / 2 ^ 8) (bit_and opcode 0xf0000 / 2 ^ 16)
        (bit_and opcode 0xf))
    ∷ row 0xfff0f0f0 0xfaa0f040 4 (λ opcode.
      Insn.uasx_t1 (bit_and opcode 0xf00 / 2 ^ 8) (bit_and opcode 0xf0000 / 2 ^ 16)
        (bit_and opcode 0xf))
    ∷ []
