-- ===== src/Decoder/Rows/Part3.antt =====
-- decoder.c, `decode_insn`, lines 2085 to 3078: each branch of its chain of tests as a row.
use libthumb2sim.Base.{◌/◌, ◌^◌, not, List, [], ◌∷◌, ◌==◌, bit_and, bit_or}
use libthumb2sim.Decoder.Imm.{thumb_expand_imm}
use libthumb2sim.Decoder.Insn.{Insn}
use libthumb2sim.Decoder.Row.{Row, row}

unfoldable pub rows_15 : List Row
rows_15 =
    row 0xfbf08000 0xf3c00000 4 (λ opcode.
      Insn.ubfx_t1 (bit_and opcode 0xf00 / 2 ^ 8) (bit_and opcode 0xf0000 / 2 ^ 16)
        (bit_or (bit_and opcode 0x7000 / 2 ^ 10) (bit_and opcode 0xc0 / 2 ^ 6))
        (bit_and opcode 0x1f))
    ∷ row 0xfff000f0 0xfbb000f0 4 (λ opcode.
      Insn.udiv_t1 (bit_and opcode 0xf00 / 2 ^ 8) (bit_and opcode 0xf0000 / 2 ^ 16)
        (bit_and opcode 0xf))
    ∷ row 0xfff0f0f0 0xfa90f060 4 (λ opcode.
      Insn.uhadd16_t1 (bit_and opcode 0xf00 / 2 ^ 8) (bit_and opcode 0xf0000 / 2 ^ 16)
        (bit_and opcode 0xf))
    ∷ row 0xfff0f0f0 0xfa80f060 4 (λ opcode.
      Insn.uhadd8_t1 (bit_and opcode 0xf00 / 2 ^ 8) (bit_and opcode 0xf0000 / 2 ^ 16)
        (bit_and opcode 0xf))
    ∷ row 0xfff0f0f0 0xfaa0f060 4 (λ opcode.
      Insn.uhasx_t1 (bit_and opcode 0xf00 / 2 ^ 8) (bit_and opcode 0xf0000 / 2 ^ 16)
        (bit_and opcode 0xf))
    ∷ row 0xfff0f0f0 0xfae0f060 4 (λ opcode.
      Insn.uhsax_t1 (bit_and opcode 0xf00 / 2 ^ 8) (bit_and opcode 0xf0000 / 2 ^ 16)
        (bit_and opcode 0xf))
    ∷ row 0xfff0f0f0 0xfad0f060 4 (λ opcode.
      Insn.uhsub16_t1 (bit_and opcode 0xf00 / 2 ^ 8) (bit_and opcode 0xf0000 / 2 ^ 16)
        (bit_and opcode 0xf))
    ∷ row 0xfff0f0f0 0xfac0f060 4 (λ opcode.
      Insn.uhsub8_t1 (bit_and opcode 0xf00 / 2 ^ 8) (bit_and opcode 0xf0000 / 2 ^ 16)
        (bit_and opcode 0xf))
    ∷ row 0xfff000f0 0xfbe00060 4 (λ opcode.
      Insn.umaal_t1 (bit_and opcode 0xf0000 / 2 ^ 16) (bit_and opcode 0xf)
        (bit_and opcode 0xf000 / 2 ^ 12) (bit_and opcode 0xf00 / 2 ^ 8))
    ∷ []

unfoldable pub rows_16 : List Row
rows_16 =
    row 0xfff000f0 0xfbe00000 4 (λ opcode.
      Insn.umlal_t1 (bit_and opcode 0xf0000 / 2 ^ 16) (bit_and opcode 0xf)
        (bit_and opcode 0xf000 / 2 ^ 12) (bit_and opcode 0xf00 / 2 ^ 8))
    ∷ row 0xfff000f0 0xfba00000 4 (λ opcode.
      Insn.umull_t1 (bit_and opcode 0xf0000 / 2 ^ 16) (bit_and opcode 0xf)
        (bit_and opcode 0xf000 / 2 ^ 12) (bit_and opcode 0xf00 / 2 ^ 8))
    ∷ row 0xfff0f0f0 0xfa90f050 4 (λ opcode.
      Insn.uqadd16_t1 (bit_and opcode 0xf00 / 2 ^ 8) (bit_and opcode 0xf0000 / 2 ^ 16)
        (bit_and opcode 0xf))
    ∷ row 0xfff0f0f0 0xfa80f050 4 (λ opcode.
      Insn.uqadd8_t1 (bit_and opcode 0xf00 / 2 ^ 8) (bit_and opcode 0xf0000 / 2 ^ 16)
        (bit_and opcode 0xf))
    ∷ row 0xfff0f0f0 0xfaa0f050 4 (λ opcode.
      Insn.uqasx_t1 (bit_and opcode 0xf00 / 2 ^ 8) (bit_and opcode 0xf0000 / 2 ^ 16)
        (bit_and opcode 0xf))
    ∷ row 0xfff0f0f0 0xfae0f050 4 (λ opcode.
      Insn.uqsax_t1 (bit_and opcode 0xf00 / 2 ^ 8) (bit_and opcode 0xf0000 / 2 ^ 16)
        (bit_and opcode 0xf))
    ∷ row 0xfff0f0f0 0xfad0f050 4 (λ opcode.
      Insn.uqsub16_t1 (bit_and opcode 0xf00 / 2 ^ 8) (bit_and opcode 0xf0000 / 2 ^ 16)
        (bit_and opcode 0xf))
    ∷ row 0xfff0f0f0 0xfac0f050 4 (λ opcode.
      Insn.uqsub8_t1 (bit_and opcode 0xf00 / 2 ^ 8) (bit_and opcode 0xf0000 / 2 ^ 16)
        (bit_and opcode 0xf))
    ∷ row 0xfff0f0f0 0xfae0f040 4 (λ opcode.
      Insn.usax_t1 (bit_and opcode 0xf00 / 2 ^ 8) (bit_and opcode 0xf0000 / 2 ^ 16)
        (bit_and opcode 0xf))
    ∷ []

unfoldable pub rows_17 : List Row
rows_17 =
    row 0xfff0f0f0 0xfad0f040 4 (λ opcode.
      Insn.usub16_t1 (bit_and opcode 0xf00 / 2 ^ 8) (bit_and opcode 0xf0000 / 2 ^ 16)
        (bit_and opcode 0xf))
    ∷ row 0xfff0f0f0 0xfac0f040 4 (λ opcode.
      Insn.usub8_t1 (bit_and opcode 0xf00 / 2 ^ 8) (bit_and opcode 0xf0000 / 2 ^ 16)
        (bit_and opcode 0xf))
    ∷ row 0xffc00000 0xb2c00000 2 (λ opcode.
      Insn.uxtb_t1 (bit_and opcode 0x70000 / 2 ^ 16) (bit_and opcode 0x380000 / 2 ^ 19))
    ∷ row 0xffc00000 0xb2800000 2 (λ opcode.
      Insn.uxth_t1 (bit_and opcode 0x70000 / 2 ^ 16) (bit_and opcode 0x380000 / 2 ^ 19))
    ∷ row 0xfbff8000 0xf20d0000 4 (λ opcode. Insn.add_spi_t4 (bit_and opcode 0xf00 / 2 ^ 8) (
        bit_or (bit_or (bit_and opcode 0x4000000 / 2 ^ 15) (bit_and opcode 0x7000 / 2 ^ 4))
          (bit_and opcode 0xff)))
    ∷ row 0xff870000 0x44850000 2 (λ opcode. Insn.add_spr_t2 (bit_and opcode 0x780000 / 2 ^ 19))
    ∷ row 0xfbff8000 0xf2af0000 4 (λ opcode. Insn.adr_t2 (bit_and opcode 0xf00 / 2 ^ 8) (
        bit_or (bit_or (bit_and opcode 0x4000000 / 2 ^ 15) (bit_and opcode 0x7000 / 2 ^ 4))
          (bit_and opcode 0xff)))
    ∷ row 0xfbff8000 0xf20f0000 4 (λ opcode. Insn.adr_t3 (bit_and opcode 0xf00 / 2 ^ 8) (
        bit_or (bit_or (bit_and opcode 0x4000000 / 2 ^ 15) (bit_and opcode 0x7000 / 2 ^ 4))
          (bit_and opcode 0xff)))
    ∷ row 0xfbff8000 0xf36f0000 4 (λ opcode.
      Insn.bfc_t1 (bit_and opcode 0xf00 / 2 ^ 8)
        (bit_or (bit_and opcode 0x7000 / 2 ^ 10) (bit_and opcode 0xc0 / 2 ^ 6))
        (bit_and opcode 0x1f))
    ∷ row 0xfbf08f00 0xf1100f00 4 (λ opcode. Insn.cmn_imm_t1 (bit_and opcode 0xf0000 / 2 ^ 16) (
        thumb_expand_imm (
          bit_or (bit_or (bit_and opcode 0x4000000 / 2 ^ 15) (bit_and opcode 0x7000 / 2 ^ 4))
            (bit_and opcode 0xff))))
    ∷ []

unfoldable pub rows_18 : List Row
rows_18 =
    row 0xfff00f00 0xeb100f00 4 (λ opcode.
      Insn.cmn_reg_t2 (bit_and opcode 0xf0000 / 2 ^ 16) (bit_and opcode 0xf)
        (thumb_expand_imm (bit_or (bit_and opcode 0x7000 / 2 ^ 10) (bit_and opcode 0xc0 / 2 ^ 6)))
        (bit_and opcode 0x30 / 2 ^ 4))
    ∷ row 0xfff08f00 0xebb00f00 4 (λ opcode.
      Insn.cmp_reg_t3 (bit_and opcode 0xf0000 / 2 ^ 16) (bit_and opcode 0xf)
        (bit_or (bit_and opcode 0x7000 / 2 ^ 10) (bit_and opcode 0xc0 / 2 ^ 6))
        (bit_and opcode 0x30 / 2 ^ 4))
    ∷ row 0xfff00fff 0xe8d00f4f 4 (λ opcode.
      Insn.ldrexb_t1 (bit_and opcode 0xf000 / 2 ^ 12) (bit_and opcode 0xf0000 / 2 ^ 16))
    ∷ row 0xfff00fff 0xe8d00f5f 4 (λ opcode.
      Insn.ldrexh_t1 (bit_and opcode 0xf000 / 2 ^ 12) (bit_and opcode 0xf0000 / 2 ^ 16))
    ∷ row 0xfff00fc0 0xf8300000 4 (λ opcode.
      Insn.ldrh_reg_t2 (bit_and opcode 0xf000 / 2 ^ 12) (bit_and opcode 0xf0000 / 2 ^ 16)
        (bit_and opcode 0xf) (bit_and opcode 0x30 / 2 ^ 4))
    ∷ row 0xfff00f00 0xf9300e00 4 (λ opcode.
      Insn.ldrsh_t1 (bit_and opcode 0xf000 / 2 ^ 12) (bit_and opcode 0xf0000 / 2 ^ 16)
        (bit_and opcode 0xff))
    ∷ row 0xfff00fc0 0xf9300000 4 (λ opcode.
      Insn.ldrsh_reg_t2 (bit_and opcode 0xf000 / 2 ^ 12) (bit_and opcode 0xf0000 / 2 ^ 16)
        (bit_and opcode 0xf) (bit_and opcode 0x30 / 2 ^ 4))
    ∷ row 0xfff00000 0xfc400000 4 (λ opcode.
      Insn.mcrr2_t2 (bit_and opcode 0xf000 / 2 ^ 12) (bit_and opcode 0xf00 / 2 ^ 8)
        (bit_and opcode 0xf) (bit_and opcode 0xf0 / 2 ^ 4) (bit_and opcode 0xf0000 / 2 ^ 16))
    ∷ []

unfoldable pub rows_19 : List Row
rows_19 =
    row 0xfbef8000 0xf04f0000 4 (λ opcode.
      Insn.mov_imm_t2 (bit_and opcode 0xf00 / 2 ^ 8)
        (thumb_expand_imm (
          bit_or (bit_or (bit_and opcode 0x4000000 / 2 ^ 15) (bit_and opcode 0x7000 / 2 ^ 4))
            (bit_and opcode 0xff)))
        (not (bit_and opcode 0x100000 / 2 ^ 20 == 0)))
    ∷ row 0xffc00000 0x0 2 (λ opcode.
      Insn.mov_reg_t2 (bit_and opcode 0x70000 / 2 ^ 16) (bit_and opcode 0x380000 / 2 ^ 19))
    ∷ row 0xffeff0f0 0xf24f0000 4 (λ opcode.
      Insn.mov_reg_t3 (bit_and opcode 0xf00 / 2 ^ 8) (bit_and opcode 0xf)
        (not (bit_and opcode 0x100000 / 2 ^ 20 == 0)))
    ∷ row 0xfff00000 0xfc500000 4 (λ opcode.
      Insn.mrrc2_t2 (bit_and opcode 0xf000 / 2 ^ 12) (bit_and opcode 0xf00 / 2 ^ 8)
        (bit_and opcode 0xf) (bit_and opcode 0xf0 / 2 ^ 4) (bit_and opcode 0xf0000 / 2 ^ 16))
    ∷ row 0xfff0f0f0 0xfb00f000 4 (λ opcode.
      Insn.mul_t2 (bit_and opcode 0xf00 / 2 ^ 8) (bit_and opcode 0xf0000 / 2 ^ 16)
        (bit_and opcode 0xf))
    ∷ row 0xfbef8000 0xf06f0000 4 (λ opcode.
      Insn.mvn_imm_t1 (bit_and opcode 0xf00 / 2 ^ 8)
        (thumb_expand_imm (
          bit_or (bit_or (bit_and opcode 0x4000000 / 2 ^ 15) (bit_and opcode 0x7000 / 2 ^ 4))
            (bit_and opcode 0xff)))
        (not (bit_and opcode 0x100000 / 2 ^ 20 == 0)))
    ∷ row 0xffef8000 0xea6f0000 4 (λ opcode.
      Insn.mvn_reg_t2 (bit_and opcode 0xf00 / 2 ^ 8) (bit_and opcode 0xf)
        (thumb_expand_imm (bit_or (bit_and opcode 0x7000 / 2 ^ 10) (bit_and opcode 0xc0 / 2 ^ 6)))
        (bit_and opcode 0x30 / 2 ^ 4) (not (bit_and opcode 0x100000 / 2 ^ 20 == 0)))
    ∷ row 0xffff0000 0xbf000000 2 (λ _. Insn.nop_t1)
    ∷ row 0xffffffff 0xf3af8000 4 (λ _. Insn.nop_t2)
    ∷ []

unfoldable pub rows_20 : List Row
rows_20 =
    row 0xff7ff000 0xf91ff000 4 (λ opcode.
      Insn.pld_immlit_t3 (bit_and opcode 0xfff) (not (bit_and opcode 0x800000 / 2 ^ 23 == 0)))
    ∷ row 0xff7ff000 0xf81ff000 4 (λ opcode.
      Insn.pld_lit_t1 (bit_and opcode 0xfff) (not (bit_and opcode 0x800000 / 2 ^ 23 == 0)))
    ∷ row 0xffff2000 0xe8bd0000 4 (λ opcode.
      Insn.pop_t2 (bit_and opcode 0x1fff) (not (bit_and opcode 0x8000 / 2 ^ 15 == 0))
        (not (bit_and opcode 0x4000 / 2 ^ 14 == 0)))
    ∷ row 0xffff0fff 0xf85d0b04 4 (λ opcode. Insn.pop_t3 (bit_and opcode 0xf000 / 2 ^ 12))
    ∷ row 0xffffa000 0xe92d0000 4
        (λ opcode. Insn.push_t2 (bit_and opcode 0x1fff) (not (bit_and opcode 0x4000 / 2 ^ 14 == 0)))
    ∷ row 0xffff0fff 0xf84d0d04 4 (λ opcode. Insn.push_t3 (bit_and opcode 0xf000 / 2 ^ 12))
    ∷ row 0xfff0f0f0 0xfae0f010 4 (λ opcode.
      Insn.qasx_t1 (bit_and opcode 0xf00 / 2 ^ 8) (bit_and opcode 0xf0000 / 2 ^ 16)
        (bit_and opcode 0xf))
    ∷ row 0xfff0f0f0 0xfae0f010 4 (λ opcode.
      Insn.qsax_t1 (bit_and opcode 0xf00 / 2 ^ 8) (bit_and opcode 0xf0000 / 2 ^ 16)
        (bit_and opcode 0xf))
    ∷ row 0xffef70f0 0xea4f0030 4 (λ opcode.
      Insn.rrx_t1 (bit_and opcode 0xf00 / 2 ^ 8) (bit_and opcode 0xf)
        (not (bit_and opcode 0x100000 / 2 ^ 20 == 0)))
    ∷ row 0xffff0000 0xbf400000 2 (λ _. Insn.sev_t1)
    ∷ []

unfoldable pub rows_21 : List Row
rows_21 =
    row 0xfff0f0e0 0xfb50f000 4 (λ opcode.
      Insn.smmul_t1 (bit_and opcode 0xf00 / 2 ^ 8) (bit_and opcode 0xf0000 / 2 ^ 16)
        (bit_and opcode 0xf) (not (bit_and opcode 0x10 / 2 ^ 4 == 0)))
    ∷ row 0xfff0f0e0 0xfb20f000 4 (λ opcode.
      Insn.smuad_t1 (bit_and opcode 0xf00 / 2 ^ 8) (bit_and opcode 0xf0000 / 2 ^ 16)
        (bit_and opcode 0xf) (not (bit_and opcode 0x10 / 2 ^ 4 == 0)))
    ∷ row 0xfff0f0c0 0xfb10f000 4 (λ opcode.
      Insn.smulbb_t1 (bit_and opcode 0xf00 / 2 ^ 8) (bit_and opcode 0xf0000 / 2 ^ 16)
        (bit_and opcode 0xf) (not (bit_and opcode 0x20 / 2 ^ 5 == 0))
        (not (bit_and opcode 0x10 / 2 ^ 4 == 0)))
    ∷ row 0xfff0f0e0 0xfb30f000 4 (λ opcode.
      Insn.smulwb_t1 (bit_and opcode 0xf00 / 2 ^ 8) (bit_and opcode 0xf0000 / 2 ^ 16)
        (bit_and opcode 0xf) (not (bit_and opcode 0x10 / 2 ^ 4 == 0)))
    ∷ row 0xfff0f0e0 0xfb40f000 4 (λ opcode.
      Insn.smusd_t1 (bit_and opcode 0xf00 / 2 ^ 8) (bit_and opcode 0xf0000 / 2 ^ 16)
        (bit_and opcode 0xf) (not (bit_and opcode 0x10 / 2 ^ 4 == 0)))
    ∷ row 0xfbf0f0c0 0xf3200000 4 (λ opcode.
      Insn.ssat16_t1 (bit_and opcode 0xf00 / 2 ^ 8) (bit_and opcode 0xf0000 / 2 ^ 16)
        (bit_and opcode 0xf))
    ∷ row 0xfff00f00 0xf8000e00 4 (λ opcode.
      Insn.strb_t1 (bit_and opcode 0xf000 / 2 ^ 12) (bit_and opcode 0xf0000 / 2 ^ 16)
        (bit_and opcode 0xff))
    ∷ row 0xfff000f0 0xe8c00040 4 (λ opcode.
      Insn.strexb_t1 (bit_and opcode 0xf) (bit_and opcode 0xf000 / 2 ^ 12)
        (bit_and opcode 0xf0000 / 2 ^ 16))
    ∷ []
