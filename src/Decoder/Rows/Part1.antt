-- ===== src/Decoder/Rows/Part1.antt =====
-- decoder.c, `decode_insn`, lines 75 to 1076: each branch of its chain of tests as a row.
use libthumb2sim.Base.{◌/◌, ◌^◌, not, List, [], ◌∷◌, ◌==◌, bit_and, bit_or}
use libthumb2sim.Decoder.Imm.{thumb_expand_imm}
use libthumb2sim.Decoder.Insn.{Insn}
use libthumb2sim.Decoder.Row.{Row, row}

unfoldable pub rows_1 : List Row
rows_1 =
    row 0xfbe08000 0xf1400000 4 (λ opcode.
      Insn.adc_imm_t1 (bit_and opcode 0xf00 / 2 ^ 8) (bit_and opcode 0xf0000 / 2 ^ 16)
        (thumb_expand_imm (
          bit_or (bit_or (bit_and opcode 0x4000000 / 2 ^ 15) (bit_and opcode 0x7000 / 2 ^ 4))
            (bit_and opcode 0xff)))
        (not (bit_and opcode 0x100000 / 2 ^ 20 == 0)))
    ∷ row 0xffc00000 0x41400000 2 (λ opcode.
      Insn.adc_reg_t1 (bit_and opcode 0x70000 / 2 ^ 16) (bit_and opcode 0x380000 / 2 ^ 19))
    ∷ row 0xffe08000 0xeb400000 4 (λ opcode.
      Insn.adc_reg_t2 (bit_and opcode 0xf00 / 2 ^ 8) (bit_and opcode 0xf0000 / 2 ^ 16)
        (bit_and opcode 0xf) (bit_or (bit_and opcode 0x7000 / 2 ^ 10) (bit_and opcode 0xc0 / 2 ^ 6))
        (bit_and opcode 0x30 / 2 ^ 4) (not (bit_and opcode 0x100000 / 2 ^ 20 == 0)))
    ∷ row 0xf8000000 0xa8000000 2 (λ opcode.
      Insn.add_spi_t1 (bit_and opcode 0x7000000 / 2 ^ 24) (bit_and opcode 0xff0000 / 2 ^ 16))
    ∷ row 0xff800000 0xb0000000 2 (λ opcode. Insn.add_spi_t2 (bit_and opcode 0x7f0000 / 2 ^ 16))
    ∷ row 0xfe000000 0x1c000000 2 (λ opcode.
      Insn.add_imm_t1 (bit_and opcode 0x70000 / 2 ^ 16) (bit_and opcode 0x380000 / 2 ^ 19)
        (bit_and opcode 0x1c00000 / 2 ^ 22))
    ∷ row 0xf8000000 0x30000000 2 (λ opcode.
      Insn.add_imm_t2 (bit_and opcode 0x7000000 / 2 ^ 24) (bit_and opcode 0xff0000 / 2 ^ 16))
    ∷ row 0xfe000000 0x18000000 2 (λ opcode.
      Insn.add_reg_t1 (bit_and opcode 0x70000 / 2 ^ 16) (bit_and opcode 0x380000 / 2 ^ 19)
        (bit_and opcode 0x1c00000 / 2 ^ 22))
    ∷ row 0xf8000000 0xa0000000 2 (λ opcode.
      Insn.adr_t1 (bit_and opcode 0x7000000 / 2 ^ 24) (bit_and opcode 0xff0000 / 2 ^ 16))
    ∷ []

unfoldable pub rows_2 : List Row
rows_2 =
    row 0xffc00000 0x40000000 2 (λ opcode.
      Insn.and_reg_t1 (bit_and opcode 0x70000 / 2 ^ 16) (bit_and opcode 0x380000 / 2 ^ 19))
    ∷ row 0xf8000000 0x10000000 2 (λ opcode.
      Insn.asr_imm_t1 (bit_and opcode 0x70000 / 2 ^ 16) (bit_and opcode 0x380000 / 2 ^ 19)
        (bit_and opcode 0x7c00000 / 2 ^ 22))
    ∷ row 0xffc00000 0x41000000 2 (λ opcode.
      Insn.asr_reg_t1 (bit_and opcode 0x70000 / 2 ^ 16) (bit_and opcode 0x380000 / 2 ^ 19))
    ∷ row 0xffe0f0f0 0xfa40f000 4 (λ opcode.
      Insn.asr_reg_t2 (bit_and opcode 0xf00 / 2 ^ 8) (bit_and opcode 0xf0000 / 2 ^ 16)
        (bit_and opcode 0xf) (not (bit_and opcode 0x100000 / 2 ^ 20 == 0)))
    ∷ row 0xf8000000 0xe0000000 2 (λ opcode. Insn.b_t2 (bit_and opcode 0x7ff0000 / 2 ^ 16))
    ∷ row 0xfbe08000 0xf0200000 4 (λ opcode.
      Insn.bic_imm_t1 (bit_and opcode 0xf00 / 2 ^ 8) (bit_and opcode 0xf0000 / 2 ^ 16)
        (thumb_expand_imm (
          bit_or (bit_or (bit_and opcode 0x4000000 / 2 ^ 15) (bit_and opcode 0x7000 / 2 ^ 4))
            (bit_and opcode 0xff)))
        (not (bit_and opcode 0x100000 / 2 ^ 20 == 0)))
    ∷ row 0xffc00000 0x43800000 2 (λ opcode.
      Insn.bic_reg_t1 (bit_and opcode 0x70000 / 2 ^ 16) (bit_and opcode 0x380000 / 2 ^ 19))
    ∷ row 0xffe00000 0xea200000 4 (λ opcode.
      Insn.bic_reg_t2 (bit_and opcode 0xf00 / 2 ^ 8) (bit_and opcode 0xf0000 / 2 ^ 16)
        (bit_and opcode 0xf) (bit_or (bit_and opcode 0x7000 / 2 ^ 10) (bit_and opcode 0xc0 / 2 ^ 6))
        (bit_and opcode 0x30 / 2 ^ 4) (not (bit_and opcode 0x100000 / 2 ^ 20 == 0)))
    ∷ row 0xff000000 0xbe000000 2 (λ opcode. Insn.bkpt_t1 (bit_and opcode 0xff0000 / 2 ^ 16))
    ∷ []

unfoldable pub rows_3 : List Row
rows_3 =
    row 0xff800000 0x47800000 2 (λ opcode. Insn.blx_reg_t1 (bit_and opcode 0x780000 / 2 ^ 19))
    ∷ row 0xff800000 0x47000000 2 (λ opcode. Insn.bx_t1 (bit_and opcode 0x780000 / 2 ^ 19))
    ∷ row 0xf5000000 0xb1000000 2 (λ opcode.
      Insn.cbnz_t1 (bit_and opcode 0x70000 / 2 ^ 16)
        (bit_or (bit_and opcode 0x2000000 / 2 ^ 20) (bit_and opcode 0xf80000 / 2 ^ 19))
        (not (bit_and opcode 0x8000000 / 2 ^ 27 == 0)))
    ∷ row 0xfff0f0f0 0xfab0f080 4 (λ opcode.
      Insn.clz_t1 (bit_and opcode 0xf00 / 2 ^ 8) (bit_and opcode 0xf)
        (bit_and opcode 0xf0000 / 2 ^ 16))
    ∷ row 0xffc00000 0x42c00000 2 (λ opcode.
      Insn.cmn_reg_t1 (bit_and opcode 0x70000 / 2 ^ 16) (bit_and opcode 0x380000 / 2 ^ 19))
    ∷ row 0xf8000000 0x28000000 2 (λ opcode.
      Insn.cmp_imm_t1 (bit_and opcode 0x7000000 / 2 ^ 24) (bit_and opcode 0xff0000 / 2 ^ 16))
    ∷ row 0xffc00000 0x42800000 2 (λ opcode.
      Insn.cmp_reg_t1 (bit_and opcode 0x70000 / 2 ^ 16) (bit_and opcode 0x380000 / 2 ^ 19))
    ∷ row 0xff000000 0x45000000 2 (λ opcode.
      Insn.cmp_reg_t2 (bit_or (bit_and opcode 0x800000 / 2 ^ 20) (bit_and opcode 0x70000 / 2 ^ 16))
        (bit_and opcode 0x780000 / 2 ^ 19))
    ∷ row 0xffe00000 0xb6600000 2 (λ opcode.
      Insn.cps_t1 (not (bit_and opcode 0x100000 / 2 ^ 20 == 0))
        (not (bit_and opcode 0x10000 / 2 ^ 16 == 0)) (not (bit_and opcode 0x20000 / 2 ^ 17 == 0)))
    ∷ row 0xffc00000 0x40400000 2 (λ opcode.
      Insn.eor_reg_t1 (bit_and opcode 0x70000 / 2 ^ 16) (bit_and opcode 0x380000 / 2 ^ 19))
    ∷ []

unfoldable pub rows_4 : List Row
rows_4 =
    row 0xf8000000 0xc8000000 2
      (λ opcode. Insn.ldm_t1 (bit_and opcode 0x7000000 / 2 ^ 24) (bit_and opcode 0xff0000 / 2 ^ 16))
    ∷ row 0xffd02000 0xe9100000 4 (λ opcode.
      Insn.ldmdb_t1 (bit_and opcode 0xf0000 / 2 ^ 16) (bit_and opcode 0x1fff)
        (not (bit_and opcode 0x8000 / 2 ^ 15 == 0)) (not (bit_and opcode 0x4000 / 2 ^ 14 == 0))
        (not (bit_and opcode 0x200000 / 2 ^ 21 == 0)))
    ∷ row 0xf8000000 0x68000000 2 (λ opcode.
      Insn.ldr_imm_t1 (bit_and opcode 0x70000 / 2 ^ 16) (bit_and opcode 0x380000 / 2 ^ 19)
        (bit_and opcode 0x7c00000 / 2 ^ 22))
    ∷ row 0xf8000000 0x98000000 2 (λ opcode.
      Insn.ldr_imm_t2 (bit_and opcode 0x7000000 / 2 ^ 24) (bit_and opcode 0xff0000 / 2 ^ 16))
    ∷ row 0xf8000000 0x48000000 2 (λ opcode.
      Insn.ldr_lit_t1 (bit_and opcode 0x7000000 / 2 ^ 24) (bit_and opcode 0xff0000 / 2 ^ 16))
    ∷ row 0xfe000000 0x58000000 2 (λ opcode.
      Insn.ldr_reg_t1 (bit_and opcode 0x70000 / 2 ^ 16) (bit_and opcode 0x380000 / 2 ^ 19)
        (bit_and opcode 0x1c00000 / 2 ^ 22))
    ∷ row 0xf8000000 0x78000000 2 (λ opcode.
      Insn.ldrb_imm_t1 (bit_and opcode 0x70000 / 2 ^ 16) (bit_and opcode 0x380000 / 2 ^ 19)
        (bit_and opcode 0x7c00000 / 2 ^ 22))
    ∷ row 0xfe000000 0x5c000000 2 (λ opcode.
      Insn.ldrb_reg_t1 (bit_and opcode 0x70000 / 2 ^ 16) (bit_and opcode 0x380000 / 2 ^ 19)
        (bit_and opcode 0x1c00000 / 2 ^ 22))
    ∷ row 0xf8000000 0x88000000 2 (λ opcode.
      Insn.ldrh_imm_t1 (bit_and opcode 0x70000 / 2 ^ 16) (bit_and opcode 0x380000 / 2 ^ 19)
        (bit_and opcode 0x7c00000 / 2 ^ 22))
    ∷ []

unfoldable pub rows_5 : List Row
rows_5 =
    row 0xfe000000 0x5a000000 2 (λ opcode.
      Insn.ldrh_reg_t1 (bit_and opcode 0x70000 / 2 ^ 16) (bit_and opcode 0x380000 / 2 ^ 19)
        (bit_and opcode 0x1c00000 / 2 ^ 22))
    ∷ row 0xfe000000 0x56000000 2 (λ opcode.
      Insn.ldrsb_reg_t1 (bit_and opcode 0x70000 / 2 ^ 16) (bit_and opcode 0x380000 / 2 ^ 19)
        (bit_and opcode 0x1c00000 / 2 ^ 22))
    ∷ row 0xfe000000 0x5e000000 2 (λ opcode.
      Insn.ldrsh_reg_t1 (bit_and opcode 0x70000 / 2 ^ 16) (bit_and opcode 0x380000 / 2 ^ 19)
        (bit_and opcode 0x1c00000 / 2 ^ 22))
    ∷ row 0xffc00000 0x40800000 2 (λ opcode.
      Insn.lsl_reg_t1 (bit_and opcode 0x70000 / 2 ^ 16) (bit_and opcode 0x380000 / 2 ^ 19))
    ∷ row 0xffe0f0f0 0xfa00f000 4 (λ opcode.
      Insn.lsl_reg_t2 (bit_and opcode 0xf00 / 2 ^ 8) (bit_and opcode 0xf0000 / 2 ^ 16)
        (bit_and opcode 0xf) (not (bit_and opcode 0x100000 / 2 ^ 20 == 0)))
    ∷ row 0xf8000000 0x8000000 2 (λ opcode.
      Insn.lsr_imm_t1 (bit_and opcode 0x70000 / 2 ^ 16) (bit_and opcode 0x380000 / 2 ^ 19)
        (bit_and opcode 0x7c00000 / 2 ^ 22))
    ∷ row 0xffc00000 0x40c00000 2 (λ opcode.
      Insn.lsr_reg_t1 (bit_and opcode 0x70000 / 2 ^ 16) (bit_and opcode 0x380000 / 2 ^ 19))
    ∷ row 0xffe0f0f0 0xfa20f000 4 (λ opcode.
      Insn.lsr_reg_t2 (bit_and opcode 0xf00 / 2 ^ 8) (bit_and opcode 0xf0000 / 2 ^ 16)
        (bit_and opcode 0xf) (not (bit_and opcode 0x100000 / 2 ^ 20 == 0)))
    ∷ row 0xff100010 0xfe000010 4 (λ opcode.
      Insn.mcr2_t2 (bit_and opcode 0xf000 / 2 ^ 12) (bit_and opcode 0xf00 / 2 ^ 8)
        (bit_and opcode 0xf0000 / 2 ^ 16) (bit_and opcode 0xf) (bit_and opcode 0xe00000 / 2 ^ 21)
        (bit_and opcode 0xe0 / 2 ^ 5))
    ∷ []

unfoldable pub rows_6 : List Row
rows_6 =
    row 0xfff000f0 0xfb000010 4 (λ opcode.
      Insn.mls_t1 (bit_and opcode 0xf00 / 2 ^ 8) (bit_and opcode 0xf0000 / 2 ^ 16)
        (bit_and opcode 0xf) (bit_and opcode 0xf000 / 2 ^ 12))
    ∷ row 0xf8000000 0x20000000 2 (λ opcode.
      Insn.mov_imm_t1 (bit_and opcode 0x7000000 / 2 ^ 24) (bit_and opcode 0xff0000 / 2 ^ 16))
    ∷ row 0xff000000 0x46000000 2 (λ opcode.
      Insn.mov_reg_t1 (bit_or (bit_and opcode 0x800000 / 2 ^ 20) (bit_and opcode 0x70000 / 2 ^ 16))
        (bit_and opcode 0x780000 / 2 ^ 19))
    ∷ row 0xfbf08000 0xf2c00000 4 (λ opcode. Insn.movt_t1 (bit_and opcode 0xf00 / 2 ^ 8) (
        bit_or (bit_or (bit_and opcode 0x4000000 / 2 ^ 15) (bit_and opcode 0xf7000 / 2 ^ 4))
          (bit_and opcode 0xff)))
    ∷ row 0xff100010 0xfe100010 4 (λ opcode.
      Insn.mrc2_t2 (bit_and opcode 0xf000 / 2 ^ 12) (bit_and opcode 0xf00 / 2 ^ 8)
        (bit_and opcode 0xf0000 / 2 ^ 16) (bit_and opcode 0xf) (bit_and opcode 0xe00000 / 2 ^ 21)
        (bit_and opcode 0xe0 / 2 ^ 5))
    ∷ row 0xffc00000 0x43400000 2
        (λ opcode. Insn.mul_t1 (bit_and opcode 0x70000 / 2 ^ 16) (bit_and opcode 0x380000 / 2 ^ 19))
    ∷ row 0xffc00000 0x43c00000 2 (λ opcode.
      Insn.mvn_reg_t1 (bit_and opcode 0x70000 / 2 ^ 16) (bit_and opcode 0x380000 / 2 ^ 19))
    ∷ row 0xffc00000 0x43000000 2 (λ opcode.
      Insn.orr_reg_t1 (bit_and opcode 0x70000 / 2 ^ 16) (bit_and opcode 0x380000 / 2 ^ 19))
    ∷ row 0xffe00000 0xeac00000 4 (λ opcode.
      Insn.pkhbt_t1 (bit_and opcode 0xf00 / 2 ^ 8) (bit_and opcode 0xf0000 / 2 ^ 16)
        (bit_and opcode 0xf) (bit_or (bit_and opcode 0x7000 / 2 ^ 10) (bit_and opcode 0xc0 / 2 ^ 6))
        (not (bit_and opcode 0x20 / 2 ^ 5 == 0)) (not (bit_and opcode 0x100000 / 2 ^ 20 == 0))
        (not (bit_and opcode 0x10 / 2 ^ 4 == 0)))
    ∷ []

unfoldable pub rows_7 : List Row
rows_7 =
    row 0xfe000000 0xbc000000 2 (λ opcode.
      Insn.pop_t1 (bit_and opcode 0xff0000 / 2 ^ 16) (not (bit_and opcode 0x1000000 / 2 ^ 24 == 0)))
    ∷ row 0xfe000000 0xb4000000 2 (λ opcode.
      Insn.push_t1 (bit_and opcode 0xff0000 / 2 ^ 16)
        (not (bit_and opcode 0x1000000 / 2 ^ 24 == 0)))
    ∷ row 0xfff0f0f0 0xfa90f010 4 (λ opcode.
      Insn.qadd16_t1 (bit_and opcode 0xf00 / 2 ^ 8) (bit_and opcode 0xf0000 / 2 ^ 16)
        (bit_and opcode 0xf))
    ∷ row 0xfff0f0f0 0xfa80f010 4 (λ opcode.
      Insn.qadd8_t1 (bit_and opcode 0xf00 / 2 ^ 8) (bit_and opcode 0xf0000 / 2 ^ 16)
        (bit_and opcode 0xf))
    ∷ row 0xfff0f0f0 0xfa80f080 4 (λ opcode.
      Insn.qadd_t1 (bit_and opcode 0xf00 / 2 ^ 8) (bit_and opcode 0xf0000 / 2 ^ 16)
        (bit_and opcode 0xf))
    ∷ row 0xfff0f0f0 0xfa80f090 4 (λ opcode.
      Insn.qdadd_t1 (bit_and opcode 0xf00 / 2 ^ 8) (bit_and opcode 0xf0000 / 2 ^ 16)
        (bit_and opcode 0xf))
    ∷ row 0xfff0f0f0 0xfa80f0b0 4 (λ opcode.
      Insn.qdsub_t1 (bit_and opcode 0xf00 / 2 ^ 8) (bit_and opcode 0xf0000 / 2 ^ 16)
        (bit_and opcode 0xf))
    ∷ row 0xfff0f0f0 0xfad0f010 4 (λ opcode.
      Insn.qsub16_t1 (bit_and opcode 0xf00 / 2 ^ 8) (bit_and opcode 0xf0000 / 2 ^ 16)
        (bit_and opcode 0xf))
    ∷ row 0xfff0f0f0 0xfac0f010 4 (λ opcode.
      Insn.qsub8_t1 (bit_and opcode 0xf00 / 2 ^ 8) (bit_and opcode 0xf0000 / 2 ^ 16)
        (bit_and opcode 0xf))
    ∷ []
