-- ===== src/Decoder/Rows/Part5.antt =====
-- decoder.c, `decode_insn`, lines 4069 to 5056: each branch of its chain of tests as a row.
use libthumb2sim.Base.{◌/◌, ◌^◌, not, List, [], ◌∷◌, ◌==◌, bit_and, bit_or}
use libthumb2sim.Decoder.Imm.{thumb_expand_imm}
use libthumb2sim.Decoder.Insn.{Insn}
use libthumb2sim.Decoder.Row.{Row, row}

unfoldable pub rows_29 : List Row
rows_29 =
    row 0xfff0ffc0 0xf810f000 4 (λ opcode.
      Insn.pld_reg_t1 (bit_and opcode 0xf0000 / 2 ^ 16) (bit_and opcode 0xf)
        (bit_and opcode 0x30 / 2 ^ 4))
    ∷ row 0xffef0030 0xea4f0030 4 (λ opcode.
      Insn.ror_imm_t1 (bit_and opcode 0xf00 / 2 ^ 8) (bit_and opcode 0xf)
        (bit_or (bit_and opcode 0x7000 / 2 ^ 10) (bit_and opcode 0xc0 / 2 ^ 6))
        (not (bit_and opcode 0x100000 / 2 ^ 20 == 0)))
    ∷ row 0xfff000c0 0xfb100000 4 (λ opcode.
      Insn.smlabb_t1 (bit_and opcode 0xf00 / 2 ^ 8) (bit_and opcode 0xf0000 / 2 ^ 16)
        (bit_and opcode 0xf) (bit_and opcode 0xf000 / 2 ^ 12)
        (not (bit_and opcode 0x20 / 2 ^ 5 == 0)) (not (bit_and opcode 0x10 / 2 ^ 4 == 0)))
    ∷ row 0xfff000e0 0xfb200000 4 (λ opcode.
      Insn.smlad_t1 (bit_and opcode 0xf00 / 2 ^ 8) (bit_and opcode 0xf0000 / 2 ^ 16)
        (bit_and opcode 0xf) (bit_and opcode 0xf000 / 2 ^ 12)
        (not (bit_and opcode 0x10 / 2 ^ 4 == 0)))
    ∷ row 0xfff000e0 0xfb300000 4 (λ opcode.
      Insn.smlawb_t1 (bit_and opcode 0xf00 / 2 ^ 8) (bit_and opcode 0xf0000 / 2 ^ 16)
        (bit_and opcode 0xf) (bit_and opcode 0xf000 / 2 ^ 12)
        (not (bit_and opcode 0x10 / 2 ^ 4 == 0)))
    ∷ row 0xfff000e0 0xfb400000 4 (λ opcode.
      Insn.smlsd_t1 (bit_and opcode 0xf00 / 2 ^ 8) (bit_and opcode 0xf0000 / 2 ^ 16)
        (bit_and opcode 0xf) (bit_and opcode 0xf000 / 2 ^ 12)
        (not (bit_and opcode 0x10 / 2 ^ 4 == 0)))
    ∷ row 0xfff000e0 0xfb500000 4 (λ opcode.
      Insn.smmla_t1 (bit_and opcode 0xf00 / 2 ^ 8) (bit_and opcode 0xf0000 / 2 ^ 16)
        (bit_and opcode 0xf) (bit_and opcode 0xf000 / 2 ^ 12)
        (not (bit_and opcode 0x10 / 2 ^ 4 == 0)))
    ∷ []

unfoldable pub rows_30 : List Row
rows_30 =
    row 0xfbd08000 0xf3000000 4 (λ opcode.
      Insn.ssat_t1 (bit_and opcode 0xf00 / 2 ^ 8) (bit_and opcode 0xf0000 / 2 ^ 16)
        (not (bit_and opcode 0x200000 / 2 ^ 21 == 0))
        (bit_or (bit_and opcode 0x7000 / 2 ^ 10) (bit_and opcode 0xc0 / 2 ^ 6))
        (bit_and opcode 0x1f))
    ∷ row 0xfe100000 0xfc000000 4 (λ opcode.
      Insn.stc2_t2 (bit_and opcode 0xf0000 / 2 ^ 16) (bit_and opcode 0xff)
        (bit_and opcode 0xf00 / 2 ^ 8) (bit_and opcode 0xf000 / 2 ^ 12)
        (not (bit_and opcode 0x1000000 / 2 ^ 24 == 0)) (not (bit_and opcode 0x400000 / 2 ^ 22 == 0))
        (not (bit_and opcode 0x800000 / 2 ^ 23 == 0)) (not (bit_and opcode 0x200000 / 2 ^ 21 == 0)))
    ∷ row 0xffd0a000 0xe9000000 4 (λ opcode.
      Insn.stmdb_t1 (bit_and opcode 0xf0000 / 2 ^ 16) (bit_and opcode 0x1fff)
        (not (bit_and opcode 0x4000 / 2 ^ 14 == 0)) (not (bit_and opcode 0x200000 / 2 ^ 21 == 0)))
    ∷ row 0xfff00800 0xf8000800 4 (λ opcode.
      Insn.strb_imm_t3 (bit_and opcode 0xf000 / 2 ^ 12) (bit_and opcode 0xf0000 / 2 ^ 16)
        (bit_and opcode 0xff) (not (bit_and opcode 0x400 / 2 ^ 10 == 0))
        (not (bit_and opcode 0x200 / 2 ^ 9 == 0)) (not (bit_and opcode 0x100 / 2 ^ 8 == 0)))
    ∷ row 0xfff00000 0xe8400000 4 (λ opcode.
      Insn.strex_t1 (bit_and opcode 0xf00 / 2 ^ 8) (bit_and opcode 0xf000 / 2 ^ 12)
        (bit_and opcode 0xf0000 / 2 ^ 16) (bit_and opcode 0xff))
    ∷ row 0xfff00800 0xf8200800 4 (λ opcode.
      Insn.strh_imm_t3 (bit_and opcode 0xf000 / 2 ^ 12) (bit_and opcode 0xf0000 / 2 ^ 16)
        (bit_and opcode 0xff) (not (bit_and opcode 0x400 / 2 ^ 10 == 0))
        (not (bit_and opcode 0x200 / 2 ^ 9 == 0)) (not (bit_and opcode 0x100 / 2 ^ 8 == 0)))
    ∷ row 0xfff00f00 0xf8400e00 4 (λ opcode.
      Insn.strt_t1 (bit_and opcode 0xf000 / 2 ^ 12) (bit_and opcode 0xf0000 / 2 ^ 16)
        (bit_and opcode 0xff))
    ∷ []

unfoldable pub rows_31 : List Row
rows_31 =
    row 0xffef8000 0xebad0000 4 (λ opcode.
      Insn.sub_spreg_t1 (bit_and opcode 0xf00 / 2 ^ 8) (bit_and opcode 0xf)
        (bit_or (bit_and opcode 0x7000 / 2 ^ 10) (bit_and opcode 0xc0 / 2 ^ 6))
        (bit_and opcode 0x30 / 2 ^ 4) (not (bit_and opcode 0x100000 / 2 ^ 20 == 0)))
    ∷ row 0xfbf08000 0xf2a00000 4 (λ opcode.
      Insn.sub_imm_t4 (bit_and opcode 0xf00 / 2 ^ 8) (bit_and opcode 0xf0000 / 2 ^ 16) (
        bit_or (bit_or (bit_and opcode 0x4000000 / 2 ^ 15) (bit_and opcode 0x7000 / 2 ^ 4))
          (bit_and opcode 0xff)))
    ∷ row 0xfff0f080 0xfa20f080 4 (λ opcode.
      Insn.sxtab16_t1 (bit_and opcode 0xf00 / 2 ^ 8) (bit_and opcode 0xf0000 / 2 ^ 16)
        (bit_and opcode 0xf) (bit_and opcode 0x30 / 2 ^ 4))
    ∷ row 0xfff0f080 0xfa40f080 4 (λ opcode.
      Insn.sxtab_t1 (bit_and opcode 0xf00 / 2 ^ 8) (bit_and opcode 0xf0000 / 2 ^ 16)
        (bit_and opcode 0xf) (bit_and opcode 0x30 / 2 ^ 4))
    ∷ row 0xfff0f080 0xfa00f080 4 (λ opcode.
      Insn.sxtah_t1 (bit_and opcode 0xf00 / 2 ^ 8) (bit_and opcode 0xf0000 / 2 ^ 16)
        (bit_and opcode 0xf) (bit_and opcode 0x30 / 2 ^ 4))
    ∷ row 0xfff0f000 0xf7f0a000 4
        (λ opcode. Insn.udf_t2 (bit_or (bit_and opcode 0xf0000 / 2 ^ 4) (bit_and opcode 0xfff)))
    ∷ row 0xfff000f0 0xfb700000 4 (λ opcode.
      Insn.usada8_t1 (bit_and opcode 0xf00 / 2 ^ 8) (bit_and opcode 0xf0000 / 2 ^ 16)
        (bit_and opcode 0xf) (bit_and opcode 0xf000 / 2 ^ 12))
    ∷ row 0xfbd08000 0xf3800000 4 (λ opcode.
      Insn.usat_t1 (bit_and opcode 0xf00 / 2 ^ 8) (bit_and opcode 0xf0000 / 2 ^ 16)
        (not (bit_and opcode 0x200000 / 2 ^ 21 == 0))
        (bit_or (bit_and opcode 0x7000 / 2 ^ 10) (bit_and opcode 0xc0 / 2 ^ 6))
        (bit_and opcode 0x1f))
    ∷ []

unfoldable pub rows_32 : List Row
rows_32 =
    row 0xfff0f080 0xfa30f080 4 (λ opcode.
      Insn.uxtab16_t1 (bit_and opcode 0xf00 / 2 ^ 8) (bit_and opcode 0xf0000 / 2 ^ 16)
        (bit_and opcode 0xf) (bit_and opcode 0x30 / 2 ^ 4))
    ∷ row 0xfff0f080 0xfa50f080 4 (λ opcode.
      Insn.uxtab_t1 (bit_and opcode 0xf00 / 2 ^ 8) (bit_and opcode 0xf0000 / 2 ^ 16)
        (bit_and opcode 0xf) (bit_and opcode 0x30 / 2 ^ 4))
    ∷ row 0xfff0f080 0xfa10f080 4 (λ opcode.
      Insn.uxtah_t1 (bit_and opcode 0xf00 / 2 ^ 8) (bit_and opcode 0xf0000 / 2 ^ 16)
        (bit_and opcode 0xf) (bit_and opcode 0x30 / 2 ^ 4))
    ∷ row 0xffbf0e50 0xeeb40a40 4 (λ opcode.
      Insn.vcmp_t1 (bit_and opcode 0xf000 / 2 ^ 12) (bit_and opcode 0xf)
        (not (bit_and opcode 0x400000 / 2 ^ 22 == 0)) (not (bit_and opcode 0x80 / 2 ^ 7 == 0))
        (not (bit_and opcode 0x20 / 2 ^ 5 == 0)) (not (bit_and opcode 0x100 / 2 ^ 8 == 0)))
    ∷ row 0xffbf0e50 0xeeb50a40 4 (λ opcode.
      Insn.vcmp_t2 (bit_and opcode 0xf000 / 2 ^ 12) (not (bit_and opcode 0x400000 / 2 ^ 22 == 0))
        (not (bit_and opcode 0x80 / 2 ^ 7 == 0)) (not (bit_and opcode 0x100 / 2 ^ 8 == 0)))
    ∷ row 0xffbc0e50 0xfebc0a40 4 (λ opcode.
      Insn.vcvt_fltint_t1 (bit_and opcode 0xf000 / 2 ^ 12) (bit_and opcode 0xf)
        (not (bit_and opcode 0x80 / 2 ^ 7 == 0)) (bit_and opcode 0x30000 / 2 ^ 16)
        (not (bit_and opcode 0x400000 / 2 ^ 22 == 0)) (not (bit_and opcode 0x20 / 2 ^ 5 == 0))
        (not (bit_and opcode 0x100 / 2 ^ 8 == 0)))
    ∷ row 0xffbc0e50 0xfebc0a40 4 (λ opcode.
      Insn.vcvta_t1 (bit_and opcode 0xf000 / 2 ^ 12) (bit_and opcode 0xf)
        (not (bit_and opcode 0x80 / 2 ^ 7 == 0)) (bit_and opcode 0x30000 / 2 ^ 16)
        (not (bit_and opcode 0x400000 / 2 ^ 22 == 0)) (not (bit_and opcode 0x20 / 2 ^ 5 == 0))
        (not (bit_and opcode 0x100 / 2 ^ 8 == 0)))
    ∷ []

unfoldable pub rows_33 : List Row
rows_33 =
    row 0xfff00f10 0xeef00a10 4 (λ opcode. Insn.vmrs_t1 (bit_and opcode 0xf000 / 2 ^ 12))
    ∷ row 0xfff00f10 0xeee00a10 4 (λ opcode. Insn.vmsr_t1 (bit_and opcode 0xf000 / 2 ^ 12))
    ∷ row 0xffbf0f00 0xecbd0b00 4 (λ opcode.
      Insn.vpop_t1 (bit_and opcode 0xf000 / 2 ^ 12) (bit_and opcode 0xff)
        (not (bit_and opcode 0x400000 / 2 ^ 22 == 0)))
    ∷ row 0xffbf0f00 0xecbd0a00 4 (λ opcode.
      Insn.vpop_t2 (bit_and opcode 0xf000 / 2 ^ 12) (bit_and opcode 0xff)
        (not (bit_and opcode 0x400000 / 2 ^ 22 == 0)))
    ∷ row 0xffbf0f00 0xed2d0b00 4 (λ opcode.
      Insn.vpush_t1 (bit_and opcode 0xf000 / 2 ^ 12) (bit_and opcode 0xff)
        (not (bit_and opcode 0x400000 / 2 ^ 22 == 0)))
    ∷ row 0xffbf0f00 0xed2d0a00 4 (λ opcode.
      Insn.vpush_t2 (bit_and opcode 0xf000 / 2 ^ 12) (bit_and opcode 0xff)
        (not (bit_and opcode 0x400000 / 2 ^ 22 == 0)))
    ∷ row 0xffbf0e50 0xeeb60a40 4 (λ opcode.
      Insn.vrintz_t1 (bit_and opcode 0xf000 / 2 ^ 12) (bit_and opcode 0xf)
        (not (bit_and opcode 0x80 / 2 ^ 7 == 0)) (not (bit_and opcode 0x400000 / 2 ^ 22 == 0))
        (not (bit_and opcode 0x20 / 2 ^ 5 == 0)) (not (bit_and opcode 0x100 / 2 ^ 8 == 0)))
    ∷ row 0xfbe08000 0xf1000000 4 (λ opcode.
      Insn.add_imm_t3 (bit_and opcode 0xf00 / 2 ^ 8) (bit_and opcode 0xf0000 / 2 ^ 16)
        (thumb_expand_imm (
          bit_or (bit_or (bit_and opcode 0x4000000 / 2 ^ 15) (bit_and opcode 0x7000 / 2 ^ 4))
            (bit_and opcode 0xff)))
        (not (bit_and opcode 0x100000 / 2 ^ 20 == 0)))
    ∷ row 0xff000000 0x44000000 2 (λ opcode.
      Insn.add_reg_t2 (bit_or (bit_and opcode 0x800000 / 2 ^ 20) (bit_and opcode 0x70000 / 2 ^ 16))
        (bit_and opcode 0x780000 / 2 ^ 19))
    ∷ []

unfoldable pub rows_34 : List Row
rows_34 =
    row 0xffe08000 0xeb000000 4 (λ opcode.
      Insn.add_reg_t3 (bit_and opcode 0xf00 / 2 ^ 8) (bit_and opcode 0xf0000 / 2 ^ 16)
        (bit_and opcode 0xf) (bit_or (bit_and opcode 0x7000 / 2 ^ 10) (bit_and opcode 0xc0 / 2 ^ 6))
        (bit_and opcode 0x30 / 2 ^ 4) (not (bit_and opcode 0x100000 / 2 ^ 20 == 0)))
    ∷ row 0xfe100000 0xfc100000 4 (λ opcode.
      Insn.ldc2_imm_t2 (bit_and opcode 0xf0000 / 2 ^ 16) (bit_and opcode 0xff)
        (bit_and opcode 0xf00 / 2 ^ 8) (bit_and opcode 0xf000 / 2 ^ 12)
        (not (bit_and opcode 0x400000 / 2 ^ 22 == 0)) (not (bit_and opcode 0x1000000 / 2 ^ 24 == 0))
        (not (bit_and opcode 0x800000 / 2 ^ 23 == 0)) (not (bit_and opcode 0x200000 / 2 ^ 21 == 0)))
    ∷ row 0xfff00fc0 0xf8500000 4 (λ opcode.
      Insn.ldr_reg_t2 (bit_and opcode 0xf000 / 2 ^ 12) (bit_and opcode 0xf0000 / 2 ^ 16)
        (bit_and opcode 0xf) (bit_and opcode 0x30 / 2 ^ 4))
    ∷ row 0xff7f0000 0xf83f0000 4 (λ opcode.
      Insn.ldrh_lit_t1 (bit_and opcode 0xf000 / 2 ^ 12) (bit_and opcode 0xfff)
        (not (bit_and opcode 0x800000 / 2 ^ 23 == 0)))
    ∷ row 0xff7f0000 0xf93f0000 4 (λ opcode.
      Insn.ldrsh_lit_t1 (bit_and opcode 0xf000 / 2 ^ 12) (bit_and opcode 0xfff)
        (not (bit_and opcode 0x800000 / 2 ^ 23 == 0)))
    ∷ row 0xffe08000 0xea400000 4 (λ opcode.
      Insn.orr_reg_t2 (bit_and opcode 0xf00 / 2 ^ 8) (bit_and opcode 0xf0000 / 2 ^ 16)
        (bit_and opcode 0xf) (bit_or (bit_and opcode 0x7000 / 2 ^ 10) (bit_and opcode 0xc0 / 2 ^ 6))
        (bit_and opcode 0x30 / 2 ^ 4) (not (bit_and opcode 0x100000 / 2 ^ 20 == 0)))
    ∷ row 0xfff0ff00 0xf810fc00 4
        (λ opcode. Insn.pld_imm_t2 (bit_and opcode 0xf0000 / 2 ^ 16) (bit_and opcode 0xff))
    ∷ row 0xfff0ff00 0xf910fc00 4
        (λ opcode. Insn.pld_immlit_t2 (bit_and opcode 0xf0000 / 2 ^ 16) (bit_and opcode 0xff))
    ∷ []

unfoldable pub rows_35 : List Row
rows_35 =
    row 0xfff0d7ff 0xf3a08004 4 (λ _. Insn.sev_t2)
    ∷ row 0xfff00800 0xf8400800 4 (λ opcode.
      Insn.str_imm_t4 (bit_and opcode 0xf000 / 2 ^ 12) (bit_and opcode 0xf0000 / 2 ^ 16)
        (bit_and opcode 0xff) (not (bit_and opcode 0x400 / 2 ^ 10 == 0))
        (not (bit_and opcode 0x200 / 2 ^ 9 == 0)) (not (bit_and opcode 0x100 / 2 ^ 8 == 0)))
    ∷ row 0xfe500000 0xe8400000 4 (λ opcode.
      Insn.strd_imm_t1 (bit_and opcode 0xf000 / 2 ^ 12) (bit_and opcode 0xf0000 / 2 ^ 16)
        (bit_and opcode 0xf00 / 2 ^ 8) (bit_and opcode 0xff)
        (not (bit_and opcode 0x1000000 / 2 ^ 24 == 0)) (not (bit_and opcode 0x800000 / 2 ^ 23 == 0))
        (not (bit_and opcode 0x200000 / 2 ^ 21 == 0)))
    ∷ row 0xffe08000 0xeba00000 4 (λ opcode.
      Insn.sub_reg_t2 (bit_and opcode 0xf00 / 2 ^ 8) (bit_and opcode 0xf0000 / 2 ^ 16)
        (bit_and opcode 0xf) (bit_or (bit_and opcode 0x7000 / 2 ^ 10) (bit_and opcode 0xc0 / 2 ^ 6))
        (bit_and opcode 0x30 / 2 ^ 4) (not (bit_and opcode 0x100000 / 2 ^ 20 == 0)))
    ∷ row 0xfff000e0 0xe8d00000 4 (λ opcode.
      Insn.tbb_t1 (bit_and opcode 0xf0000 / 2 ^ 16) (bit_and opcode 0xf)
        (not (bit_and opcode 0x10 / 2 ^ 4 == 0)))
    ∷ row 0xffbe0e50 0xeeb20a40 4 (λ opcode.
      Insn.vcvtb_t1 (bit_and opcode 0xf000 / 2 ^ 12) (bit_and opcode 0xf)
        (not (bit_and opcode 0x10000 / 2 ^ 16 == 0)) (not (bit_and opcode 0x400000 / 2 ^ 22 == 0))
        (not (bit_and opcode 0x20 / 2 ^ 5 == 0)) (not (bit_and opcode 0x80 / 2 ^ 7 == 0))
        (not (bit_and opcode 0x100 / 2 ^ 8 == 0)))
    ∷ row 0xff300f00 0xed100b00 4 (λ opcode.
      Insn.vldr_t1 (bit_and opcode 0xf0000 / 2 ^ 16) (bit_and opcode 0xf000 / 2 ^ 12)
        (bit_and opcode 0xff) (not (bit_and opcode 0x400000 / 2 ^ 22 == 0))
        (not (bit_and opcode 0x800000 / 2 ^ 23 == 0)))
    ∷ []
