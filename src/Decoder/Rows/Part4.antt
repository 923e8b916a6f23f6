-- ===== src/Decoder/Rows/Part4.antt =====
-- decoder.c, `decode_insn`, lines 3079 to 4068: each branch of its chain of tests as a row.
use libthumb2sim.Base.{◌/◌, ◌^◌, not, List, [], ◌∷◌, ◌==◌, bit_and, bit_or}
use libthumb2sim.Decoder.Imm.{thumb_expand_imm}
use libthumb2sim.Decoder.Insn.{Insn}
use libthumb2sim.Decoder.Row.{Row, row}

unfoldable pub rows_22 : List Row
rows_22 =
    row 0xfff000f0 0xe8c00050 4 (λ opcode.
      Insn.strexh_t1 (bit_and opcode 0xf) (bit_and opcode 0xf000 / 2 ^ 12)
        (bit_and opcode 0xf0000 / 2 ^ 16))
    ∷ row 0xfff00f00 0xf8200e00 4 (λ opcode.
      Insn.strht_t1 (bit_and opcode 0xf000 / 2 ^ 12) (bit_and opcode 0xf0000 / 2 ^ 16)
        (bit_and opcode 0xff))
    ∷ row 0xfbff8000 0xf2ad0000 4 (λ opcode. Insn.sub_spimm_t3 (bit_and opcode 0xf00 / 2 ^ 8) (
        bit_or (bit_or (bit_and opcode 0x4000000 / 2 ^ 15) (bit_and opcode 0x7000 / 2 ^ 4))
          (bit_and opcode 0xff)))
    ∷ row 0xff000000 0xdf000000 2 (λ opcode. Insn.svc_t1 (bit_and opcode 0xff0000 / 2 ^ 16))
    ∷ row 0xfffff0c0 0xfa2ff080 4 (λ opcode.
      Insn.sxtb16_t1 (bit_and opcode 0xf00 / 2 ^ 8) (bit_and opcode 0xf)
        (bit_and opcode 0x30 / 2 ^ 4))
    ∷ row 0xfffff0c0 0xfa4ff080 4 (λ opcode.
      Insn.sxtb_t2 (bit_and opcode 0xf00 / 2 ^ 8) (bit_and opcode 0xf)
        (bit_and opcode 0x30 / 2 ^ 4))
    ∷ row 0xfffff0c0 0xfa0ff080 4 (λ opcode.
      Insn.sxth_t2 (bit_and opcode 0xf00 / 2 ^ 8) (bit_and opcode 0xf)
        (bit_and opcode 0x30 / 2 ^ 4))
    ∷ row 0xfbf08f00 0xf0900f00 4 (λ opcode. Insn.teq_imm_t1 (bit_and opcode 0xf0000 / 2 ^ 16) (
        bit_or (bit_or (bit_and opcode 0x4000000 / 2 ^ 15) (bit_and opcode 0x7000 / 2 ^ 4))
          (bit_and opcode 0xff)))
    ∷ row 0xfff00f00 0xea900f00 4 (λ opcode.
      Insn.teq_reg_t1 (bit_and opcode 0xf0000 / 2 ^ 16) (bit_and opcode 0xf)
        (bit_or (bit_and opcode 0x7000 / 2 ^ 10) (bit_and opcode 0xc0 / 2 ^ 6))
        (bit_and opcode 0x30 / 2 ^ 4))
    ∷ []

unfoldable pub rows_23 : List Row
rows_23 =
    row 0xfbf08f00 0xf0100f00 4 (λ opcode. Insn.tst_imm_t1 (bit_and opcode 0xf0000 / 2 ^ 16) (
      thumb_expand_imm (
        bit_or (bit_or (bit_and opcode 0x4000000 / 2 ^ 15) (bit_and opcode 0x7000 / 2 ^ 4))
          (bit_and opcode 0xff))))
    ∷ row 0xfff08f00 0xea100f00 4 (λ opcode.
      Insn.tst_reg_t2 (bit_and opcode 0xf0000 / 2 ^ 16) (bit_and opcode 0xf)
        (bit_or (bit_and opcode 0x7000 / 2 ^ 10) (bit_and opcode 0xc0 / 2 ^ 6))
        (bit_and opcode 0x30 / 2 ^ 4))
    ∷ row 0xff000000 0xde000000 2 (λ opcode. Insn.udf_t1 (bit_and opcode 0xff0000 / 2 ^ 16))
    ∷ row 0xfff0f0f0 0xfb70f000 4 (λ opcode.
      Insn.usad8_t1 (bit_and opcode 0xf00 / 2 ^ 8) (bit_and opcode 0xf0000 / 2 ^ 16)
        (bit_and opcode 0xf))
    ∷ row 0xfbf0f0c0 0xf3a00000 4 (λ opcode.
      Insn.usat16_t1 (bit_and opcode 0xf00 / 2 ^ 8) (bit_and opcode 0xf0000 / 2 ^ 16)
        (bit_and opcode 0xf))
    ∷ row 0xfffff0c0 0xfa3ff080 4 (λ opcode.
      Insn.uxtb16_t1 (bit_and opcode 0xf00 / 2 ^ 8) (bit_and opcode 0xf)
        (bit_and opcode 0x30 / 2 ^ 4))
    ∷ row 0xfffff0c0 0xfa5ff080 4 (λ opcode.
      Insn.uxtb_t2 (bit_and opcode 0xf00 / 2 ^ 8) (bit_and opcode 0xf)
        (bit_and opcode 0x30 / 2 ^ 4))
    ∷ row 0xfffff0c0 0xfa1ff080 4 (λ opcode.
      Insn.uxth_t2 (bit_and opcode 0xf00 / 2 ^ 8) (bit_and opcode 0xf)
        (bit_and opcode 0x30 / 2 ^ 4))
    ∷ row 0xffbf0ed0 0xeeb00ac0 4 (λ opcode.
      Insn.vabs_t1 (bit_and opcode 0xf000 / 2 ^ 12) (bit_and opcode 0xf)
        (not (bit_and opcode 0x400000 / 2 ^ 22 == 0)) (not (bit_and opcode 0x20 / 2 ^ 5 == 0))
        (not (bit_and opcode 0x100 / 2 ^ 8 == 0)))
    ∷ []

unfoldable pub rows_24 : List Row
rows_24 =
    row 0xffbf0ed0 0xeeb70ac0 4 (λ opcode.
      Insn.vcvt_dpsp_t1 (bit_and opcode 0xf000 / 2 ^ 12) (bit_and opcode 0xf)
        (not (bit_and opcode 0x400000 / 2 ^ 22 == 0)) (not (bit_and opcode 0x20 / 2 ^ 5 == 0))
        (not (bit_and opcode 0x100 / 2 ^ 8 == 0)))
    ∷ row 0xffe00fd0 0xec400a10 4 (λ opcode.
      Insn.vmov_2arm2sp_t1 (bit_and opcode 0xf000 / 2 ^ 12) (bit_and opcode 0xf0000 / 2 ^ 16)
        (bit_and opcode 0xf) (not (bit_and opcode 0x100000 / 2 ^ 20 == 0))
        (not (bit_and opcode 0x20 / 2 ^ 5 == 0)))
    ∷ row 0xffe00fd0 0xec400b10 4 (λ opcode.
      Insn.vmov_2armdw_t1 (bit_and opcode 0xf000 / 2 ^ 12) (bit_and opcode 0xf0000 / 2 ^ 16)
        (bit_and opcode 0xf) (not (bit_and opcode 0x100000 / 2 ^ 20 == 0))
        (not (bit_and opcode 0x20 / 2 ^ 5 == 0)))
    ∷ row 0xffd00f70 0xee000b10 4 (λ opcode.
      Insn.vmov_armscl_t1 (bit_and opcode 0xf000 / 2 ^ 12) (bit_and opcode 0xf0000 / 2 ^ 16)
        (not (bit_and opcode 0x200000 / 2 ^ 21 == 0)) (not (bit_and opcode 0x80 / 2 ^ 7 == 0)))
    ∷ row 0xffbf0ed0 0xeeb00a40 4 (λ opcode.
      Insn.vmov_reg_t1 (bit_and opcode 0xf000 / 2 ^ 12) (bit_and opcode 0xf)
        (not (bit_and opcode 0x400000 / 2 ^ 22 == 0)) (not (bit_and opcode 0x20 / 2 ^ 5 == 0))
        (not (bit_and opcode 0x100 / 2 ^ 8 == 0)))
    ∷ row 0xffd00f70 0xee100b10 4 (λ opcode.
      Insn.vmov_sclarm_t1 (bit_and opcode 0xf000 / 2 ^ 12) (bit_and opcode 0xf0000 / 2 ^ 16)
        (not (bit_and opcode 0x200000 / 2 ^ 21 == 0)) (not (bit_and opcode 0x80 / 2 ^ 7 == 0)))
    ∷ row 0xffbf0ed0 0xeeb10a40 4 (λ opcode.
      Insn.vneg_t1 (bit_and opcode 0xf000 / 2 ^ 12) (bit_and opcode 0xf)
        (not (bit_and opcode 0x400000 / 2 ^ 22 == 0)) (not (bit_and opcode 0x20 / 2 ^ 5 == 0))
        (not (bit_and opcode 0x100 / 2 ^ 8 == 0)))
    ∷ []

unfoldable pub rows_25 : List Row
rows_25 =
    row 0xffbc0ed0 0xfeb80a40 4 (λ opcode.
      Insn.vrinta_t1 (bit_and opcode 0xf000 / 2 ^ 12) (bit_and opcode 0xf)
        (bit_and opcode 0x30000 / 2 ^ 16) (not (bit_and opcode 0x400000 / 2 ^ 22 == 0))
        (not (bit_and opcode 0x20 / 2 ^ 5 == 0)) (not (bit_and opcode 0x100 / 2 ^ 8 == 0)))
    ∷ row 0xffbf0ed0 0xeeb70a40 4 (λ opcode.
      Insn.vrintx_t1 (bit_and opcode 0xf000 / 2 ^ 12) (bit_and opcode 0xf)
        (not (bit_and opcode 0x400000 / 2 ^ 22 == 0)) (not (bit_and opcode 0x20 / 2 ^ 5 == 0))
        (not (bit_and opcode 0x100 / 2 ^ 8 == 0)))
    ∷ row 0xffbf0ed0 0xeeb10ac0 4 (λ opcode.
      Insn.vsqrt_t1 (bit_and opcode 0xf000 / 2 ^ 12) (bit_and opcode 0xf)
        (not (bit_and opcode 0x400000 / 2 ^ 22 == 0)) (not (bit_and opcode 0x20 / 2 ^ 5 == 0))
        (not (bit_and opcode 0x100 / 2 ^ 8 == 0)))
    ∷ row 0xffff0000 0xbf200000 2 (λ _. Insn.wfe_t1)
    ∷ row 0xffff0000 0xbf300000 2 (λ _. Insn.wfi_t1)
    ∷ row 0xffff0000 0xbf100000 2 (λ _. Insn.yield_t1)
    ∷ row 0xfbef8000 0xf10d0000 4 (λ opcode.
      Insn.add_spi_t3 (bit_and opcode 0xf00 / 2 ^ 8)
        (thumb_expand_imm (
          bit_or (bit_or (bit_and opcode 0x4000000 / 2 ^ 15) (bit_and opcode 0x7000 / 2 ^ 4))
            (bit_and opcode 0xff)))
        (not (bit_and opcode 0x100000 / 2 ^ 20 == 0)))
    ∷ row 0xff780000 0x44680000 2 (λ opcode.
      Insn.add_spr_t1 (bit_or (bit_and opcode 0x800000 / 2 ^ 20) (bit_and opcode 0x70000 / 2 ^ 16)))
    ∷ row 0xffef8000 0xeb0d0000 4 (λ opcode.
      Insn.add_spr_t3 (bit_and opcode 0xf00 / 2 ^ 8) (bit_and opcode 0xf)
        (bit_or (bit_and opcode 0x7000 / 2 ^ 10) (bit_and opcode 0xc0 / 2 ^ 6))
        (bit_and opcode 0x30 / 2 ^ 4) (not (bit_and opcode 0x100000 / 2 ^ 20 == 0)))
    ∷ []

unfoldable pub rows_26 : List Row
rows_26 =
    row 0xfbf08000 0xf2000000 4 (λ opcode.
      Insn.add_imm_t4 (bit_and opcode 0xf00 / 2 ^ 8) (bit_and opcode 0xf0000 / 2 ^ 16) (
        bit_or (bit_or (bit_and opcode 0x4000000 / 2 ^ 15) (bit_and opcode 0x7000 / 2 ^ 4))
          (bit_and opcode 0xff)))
    ∷ row 0xfbe08000 0xf0000000 4 (λ opcode.
      Insn.and_imm_t1 (bit_and opcode 0xf00 / 2 ^ 8) (bit_and opcode 0xf0000 / 2 ^ 16)
        (thumb_expand_imm (
          bit_or (bit_or (bit_and opcode 0x4000000 / 2 ^ 15) (bit_and opcode 0x7000 / 2 ^ 4))
            (bit_and opcode 0xff)))
        (not (bit_and opcode 0x100000 / 2 ^ 20 == 0)))
    ∷ row 0xffe08000 0xea000000 4 (λ opcode.
      Insn.and_reg_t2 (bit_and opcode 0xf00 / 2 ^ 8) (bit_and opcode 0xf0000 / 2 ^ 16)
        (bit_and opcode 0xf) (bit_or (bit_and opcode 0x7000 / 2 ^ 10) (bit_and opcode 0xc0 / 2 ^ 6))
        (bit_and opcode 0x30 / 2 ^ 4) (not (bit_and opcode 0x100000 / 2 ^ 20 == 0)))
    ∷ row 0xffef8030 0xea4f0020 4 (λ opcode.
      Insn.asr_imm_t2 (bit_and opcode 0xf00 / 2 ^ 8) (bit_and opcode 0xf)
        (bit_or (bit_and opcode 0x7000 / 2 ^ 10) (bit_and opcode 0xc0 / 2 ^ 6))
        (not (bit_and opcode 0x100000 / 2 ^ 20 == 0)))
    ∷ row 0xf0000000 0xd0000000 2
        (λ opcode. Insn.b_t1 (bit_and opcode 0xff0000 / 2 ^ 16) (bit_and opcode 0xf000000 / 2 ^ 24))
    ∷ row 0xfbf08000 0xf3600000 4 (λ opcode.
      Insn.bfi_t1 (bit_and opcode 0xf00 / 2 ^ 8) (bit_and opcode 0xf0000 / 2 ^ 16)
        (bit_or (bit_and opcode 0x7000 / 2 ^ 10) (bit_and opcode 0xc0 / 2 ^ 6))
        (bit_and opcode 0x1f))
    ∷ row 0xfbe08000 0xf0800000 4 (λ opcode.
      Insn.eor_imm_t1 (bit_and opcode 0xf00 / 2 ^ 8) (bit_and opcode 0xf0000 / 2 ^ 16)
        (thumb_expand_imm (
          bit_or (bit_or (bit_and opcode 0x4000000 / 2 ^ 15) (bit_and opcode 0x7000 / 2 ^ 4))
            (bit_and opcode 0xff)))
        (not (bit_and opcode 0x100000 / 2 ^ 20 == 0)))
    ∷ row 0xffe08000 0xea800000 4 (λ opcode.
      Insn.eor_reg_t2 (bit_and opcode 0xf00 / 2 ^ 8) (bit_and opcode 0xf0000 / 2 ^ 16)
        (bit_and opcode 0xf) (bit_or (bit_and opcode 0x7000 / 2 ^ 10) (bit_and opcode 0xc0 / 2 ^ 6))
        (bit_and opcode 0x30 / 2 ^ 4) (not (bit_and opcode 0x100000 / 2 ^ 20 == 0)))
    ∷ []

unfoldable pub rows_27 : List Row
rows_27 =
    row 0xff000000 0xbf000000 2
      (λ opcode. Insn.it_t1 (bit_and opcode 0xf00000 / 2 ^ 20) (bit_and opcode 0xf0000 / 2 ^ 16))
    ∷ row 0xfe1f0000 0xfc1f0000 4 (λ opcode.
      Insn.ldc2_lit_t2 (bit_and opcode 0xff) (bit_and opcode 0xf00 / 2 ^ 8)
        (bit_and opcode 0xf000 / 2 ^ 12) (not (bit_and opcode 0x400000 / 2 ^ 22 == 0))
        (not (bit_and opcode 0x1000000 / 2 ^ 24 == 0)) (not (bit_and opcode 0x800000 / 2 ^ 23 == 0))
        (not (bit_and opcode 0x200000 / 2 ^ 21 == 0)))
    ∷ row 0xffd02000 0xe8900000 4 (λ opcode.
      Insn.ldm_t2 (bit_and opcode 0xf0000 / 2 ^ 16) (bit_and opcode 0x1fff)
        (not (bit_and opcode 0x8000 / 2 ^ 15 == 0)) (not (bit_and opcode 0x4000 / 2 ^ 14 == 0))
        (not (bit_and opcode 0x200000 / 2 ^ 21 == 0)))
    ∷ row 0xff7f0000 0xf85f0000 4 (λ opcode.
      Insn.ldr_lit_t2 (bit_and opcode 0xf000 / 2 ^ 12) (bit_and opcode 0xfff)
        (not (bit_and opcode 0x800000 / 2 ^ 23 == 0)))
    ∷ row 0xfff00f00 0xe8500f00 4 (λ opcode.
      Insn.ldrex_t1 (bit_and opcode 0xf000 / 2 ^ 12) (bit_and opcode 0xf0000 / 2 ^ 16)
        (bit_and opcode 0xff))
    ∷ row 0xfff00f00 0xf8300e00 4 (λ opcode.
      Insn.ldrht_t1 (bit_and opcode 0xf000 / 2 ^ 12) (bit_and opcode 0xf0000 / 2 ^ 16)
        (bit_and opcode 0xff))
    ∷ row 0xff7f0000 0xf91f0000 4 (λ opcode.
      Insn.ldrsb_lit_t1 (bit_and opcode 0xf000 / 2 ^ 12) (bit_and opcode 0xfff)
        (not (bit_and opcode 0x800000 / 2 ^ 23 == 0)))
    ∷ row 0xfff00800 0xf9300800 4 (λ opcode.
      Insn.ldrsh_imm_t2 (bit_and opcode 0xf000 / 2 ^ 12) (bit_and opcode 0xf0000 / 2 ^ 16)
        (bit_and opcode 0xff) (not (bit_and opcode 0x400 / 2 ^ 10 == 0))
        (not (bit_and opcode 0x200 / 2 ^ 9 == 0)) (not (bit_and opcode 0x100 / 2 ^ 8 == 0)))
    ∷ []

unfoldable pub rows_28 : List Row
rows_28 =
    row 0xf8000000 0x0 2 (λ opcode.
      Insn.lsl_imm_t1 (bit_and opcode 0x70000 / 2 ^ 16) (bit_and opcode 0x380000 / 2 ^ 19)
        (bit_and opcode 0x7c00000 / 2 ^ 22))
    ∷ row 0xffef8030 0xea4f0000 4 (λ opcode.
      Insn.lsl_imm_t2 (bit_and opcode 0xf00 / 2 ^ 8) (bit_and opcode 0xf)
        (bit_or (bit_and opcode 0x7000 / 2 ^ 10) (bit_and opcode 0xc0 / 2 ^ 6))
        (not (bit_and opcode 0x100000 / 2 ^ 20 == 0)))
    ∷ row 0xffef8030 0xea4f0010 4 (λ opcode.
      Insn.lsr_imm_t2 (bit_and opcode 0xf00 / 2 ^ 8) (bit_and opcode 0xf)
        (bit_or (bit_and opcode 0x7000 / 2 ^ 10) (bit_and opcode 0xc0 / 2 ^ 6))
        (not (bit_and opcode 0x100000 / 2 ^ 20 == 0)))
    ∷ row 0xfff000f0 0xfb000000 4 (λ opcode.
      Insn.mla_t1 (bit_and opcode 0xf00 / 2 ^ 8) (bit_and opcode 0xf0000 / 2 ^ 16)
        (bit_and opcode 0xf) (bit_and opcode 0xf000 / 2 ^ 12))
    ∷ row 0xfbf08000 0xf2400000 4 (λ opcode. Insn.mov_imm_t3 (bit_and opcode 0xf00 / 2 ^ 8) (
        bit_or (bit_or (bit_and opcode 0x4000000 / 2 ^ 15) (bit_and opcode 0xf7000 / 2 ^ 4))
          (bit_and opcode 0xff)))
    ∷ row 0xfbe08000 0xf0600000 4 (λ opcode.
      Insn.orn_imm_t1 (bit_and opcode 0xf00 / 2 ^ 8) (bit_and opcode 0xf0000 / 2 ^ 16)
        (bit_or (bit_or (bit_and opcode 0x4000000 / 2 ^ 15) (bit_and opcode 0x7000 / 2 ^ 4))
          (bit_and opcode 0xff))
        (not (bit_and opcode 0x100000 / 2 ^ 20 == 0)))
    ∷ row 0xffe08000 0xea600000 4 (λ opcode.
      Insn.orn_reg_t1 (bit_and opcode 0xf00 / 2 ^ 8) (bit_and opcode 0xf0000 / 2 ^ 16)
        (bit_and opcode 0xf) (bit_or (bit_and opcode 0x7000 / 2 ^ 10) (bit_and opcode 0xc0 / 2 ^ 6))
        (bit_and opcode 0x30 / 2 ^ 4) (not (bit_and opcode 0x100000 / 2 ^ 20 == 0)))
    ∷ row 0xfbe08000 0xf0400000 4 (λ opcode.
      Insn.orr_imm_t1 (bit_and opcode 0xf00 / 2 ^ 8) (bit_and opcode 0xf0000 / 2 ^ 16)
        (thumb_expand_imm (
          bit_or (bit_or (bit_and opcode 0x4000000 / 2 ^ 15) (bit_and opcode 0x7000 / 2 ^ 4))
            (bit_and opcode 0xff)))
        (not (bit_and opcode 0x100000 / 2 ^ 20 == 0)))
    ∷ []
