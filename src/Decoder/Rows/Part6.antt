-- ===== src/Decoder/Rows/Part6.antt =====
-- decoder.c, `decode_insn`, lines 5057 to 6068: each branch of its chain of tests as a row.
use libthumb2sim.Base.{◌*◌, ◌/◌, ◌^◌, not, List, [], ◌∷◌, ◌==◌, bit_and, bit_or}
use libthumb2sim.Decoder.Insn.{Insn}
use libthumb2sim.Decoder.Row.{Row, row}

unfoldable pub rows_36 : List Row
rows_36 =
    row 0xff300f00 0xed100a00 4 (λ opcode.
      Insn.vldr_t2 (bit_and opcode 0xf0000 / 2 ^ 16) (bit_and opcode 0xf000 / 2 ^ 12)
        (bit_and opcode 0xff) (not (bit_and opcode 0x400000 / 2 ^ 22 == 0))
        (not (bit_and opcode 0x800000 / 2 ^ 23 == 0)))
    ∷ row 0xffb00e10 0xfe800a00 4 (λ opcode.
      Insn.vmaxnm_t1 (bit_and opcode 0xf000 / 2 ^ 12) (bit_and opcode 0xf0000 / 2 ^ 16)
        (bit_and opcode 0xf) (not (bit_and opcode 0x40 / 2 ^ 6 == 0))
        (not (bit_and opcode 0x400000 / 2 ^ 22 == 0)) (not (bit_and opcode 0x80 / 2 ^ 7 == 0))
        (not (bit_and opcode 0x20 / 2 ^ 5 == 0)) (not (bit_and opcode 0x100 / 2 ^ 8 == 0)))
    ∷ row 0xffe00f10 0xee000a10 4 (λ opcode.
      Insn.vmov_armsp_t1 (bit_and opcode 0xf000 / 2 ^ 12) (bit_and opcode 0xf0000 / 2 ^ 16)
        (not (bit_and opcode 0x100000 / 2 ^ 20 == 0)) (not (bit_and opcode 0x80 / 2 ^ 7 == 0)))
    ∷ row 0xff300f00 0xed000b00 4 (λ opcode.
      Insn.vstr_t1 (bit_and opcode 0xf0000 / 2 ^ 16) (bit_and opcode 0xf000 / 2 ^ 12)
        (bit_and opcode 0xff) (not (bit_and opcode 0x400000 / 2 ^ 22 == 0))
        (not (bit_and opcode 0x800000 / 2 ^ 23 == 0)))
    ∷ row 0xff300f00 0xed000a00 4 (λ opcode.
      Insn.vstr_t2 (bit_and opcode 0xf0000 / 2 ^ 16) (bit_and opcode 0xf000 / 2 ^ 12)
        (bit_and opcode 0xff) (not (bit_and opcode 0x400000 / 2 ^ 22 == 0))
        (not (bit_and opcode 0x800000 / 2 ^ 23 == 0)))
    ∷ row 0xfff0d7ff 0xf3a08002 4 (λ _. Insn.wfe_t2)
    ∷ row 0xfff0d7ff 0xf3a08003 4 (λ _. Insn.wfi_t2)
    ∷ row 0xfff0d7ff 0xf3a08001 4 (λ _. Insn.yield_t2)
    ∷ row 0xfff0d7f0 0xf3a080f0 4 (λ opcode. Insn.dbg_t1 (bit_and opcode 0xf))
    ∷ []

unfoldable pub rows_37 : List Row
rows_37 =
    row 0xfe5f0000 0xe85f0000 4 (λ opcode.
      Insn.ldrd_lit_t1 (bit_and opcode 0xf000 / 2 ^ 12) (bit_and opcode 0xf00 / 2 ^ 8)
        (bit_and opcode 0xff) (not (bit_and opcode 0x1000000 / 2 ^ 24 == 0))
        (not (bit_and opcode 0x800000 / 2 ^ 23 == 0)) (not (bit_and opcode 0x200000 / 2 ^ 21 == 0)))
    ∷ row 0xfff00800 0xf8300800 4 (λ opcode.
      Insn.ldrh_imm_t3 (bit_and opcode 0xf000 / 2 ^ 12) (bit_and opcode 0xf0000 / 2 ^ 16)
        (bit_and opcode 0xff) (not (bit_and opcode 0x400 / 2 ^ 10 == 0))
        (not (bit_and opcode 0x200 / 2 ^ 9 == 0)) (not (bit_and opcode 0x100 / 2 ^ 8 == 0)))
    ∷ row 0xfff00000 0xf9b00000 4 (λ opcode.
      Insn.ldrsh_imm_t1 (bit_and opcode 0xf000 / 2 ^ 12) (bit_and opcode 0xf0000 / 2 ^ 16)
        (bit_and opcode 0xfff))
    ∷ row 0xfff00f00 0xf8500e00 4 (λ opcode.
      Insn.ldrt_t1 (bit_and opcode 0xf000 / 2 ^ 12) (bit_and opcode 0xf0000 / 2 ^ 16)
        (bit_and opcode 0xff))
    ∷ row 0xff100010 0xee000010 4 (λ opcode.
      Insn.mcr_t1 (bit_and opcode 0xf000 / 2 ^ 12) (bit_and opcode 0xf00 / 2 ^ 8)
        (bit_and opcode 0xf0000 / 2 ^ 16) (bit_and opcode 0xf) (bit_and opcode 0xe00000 / 2 ^ 21)
        (bit_and opcode 0xe0 / 2 ^ 5))
    ∷ row 0xff100010 0xee100010 4 (λ opcode.
      Insn.mrc_t1 (bit_and opcode 0xf000 / 2 ^ 12) (bit_and opcode 0xf00 / 2 ^ 8)
        (bit_and opcode 0xf0000 / 2 ^ 16) (bit_and opcode 0xf) (bit_and opcode 0xe00000 / 2 ^ 21)
        (bit_and opcode 0xe0 / 2 ^ 5))
    ∷ row 0xfff0f000 0xf890f000 4
        (λ opcode. Insn.pld_imm_t1 (bit_and opcode 0xf0000 / 2 ^ 16) (bit_and opcode 0xfff))
    ∷ row 0xfff0f000 0xf990f000 4
        (λ opcode. Insn.pld_immlit_t1 (bit_and opcode 0xf0000 / 2 ^ 16) (bit_and opcode 0xfff))
    ∷ []

unfoldable pub rows_38 : List Row
rows_38 =
    row 0xffba0e50 0xeeba0a40 4 (λ opcode.
      Insn.vcvt_fltfpt_t1 (bit_and opcode 0xf000 / 2 ^ 12)
        (bit_or (bit_and opcode 0x20 / 2 ^ 5) (bit_and opcode 0xf * 2 ^ 1))
        (not (bit_and opcode 0x40000 / 2 ^ 18 == 0)) (not (bit_and opcode 0x400000 / 2 ^ 22 == 0))
        (not (bit_and opcode 0x10000 / 2 ^ 16 == 0)) (not (bit_and opcode 0x100 / 2 ^ 8 == 0))
        (not (bit_and opcode 0x80 / 2 ^ 7 == 0)))
    ∷ row 0xfe100f00 0xec100b00 4 (λ opcode.
      Insn.vldm_t1 (bit_and opcode 0xf0000 / 2 ^ 16) (bit_and opcode 0xf000 / 2 ^ 12)
        (bit_and opcode 0xff) (not (bit_and opcode 0x400000 / 2 ^ 22 == 0))
        (not (bit_and opcode 0x1000000 / 2 ^ 24 == 0)) (not (bit_and opcode 0x800000 / 2 ^ 23 == 0))
        (not (bit_and opcode 0x200000 / 2 ^ 21 == 0)))
    ∷ row 0xfe100f00 0xec100a00 4 (λ opcode.
      Insn.vldm_t2 (bit_and opcode 0xf0000 / 2 ^ 16) (bit_and opcode 0xf000 / 2 ^ 12)
        (bit_and opcode 0xff) (not (bit_and opcode 0x400000 / 2 ^ 22 == 0))
        (not (bit_and opcode 0x1000000 / 2 ^ 24 == 0)) (not (bit_and opcode 0x800000 / 2 ^ 23 == 0))
        (not (bit_and opcode 0x200000 / 2 ^ 21 == 0)))
    ∷ row 0xff800e50 0xfe000a00 4 (λ opcode.
      Insn.vsel_t1 (bit_and opcode 0xf000 / 2 ^ 12) (bit_and opcode 0xf0000 / 2 ^ 16)
        (bit_and opcode 0xf) (bit_and opcode 0x300000 / 2 ^ 20)
        (not (bit_and opcode 0x400000 / 2 ^ 22 == 0)) (not (bit_and opcode 0x80 / 2 ^ 7 == 0))
        (not (bit_and opcode 0x20 / 2 ^ 5 == 0)) (not (bit_and opcode 0x100 / 2 ^ 8 == 0)))
    ∷ row 0xfe100f00 0xec000b00 4 (λ opcode.
      Insn.vstm_t1 (bit_and opcode 0xf0000 / 2 ^ 16) (bit_and opcode 0xf000 / 2 ^ 12)
        (bit_and opcode 0xff) (not (bit_and opcode 0x400000 / 2 ^ 22 == 0))
        (not (bit_and opcode 0x1000000 / 2 ^ 24 == 0)) (not (bit_and opcode 0x800000 / 2 ^ 23 == 0))
        (not (bit_and opcode 0x200000 / 2 ^ 21 == 0)))
    ∷ row 0xfe100f00 0xec000a00 4 (λ opcode.
      Insn.vstm_t2 (bit_and opcode 0xf0000 / 2 ^ 16) (bit_and opcode 0xf000 / 2 ^ 12)
        (bit_and opcode 0xff) (not (bit_and opcode 0x400000 / 2 ^ 22 == 0))
        (not (bit_and opcode 0x1000000 / 2 ^ 24 == 0)) (not (bit_and opcode 0x800000 / 2 ^ 23 == 0))
        (not (bit_and opcode 0x200000 / 2 ^ 21 == 0)))
    ∷ []

unfoldable pub rows_39 : List Row
rows_39 =
    row 0xff000010 0xfe000000 4 (λ opcode.
      Insn.cdp2_t2 (bit_and opcode 0xf00 / 2 ^ 8) (bit_and opcode 0xf000 / 2 ^ 12)
        (bit_and opcode 0xf0000 / 2 ^ 16) (bit_and opcode 0xf) (bit_and opcode 0xf00000 / 2 ^ 20)
        (bit_and opcode 0xe0 / 2 ^ 5))
    ∷ row 0xfff0d0f0 0xf3b08020 4 (λ _. Insn.clrex_t1)
    ∷ row 0xfff0d0f0 0xf3b08050 4 (λ opcode. Insn.dmb_t1 (bit_and opcode 0xf))
    ∷ row 0xfff0d0f0 0xf3b08040 4 (λ opcode. Insn.dsb_t1 (bit_and opcode 0xf))
    ∷ row 0xfff0d0f0 0xf3b08060 4 (λ opcode. Insn.isb_t1 (bit_and opcode 0xf))
    ∷ row 0xfe1f0000 0xec1f0000 4 (λ opcode.
      Insn.ldc_lit_t1 (bit_and opcode 0xff) (bit_and opcode 0xf00 / 2 ^ 8)
        (bit_and opcode 0xf000 / 2 ^ 12) (not (bit_and opcode 0x400000 / 2 ^ 22 == 0))
        (not (bit_and opcode 0x1000000 / 2 ^ 24 == 0)) (not (bit_and opcode 0x800000 / 2 ^ 23 == 0))
        (not (bit_and opcode 0x200000 / 2 ^ 21 == 0)))
    ∷ row 0xfff00800 0xf8500800 4 (λ opcode.
      Insn.ldr_imm_t4 (bit_and opcode 0xf000 / 2 ^ 12) (bit_and opcode 0xf0000 / 2 ^ 16)
        (bit_and opcode 0xff) (not (bit_and opcode 0x400 / 2 ^ 10 == 0))
        (not (bit_and opcode 0x200 / 2 ^ 9 == 0)) (not (bit_and opcode 0x100 / 2 ^ 8 == 0)))
    ∷ row 0xfff00fc0 0xf8100000 4 (λ opcode.
      Insn.ldrb_reg_t2 (bit_and opcode 0xf000 / 2 ^ 12) (bit_and opcode 0xf0000 / 2 ^ 16)
        (bit_and opcode 0xf) (bit_and opcode 0x30 / 2 ^ 4))
    ∷ []

unfoldable pub rows_40 : List Row
rows_40 =
    row 0xfe500000 0xe8500000 4 (λ opcode.
      Insn.ldrd_imm_t1 (bit_and opcode 0xf000 / 2 ^ 12) (bit_and opcode 0xf0000 / 2 ^ 16)
        (bit_and opcode 0xf00 / 2 ^ 8) (bit_and opcode 0xff)
        (not (bit_and opcode 0x1000000 / 2 ^ 24 == 0)) (not (bit_and opcode 0x800000 / 2 ^ 23 == 0))
        (not (bit_and opcode 0x200000 / 2 ^ 21 == 0)))
    ∷ row 0xfff00000 0xf8b00000 4 (λ opcode.
      Insn.ldrh_imm_t2 (bit_and opcode 0xf000 / 2 ^ 12) (bit_and opcode 0xf0000 / 2 ^ 16)
        (bit_and opcode 0xfff))
    ∷ row 0xfff00fc0 0xf9100000 4 (λ opcode.
      Insn.ldrsb_reg_t2 (bit_and opcode 0xf000 / 2 ^ 12) (bit_and opcode 0xf0000 / 2 ^ 16)
        (bit_and opcode 0xf) (bit_and opcode 0x30 / 2 ^ 4))
    ∷ row 0xffb00e50 0xee300a00 4 (λ opcode.
      Insn.vadd_t1 (bit_and opcode 0xf000 / 2 ^ 12) (bit_and opcode 0xf0000 / 2 ^ 16)
        (bit_and opcode 0xf) (not (bit_and opcode 0x400000 / 2 ^ 22 == 0))
        (not (bit_and opcode 0x80 / 2 ^ 7 == 0)) (not (bit_and opcode 0x20 / 2 ^ 5 == 0))
        (not (bit_and opcode 0x100 / 2 ^ 8 == 0)))
    ∷ row 0xffb00e50 0xee800a00 4 (λ opcode.
      Insn.vdiv_t1 (bit_and opcode 0xf000 / 2 ^ 12) (bit_and opcode 0xf0000 / 2 ^ 16)
        (bit_and opcode 0xf) (not (bit_and opcode 0x400000 / 2 ^ 22 == 0))
        (not (bit_and opcode 0x80 / 2 ^ 7 == 0)) (not (bit_and opcode 0x20 / 2 ^ 5 == 0))
        (not (bit_and opcode 0x100 / 2 ^ 8 == 0)))
    ∷ row 0xffb00e50 0xeeb00a00 4 (λ opcode.
      Insn.vmov_imm_t1 (bit_and opcode 0xf000 / 2 ^ 12)
        (bit_or (bit_and opcode 0xf0000 / 2 ^ 12) (bit_and opcode 0xf))
        (not (bit_and opcode 0x400000 / 2 ^ 22 == 0)) (not (bit_and opcode 0x100 / 2 ^ 8 == 0)))
    ∷ row 0xffb00e50 0xee200a00 4 (λ opcode.
      Insn.vmul_t1 (bit_and opcode 0xf000 / 2 ^ 12) (bit_and opcode 0xf0000 / 2 ^ 16)
        (bit_and opcode 0xf) (not (bit_and opcode 0x400000 / 2 ^ 22 == 0))
        (not (bit_and opcode 0x80 / 2 ^ 7 == 0)) (not (bit_and opcode 0x20 / 2 ^ 5 == 0))
        (not (bit_and opcode 0x100 / 2 ^ 8 == 0)))
    ∷ []

unfoldable pub rows_41 : List Row
rows_41 =
    row 0xffb00e50 0xee200a40 4 (λ opcode.
      Insn.vnmla_t2 (bit_and opcode 0xf000 / 2 ^ 12) (bit_and opcode 0xf0000 / 2 ^ 16)
        (bit_and opcode 0xf) (not (bit_and opcode 0x400000 / 2 ^ 22 == 0))
        (not (bit_and opcode 0x80 / 2 ^ 7 == 0)) (not (bit_and opcode 0x20 / 2 ^ 5 == 0))
        (not (bit_and opcode 0x100 / 2 ^ 8 == 0)))
    ∷ row 0xffb00e50 0xee300a40 4 (λ opcode.
      Insn.vsub_t1 (bit_and opcode 0xf000 / 2 ^ 12) (bit_and opcode 0xf0000 / 2 ^ 16)
        (bit_and opcode 0xf) (not (bit_and opcode 0x400000 / 2 ^ 22 == 0))
        (not (bit_and opcode 0x80 / 2 ^ 7 == 0)) (not (bit_and opcode 0x20 / 2 ^ 5 == 0))
        (not (bit_and opcode 0x100 / 2 ^ 8 == 0)))
    ∷ row 0xfff00000 0xf8d00000 4 (λ opcode.
      Insn.ldr_imm_t3 (bit_and opcode 0xf000 / 2 ^ 12) (bit_and opcode 0xf0000 / 2 ^ 16)
        (bit_and opcode 0xfff))
    ∷ row 0xfff00f00 0xf8100e00 4 (λ opcode.
      Insn.ldrbt_t1 (bit_and opcode 0xf000 / 2 ^ 12) (bit_and opcode 0xf0000 / 2 ^ 16)
        (bit_and opcode 0xff))
    ∷ row 0xfff00f00 0xf9100e00 4 (λ opcode.
      Insn.ldrsbt_t1 (bit_and opcode 0xf000 / 2 ^ 12) (bit_and opcode 0xf0000 / 2 ^ 16)
        (bit_and opcode 0xff))
    ∷ row 0xfff00000 0xec400000 4 (λ opcode.
      Insn.mcrr_t1 (bit_and opcode 0xf000 / 2 ^ 12) (bit_and opcode 0xf00 / 2 ^ 8)
        (bit_and opcode 0xf) (bit_and opcode 0xf0 / 2 ^ 4) (bit_and opcode 0xf0000 / 2 ^ 16))
    ∷ row 0xfff00000 0xec500000 4 (λ opcode.
      Insn.mrrc_t1 (bit_and opcode 0xf000 / 2 ^ 12) (bit_and opcode 0xf00 / 2 ^ 8)
        (bit_and opcode 0xf) (bit_and opcode 0xf0 / 2 ^ 4) (bit_and opcode 0xf0000 / 2 ^ 16))
    ∷ row 0xffe0d000 0xf3e08000 4
        (λ opcode. Insn.mrs_t1 (bit_and opcode 0xf00 / 2 ^ 8) (bit_and opcode 0xff))
    ∷ []

unfoldable pub rows_42 : List Row
rows_42 =
    row 0xffe0d000 0xf3808000 4 (λ opcode.
      Insn.msr_t1 (bit_and opcode 0xf0000 / 2 ^ 16) (bit_and opcode 0xc00 / 2 ^ 10)
        (bit_and opcode 0xff))
    ∷ row 0xffb00e10 0xeea00a00 4 (λ opcode.
      Insn.vfma_t1 (bit_and opcode 0xf000 / 2 ^ 12) (bit_and opcode 0xf0000 / 2 ^ 16)
        (bit_and opcode 0xf) (not (bit_and opcode 0x40 / 2 ^ 6 == 0))
        (not (bit_and opcode 0x400000 / 2 ^ 22 == 0)) (not (bit_and opcode 0x80 / 2 ^ 7 == 0))
        (not (bit_and opcode 0x20 / 2 ^ 5 == 0)) (not (bit_and opcode 0x100 / 2 ^ 8 == 0)))
    ∷ row 0xffb00e10 0xee900a00 4 (λ opcode.
      Insn.vfnma_t1 (bit_and opcode 0xf000 / 2 ^ 12) (bit_and opcode 0xf0000 / 2 ^ 16)
        (bit_and opcode 0xf) (not (bit_and opcode 0x40 / 2 ^ 6 == 0))
        (not (bit_and opcode 0x400000 / 2 ^ 22 == 0)) (not (bit_and opcode 0x80 / 2 ^ 7 == 0))
        (not (bit_and opcode 0x20 / 2 ^ 5 == 0)) (not (bit_and opcode 0x100 / 2 ^ 8 == 0)))
    ∷ row 0xffb00e10 0xee000a00 4 (λ opcode.
      Insn.vmla_t1 (bit_and opcode 0xf000 / 2 ^ 12) (bit_and opcode 0xf0000 / 2 ^ 16)
        (bit_and opcode 0xf) (not (bit_and opcode 0x40 / 2 ^ 6 == 0))
        (not (bit_and opcode 0x400000 / 2 ^ 22 == 0)) (not (bit_and opcode 0x80 / 2 ^ 7 == 0))
        (not (bit_and opcode 0x20 / 2 ^ 5 == 0)) (not (bit_and opcode 0x100 / 2 ^ 8 == 0)))
    ∷ row 0xffb00e10 0xee100a00 4 (λ opcode.
      Insn.vnmla_t1 (bit_and opcode 0xf000 / 2 ^ 12) (bit_and opcode 0xf0000 / 2 ^ 16)
        (bit_and opcode 0xf) (not (bit_and opcode 0x40 / 2 ^ 6 == 0))
        (not (bit_and opcode 0x400000 / 2 ^ 22 == 0)) (not (bit_and opcode 0x80 / 2 ^ 7 == 0))
        (not (bit_and opcode 0x20 / 2 ^ 5 == 0)) (not (bit_and opcode 0x100 / 2 ^ 8 == 0)))
    ∷ row 0xff000010 0xee000000 4 (λ opcode.
      Insn.cdp_t1 (bit_and opcode 0xf00 / 2 ^ 8) (bit_and opcode 0xf000 / 2 ^ 12)
        (bit_and opcode 0xf0000 / 2 ^ 16) (bit_and opcode 0xf) (bit_and opcode 0xf00000 / 2 ^ 20)
        (bit_and opcode 0xe0 / 2 ^ 5))
    ∷ []
