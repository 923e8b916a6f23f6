-- ===== src/Tests/Decoding.antt =====
-- decoder.c: what single words are decoded to.
use libthumb2sim.Decoder.Imm.{thumb_sign_extend24_eor}
use libthumb2sim.Decoder.Imm.Offset.{xnor, thumb_sign_extend24_eor_lem}
use libthumb2sim.Base.{◌+◌, ◌*◌, ◌^◌, ◌≡◌, ◌⊎◌, refl, none, some, arith}
use libthumb2sim.Decoder.Imm.{thumb_expand_imm, thumb_sign_extend20}
use libthumb2sim.Decoder.Imm.Laws.{
  expanded_imm, thumb_expand_imm_lem, sign_extended, thumb_sign_extend20_lem,
}
use libthumb2sim.Decoder.Insn.{Insn}
use libthumb2sim.Decoder.Row.{matches}
use libthumb2sim.Decoder.Decode.{first_match, rows, decode_insn}
use libthumb2sim.Decoder.Length.{length_of_word, decode_insn-length}

decode_insn-length_example :
    (decode_insn 0x18400000 ≡ (0, none))
    ⊎ ((insn : Insn) × (decode_insn 0x18400000 ≡ (length_of_word 0x18400000, some insn)))
decode_insn-length_example = decode_insn-length 0x18400000 (omega arith)

thumb_expand_imm_lem_example : thumb_expand_imm 0x4ff ≡ expanded_imm 0x4ff
thumb_expand_imm_lem_example = thumb_expand_imm_lem 0x4ff (omega arith)

thumb_sign_extend20_lem_example : thumb_sign_extend20 0xffffe ≡ sign_extended 20 0xffffe
thumb_sign_extend20_lem_example = thumb_sign_extend20_lem 0xffffe (omega arith)

pub unknown_word : first_match rows 0xffffffff ≡ none
unfolding first_match rows matches
unknown_word = refl

-- BL with the offset -2.
thumb_sign_extend24_eor_lem_example :
    thumb_sign_extend24_eor (7 * 2 ^ 21 + 0x1ffffe)
    ≡ sign_extended 24 ((4 + xnor 1 1 * 2 + xnor 1 1) * 2 ^ 21 + 0x1ffffe)
thumb_sign_extend24_eor_lem_example =
    thumb_sign_extend24_eor_lem 1 1 1 0x1ffffe (omega arith) (omega arith) (omega arith)
      (omega arith)

-- MOVS r0, #7 and ADDS r0, #3, each with a halfword behind it.
pub decode_movs : decode_insn 0x20073003 ≡ (2, some (Insn.mov_imm_t1 0 7))
unfolding decode_insn matches
decode_movs = refl

decode_adds : decode_insn 0x30030000 ≡ (2, some (Insn.add_imm_t2 0 3))
unfolding decode_insn matches
decode_adds = refl
