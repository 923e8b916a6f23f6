-- ===== src/Decoder/Row.antt =====
-- One branch of `decode_insn`: `(opcode & mask) == compare`, the length it sets and the call it makes.
use libthumb2sim.Base.{ℕ, Bool, ◌==◌, bit_and}
use libthumb2sim.Decoder.Insn.{Insn}

pub record Row : Type 0 where
  pub mask : ℕ
  pub compare : ℕ
  pub insn_length : ℕ
  pub call : ℕ → Insn

abbrev pub row : ℕ → ℕ → ℕ → (ℕ → Insn) → Row
row mask compare insn_length call = record {
  mask = mask;
  compare = compare;
  insn_length = insn_length;
  call = call;
}

unfoldable pub matches : Row → ℕ → Bool
matches r opcode = bit_and opcode r.mask == r.compare
