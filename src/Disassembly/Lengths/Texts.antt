-- ===== src/Disassembly/Lengths/Texts.antt =====
-- impl_disassembly.c: the name of IT, and the rules for the lengths of all texts.
use libthumb2sim.Base.{
  ℕ, zero, suc, ◌+◌, ◌-◌, ◌≤◌, ◌≡◌, refl, bit_and, arith, length, length-append,
}
use libthumb2sim.Disassembly.Branch.{it_letters, it_opcode}
use libthumb2sim.Emulation.Branch.{it_len_rounds}
use libthumb2sim.Disassembly.Lengths.{
  total, total-append, reg_string_le, cc_string_le, decimal_le, hex_le, hex_padded_le,
  print_opcode_le, print_reglist_le,
}
use libthumb2sim.Disassembly.Lengths.Operands.{
  print_i_le, print_r_le, print_rr_le, print_rrr_le, print_rrrr_le, print_s_le, print_at_rr_le,
  print_at_rrs_le, print_rrs_le, print_r_at_rrs_le, print_rrrs_le, print_rri_le, print_rrii_le,
  print_r_at_ro_le, print_rr_at_r_opt_le, print_r_at_r_opt_le, print_r_at_r_i_le,
  print_rr_at_r_i_le, print_r_at_rr_le, print_ri_le,
}

length-it_letters : (left i mask match : ℕ) → length (it_letters left i mask match) ≡ left
unfolding it_letters
length-it_letters zero i mask match = refl
length-it_letters (suc left) i mask match =
    grind (arith, length-append, length-it_letters left (i + 1) mask match)

it_len_rounds_le : (left i mask len : ℕ) → it_len_rounds left i mask len ≤ len
unfolding it_len_rounds
it_len_rounds_le zero i mask len = omega arith
it_len_rounds_le (suc left) i mask len =
    ground (arith, it_len_rounds_le left (i + 1) mask (len - 1))

-- The name of IT and its terminating 0 fit into `char opcode[8]`.
pub it_opcode_le : (firstcond mask : ℕ) → length (it_opcode firstcond mask) ≤ 5
unfolding it_opcode
it_opcode_le firstcond mask = omega (
  arith,
  length-it_letters (it_len_rounds 3 0 mask 3) 0 mask (bit_and firstcond 1),
  it_len_rounds_le 3 0 mask 3,
)

pub ruleset texts = (
  arith, total-append, length-append, reg_string_le, cc_string_le, decimal_le, hex_le,
  hex_padded_le, print_opcode_le, print_reglist_le, it_opcode_le, print_i_le, print_r_le,
  print_rr_le, print_rrr_le, print_rrrr_le, print_s_le, print_at_rr_le, print_at_rrs_le,
  print_rrs_le, print_r_at_rrs_le, print_rrrs_le, print_rri_le, print_rrii_le, print_r_at_ro_le,
  print_rr_at_r_opt_le, print_r_at_r_opt_le, print_r_at_r_i_le, print_rr_at_r_i_le,
  print_r_at_rr_le, print_ri_le,
)
