-- ===== src/Disassembly/Lengths/Operands.antt =====
-- impl_disassembly.c: how long the texts of the operands are.
use libthumb2sim.Base.{ℕ, ◌≤◌, length-append, arith}
use libthumb2sim.Disassembly.Operands.{
  print_i, print_r, print_rr, print_rrr, print_rrrr, print_s, print_at_rr, print_at_rrs, print_rrs,
  print_r_at_rrs, print_rrrs, print_rri, print_rrii, print_r_at_ro, print_rr_at_r_opt,
  print_r_at_r_opt, print_r_at_r_i, print_rr_at_r_i, print_r_at_rr, print_ri,
}
use libthumb2sim.Disassembly.Lengths.{
  total, total-append, reg_string_le, decimal_le, signed_decimal_le,
}

ruleset lengths = (arith, length-append, total-append, reg_string_le, decimal_le, signed_decimal_le)

pub print_i_le : (imm : ℕ) → total (print_i imm) ≤ 12
unfolding print_i
print_i_le imm = grind lengths

pub print_r_le : (r1 : ℕ) → total (print_r r1) ≤ 3
unfolding print_r
print_r_le r1 = grind lengths

pub print_rr_le : (r1 r2 : ℕ) → total (print_rr r1 r2) ≤ 7
unfolding print_rr
print_rr_le r1 r2 = grind lengths

pub print_rrr_le : (r1 r2 r3 : ℕ) → total (print_rrr r1 r2 r3) ≤ 11
unfolding print_rrr
print_rrr_le r1 r2 r3 = grind lengths

pub print_rrrr_le : (r1 r2 r3 r4 : ℕ) → total (print_rrrr r1 r2 r3 r4) ≤ 15
unfolding print_rrrr
print_rrrr_le r1 r2 r3 r4 = grind lengths

pub print_s_le : (shift_type imm : ℕ) → total (print_s shift_type imm) ≤ 17
unfolding print_s
print_s_le shift_type imm = grind lengths

pub print_at_rr_le : (r1 r2 : ℕ) → total (print_at_rr r1 r2) ≤ 9
unfolding print_at_rr
print_at_rr_le r1 r2 = grind lengths

pub print_at_rrs_le : (r1 r2 shift_type imm : ℕ) → total (print_at_rrs r1 r2 shift_type imm) ≤ 26
unfolding print_at_rrs
print_at_rrs_le r1 r2 shift_type imm = grind (lengths, print_s_le)

pub print_rrs_le : (r1 r2 shift_type imm : ℕ) → total (print_rrs r1 r2 shift_type imm) ≤ 24
unfolding print_rrs
print_rrs_le r1 r2 shift_type imm = grind (lengths, print_s_le)

pub print_r_at_rrs_le :
    (r1 r2 r3 shift_type imm : ℕ) → total (print_r_at_rrs r1 r2 r3 shift_type imm) ≤ 30
unfolding print_r_at_rrs
print_r_at_rrs_le r1 r2 r3 shift_type imm = grind (lengths, print_s_le)

pub print_rrrs_le : (r1 r2 r3 shift_type imm : ℕ) → total (print_rrrs r1 r2 r3 shift_type imm) ≤ 28
unfolding print_rrrs
print_rrrs_le r1 r2 r3 shift_type imm = grind (lengths, print_s_le)

pub print_rri_le : (r1 r2 imm : ℕ) → total (print_rri r1 r2 imm) ≤ 20
unfolding print_rri
print_rri_le r1 r2 imm = grind lengths

pub print_rrii_le : (r1 r2 imm1 imm2 : ℕ) → total (print_rrii r1 r2 imm1 imm2) ≤ 33
unfolding print_rrii
print_rrii_le r1 r2 imm1 imm2 = grind lengths

pub print_r_at_ro_le : (r1 r2 imm : ℕ) → total (print_r_at_ro r1 r2 imm) ≤ 23
unfolding print_r_at_ro
print_r_at_ro_le r1 r2 imm = grind lengths

pub print_rr_at_r_opt_le : (r1 r2 r3 imm : ℕ) → total (print_rr_at_r_opt r1 r2 r3 imm) ≤ 27
unfolding print_rr_at_r_opt
print_rr_at_r_opt_le r1 r2 r3 imm = grind lengths

pub print_r_at_r_opt_le : (r1 r2 imm : ℕ) → total (print_r_at_r_opt r1 r2 imm) ≤ 23
unfolding print_r_at_r_opt
print_r_at_r_opt_le r1 r2 imm = grind lengths

pub print_r_at_r_i_le : (r1 r2 imm : ℕ) → total (print_r_at_r_i r1 r2 imm) ≤ 23
unfolding print_r_at_r_i
print_r_at_r_i_le r1 r2 imm = grind lengths

pub print_rr_at_r_i_le : (r1 r2 r3 imm : ℕ) → total (print_rr_at_r_i r1 r2 r3 imm) ≤ 27
unfolding print_rr_at_r_i
print_rr_at_r_i_le r1 r2 r3 imm = grind lengths

pub print_r_at_rr_le : (r1 r2 r3 : ℕ) → total (print_r_at_rr r1 r2 r3) ≤ 13
unfolding print_r_at_rr
print_r_at_rr_le r1 r2 r3 = grind lengths

pub print_ri_le : (r1 imm : ℕ) → total (print_ri r1 imm) ≤ 16
unfolding print_ri
print_ri_le r1 imm = grind lengths
