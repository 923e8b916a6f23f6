-- ===== src/Disassembly/Operands.antt =====
-- impl_disassembly.c: the helpers that print the operands of an instruction.
--
-- `at` in a name stands for the bracket of an address, `opt` for an offset that is left out when it
-- is 0. An `int` is its 32-bit pattern.
use libthumb2sim.Base.{ℕ, not, ◌||◌, List, [], ◌++◌, ◌==◌, if◌then◌else◌, u8, u32}
use libthumb2sim.Emulation.Shift.{type_lsl, type_lsr, type_asr}
use libthumb2sim.Disassembly.Text.{Text, codes, decimal, signed_decimal}
use libthumb2sim.Disassembly.Print.{say, reg_string}

unfoldable pub print_i : ℕ → List Text
print_i imm = say (codes " #" ++ decimal (u8 imm))

unfoldable pub print_r : ℕ → List Text
print_r r1 = say (codes " " ++ reg_string r1)

unfoldable pub print_rr : ℕ → ℕ → List Text
print_rr r1 r2 = say (codes " " ++ reg_string r1 ++ codes ", " ++ reg_string r2)

unfoldable pub print_rrr : ℕ → ℕ → ℕ → List Text
print_rrr r1 r2 r3 =
    say (codes " " ++ reg_string r1 ++ codes ", " ++ reg_string r2 ++ codes ", " ++ reg_string r3)

unfoldable pub print_rrrr : ℕ → ℕ → ℕ → ℕ → List Text
print_rrrr r1 r2 r3 r4 = say (
    codes " "
    ++ reg_string r1
    ++ codes ", "
    ++ reg_string r2
    ++ codes ", "
    ++ reg_string r3
    ++ codes ", "
    ++ reg_string r4)

unfoldable pub print_s : ℕ → ℕ → List Text
print_s shift_type imm =
    (if shift_type == type_lsl
      then say (codes ", lsl #" ++ decimal (u8 imm))
      else (if shift_type == type_lsr
          then say (codes ", lsr #" ++ decimal (u8 (if u8 imm == 0 then 32 else imm)))
          else (if shift_type == type_asr
              then say (codes ", asr #" ++ decimal (u8 (if u8 imm == 0 then 32 else imm)))
              else (if u8 imm == 0
                  then say (codes ", rrx")
                  else say (codes ", ror #" ++ decimal (u8 imm))))))

unfoldable pub print_at_rr : ℕ → ℕ → List Text
print_at_rr r1 r2 = say (codes " [" ++ reg_string r1 ++ codes ", " ++ reg_string r2 ++ codes "]")

unfoldable pub print_at_rrs : ℕ → ℕ → ℕ → ℕ → List Text
unfolding print_s
print_at_rrs r1 r2 shift_type imm =
    say (codes " [" ++ reg_string r1 ++ codes ", " ++ reg_string r2)
    ++ print_s shift_type imm
    ++ say (codes "]")

unfoldable pub print_rrs : ℕ → ℕ → ℕ → ℕ → List Text
unfolding print_s
print_rrs r1 r2 shift_type imm =
    say (codes " " ++ reg_string r1 ++ codes ", " ++ reg_string r2)
    ++ (if not (shift_type == 0) || not (u8 imm == 0) then print_s shift_type imm else [])

unfoldable pub print_r_at_rrs : ℕ → ℕ → ℕ → ℕ → ℕ → List Text
unfolding print_s
print_r_at_rrs r1 r2 r3 shift_type imm =
    say (codes " " ++ reg_string r1 ++ codes ", [" ++ reg_string r2 ++ codes ", " ++ reg_string r3)
    ++ (if not (shift_type == 0) || not (u8 imm == 0) then print_s shift_type imm else [])
    ++ say (codes "]")

unfoldable pub print_rrrs : ℕ → ℕ → ℕ → ℕ → ℕ → List Text
unfolding print_s
print_rrrs r1 r2 r3 shift_type imm =
    say (codes " " ++ reg_string r1 ++ codes ", " ++ reg_string r2 ++ codes ", " ++ reg_string r3)
    ++ (if not (shift_type == 0) || not (u8 imm == 0) then print_s shift_type imm else [])

unfoldable pub print_rri : ℕ → ℕ → ℕ → List Text
print_rri r1 r2 imm =
    say (
      codes " " ++ reg_string r1 ++ codes ", " ++ reg_string r2 ++ codes ", #" ++ decimal (u32 imm))

unfoldable pub print_rrii : ℕ → ℕ → ℕ → ℕ → List Text
print_rrii r1 r2 imm1 imm2 = say (
    codes " "
    ++ reg_string r1
    ++ codes ", "
    ++ reg_string r2
    ++ codes ", #"
    ++ decimal (u32 imm1)
    ++ codes ", #"
    ++ decimal (u32 imm2))

unfoldable pub print_r_at_ro : ℕ → ℕ → ℕ → List Text
print_r_at_ro r1 r2 imm = say (
    codes " "
    ++ reg_string r1
    ++ codes ", ["
    ++ reg_string r2
    ++ codes ", #"
    ++ signed_decimal (u32 imm)
    ++ codes "]")

unfoldable pub print_rr_at_r_opt : ℕ → ℕ → ℕ → ℕ → List Text
print_rr_at_r_opt r1 r2 r3 imm =
    (if u32 imm == 0
      then say (
          codes " "
          ++ reg_string r1
          ++ codes ", "
          ++ reg_string r2
          ++ codes ", ["
          ++ reg_string r3
          ++ codes "]")
      else say (
          codes " "
          ++ reg_string r1
          ++ codes ", "
          ++ reg_string r2
          ++ codes ", ["
          ++ reg_string r3
          ++ codes ", #"
          ++ signed_decimal (u32 imm)
          ++ codes "]"))

unfoldable pub print_r_at_r_opt : ℕ → ℕ → ℕ → List Text
print_r_at_r_opt r1 r2 imm =
    (if u32 imm == 0
      then say (codes " " ++ reg_string r1 ++ codes ", [" ++ reg_string r2 ++ codes "]")
      else say (
          codes " "
          ++ reg_string r1
          ++ codes ", ["
          ++ reg_string r2
          ++ codes ", #"
          ++ signed_decimal (u32 imm)
          ++ codes "]"))

unfoldable pub print_r_at_r_i : ℕ → ℕ → ℕ → List Text
print_r_at_r_i r1 r2 imm = say (
    codes " "
    ++ reg_string r1
    ++ codes ", ["
    ++ reg_string r2
    ++ codes "], #"
    ++ signed_decimal (u32 imm))

unfoldable pub print_rr_at_r_i : ℕ → ℕ → ℕ → ℕ → List Text
print_rr_at_r_i r1 r2 r3 imm = say (
    codes " "
    ++ reg_string r1
    ++ codes ", "
    ++ reg_string r2
    ++ codes ", ["
    ++ reg_string r3
    ++ codes "], #"
    ++ signed_decimal (u32 imm))

unfoldable pub print_r_at_rr : ℕ → ℕ → ℕ → List Text
print_r_at_rr r1 r2 r3 = say (
    codes " "
    ++ reg_string r1
    ++ codes ", ["
    ++ reg_string r2
    ++ codes ", "
    ++ reg_string r3
    ++ codes "]")

unfoldable pub print_ri : ℕ → ℕ → List Text
print_ri r1 imm = say (codes " " ++ reg_string r1 ++ codes ", #" ++ decimal (u32 imm))
