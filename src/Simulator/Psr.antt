-- ===== src/Simulator/Psr.antt =====
-- cpu_cm3.c: the status register that a step leaves, and the flags in it.
use libthumb2sim.Base.{
  ℕ, ◌+◌, ◌*◌, ◌/◌, ◌%◌, ◌^◌, ◌<◌, ◌≡◌, refl, sym, ap, ◌∙◌, not32, bit_and, bit_or, arith,
}
use libthumb2sim.Emulation.Flags.{cond_satisfied_psr}
use libthumb2sim.Base.Bits.{
  bit_and_field, bit_and_split, bit_and_ones, bit_or_split, bit_or-lt, bit_or-zero,
  bit_and-le_right,
}
use libthumb2sim.Simulator.{execution_psr}

-- A test of the flags looks at the bits from 28 on.
flag_test : (p q m : ℕ) → p / 2 ^ 28 ≡ q / 2 ^ 28 → bit_and p (m * 2 ^ 28) ≡ bit_and q (m * 2 ^ 28)
flag_test p q m e = bit_and_field 28 p m ∙ rw e refl ∙ sym (bit_and_field 28 q m)

cond_satisfied_psr-flags :
    (p q cond : ℕ) → p / 2 ^ 28 ≡ q / 2 ^ 28 → cond_satisfied_psr p cond ≡ cond_satisfied_psr q cond
unfolding cond_satisfied_psr
cond_satisfied_psr-flags p q cond e =
    rw
      (
        flag_test p q 1 e,
        flag_test p q 2 e,
        flag_test p q 4 e,
        flag_test p q 8 e,
        flag_test p q 6 e,
      )
      refl

cleared-high : (p : ℕ) → p < 2 ^ 32 → bit_and p (not32 0xff00) / 2 ^ 16 ≡ p / 2 ^ 16
cleared-high p h =
    let split = bit_and_split 16 (p / 2 ^ 16) (p % 2 ^ 16) 65535 255 (omega arith) (omega arith) in
    let same_high = bit_and_ones 16 (p / 2 ^ 16) (omega arith) in
    let whole : p / 2 ^ 16 * 2 ^ 16 + p % 2 ^ 16 ≡ p = omega arith in
    ap (λ x. bit_and x (not32 0xff00) / 2 ^ 16) (sym whole)
    ∙ omega (arith, split, same_high, bit_and-le_right (p % 2 ^ 16) 255)

bit_or-high : (y x : ℕ) → x < 2 ^ 16 → bit_or y x / 2 ^ 16 ≡ y / 2 ^ 16
bit_or-high y x h =
    let split = bit_or_split 16 (y / 2 ^ 16) (y % 2 ^ 16) 0 x (omega arith) h in
    let whole : y / 2 ^ 16 * 2 ^ 16 + y % 2 ^ 16 ≡ y = omega arith in
    ap (λ t. bit_or t x / 2 ^ 16) (sym whole)
    ∙ ground (arith, split, bit_or-zero (y / 2 ^ 16), bit_or-lt 16 (y % 2 ^ 16) x (omega arith) h)

execution_psr-high : (p st c : ℕ) → p < 2 ^ 32 → c < 16 → execution_psr p st c / 2 ^ 16 ≡ p / 2 ^ 16
unfolding execution_psr
execution_psr-high p st c hp hc =
    let cleared = bit_and p (not32 0xff00) in
    let written = bit_or 0x0900 (c * 2 ^ 12) in
    let small : written < 2 ^ 16 = bit_or-lt 16 0x0900 (c * 2 ^ 12) (omega arith) (omega arith) in
    ground (
      arith,
      cleared-high p hp,
      bit_or-high cleared 0x0100 (omega arith),
      bit_or-high cleared written small,
      bit_or-high (bit_or cleared written) 0x400 (omega arith),
    )

-- For a 32-bit status register and a 4-bit IT condition, the bits that a step writes into the
-- status register leave the outcome of every condition as it is.
pub cond_satisfied_psr-execution_psr :
    (psr it_state it_cond cond : ℕ)
    → psr < 2 ^ 32
    → it_cond < 16
    → cond_satisfied_psr (execution_psr psr it_state it_cond) cond ≡ cond_satisfied_psr psr cond
cond_satisfied_psr-execution_psr psr it_state it_cond cond hp hc =
    cond_satisfied_psr-flags (execution_psr psr it_state it_cond) psr cond
      (omega (arith, execution_psr-high psr it_state it_cond hp hc))
