-- ===== src/Emulation/Flags/Conditions.antt =====
-- impl_emulation.c: what the conditions mean on the flags, and after a comparison.
use libthumb2sim.Base.{
  ℕ, ◌+◌, ◌/◌, ◌^◌, ◌<◌, ◌≡◌, Bool, true, not, ◌&&◌, ◌||◌, ◌==◌, same, if◌then◌else◌, bit_and,
  bit_or, arith,
}
use libthumb2sim.Emulation.Flags.{
  flag_negative, flag_zero, flag_carry, flag_overflow, cond_satisfied_psr,
}
use libthumb2sim.Base.Bits.{bit_and_bit, bit_and_mask, bit_and_field}
use libthumb2sim.Emulation.Flags.Codes.{nzcv, bit_of}

-- One of fifteen answers, by the number of the condition.
abbrev pub select :
    (on_eq on_ne on_cs on_cc on_mi on_pl on_vs on_vc on_hi on_ls on_ge on_lt on_gt on_le : Bool)
    → ℕ
    → Bool
select on_eq on_ne on_cs on_cc on_mi on_pl on_vs on_vc on_hi on_ls on_ge on_lt on_gt on_le cond =
    if cond == 0
    then on_eq
    else if cond == 1
    then on_ne
    else if cond == 2
    then on_cs
    else if cond == 3
    then on_cc
    else if cond == 4
    then on_mi
    else if cond == 5
    then on_pl
    else if cond == 6
    then on_vs
    else if cond == 7
    then on_vc
    else if cond == 8
    then on_hi
    else if cond == 9
    then on_ls
    else if cond == 10
    then on_ge
    else if cond == 11
    then on_lt
    else if cond == 12
    then on_gt
    else if cond == 13
    then on_le
    else true

-- The conditions of the architecture on the flags.
abbrev pub holds : Bool → Bool → Bool → Bool → ℕ → Bool
holds n z c v =
    select z (not z) c (not c) n (not n) v (not v) (c && not z) (not c || z) (same n v)
      (not (same n v)) (not z && same n v) (z || not (same n v))

module _ (n z c v : Bool) (r : ℕ) (low : r < 2 ^ 28) where
  p : ℕ
  p = nzcv n z c v + r

  negative_test : bit_and p flag_negative ≡ bit_of n 31
  unfolding p
  negative_test = ground (arith, bit_and_bit 31 (nzcv n z c v + r))

  zero_test : bit_and p flag_zero ≡ bit_of z 30
  unfolding p
  zero_test = ground (arith, bit_and_bit 30 (nzcv n z c v + r))

  carry_test : bit_and p flag_carry ≡ bit_of c 29
  unfolding p
  carry_test = ground (arith, bit_and_bit 29 (nzcv n z c v + r))

  overflow_test : bit_and p flag_overflow ≡ bit_of v 28
  unfolding p
  overflow_test = ground (arith, bit_and_bit 28 (nzcv n z c v + r))

  carry_zero_test : bit_and p (bit_or flag_carry flag_zero) ≡ bit_of z 30 + bit_of c 29
  unfolding p
  carry_zero_test =
      ground
        (arith, bit_and_field 29 (nzcv n z c v + r) 3, bit_and_mask 2 ((nzcv n z c v + r) / 2 ^ 29))

  shut_psr : (cond : ℕ) → cond_satisfied_psr p cond ≡ holds n z c v cond
  unfolding cond_satisfied_psr
  shut_psr cond =
      rw (carry_zero_test, negative_test, zero_test, carry_test, overflow_test) (ground arith)

-- On a status register with given N, Z, C and V and any bits below 28, every condition number is
-- decided by the flags as the architecture says.
pub cond_satisfied_psr-nzcv :
    (n z c v : Bool) (r cond : ℕ)
    → r < 2 ^ 28
    → cond_satisfied_psr (nzcv n z c v + r) cond ≡ holds n z c v cond
unfolding p
cond_satisfied_psr-nzcv n z c v r cond low = shut_psr n z c v r low cond
