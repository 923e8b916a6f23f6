-- ===== src/Emulation/Shift/Rotate.antt =====
-- impl_emulation.c: the rotation of the barrel shifter.
use libthumb2sim.Base.{
  ℕ, ◌+◌, ◌-◌, ◌*◌, ◌/◌, ◌%◌, ◌^◌, ◌<◌, ◌≡◌, ◌∙◌, refl, ap, true, false, some, arith, bit_and,
  bit_or, lt→ltb, ◌==◌, ==_iff, holds_below, holds_below_sound,
}
use libthumb2sim.Base.Bits.{bit_and_mask, bit_and_field, bit_or_fields}
use libthumb2sim.Emulation.Shift.{rotate_right, barrel_shift, type_ror}
use native.Mathlib.Nat.{
  one-le-pow, pow-le-pow_right, div-lt_iff_lt-mul, mul_comm, mul-div_cancel, mul-sub, mod-eq_of_lt,
  mul-lt-mul_of_pos_left, mul-lt-mul_of_pos_right, mod-lt,
}

powers : holds_below 32 (λ n. 2 ^ (32 - n) * 2 ^ n == 2 ^ 32) ≡ true
unfolding holds_below
powers = refl

-- `p * q` is 2^32: the powers of the two counts of a rotation.
module _ (n x p q : ℕ) (ep : 2 ^ n ≡ p) (eq : 2 ^ (32 - n) ≡ q) (whole : q * p ≡ 2 ^ 32)
    (hx : x < 2 ^ 32) (pos : 0 < p) (two : 1 < q) where
  mask_low : bit_and x (p - 1) ≡ x % p
  mask_low = rw⁻¹ ep (bit_and_mask n x)

  quotient_lt : x / p < q
  quotient_lt = (div-lt_iff_lt-mul pos).1 (rw whole hx)

  high_mask : 2 ^ 32 - p ≡ (q - 1) * p
  high_mask = omega (arith, mul-sub p q 1, mul_comm p q, mul_comm p (q - 1))

  mask_high : bit_and x (2 ^ 32 - p) ≡ x / p * p
  mask_high =
      let field : bit_and x ((q - 1) * p) ≡ bit_and (x / p) (q - 1) * p =
        rw⁻¹ ep (bit_and_field n x (q - 1)) in
      let kept : bit_and (x / p) (q - 1) ≡ x / p % q = rw⁻¹ eq (bit_and_mask (32 - n) (x / p)) in
      rw high_mask (field ∙ ap (λ t. t * p) (kept ∙ mod-eq_of_lt quotient_lt))

  joined : bit_or (x % p * q) (x / p) ≡ x % p * q + x / p
  joined = rw⁻¹ eq (bit_or_fields (32 - n) (x % p) (x / p) (rw eq quotient_lt))

  word : p < 2 ^ 32
  word =
      let more : p * 1 < p * q = mul-lt-mul_of_pos_left two pos in omega (arith, more, mul_comm p q)

  high_lt : x % p * q < 2 ^ 32
  high_lt =
      let rest : x % p < p = omega (arith, mod-lt x pos) in
      let more : x % p * q < p * q = mul-lt-mul_of_pos_right rest (omega arith) in
      omega (arith, more, mul_comm p q)

  rotated_parts :
      0 < n → n < 32 → rotate_right x n ≡ some (record { value = x % p * q + x / p; carry = false })
  unfolding rotate_right
  rotated_parts low high =
      let one : 1 * p % 2 ^ 32 ≡ p = omega (arith, word) in
      let lo_mask : (p % 2 ^ 32 + 2 ^ 32 - 1) % 2 ^ 32 ≡ p - 1 = omega (arith, word) in
      let hi_mask : 2 ^ 32 - 1 - (p - 1) % 2 ^ 32 ≡ 2 ^ 32 - p = omega (arith, word) in
      rw
        (
          lt→ltb n 32 high,
          lt→ltb (32 - n) 32 (omega arith),
          ep,
          eq,
          one,
          lo_mask,
          hi_mask,
          mask_low,
          mask_high,
          mod-eq_of_lt high_lt,
          mul-div_cancel (x / p) pos,
          joined,
        )
        refl

-- For a 32-bit operand and a count from 1 to 31, the barrel shifter rotates right: the low bits of
-- the operand go above its high bits, which move down by the count, and no carry is given.
pub barrel_shift_ror :
    (n x : ℕ)
    → 0 < n
    → n < 32
    → x < 2 ^ 32
    → barrel_shift x type_ror n
      ≡ some (record { value = x % 2 ^ n * 2 ^ (32 - n) + x / 2 ^ n; carry = false })
unfolding barrel_shift
barrel_shift_ror n x low high hx =
    let whole : 2 ^ (32 - n) * 2 ^ n ≡ 2 ^ 32 =
      (==_iff _ _).0 (holds_below_sound 32 (λ n. 2 ^ (32 - n) * 2 ^ n == 2 ^ 32) n powers high) in
    let two : 1 < 2 ^ (32 - n) =
      pow-le-pow_right {n = 2} (omega arith) {i = 1} {j = 32 - n} (omega arith) in
    rotated_parts n x (2 ^ n) (2 ^ (32 - n)) refl refl whole hx (omega (arith, one-le-pow n 2)) two
      low high
