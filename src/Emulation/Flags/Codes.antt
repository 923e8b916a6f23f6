-- ===== src/Emulation/Flags/Codes.antt =====
-- impl_emulation.c: the condition codes against the arithmetic that they report on.
use libthumb2sim.Base.{
  ℕ, ◌+◌, ◌*◌, ◌/◌, ◌%◌, ◌^◌, ◌<◌, ◌≡◌, Bool, not, leb, ◌==◌, if◌then◌else◌, add32, sub32, bit_and,
  arith,
}
use libthumb2sim.Base.{
  ◌&&◌, false, some, none, Bool-cases, inl, inr, refl, ap, ◌∙◌, true, same, ltb, bit_or,
}
use libthumb2sim.Emulation.Flags.{
  int_sub, sub_overflow, is_negative, flag_negative, flag_zero, flag_carry, add_cond_code,
  sub_cond_code,
}
use libthumb2sim.Base.Bits.{bit_and_bit}
use libthumb2sim.Base.Int.{signed32, ◌+ℤ◌, ◌-ℤ◌, fits32, ltbℤ}

abbrev pub bit_of : Bool → ℕ → ℕ
bit_of b k = if b then 2 ^ k else 0

-- The four flags at their places.
abbrev pub nzcv : Bool → Bool → Bool → Bool → ℕ
nzcv n z c v = bit_of n 31 + (bit_of z 30 + (bit_of c 29 + bit_of v 28))

top_bit : (x : ℕ) → bit_and x 0x80000000 ≡ x / 2 ^ 31 % 2 * 2 ^ 31
top_bit x = bit_and_bit 31 x

-- For 32-bit operands, the flags of an addition are N and Z of the 32-bit result, C just when the
-- unsigned sum does not fit 32 bits, and V just when the signed sum does not.
pub add_cond_code_lem :
    (x y : ℕ)
    → x < 2 ^ 32
    → y < 2 ^ 32
    → add_cond_code x y
      ≡ nzcv
          (leb (2 ^ 31) (add32 x y))
          (add32 x y == 0)
          (leb (2 ^ 32) (x + y))
          (not (fits32 (signed32 x +ℤ signed32 y)))
unfolding add_cond_code
add_cond_code_lem x y hx hy = ground (arith, top_bit x, top_bit y, top_bit (add32 x y))

-- Whether the signed difference fits either way round, so that it is above -2^31 and below 2^31.
abbrev pub no_overflow : ℕ → ℕ → Bool
no_overflow x y = fits32 (signed32 x -ℤ signed32 y) && fits32 (signed32 y -ℤ signed32 x)

module _ (x y : ℕ) (hx : x < 2 ^ 32) (hy : y < 2 ^ 32) where
  abbrev DifferenceFits : ℕ → ℕ → Bool → Type 0
  DifferenceFits a b fits = fits32 (signed32 a -ℤ signed32 b) ≡ fits

  int_sub_one :
      DifferenceFits x y true → DifferenceFits y x true → DifferenceFits (sub32 y x) 1 true
  int_sub_one h k = ground arith

  -- With different signs, whether the reversed difference less one is negative decides nothing.
  no_flag :
      same (not (is_negative x)) (not (is_negative y)) ≡ false
      → DifferenceFits x y true
      → DifferenceFits y x true
      → same (not (is_negative (sub32 (sub32 y x) 1))) (ltb x y) ≡ false
  no_flag signs h k = ground arith

  signs_differ :
      DifferenceFits x y true
      → DifferenceFits y x false
      → same (not (is_negative x)) (not (is_negative y)) ≡ false
  signs_differ h k = ground arith

  sub_overflow-some : DifferenceFits x y true → DifferenceFits y x true → sub_overflow x y ≡ some 0
  unfolding sub_overflow int_sub
  sub_overflow-some h k = elim (Bool-cases (same (not (is_negative x)) (not (is_negative y)))) [
    | inl alike ↦ rw alike refl
    | inr differ ↦ rw (differ, k, int_sub_one h k, no_flag differ h k) refl
  ]

  sub_overflow-none : DifferenceFits x y true → DifferenceFits y x false → sub_overflow x y ≡ none
  unfolding sub_overflow int_sub
  sub_overflow-none h k = rw (signs_differ h k, k) refl

  codes_some :
      bit_or
        (bit_or
          (bit_or
            (bit_or 0 (if is_negative (sub32 x y) then flag_negative else 0))
            (if x == y then flag_zero else 0))
          (if leb y x then flag_carry else 0))
        0
      ≡ nzcv (leb (2 ^ 31) (sub32 x y)) (x == y) (leb y x) false
  codes_some = ground arith

  sign_of_difference :
      DifferenceFits x y true → leb (2 ^ 31) (sub32 x y) ≡ ltbℤ (signed32 x) (signed32 y)
  sign_of_difference h = ground arith

  -- For 32-bit operands, the flags of a subtraction are undefined unless the signed difference and
  -- its negation fit 32 bits; then they are N just when the first operand is the smaller signed
  -- number, Z just when the two are equal, C just when there is no borrow, and no V.
  pub sub_cond_code_lem : sub_cond_code x y ≡ (
      if no_overflow x y
      then some (nzcv (ltbℤ (signed32 x) (signed32 y)) (x == y) (leb y x) false)
      else none)
  unfolding sub_cond_code int_sub
  sub_cond_code_lem = elim (Bool-cases (fits32 (signed32 x -ℤ signed32 y))) [
    | inr out ↦ rw out refl
    | inl h ↦ elim (Bool-cases (fits32 (signed32 y -ℤ signed32 x))) [
      | inr out ↦ rw (h, out, sub_overflow-none h out) refl
      | inl k ↦
          rw (h, k, sub_overflow-some h k)
            (ap (λ (v : ℕ). some v)
              (codes_some ∙ ap (λ b. nzcv b (x == y) (leb y x) false) (sign_of_difference h)))
    ]
  ]
