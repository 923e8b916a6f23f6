-- ===== src/Decoder/Imm/Offset.antt =====
-- decoder.c: the offset of B and BL, whose upper bits are coded against the sign.
use libthumb2sim.Base.{
  ℕ, zero, suc, ◌+◌, ◌*◌, ◌/◌, ◌%◌, ◌^◌, ◌<◌, ◌≡◌, ◌∙◌, refl, ap, true, ◌==◌, if◌then◌else◌, arith,
  bit_and, bit_xor, ◌&&◌, ltb, holds_below, holds_below_sound,
}
use libthumb2sim.Base.Bits.{bit_and_bit, bit_xor_split, bit_xor-zero}
use libthumb2sim.Decoder.Imm.{thumb_sign_extend24_eor}
use libthumb2sim.Decoder.Imm.Laws.{sign_extended, sign_extend24}

-- `NOT (j EOR s)` of two bits.
abbrev pub xnor : ℕ → ℕ → ℕ
xnor j s = if j == s then 1 else 0

toggle :
    (q t low : ℕ)
    → low < 2 ^ 21
    → bit_xor (q * 2 ^ 21 + low) (t * 2 ^ 21) ≡ bit_xor q t * 2 ^ 21 + low
toggle q t low h = ground (arith, bit_xor_split 21 q low t 0, bit_xor-zero low)

-- What the two steps do to the three upper bits.
abbrev first_step : ℕ → ℕ
first_step q = bit_xor q (bit_xor 1 (q / 4))

abbrev second_step : ℕ → ℕ
second_step q = bit_xor q (bit_xor 2 (q / 4 * 2))

abbrev upper_bits : ℕ → ℕ
upper_bits q = q / 4 * 4 + (xnor (q / 2 % 2) (q / 4) * 2 + xnor (q % 2) (q / 4))

upper_table :
    holds_below 8 (λ q.
      second_step (first_step q) == upper_bits q && (ltb (first_step q) 8 && ltb (upper_bits q) 8))
    ≡ true
unfolding holds_below
upper_table = refl

upper :
    (q : ℕ)
    → q < 8
    → (second_step (first_step q) ≡ upper_bits q) × (first_step q < 8) × (upper_bits q < 8)
upper q h = ground (
  arith,
  holds_below_sound 8
      (λ q.
        second_step (first_step q) == upper_bits q
        && (ltb (first_step q) 8 && ltb (upper_bits q) 8))
      q upper_table h,
)

shifted_1 : (c : ℕ) → c < 2 → bit_xor (2 ^ 21) (c * 2 ^ 21) ≡ bit_xor 1 c * 2 ^ 21
shifted_1 zero h = refl
shifted_1 (suc zero) h = refl
shifted_1 (suc (suc c)) h = absurd (omega arith)

shifted_2 : (c : ℕ) → c < 2 → bit_xor (2 ^ 22) (c * 2 ^ 22) ≡ bit_xor 2 (c * 2) * 2 ^ 21
shifted_2 zero h = refl
shifted_2 (suc zero) h = refl
shifted_2 (suc (suc c)) h = absurd (omega arith)

sign_bit : (q low : ℕ) → q < 8 → low < 2 ^ 21 → bit_and (q * 2 ^ 21 + low) (2 ^ 23) ≡ q / 4 * 2 ^ 23
sign_bit q low hq h = omega (arith, bit_and_bit 23 (q * 2 ^ 21 + low))

first_toggle :
    (q low : ℕ)
    → q < 8
    → low < 2 ^ 21
    → bit_xor (q * 2 ^ 21 + low) (bit_xor (2 ^ 21) (bit_and (q * 2 ^ 21 + low) (2 ^ 23) / 2 ^ 2))
      ≡ first_step q * 2 ^ 21 + low
first_toggle q low hq h =
    let quarter : q / 4 * 2 ^ 23 / 2 ^ 2 ≡ q / 4 * 2 ^ 21 = omega arith in
    rw (sign_bit q low hq h, quarter, shifted_1 (q / 4) (omega arith))
      (toggle q (bit_xor 1 (q / 4)) low h)

second_toggle :
    (q low : ℕ)
    → q < 8
    → low < 2 ^ 21
    → bit_xor (q * 2 ^ 21 + low) (bit_xor (2 ^ 22) (bit_and (q * 2 ^ 21 + low) (2 ^ 23) / 2 ^ 1))
      ≡ second_step q * 2 ^ 21 + low
second_toggle q low hq h =
    let half : q / 4 * 2 ^ 23 / 2 ^ 1 ≡ q / 4 * 2 ^ 22 = omega arith in
    rw (sign_bit q low hq h, half, shifted_2 (q / 4) (omega arith))
      (toggle q (bit_xor 2 (q / 4 * 2)) low h)

decoded :
    (q low : ℕ)
    → q < 8
    → low < 2 ^ 21
    → thumb_sign_extend24_eor (q * 2 ^ 21 + low) ≡ sign_extended 24 (upper_bits q * 2 ^ 21 + low)
unfolding thumb_sign_extend24_eor
decoded q low hq h =
    let (both, small, bound) = upper q hq in
    rw (first_toggle q low hq h, second_toggle (first_step q) low small h, both)
      (sign_extend24 (upper_bits q * 2 ^ 21 + low) (omega arith))

-- The 24 bits that B and BL carry, a sign S, two bits J1 and J2 and 21 bits below, are decoded to
-- the sign extension of S, NOT (J1 EOR S), NOT (J2 EOR S) and the 21 bits, as the architecture
-- says.
pub thumb_sign_extend24_eor_lem :
    (s j1 j2 low : ℕ)
    → s < 2
    → j1 < 2
    → j2 < 2
    → low < 2 ^ 21
    → thumb_sign_extend24_eor ((s * 4 + j1 * 2 + j2) * 2 ^ 21 + low)
      ≡ sign_extended 24 ((s * 4 + xnor j1 s * 2 + xnor j2 s) * 2 ^ 21 + low)
thumb_sign_extend24_eor_lem s j1 j2 low hs h1 h2 h =
    let q = s * 4 + j1 * 2 + j2 in
    let sign : q / 4 ≡ s = omega arith in
    let high : q / 2 % 2 ≡ j1 = omega arith in
    let next : q % 2 ≡ j2 = omega arith in
    let bits : upper_bits q ≡ s * 4 + xnor j1 s * 2 + xnor j2 s =
      rw (sign, high, next) (omega arith) in
    decoded q low (omega arith) h ∙ ap (λ u. sign_extended 24 (u * 2 ^ 21 + low)) bits
