-- ===== src/Emulation/Logic/Clz.antt =====
-- impl_emulation.c: the loop of CLZ.
use libthumb2sim.Base.{
  ℕ, zero, suc, ◌+◌, ◌-◌, ◌*◌, ◌/◌, ◌%◌, ◌^◌, ◌≤◌, ◌<◌, ◌≡◌, ◌⊎◌, inl, inr, refl, ◌∙◌, ltb, bit_and,
  Bool-cases, arith, ltb→lt,
}
use libthumb2sim.Cpu.{InsnEmuCtx, get_reg, set_reg}
use libthumb2sim.Emulation.Logic.{clz_rounds, i32_clz_t1}
use libthumb2sim.Base.Bits.{bit_and_bit, bit_and_comm}
use native.Mathlib.Nat.{pow-suc, one-le-pow, div-eq_of_lt, div-eq_of_lt-le}

-- `r` leading zeros of 32 bits: the highest bit that is set is bit `31 - r`.
abbrev pub LeadingZeros : ℕ → ℕ → Type 0
LeadingZeros v r = (v ≡ 0) × (r ≡ 32) ⊎ (r < 32) × (2 ^ (31 - r) ≤ v) × (v < 2 ^ (32 - r))

halved : (k : ℕ) → 2 ^ suc k / 2 ≡ 2 ^ k
halved k = omega (arith, pow-suc 2 k)

top_bit : (k v : ℕ) → bit_and (2 ^ k) v ≡ v / 2 ^ k % 2 * 2 ^ k
top_bit k v = bit_and_comm (2 ^ k) v ∙ bit_and_bit k v

-- The top digit of a number with `left + 1` binary digits.
digit :
    (left v : ℕ)
    → v < 2 ^ suc left
    → (v < 2 ^ left) × (bit_and (2 ^ left) v ≡ 0)
      ⊎ (2 ^ left ≤ v) × (bit_and (2 ^ left) v ≡ 2 ^ left)
digit left v lt = elim (Bool-cases (ltb v (2 ^ left))) [
  | inl small ↦ inl (
    ltb→lt v (2 ^ left) small,
    top_bit left v ∙ rw (div-eq_of_lt (ltb→lt v (2 ^ left) small)) (omega arith),
  )
  | inr large ↦
      let low : 2 ^ left ≤ v = ground arith in
      let one_digit : v / 2 ^ left ≡ 1 =
        div-eq_of_lt-le (2 ^ left) (omega arith) (omega (arith, pow-suc 2 left)) in
      inr (low, top_bit left v ∙ rw one_digit (omega arith))
]

found : (left i v : ℕ) → i + suc left ≡ 32 → 2 ^ left ≤ v → v < 2 ^ suc left → LeadingZeros v i
found left i v e low high =
    let below : 31 - i ≡ left = omega arith in
    let above : 32 - i ≡ suc left = omega arith in inr (omega arith, rw below low, rw above high)

-- One round of the loop, by the bit that its mask selects.
clz_rounds_clear :
    (left i v : ℕ)
    → bit_and (2 ^ left) v ≡ 0
    → clz_rounds (suc left) i (2 ^ left) v ≡ clz_rounds left (i + 1) (2 ^ left / 2) v
unfolding clz_rounds
clz_rounds_clear left i v clear = rw clear refl

clz_rounds_none : (i v : ℕ) → clz_rounds 0 i (2 ^ 0 / 2) v ≡ 32
unfolding clz_rounds
clz_rounds_none i v = refl

clz_rounds_set :
    (left i v : ℕ) → bit_and (2 ^ left) v ≡ 2 ^ left → clz_rounds (suc left) i (2 ^ left) v ≡ i
unfolding clz_rounds
clz_rounds_set left i v set = ground (arith, one-le-pow left 2)

-- The mask of the next round, whatever it is when no round is left.
clz_rounds-LeadingZeros :
    (left i v : ℕ)
    → i + left ≡ 32
    → v < 2 ^ left
    → LeadingZeros v (clz_rounds left i (2 ^ left / 2) v)
clz_rounds-LeadingZeros zero i v e h = inl (omega arith, clz_rounds_none i v)
clz_rounds-LeadingZeros (suc left) i v e h = rw (halved left) (elim (digit left v h) [
  | inl (small, clear) ↦
      rw (clz_rounds_clear left i v clear)
        (clz_rounds-LeadingZeros left (i + 1) v (omega arith) small)
  | inr (low, set) ↦ rw (clz_rounds_set left i v set) (found left i v e low h)
])

-- For a source register that holds 32 bits, CLZ writes the number of its leading zeros to the
-- target register, 32 for 0, and changes nothing else.
pub i32_clz_t1-LeadingZeros :
    (ctx : InsnEmuCtx) (rd rm rmx : ℕ)
    → get_reg ctx rm < 2 ^ 32
    → (r : ℕ) × (i32_clz_t1 ctx rd rm rmx ≡ set_reg ctx rd r) × LeadingZeros (get_reg ctx rm) r
unfolding i32_clz_t1
i32_clz_t1-LeadingZeros ctx rd rm rmx h = (
  clz_rounds 32 0 0x80000000 (get_reg ctx rm),
  refl,
  clz_rounds-LeadingZeros 32 0 (get_reg ctx rm) refl h,
)
