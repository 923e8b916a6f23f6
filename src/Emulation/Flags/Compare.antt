-- ===== src/Emulation/Flags/Compare.antt =====
-- impl_emulation.c: a comparison followed by a condition, and the writing of the flags into PSR.
use libthumb2sim.Base.{
  ℕ, ◌+◌, ◌*◌, ◌%◌, ◌^◌, ◌<◌, ◌≡◌, refl, ap, ◌∙◌, Bool, true, not, ◌&&◌, ◌||◌, ltb, leb, ◌==◌, same,
  arith,
}
use libthumb2sim.Base.{false, some}
use libthumb2sim.Cpu.{InsnEmuCtx, IsMachine, get_reg, get_psr}
use libthumb2sim.Emulation.Flags.{
  set_cond_code, cond_satisfied_psr, cond_satisfied, set_sub_cond_code,
}
use libthumb2sim.Base.Bits.{bit_and_mask, bit_or_fields_low}
use libthumb2sim.Base.Int.{signed32, lebℤ, ltbℤ}
use libthumb2sim.Emulation.Flags.Codes.{nzcv, bit_of, no_overflow, sub_cond_code_lem}
use libthumb2sim.Emulation.Flags.Conditions.{holds, select, cond_satisfied_psr-nzcv}
use libthumb2sim.Emulation.Arith.{i16_cmp_reg_t1}

nzcv_field : (n z c v : Bool) → (q : ℕ) × (nzcv n z c v ≡ q * 2 ^ 28) × (q < 16)
nzcv_field n z c v =
    (bit_of n 3 + (bit_of z 2 + (bit_of c 1 + bit_of v 0)), ground arith, ground arith)

-- Setting the condition codes writes N, Z, C and V, clears the saturation flag, and keeps the 27
-- bits below.
pub psr-set_cond_code :
    (ctx : InsnEmuCtx) (n z c v : Bool)
    → get_psr (set_cond_code ctx (nzcv n z c v)) ≡ nzcv n z c v + get_psr ctx % 2 ^ 27
unfolding set_cond_code
psr-set_cond_code ctx n z c v =
    let (q, e, h) = nzcv_field n z c v in
    rw (e, bit_and_mask 27 (get_psr ctx))
      (bit_or_fields_low 28 q (get_psr ctx % 2 ^ 27) (omega arith))

-- The comparisons that the conditions stand for.
abbrev pub compare_holds : ℕ → ℕ → ℕ → Bool
compare_holds x y =
    let less = ltbℤ (signed32 x) (signed32 y) in
    select (x == y) (not (x == y)) (leb y x) (ltb x y) less (not less) false true (ltb y x)
      (leb x y) (lebℤ (signed32 y) (signed32 x)) (not (lebℤ (signed32 y) (signed32 x)))
      (not (lebℤ (signed32 x) (signed32 y))) (lebℤ (signed32 x) (signed32 y))

select_congr :
    {a₃ a₅ a₇ a₈ a₉ a₁₀ a₁₂ a₁₃ b₃ b₅ b₇ b₈ b₉ b₁₀ b₁₂ b₁₃ : Bool} (a₀ a₁ a₂ a₄ a₆ : Bool)
    (cond : ℕ)
    → a₃ ≡ b₃
    → a₅ ≡ b₅
    → a₇ ≡ b₇
    → a₈ ≡ b₈
    → a₉ ≡ b₉
    → a₁₀ ≡ b₁₀
    → a₁₂ ≡ b₁₂
    → a₁₃ ≡ b₁₃
    → select a₀ a₁ a₂ a₃ a₄ a₅ a₆ a₇ a₈ a₉ a₁₀ (not a₁₀) a₁₂ a₁₃ cond
      ≡ select a₀ a₁ a₂ b₃ a₄ b₅ a₆ b₇ b₈ b₉ b₁₀ (not b₁₀) b₁₂ b₁₃ cond
select_congr a₀ a₁ a₂ a₄ a₆ cond e₃ e₅ e₇ e₈ e₉ e₁₀ e₁₂ e₁₃ = λ i.
    select a₀ a₁ a₂ (e₃ i) a₄ (e₅ i) a₆ (e₇ i) (e₈ i) (e₉ i) (e₁₀ i) (not (e₁₀ i)) (e₁₂ i) (e₁₃ i)
      cond

module _ (x y : ℕ) where
  signed_ge : same (ltbℤ (signed32 x) (signed32 y)) false ≡ lebℤ (signed32 y) (signed32 x)
  signed_ge = ground arith

  signed_gt :
      x < 2 ^ 32
      → y < 2 ^ 32
      → (not (x == y) && same (ltbℤ (signed32 x) (signed32 y)) false)
        ≡ not (lebℤ (signed32 x) (signed32 y))
  signed_gt hx hy = ground arith

  signed_le :
      x < 2 ^ 32
      → y < 2 ^ 32
      → (x == y || not (same (ltbℤ (signed32 x) (signed32 y)) false))
        ≡ lebℤ (signed32 x) (signed32 y)
  signed_le hx hy = ground arith

  compare_flags :
      (cond : ℕ)
      → x < 2 ^ 32
      → y < 2 ^ 32
      → holds (ltbℤ (signed32 x) (signed32 y)) (x == y) (leb y x) false cond
        ≡ compare_holds x y cond
  compare_flags cond hx hy =
      select_congr _ _ _ _ _ cond (ground arith) refl refl (ground arith) (ground arith) signed_ge
        (signed_gt hx hy) (signed_le hx hy)

-- The context after the flags of the comparison are written.
abbrev compared : InsnEmuCtx → ℕ → ℕ → InsnEmuCtx
compared ctx x y =
    set_cond_code ctx (nzcv (ltbℤ (signed32 x) (signed32 y)) (x == y) (leb y x) false)

set_sub_cond_code-compared :
    (ctx : InsnEmuCtx) (x y : ℕ)
    → x < 2 ^ 32
    → y < 2 ^ 32
    → no_overflow x y ≡ true
    → set_sub_cond_code ctx true x y ≡ some (compared ctx x y)
unfolding set_sub_cond_code
set_sub_cond_code-compared ctx x y hx hy fits = rw (sub_cond_code_lem x y hx hy, fits) refl

-- In every machine state in which the signed difference of two registers and its negation fit 32
-- bits, the 16-bit CMP of the two is defined, after it each condition number tells how they
-- compare, unsigned or signed, and the registers are the same as before.
pub cond_satisfied-cmp :
    (ctx : InsnEmuCtx) (rn rm cond : ℕ)
    → IsMachine ctx
    → no_overflow (get_reg ctx rn) (get_reg ctx rm) ≡ true
    → (ctx' : InsnEmuCtx) × (i16_cmp_reg_t1 ctx rn rm ≡ some ctx')
      × (cond_satisfied ctx' cond ≡ compare_holds (get_reg ctx rn) (get_reg ctx rm) cond)
      × (ctx'.emu_ctx.cpu.reg ≡ ctx.emu_ctx.cpu.reg)
unfolding i16_cmp_reg_t1
cond_satisfied-cmp ctx rn rm cond valid fits =
    let x = get_reg ctx rn in
    let y = get_reg ctx rm in
    let less = ltbℤ (signed32 x) (signed32 y) in
    (
      compared ctx x y,
      set_sub_cond_code-compared ctx x y (valid.reg_bounds rn) (valid.reg_bounds rm) fits,
      ap (λ psr. cond_satisfied_psr psr cond) (psr-set_cond_code ctx less (x == y) (leb y x) false)
          ∙ cond_satisfied_psr-nzcv less (x == y) (leb y x) false (get_psr ctx % 2 ^ 27) cond
              (omega arith)
          ∙ compare_flags x y cond (valid.reg_bounds rn) (valid.reg_bounds rm),
      unfold set_cond_code in refl,
    )
