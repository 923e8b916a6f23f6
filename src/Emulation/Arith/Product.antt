-- ===== src/Emulation/Arith/Product.antt =====
-- impl_emulation.c: the product of UMULL.
use libthumb2sim.Base.{ℕ, ◌+◌, ◌*◌, ◌/◌, ◌^◌, ◌<◌, ◌≡◌, ◌≤◌, ◌≢◌, ◌∙◌, u32, arith, ap₂}
use libthumb2sim.Cpu.{InsnEmuCtx, IsMachine, get_reg, update}
use libthumb2sim.Emulation.Arith.{i32_umull_t1}
use native.Mathlib.Nat.{mul-le-mul}

-- A product of two words has two words.
product_lt : (x y : ℕ) → x < 2 ^ 32 → y < 2 ^ 32 → x * y < 2 ^ 64
product_lt x y hx hy =
    let bound : x * y ≤ 0xffffffff * 0xffffffff =
      mul-le-mul {n₂ = 0xffffffff} {m₂ = 0xffffffff} (omega arith) (omega arith) in
    omega (arith, bound)

two_words : (p : ℕ) → p < 2 ^ 64 → u32 (p / 2 ^ 32) * 2 ^ 32 + u32 p ≡ p
two_words p h = omega arith

updated :
    (f : ℕ → ℕ) (i j v w : ℕ)
    → i ≢ j
    → (update (update f i v) j w j ≡ w) × (update (update f i v) j w i ≡ v)
updated f i j v w apart = ground arith

-- In a machine state, UMULL with two different target registers leaves the whole product of the
-- two source registers, its upper word in one and its lower word in the other.
pub i32_umull_t1-product :
    (ctx : InsnEmuCtx) (rn rm rd_lo rd_hi : ℕ)
    → IsMachine ctx
    → rd_lo ≢ rd_hi
    → let ctx' = i32_umull_t1 ctx rn rm rd_lo rd_hi in
      get_reg ctx' rd_hi * 2 ^ 32 + get_reg ctx' rd_lo ≡ get_reg ctx rn * get_reg ctx rm
unfolding i32_umull_t1
i32_umull_t1-product ctx rn rm rd_lo rd_hi machine apart =
    let p = get_reg ctx rn * get_reg ctx rm in
    let (high, low) = updated ctx.emu_ctx.cpu.reg rd_lo rd_hi (u32 p) (u32 (p / 2 ^ 32)) apart in
    ap₂ (λ h l. h * 2 ^ 32 + l) high low
    ∙ two_words p (
        product_lt (get_reg ctx rn) (get_reg ctx rm) (machine.reg_bounds rn)
          (machine.reg_bounds rm))
