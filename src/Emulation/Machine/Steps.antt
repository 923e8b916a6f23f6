-- ===== src/Emulation/Machine/Steps.antt =====
-- impl_emulation.c: the rules for the steps from which the handlers are made.
use libthumb2sim.Base.{
  ℕ, ◌^◌, ◌<◌, ◌≡◌, refl, Bool, true, false, Option, if◌then◌else◌, ◌>>=◌, arith,
}
use libthumb2sim.Base.OnSome.{OnSome, undefined, defined, OnSome-bind}
use libthumb2sim.Cpu.{InsnEmuCtx, IsMachine, memory}
use libthumb2sim.AddressSpace.{AddressSpace, read8, read16, read32, write8, write16, write32}
use libthumb2sim.AddressSpace.Valid.{
  read8-OnSome, read16-OnSome, read32-OnSome, write8-OnSome, write16-OnSome, write32-OnSome,
}
use libthumb2sim.AddressSpace.Access.{IsValid}
use libthumb2sim.Emulation.Machine.State.{
  IsWord, u32-lt, not32-lt, quotient-lt, bit_and-lt, bit_or-word, bit_xor-word, if-IsMachine, if-lt,
  if-OnSome, set_reg-IsMachine, set_psr-IsMachine, set_memory-IsMachine, set_advance_pc-IsMachine,
  reg-lt, mov_cond_code-lt, add_cond_code-lt, set_add_cond_code-IsMachine,
  set_sub_cond_code-IsMachine, set_mov_cond_code-IsMachine, set_lsl_cond_code-IsMachine,
  relative_branch_target-lt, branch-IsMachine, set_reg_mov-IsMachine, set_reg_shifted-IsMachine,
}
use libthumb2sim.Emulation.Machine.Partial.{
  shl32-OnSome, shr32-OnSome, asr32-OnSome, bit_below-OnSome, IsShifted, barrel_shift-OnSome,
  barrel_shift-bind, bit_below-bind, shl32-bind, shr32-bind, asr32-bind,
}

pub one-lt : 1 < 2 ^ 32
one-lt = omega arith

-- An access to the memory of a valid machine, and what follows it.
module _ {ctx : InsnEmuCtx} (m : IsMachine ctx) {A : Type 0} {Q : A → Type 0} where
  pub read8-bind :
      (a : ℕ) (f : ℕ → Option A)
      → ((v : ℕ) → v < 2 ^ 32 → OnSome Q (f v))
      → OnSome Q (read8 (memory ctx) a >>= f)
  read8-bind a f g = OnSome-bind (read8 (memory ctx) a) f (read8-OnSome m.memory_valid a) g

  pub read16-bind :
      (a : ℕ) (f : ℕ → Option A)
      → ((v : ℕ) → v < 2 ^ 32 → OnSome Q (f v))
      → OnSome Q (read16 (memory ctx) a >>= f)
  read16-bind a f g = OnSome-bind (read16 (memory ctx) a) f (read16-OnSome m.memory_valid a) g

  pub read32-bind :
      (a : ℕ) (f : ℕ → Option A)
      → ((v : ℕ) → v < 2 ^ 32 → OnSome Q (f v))
      → OnSome Q (read32 (memory ctx) a >>= f)
  read32-bind a f g = OnSome-bind (read32 (memory ctx) a) f (read32-OnSome m.memory_valid a) g

  pub write8-bind :
      (a v : ℕ) (f : AddressSpace → Option A)
      → ((mem : AddressSpace) → IsValid mem → OnSome Q (f mem))
      → OnSome Q (write8 (memory ctx) a v >>= f)
  write8-bind a v f g = OnSome-bind (write8 (memory ctx) a v) f (write8-OnSome m.memory_valid a v) g

  pub write16-bind :
      (a v : ℕ) (f : AddressSpace → Option A)
      → ((mem : AddressSpace) → IsValid mem → OnSome Q (f mem))
      → OnSome Q (write16 (memory ctx) a v >>= f)
  write16-bind a v f g =
      OnSome-bind (write16 (memory ctx) a v) f (write16-OnSome m.memory_valid a v) g

  pub write32-bind :
      (a v : ℕ) (f : AddressSpace → Option A)
      → ((mem : AddressSpace) → IsValid mem → OnSome Q (f mem))
      → OnSome Q (write32 (memory ctx) a v >>= f)
  write32-bind a v f g =
      OnSome-bind (write32 (memory ctx) a v) f (write32-OnSome m.memory_valid a v) g

pub IsMachine-bind :
    (o : Option InsnEmuCtx) (f : InsnEmuCtx → Option InsnEmuCtx)
    → OnSome IsMachine o
    → ((c : InsnEmuCtx) → IsMachine c → OnSome IsMachine (f c))
    → OnSome IsMachine (o >>= f)
IsMachine-bind o f h g = OnSome-bind o f h g

pub if-known :
    (b : Bool) (x y : InsnEmuCtx)
    → (b ≡ true → IsMachine x)
    → IsMachine y
    → IsMachine (if b then x else y)
if-known true x y h k = h refl
if-known false x y h k = k

-- The rules by which a handler's steps are followed.
pub ruleset steps = (
  defined, if-IsMachine, if-lt, if-OnSome, u32-lt, not32-lt, bit_and-lt, bit_or-word, bit_xor-word,
  set_reg-IsMachine, set_psr-IsMachine, set_memory-IsMachine, set_advance_pc-IsMachine,
  set_add_cond_code-IsMachine, set_sub_cond_code-IsMachine, set_mov_cond_code-IsMachine,
  set_lsl_cond_code-IsMachine, reg-lt, branch-IsMachine, relative_branch_target-lt,
  set_reg_mov-IsMachine, set_reg_shifted-IsMachine, barrel_shift-bind, bit_below-bind, shl32-bind,
  shr32-bind, asr32-bind, one-lt, read8-bind, read16-bind, read32-bind, write8-bind, write16-bind,
  write32-bind, IsMachine-bind,
)
