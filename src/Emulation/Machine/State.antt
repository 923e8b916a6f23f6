-- ===== src/Emulation/Machine/State.antt =====
-- impl_emulation.c: the steps of the handlers that cannot fail, and the validity of the machine.
use libthumb2sim.Base.{
  ℕ, ◌-◌, ◌/◌, ◌^◌, ◌<◌, Bool, true, false, ◌||◌, Option, ◌==◌, leb, if◌then◌else◌, arith, either,
  u32, not32, bit_and, bit_or, bit_xor,
}
use native.Mathlib.Nat.{div-le_self}
use libthumb2sim.Base.OnSome.{OnSome}
use libthumb2sim.Base.Bits.{bit_and-le_right, bit_and_comm, bit_or-lt, bit_xor-lt}
use libthumb2sim.Base.{not, same}
use libthumb2sim.Base.OnSome.{OnSome, defined, undefined, OnSome-bind}
use libthumb2sim.Base.Int.{signed32, ◌-ℤ◌, fits32}
use libthumb2sim.Emulation.Flags.{int_sub, sub_overflow, is_negative, flag_overflow}
use libthumb2sim.Cpu.{
  InsnEmuCtx, IsMachine, get_reg, get_psr, set_reg, set_psr, set_memory, set_advance_pc, reg_pc,
}
use libthumb2sim.AddressSpace.{AddressSpace}
use libthumb2sim.AddressSpace.Access.{IsValid}
use libthumb2sim.Emulation.Flags.{
  flag_mask, set_cond_code, add_cond_code, sub_cond_code, mov_cond_code, set_mov_cond_code,
  set_lsl_cond_code, set_sub_cond_code, set_add_cond_code, execution_unconditionally, flag_carry,
}
use libthumb2sim.Emulation.Branch.{branch, relative_branch_target}
use libthumb2sim.Emulation.Logic.{set_reg_mov, set_reg_shifted}
use libthumb2sim.Emulation.Shift.{Shifted}

abbrev pub IsWord : ℕ → Type 0
IsWord v = v < 2 ^ 32

pub u32-lt : (v : ℕ) → u32 v < 2 ^ 32
u32-lt v = omega arith

pub not32-lt : (v : ℕ) → not32 v < 2 ^ 32
not32-lt v = omega arith

pub quotient-lt : (a b : ℕ) → a < 2 ^ 32 → a / b < 2 ^ 32
quotient-lt a b h = omega (arith, div-le_self a b)

pub bit_and-lt : (a b : ℕ) → a < 2 ^ 32 → bit_and a b < 2 ^ 32
bit_and-lt a b h = omega (arith, bit_and_comm a b, bit_and-le_right b a)

pub bit_or-word : (a b : ℕ) → a < 2 ^ 32 → b < 2 ^ 32 → bit_or a b < 2 ^ 32
bit_or-word a b h k = bit_or-lt 32 a b h k

pub bit_xor-word : (a b : ℕ) → a < 2 ^ 32 → b < 2 ^ 32 → bit_xor a b < 2 ^ 32
bit_xor-word a b h k = bit_xor-lt 32 a b h k

-- The two branches of a conditional, for contexts and for words.
pub if-IsMachine :
    (b : Bool) (x y : InsnEmuCtx) → IsMachine x → IsMachine y → IsMachine (if b then x else y)
if-IsMachine b x y h k = either IsMachine b h k

pub if-lt : (b : Bool) (x y : ℕ) → x < 2 ^ 32 → y < 2 ^ 32 → (if b then x else y) < 2 ^ 32
if-lt b x y h k = either IsWord b h k

pub if-OnSome :
    (b : Bool) (x y : Option InsnEmuCtx)
    → OnSome IsMachine x
    → OnSome IsMachine y
    → OnSome IsMachine (if b then x else y)
if-OnSome b x y h k = either (OnSome IsMachine) b h k

module _ {ctx : InsnEmuCtx} (m : IsMachine ctx) where
  pub set_reg-IsMachine : (i v : ℕ) → v < 2 ^ 32 → IsMachine (set_reg ctx i v)
  set_reg-IsMachine i v h = record {
    reg_bounds = λ j. either IsWord (j == i) h (m.reg_bounds j);
    psr_bound = m.psr_bound;
    it_cond_bound = m.it_cond_bound;
    it_state_bound = m.it_state_bound;
    memory_valid = m.memory_valid;
  }

  pub set_psr-IsMachine : (v : ℕ) → v < 2 ^ 32 → IsMachine (set_psr ctx v)
  set_psr-IsMachine v h = record {
    reg_bounds = m.reg_bounds;
    psr_bound = h;
    it_cond_bound = m.it_cond_bound;
    it_state_bound = m.it_state_bound;
    memory_valid = m.memory_valid;
  }

  pub set_memory-IsMachine : (a : AddressSpace) → IsValid a → IsMachine (set_memory ctx a)
  set_memory-IsMachine a h = record {
    reg_bounds = m.reg_bounds;
    psr_bound = m.psr_bound;
    it_cond_bound = m.it_cond_bound;
    it_state_bound = m.it_state_bound;
    memory_valid = h;
  }

  pub set_advance_pc-IsMachine : (b : Bool) → IsMachine (set_advance_pc ctx b)
  set_advance_pc-IsMachine b = record {
    reg_bounds = m.reg_bounds;
    psr_bound = m.psr_bound;
    it_cond_bound = m.it_cond_bound;
    it_state_bound = m.it_state_bound;
    memory_valid = m.memory_valid;
  }

  pub reg-lt : (i : ℕ) → get_reg ctx i < 2 ^ 32
  reg-lt i = m.reg_bounds i

-- The condition codes that are computed are bits of a word.
bits-lt : (b : Bool) (v : ℕ) → v < 2 ^ 32 → (if b then v else 0) < 2 ^ 32
bits-lt b v h = either IsWord b h (omega arith)

pub mov_cond_code-lt : (v : ℕ) → mov_cond_code v < 2 ^ 32
unfolding mov_cond_code
mov_cond_code-lt v = grind (arith, bit_or-word, bits-lt)

pub add_cond_code-lt : (x y : ℕ) → add_cond_code x y < 2 ^ 32
unfolding add_cond_code
add_cond_code-lt x y = grind (arith, bit_or-word, bits-lt)

int_sub-OnSome : (a b : ℕ) → OnSome IsWord (int_sub a b)
unfolding int_sub
int_sub-OnSome a b =
    either (OnSome IsWord) (fits32 (signed32 a -ℤ signed32 b)) (defined (u32-lt _)) undefined

sub_overflow-OnSome : (x y : ℕ) → OnSome IsWord (sub_overflow x y)
unfolding sub_overflow
sub_overflow-OnSome x y =
    either (OnSome IsWord) (same (not (is_negative x)) (not (is_negative y)))
      (defined (omega arith))
      (OnSome-bind (int_sub y x) _ (int_sub-OnSome y x) (λ opposite h.
        OnSome-bind (int_sub opposite 1) _ (int_sub-OnSome opposite 1)
          (λ below k. defined (bits-lt _ flag_overflow (omega arith)))))

sub_cond_code-OnSome : (x y : ℕ) → OnSome IsWord (sub_cond_code x y)
unfolding sub_cond_code
sub_cond_code-OnSome x y = OnSome-bind (int_sub x y) _ (int_sub-OnSome x y) (λ difference h.
    OnSome-bind (sub_overflow x y) _ (sub_overflow-OnSome x y)
      (λ overflow k. defined (grind (arith, bit_or-word, bits-lt))))

module _ {ctx : InsnEmuCtx} (m : IsMachine ctx) where
  set_cond_code-IsMachine : (value : ℕ) → value < 2 ^ 32 → IsMachine (set_cond_code ctx value)
  unfolding set_cond_code
  set_cond_code-IsMachine value h =
      set_psr-IsMachine m _
        (bit_or-word _ value (bit_and-lt (get_psr ctx) (not32 flag_mask) m.psr_bound) h)

  pub set_add_cond_code-IsMachine : (b : Bool) (x y : ℕ) → IsMachine (set_add_cond_code ctx b x y)
  unfolding set_add_cond_code
  set_add_cond_code-IsMachine b x y =
      either IsMachine (b || execution_unconditionally ctx)
        (set_cond_code-IsMachine (add_cond_code x y) (add_cond_code-lt x y)) m

  pub set_sub_cond_code-IsMachine :
      (b : Bool) (x y : ℕ) → OnSome IsMachine (set_sub_cond_code ctx b x y)
  unfolding set_sub_cond_code
  set_sub_cond_code-IsMachine b x y =
      either (OnSome IsMachine) (b || execution_unconditionally ctx)
        (OnSome-bind (sub_cond_code x y) _ (sub_cond_code-OnSome x y)
          (λ value h. defined (set_cond_code-IsMachine value h)))
        (defined m)

  pub set_mov_cond_code-IsMachine : (b : Bool) (v : ℕ) → IsMachine (set_mov_cond_code ctx b v)
  unfolding set_mov_cond_code
  set_mov_cond_code-IsMachine b v =
      either IsMachine (b || execution_unconditionally ctx)
        (set_psr-IsMachine m _
          (bit_or-word _ _ (bit_and-lt (get_psr ctx) _ m.psr_bound) (mov_cond_code-lt v)))
        m

  pub set_lsl_cond_code-IsMachine :
      (b : Bool) (v : ℕ) (c : Bool) → IsMachine (set_lsl_cond_code ctx b v c)
  unfolding set_lsl_cond_code
  set_lsl_cond_code-IsMachine b v c =
      either IsMachine (b || execution_unconditionally ctx)
        (set_psr-IsMachine m _ (
          bit_or-word _ _ (bit_and-lt (get_psr ctx) _ m.psr_bound)
            (bit_or-word _ _ (mov_cond_code-lt v) (bits-lt c flag_carry (omega arith)))))
        m

pub relative_branch_target-lt : (pc imm bits : ℕ) → relative_branch_target pc imm bits < 2 ^ 32
unfolding relative_branch_target
relative_branch_target-lt pc imm bits =
    either IsWord (leb (2 ^ (bits - 1)) imm) (u32-lt _) (u32-lt _)

module _ {ctx : InsnEmuCtx} (m : IsMachine ctx) where
  pub branch-IsMachine : (target : ℕ) → target < 2 ^ 32 → IsMachine (branch ctx target)
  branch-IsMachine target h = set_advance_pc-IsMachine (set_reg-IsMachine m reg_pc target h) false

  pub set_reg_mov-IsMachine :
      (rd value : ℕ) (s : Bool) → value < 2 ^ 32 → IsMachine (set_reg_mov ctx rd value s)
  set_reg_mov-IsMachine rd value s h =
      let m' = set_reg-IsMachine m rd value h in
      either IsMachine s (set_mov_cond_code-IsMachine m' true _) m'

  pub set_reg_shifted-IsMachine :
      (rd : ℕ) (out : Shifted) (s : Bool)
      → out.value < 2 ^ 32
      → IsMachine (set_reg_shifted ctx rd out s)
  set_reg_shifted-IsMachine rd out s h =
      let m' = set_reg-IsMachine m rd out.value h in
      either IsMachine s (set_lsl_cond_code-IsMachine m' true _ out.carry) m'
