-- ===== src/Emulation/Branch/Targets.antt =====
-- impl_emulation.c: where the branches go.
use libthumb2sim.Base.{
  ℕ, suc, ◌+◌, ◌-◌, ◌*◌, ◌%◌, ◌^◌, ◌<◌, ◌≡◌, refl, ltb, if◌then◌else◌, arith, ltb→lt, holds_below,
  holds_below_sound,
}
use libthumb2sim.Emulation.Branch.{relative_branch_target}
use native.Mathlib.Nat.{pow-suc}

-- For a 32-bit PC and an offset of at most 20 bits, the target of a relative branch is the PC plus
-- 4 plus twice the signed offset, modulo 2^32.
pub relative_branch_target_lem :
    (pc imm n : ℕ)
    → pc < 2 ^ 32
    → n < 20
    → imm < 2 ^ suc n
    → relative_branch_target pc imm (suc n)
      ≡ (if ltb imm (2 ^ n) then pc + 4 + 2 * imm else pc + 4 + 2 ^ 32 + 2 * imm - 2 * 2 ^ suc n)
        % 2 ^ 32
unfolding relative_branch_target holds_below
relative_branch_target_lem pc imm n hp hn hi = ground (
  arith,
  pow-suc 2 n,
  ltb→lt (2 ^ n) (2 ^ 20) (holds_below_sound 20 (λ k. ltb (2 ^ k) (2 ^ 20)) n refl hn),
)
