-- ===== src/Simulator/ItBlock.antt =====
-- impl_emulation.c and cpu_cm3.c: the IT instruction against the ITSTATE of the architecture.
use libthumb2sim.Base.{
  ℕ, zero, suc, ◌+◌, ◌-◌, ◌*◌, ◌/◌, ◌%◌, ◌^◌, ◌<◌, ◌≡◌, ◌≢◌, refl, sym, ap, ◌∙◌, Bool, true, false,
  ◌&&◌, ◌||◌, ltb, ◌==◌, if◌then◌else◌, bit_xor, arith, holds_below, holds_below_sound,
}
use libthumb2sim.Cpu.{EmuCtx, InsnEmuCtx, get_psr}
use libthumb2sim.Emulation.Flags.{cond_satisfied_psr, should_exec_next_insn}
use libthumb2sim.Emulation.Branch.{it_state_after, i16_it_t1}
use libthumb2sim.Simulator.{start, finish, finish_pc, finish_count, finish_psr}
use libthumb2sim.Base.Bits.{bit_and_mask, bit_xor-lt}
use native.Mathlib.Nat.{div-div-eq-div-mul, pow-succ'}

-- ITSTATE is eight bits: a condition, and in the low bits what is left of the block.
abbrev pub itstate : ℕ → ℕ → ℕ
itstate firstcond mask = firstcond * 16 + mask

abbrev pub advance : ℕ → ℕ
advance it = if it % 8 == 0 then 0 else it / 32 * 32 + it * 2 % 32

abbrev pub advanced : ℕ → ℕ → ℕ
advanced zero it = it
advanced (suc i) it = advanced i (advance it)

-- Whether the next instruction is executed: always outside a block, else by the condition.
abbrev pub arm_executes : ℕ → ℕ → Bool
arm_executes psr it = if it % 16 == 0 then true else cond_satisfied_psr psr (it / 16)

-- `Later i emu emu'`: `i` instructions lead from `emu` to `emu'`. Each does what it may to the
-- registers, the flags and the memory, leaves the IT state for its step to move on, and its step is
-- ended by `finish`.
pub data Later : ℕ → EmuCtx → EmuCtx → Type 0 where
  now : {emu : EmuCtx} → Later zero emu emu
  after_insn :
      {i : ℕ} {emu emu' : EmuCtx} (ctx : InsnEmuCtx) (insn_length : ℕ)
      → ctx.emu_ctx.cpu.it_state ≡ emu.cpu.it_state
      → ctx.emu_ctx.cpu.it_cond ≡ emu.cpu.it_cond
      → ctx.shift_insn_it_state ≡ true
      → Later i (finish ctx insn_length).emu_ctx emu'
      → Later (suc i) emu emu'

-- The condition that the emulator applies, 0 for none and else one more than its number.
abbrev applied : ℕ → ℕ → ℕ
applied cond state =
    if state % 4 == 0
    then 0
    else if state % 4 == 1
    then cond + 1
    else if state % 4 == 2
    then bit_xor cond 1 + 1
    else 100

abbrev arm_applied : ℕ → ℕ
arm_applied it = if it % 16 == 0 then 0 else it / 16 + 1

-- Both apply the same condition to each instruction of the block, and none after it.
abbrev agrees : ℕ → ℕ → ℕ → Bool
agrees firstcond mask i =
    mask == 0
    || ltb (advanced i (itstate firstcond mask)) 256
      && applied firstcond (it_state_after firstcond mask 0 / 4 ^ i)
        == arm_applied (advanced i (itstate firstcond mask))

agrees_table : holds_below 16 (λ f. holds_below 16 (λ m. holds_below 5 (λ i. agrees f m i))) ≡ true
unfolding holds_below it_state_after
agrees_table = refl

finish-it_state :
    (ctx : InsnEmuCtx) (n : ℕ)
    → (finish ctx n).emu_ctx.cpu.it_state
      ≡ (if ctx.shift_insn_it_state then ctx.emu_ctx.cpu.it_state / 4 else ctx.emu_ctx.cpu.it_state)
unfolding finish finish_pc finish_count finish_psr
finish-it_state ctx n = ground arith

finish-it_cond :
    (ctx : InsnEmuCtx) (n : ℕ) → (finish ctx n).emu_ctx.cpu.it_cond ≡ ctx.emu_ctx.cpu.it_cond
unfolding finish finish_pc finish_count finish_psr
finish-it_cond ctx n = ground arith

Later-it_state :
    {i : ℕ} {emu emu' : EmuCtx} → Later i emu emu' → emu'.cpu.it_state ≡ emu.cpu.it_state / 4 ^ i
Later-it_state now = omega arith
Later-it_state {emu = emu} (after_insn {i = i} ctx n same_state same_cond shifts rest) =
    Later-it_state rest
    ∙ ap (λ st. st / 4 ^ i) (finish-it_state ctx n ∙ rw (shifts, same_state) refl)
    ∙ div-div-eq-div-mul emu.cpu.it_state 4 (4 ^ i)
    ∙ ap (λ (d : ℕ). emu.cpu.it_state / d) (sym (pow-succ' 4 i))

Later-it_cond : {i : ℕ} {emu emu' : EmuCtx} → Later i emu emu' → emu'.cpu.it_cond ≡ emu.cpu.it_cond
Later-it_cond now = refl
Later-it_cond (after_insn ctx n same_state same_cond shifts rest) =
    Later-it_cond rest ∙ finish-it_cond ctx n ∙ same_cond

-- Executing under a condition that is numbered from 1, where 0 is none and 100 is never.
abbrev under : ℕ → ℕ → Bool
under psr cond =
    if cond == 0 then true else if cond == 100 then false else cond_satisfied_psr psr (cond - 1)

should_exec_applied :
    (ctx : InsnEmuCtx)
    → ctx.emu_ctx.cpu.it_cond < 16
    → should_exec_next_insn ctx
      ≡ under (get_psr ctx) (applied ctx.emu_ctx.cpu.it_cond ctx.emu_ctx.cpu.it_state)
unfolding should_exec_next_insn
should_exec_applied ctx h =
    let inverse : bit_xor ctx.emu_ctx.cpu.it_cond 1 < 16 =
      bit_xor-lt 4 ctx.emu_ctx.cpu.it_cond 1 h (omega arith) in
    rw (bit_and_mask 2 ctx.emu_ctx.cpu.it_state) (ground (arith, inverse))

arm_executes_applied : (psr it : ℕ) → it < 256 → arm_executes psr it ≡ under psr (arm_applied it)
arm_executes_applied psr it h = ground arith

agree : (f m i : ℕ) → f < 16 → m < 16 → i < 5 → agrees f m i ≡ true
agree f m i hf hm hi =
    holds_below_sound 5 (agrees f m) i
      (holds_below_sound 16 (λ m. holds_below 5 (agrees f m)) m
        (holds_below_sound 16 (λ f. holds_below 16 (λ m. holds_below 5 (agrees f m))) f agrees_table
          hf)
        hm)
      hi

-- What the table says of one instruction of the block.
agreed :
    (f m i : ℕ)
    → f < 16
    → m < 16
    → m ≢ 0
    → i < 5
    → (advanced i (itstate f m) < 256)
      × (applied f (it_state_after f m 0 / 4 ^ i) ≡ arm_applied (advanced i (itstate f m)))
agreed f m i hf hm nonzero hi = ground (arith, agree f m i hf hm hi)

-- The state after the step of the IT instruction.
abbrev pub opened : EmuCtx → ℕ → ℕ → EmuCtx
opened emu firstcond mask = (finish (i16_it_t1 (start emu) firstcond mask) 2).emu_ctx

opened-it :
    (emu : EmuCtx) (firstcond mask : ℕ)
    → emu.cpu.it_state ≡ 0
    → ((opened emu firstcond mask).cpu.it_state ≡ it_state_after firstcond mask 0)
      × ((opened emu firstcond mask).cpu.it_cond ≡ firstcond)
unfolding i16_it_t1
opened-it emu firstcond mask outside =
    let ctx = i16_it_t1 (start emu) firstcond mask in
    (finish-it_state ctx 2 ∙ ap (it_state_after firstcond mask) outside, finish-it_cond ctx 2)

-- When no IT block is open, the step of the IT instruction with a 4-bit condition and a non-zero
-- 4-bit mask opens a block in which the emulator, after 0 to 4 further instructions that leave the
-- IT state to their steps and may change the registers, the flags and the memory, executes the
-- next one just when the ITSTATE of the architecture, advanced as often, lets it execute under the
-- status register of that moment.
pub should_exec_next_insn-it :
    (emu emu' : EmuCtx) (firstcond mask i : ℕ)
    → emu.cpu.it_state ≡ 0
    → firstcond < 16
    → mask < 16
    → mask ≢ 0
    → i < 5
    → Later i (opened emu firstcond mask) emu'
    → should_exec_next_insn (start emu')
      ≡ arm_executes emu'.cpu.psr (advanced i (itstate firstcond mask))
should_exec_next_insn-it emu emu' firstcond mask i outside hf hm nonzero hi later =
    let (state, cond) = opened-it emu firstcond mask outside in
    let (small, same_condition) = agreed firstcond mask i hf hm nonzero hi in
    let now_cond : emu'.cpu.it_cond ≡ firstcond = Later-it_cond later ∙ cond in
    let now_state : emu'.cpu.it_state ≡ it_state_after firstcond mask 0 / 4 ^ i =
      Later-it_state later ∙ ap (λ st. st / 4 ^ i) state in
    should_exec_applied (start emu') (rw now_cond hf)
    ∙ rw (now_cond, now_state, same_condition)
        (sym (arm_executes_applied emu'.cpu.psr (advanced i (itstate firstcond mask)) small))
