-- ===== src/Emulation/Machine/Multiple.antt =====
-- impl_emulation.c: register lists, and the validity of the machine.
use libthumb2sim.Base.{
  ℕ, zero, suc, false, ◌+◌, ◌^◌, ◌<◌, Bool, ◌==◌, if◌then◌else◌, ◌-◌, add32, sub32, not32, either,
}
use libthumb2sim.Base.OnSome.{OnSome, defined, OnSome-bind}
use libthumb2sim.Cpu.{InsnEmuCtx, IsMachine, get_reg, reg_pc}
use libthumb2sim.Emulation.Multiple.{
  i16_ldm_t1, i32_ldm_t2, i16_pop_t1, i32_pop_t2, i32_pop_t3, i16_push_t1, i32_push_t2, i16_stm_t1,
  i32_stm_t2, i32_stmdb_t1,
}
use libthumb2sim.Emulation.Machine.Steps.{steps, read32-bind}
use libthumb2sim.Emulation.Machine.State.{
  u32-lt, bit_and-lt, set_reg-IsMachine, set_memory-IsMachine, set_advance_pc-IsMachine, if-lt,
  if-IsMachine,
}
use libthumb2sim.AddressSpace.{AddressSpace, write32}
use libthumb2sim.AddressSpace.Access.{IsValid}
use libthumb2sim.AddressSpace.Valid.{write32-OnSome}
use libthumb2sim.Emulation.Multiple.{
  listed, store_rounds, store_registers, load_rounds, load_registers,
}

-- What holds after the loops.
abbrev Written : ℕ × AddressSpace → Type 0
Written p = (p.0 < 2 ^ 32) × IsValid p.1

abbrev Loaded : ℕ × InsnEmuCtx → Type 0
Loaded p = (p.0 < 2 ^ 32) × IsMachine p.1

store_rounds-Written :
    (reg : ℕ → ℕ) (registers : ℕ) (up : Bool) (left reg_no addr : ℕ) {mem : AddressSpace}
    → addr < 2 ^ 32
    → IsValid mem
    → OnSome Written (store_rounds reg registers up left reg_no addr mem)
unfolding store_rounds
store_rounds-Written reg registers up zero reg_no addr h v = defined (h, v)
store_rounds-Written reg registers up (suc left) reg_no addr {mem} h v =
    let next = if up then reg_no + 1 else reg_no - 1 in
    let at = if up then addr else sub32 addr 4 in
    let at-lt = if-lt up addr (sub32 addr 4) h (u32-lt _) in
    either (OnSome Written) (listed registers reg_no)
      (OnSome-bind (write32 mem at (reg reg_no)) _ (write32-OnSome v at (reg reg_no)) (λ mem' v'.
        store_rounds-Written reg registers up left next _
          (if-lt up (add32 at 4) at (u32-lt _) at-lt) v'))
      (store_rounds-Written reg registers up left next addr h v)

load_rounds-Loaded :
    (registers left i addr : ℕ) {ctx : InsnEmuCtx}
    → addr < 2 ^ 32
    → IsMachine ctx
    → OnSome Loaded (load_rounds registers left i addr ctx)
unfolding load_rounds
load_rounds-Loaded registers zero i addr h m = defined (h, m)
load_rounds-Loaded registers (suc left) i addr {ctx} h m =
    either (OnSome Loaded) (listed registers i)
      (read32-bind m addr _ (λ value k.
        load_rounds-Loaded registers left (i + 1) (add32 addr 4) (u32-lt _) (
          if-IsMachine (i == reg_pc) _ _
            (set_advance_pc-IsMachine (set_reg-IsMachine m i _ (bit_and-lt value (not32 1) k))
              false)
            (set_reg-IsMachine m i value k))))
      (load_rounds-Loaded registers left (i + 1) addr h m)

module _ {ctx : InsnEmuCtx} (m : IsMachine ctx) where
  store_registers-IsMachine :
      (base registers : ℕ) (up wback : Bool)
      → OnSome IsMachine (store_registers ctx base registers up wback)
  unfolding store_registers
  store_registers-IsMachine base registers up wback =
      OnSome-bind _ _
        (store_rounds-Written (get_reg ctx) registers up 16 _ (get_reg ctx base) (m.reg_bounds base)
          m.memory_valid)
        (λ p w. defined (
          if-IsMachine wback _ _ (set_reg-IsMachine (set_memory-IsMachine m p.1 w.1) base p.0 w.0)
            (set_memory-IsMachine m p.1 w.1)))

  load_registers-IsMachine :
      (base registers : ℕ) (wback : Bool)
      → OnSome IsMachine (load_registers ctx base registers wback)
  unfolding load_registers
  load_registers-IsMachine base registers wback =
      OnSome-bind _ _ (load_rounds-Loaded registers 16 0 (get_reg ctx base) (m.reg_bounds base) m)
        (λ p w. defined (if-IsMachine wback _ _ (set_reg-IsMachine w.1 base p.0 w.0) w.1))

ruleset lists = (steps, store_registers-IsMachine, load_registers-IsMachine)

module _ {ctx : InsnEmuCtx} (valid : IsMachine ctx) where
  pub i16_ldm_t1-IsMachine :
      (rn register_list : ℕ) → OnSome IsMachine (i16_ldm_t1 ctx rn register_list)
  unfolding i16_ldm_t1
  i16_ldm_t1-IsMachine rn register_list = search lists

  pub i32_ldm_t2-IsMachine :
      (rn register_list : ℕ) (p m w : Bool)
      → OnSome IsMachine (i32_ldm_t2 ctx rn register_list p m w)
  unfolding i32_ldm_t2
  i32_ldm_t2-IsMachine rn register_list p m w = search lists

  pub i16_pop_t1-IsMachine :
      (register_list : ℕ) (p : Bool) → OnSome IsMachine (i16_pop_t1 ctx register_list p)
  unfolding i16_pop_t1
  i16_pop_t1-IsMachine register_list p = search lists

  pub i32_pop_t2-IsMachine :
      (register_list : ℕ) (p m : Bool) → OnSome IsMachine (i32_pop_t2 ctx register_list p m)
  unfolding i32_pop_t2
  i32_pop_t2-IsMachine register_list p m = search lists

  pub i32_pop_t3-IsMachine : (rt : ℕ) → OnSome IsMachine (i32_pop_t3 ctx rt)
  unfolding i32_pop_t3
  i32_pop_t3-IsMachine rt = search lists

  pub i16_push_t1-IsMachine :
      (register_list : ℕ) (m : Bool) → OnSome IsMachine (i16_push_t1 ctx register_list m)
  unfolding i16_push_t1
  i16_push_t1-IsMachine register_list m = search lists

  pub i32_push_t2-IsMachine :
      (register_list : ℕ) (m : Bool) → OnSome IsMachine (i32_push_t2 ctx register_list m)
  unfolding i32_push_t2
  i32_push_t2-IsMachine register_list m = search lists

  pub i16_stm_t1-IsMachine :
      (rn register_list : ℕ) → OnSome IsMachine (i16_stm_t1 ctx rn register_list)
  unfolding i16_stm_t1
  i16_stm_t1-IsMachine rn register_list = search lists

  pub i32_stm_t2-IsMachine :
      (rn register_list : ℕ) (m w : Bool) → OnSome IsMachine (i32_stm_t2 ctx rn register_list m w)
  unfolding i32_stm_t2
  i32_stm_t2-IsMachine rn register_list m w = search lists

  pub i32_stmdb_t1-IsMachine :
      (rn register_list : ℕ) (m w : Bool) → OnSome IsMachine (i32_stmdb_t1 ctx rn register_list m w)
  unfolding i32_stmdb_t1
  i32_stmdb_t1-IsMachine rn register_list m w = search lists
