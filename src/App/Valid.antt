-- ===== src/App/Valid.antt =====
-- app/thumb2sim.c with cpu_cm3.c: the machine stays valid while the program runs.
use libthumb2sim.Base.{
  zero, suc, ℕ, ◌+◌, ◌-◌, ◌^◌, ◌<◌, ◌≡◌, refl, subst, Bool, true, false, Option, none, some, leb,
  ◌==◌, if◌then◌else◌, either, arith, Option-cases, inl, inr,
}
use libthumb2sim.Base.OnSome.{OnSome, undefined, defined, OnSome-bind}
use libthumb2sim.AddressSpace
use libthumb2sim.AddressSpace.{store_word, load_word, memptr}
use libthumb2sim.AddressSpace.Access.{IsValid}
use libthumb2sim.AddressSpace.Valid.{store_word-OnSome, load_word-OnSome}
use libthumb2sim.Cpu.{EmuCtx, InsnEmuCtx, IsMachine, reg_r0, reg_r1, reg_r2, reg_pc}
use libthumb2sim.Decoder.Insn.{Insn}
use libthumb2sim.Decoder.Decode.{decode_insn}
use libthumb2sim.Decoder.Operands.{OperandsFit}
use libthumb2sim.Decoder.Operands.Words.{decode_insn-OperandsFit}
use libthumb2sim.Emulation.Flags.{should_exec_next_insn}
use libthumb2sim.Emulation.System.{Pointer, i16_bkpt_t1, syscall}
use libthumb2sim.Emulation.Execute.{run_insn, execute}
use libthumb2sim.Emulation.Machine.State.{set_reg-IsMachine, set_memory-IsMachine}
use libthumb2sim.Emulation.Machine.Execute.{run_insn-IsMachine}
use libthumb2sim.Simulator.{
  Run, ended, running, ImageFile, init_cortexm, run, read_insn_word, start, perform, end_emulation,
  single_step,
}
use libthumb2sim.Simulator.Init.{init_cortexm-IsReady}
use libthumb2sim.Simulator.Finish.{finish-IsMachine}
use libthumb2sim.App.{
  main, cpu_parameters, UserCtx, State, callbacks, end_emulation_callback, bkpt_callback,
  syscall_read, syscall_write, readable, string_ends, syscall_puts, syscall_exit,
}

-- The machine of the program's state is valid.
abbrev pub Good : State → Type 0
Good s = IsMachine (start s.0)

abbrev GoodCtx : InsnEmuCtx × UserCtx → Type 0
GoodCtx s = IsMachine s.0

-- Validity looks at the emulator's part of a context alone.
same_emu : {c d : InsnEmuCtx} → IsMachine c → c.emu_ctx ≡ d.emu_ctx → IsMachine d
same_emu {c} {d} v e = record {
  reg_bounds = λ i. subst (λ (emu : EmuCtx). emu.cpu.reg i < 2 ^ 32) e (v.reg_bounds i);
  psr_bound = subst (λ (emu : EmuCtx). emu.cpu.psr < 2 ^ 32) e v.psr_bound;
  it_cond_bound = subst (λ (emu : EmuCtx). emu.cpu.it_cond < 2 ^ 8) e v.it_cond_bound;
  it_state_bound = subst (λ (emu : EmuCtx). emu.cpu.it_state < 2 ^ 8) e v.it_state_bound;
  memory_valid = subst (λ (emu : EmuCtx). IsValid emu.addr_space) e v.memory_valid;
}

-- What a call of the host's `syscall_read` leaves.
abbrev GoodRead : State × ℕ → Type 0
GoodRead r = Good r.0 × (r.1 < 2 ^ 32)

syscall_read-Good :
    (s : State) (p : Pointer) (n : ℕ) → Good s → OnSome GoodRead (syscall_read s p n)
unfolding syscall_read
syscall_read-Good (emu, usr) none n v =
    either (OnSome GoodRead) (n == 8) undefined (defined (v, omega arith))
syscall_read-Good (emu, usr) (some (block, o)) n v =
    either (OnSome GoodRead) (n == 8)
      (OnSome-bind (store_word emu.addr_space block o 75844) _
        (store_word-OnSome v.memory_valid block o 75844)
        (λ first first_valid.
          OnSome-bind (store_word first block (o + 4) 12257489) _
            (store_word-OnSome first_valid block (o + 4) 12257489)
            (λ second second_valid.
              defined (same_emu (set_memory-IsMachine v second second_valid) refl, omega arith))))
      (defined (v, omega arith))

syscall_write-Good : (s : State) (p : Pointer) (n : ℕ) → Good s → OnSome Good (syscall_write s p n)
unfolding syscall_write
syscall_write-Good (emu, usr) none n v =
    either (OnSome Good) (n == 4) undefined (either (OnSome Good) (n == 0) (defined v) undefined)
syscall_write-Good (emu, usr) (some (block, o)) n v =
    either (OnSome Good) (n == 4)
      (OnSome-bind (load_word emu.addr_space block o) _ (load_word-OnSome v.memory_valid block o)
        (λ word h. defined v))
      (either (OnSome Good) (n == 0) (defined v)
        (either (OnSome Good) (readable emu.addr_space block o n) (defined v) undefined))

syscall_puts-Good : (s : State) (p : Pointer) → Good s → OnSome Good (syscall_puts s p)
unfolding syscall_puts
syscall_puts-Good (emu, usr) none v = undefined
syscall_puts-Good (emu, usr) (some (block, o)) v =
    either (OnSome Good) (string_ends emu.addr_space block o (emu.addr_space.block_size block - o))
      (defined v) undefined

-- A step that is defined or not.
always : {A : Type 0} (o : Option A) → OnSome (λ (a : A). Unit) o
always none = undefined
always (some a) = defined tt

-- A callback that is called where it is asked for, and what is done otherwise.
asked-OnSome :
    {F A : Type 0} {Q : A → Type 0} (b : Bool) (f : F) (call : F → Option A) (otherwise : Option A)
    → OnSome Q (call f)
    → OnSome Q otherwise
    → OnSome Q (elim (if b then some f else none) [ some g ↦ call g | none ↦ otherwise ])
asked-OnSome true f call otherwise h k = h
asked-OnSome false f call otherwise h k = k

syscall-Good : (s : State) → Good s → OnSome Good (syscall callbacks s)
unfolding syscall syscall_exit
syscall-Good (emu, usr) v =
    let number = emu.cpu.reg reg_r0 in
    let len = emu.cpu.reg reg_r2 in
    let pointer = memptr emu.addr_space (emu.cpu.reg reg_r1) len in
    asked-OnSome (number == 0) syscall_read _ _
      (OnSome-bind (syscall_read (emu, usr) pointer len) _
        (syscall_read-Good (emu, usr) pointer len v)
        (λ r good. defined (same_emu (set_reg-IsMachine good.0 reg_r0 r.1 good.1) refl)))
      (asked-OnSome (number == 1) syscall_write _ _ (syscall_write-Good (emu, usr) pointer len v) (
        asked-OnSome (number == 2) syscall_puts _ _ (syscall_puts-Good (emu, usr) pointer v)
          (asked-OnSome (number == 3) syscall_exit _ _ (defined v) (defined v))))

i16_bkpt_t1-GoodCtx :
    (s : InsnEmuCtx × UserCtx) (imm : ℕ) → GoodCtx s → OnSome GoodCtx (i16_bkpt_t1 callbacks s imm)
unfolding i16_bkpt_t1 bkpt_callback
i16_bkpt_t1-GoodCtx (ctx, usr) imm v =
    let emu = ctx.emu_ctx in
    let usr' = if leb 1000000 emu.cpu.insn_ctr then record { end_emulation = true } else usr in
    let good : Good (emu, usr') = same_emu v refl in
    OnSome-bind (if imm == 255 then syscall callbacks (emu, usr') else some (emu, usr')) _
      (either (OnSome Good) (imm == 255) (syscall-Good (emu, usr') good) (defined good))
      (λ s v'. defined (same_emu v' refl))

execute-GoodCtx :
    (insn : Insn) (s : InsnEmuCtx × UserCtx)
    → OperandsFit insn
    → GoodCtx s
    → OnSome GoodCtx (execute callbacks insn s)
unfolding execute
execute-GoodCtx (Insn.bkpt_t1 imm) s fits v = i16_bkpt_t1-GoodCtx s imm v
execute-GoodCtx insn (ctx, usr) fits v =
    OnSome-bind (run_insn insn ctx) (λ ctx'. some (ctx', usr)) (run_insn-IsMachine insn v fits)
      (λ ctx' v'. defined v')

perform-GoodCtx :
    (executed : Bool) (word : ℕ) (s : InsnEmuCtx × UserCtx)
    → GoodCtx s
    → OnSome GoodCtx (perform callbacks executed (decode_insn word).1 s)
unfolding perform
perform-GoodCtx false word s v = defined v
perform-GoodCtx true word s v = elim (Option-cases (decode_insn word).1) [
  | inl nothing ↦ rw nothing (defined v)
  | inr (insn, decoded) ↦
      rw decoded (execute-GoodCtx insn s (decode_insn-OperandsFit word insn decoded) v)
]

single_step-OnSome : (s : State) → Good s → OnSome Good (single_step callbacks s)
unfolding single_step
single_step-OnSome (emu, usr) v =
    let ctx = start emu in
    OnSome-bind (read_insn_word emu.addr_space (emu.cpu.reg reg_pc)) _ (always _) (λ word h.
      OnSome-bind (perform callbacks (should_exec_next_insn ctx) (decode_insn word).1 (ctx, usr)) _
        (perform-GoodCtx (should_exec_next_insn ctx) word (ctx, usr) v)
        (λ s' v'. defined (same_emu (finish-IsMachine s'.0 (decode_insn word).0 v') refl)))

-- The machine is valid in what the main loop leaves after a number of rounds.
abbrev pub GoodRun : Run UserCtx → Type 0
GoodRun (ended s) = Good s
GoodRun (running s) = Good s

run-GoodRun : (fuel : ℕ) (s : State) → Good s → OnSome GoodRun (run callbacks fuel s)
unfolding run end_emulation end_emulation_callback
run-GoodRun zero s v = defined v
run-GoodRun (suc fuel) (emu, usr) v = either (OnSome GoodRun) usr.end_emulation (defined v) (
    OnSome-bind (single_step callbacks (emu, usr)) _ (single_step-OnSome (emu, usr) v)
      (run-GoodRun fuel))

booted_ok :
    (allocated : Bool) (rom_image : Option ImageFile)
    → OnSome
        (λ (emu : EmuCtx). IsMachine (start emu))
        (init_cortexm cpu_parameters allocated rom_image none)
unfolding init_cortexm libthumb2sim.AddressSpace.add_region libthumb2sim.AddressSpace.init
booted_ok false rom_image = undefined
booted_ok true rom_image =
    let (emu, boots, ready, space) =
      init_cortexm-IsReady cpu_parameters rom_image none (omega arith) in
    rw boots (defined ready.machine)

-- Whatever the ROM image is, and whether or not there is memory for the emulator: what the program
-- comes to after any number of rounds of its main loop, ended or still running, if that is
-- defined, is a valid machine, with registers and a status register of 32 bits, IT fields of 8
-- bits and a valid address space.
pub main-GoodRun :
    (fuel : ℕ) (allocated : Bool) (rom_image : Option ImageFile)
    → OnSome GoodRun (main fuel allocated rom_image)
unfolding main
main-GoodRun fuel allocated rom_image =
    OnSome-bind (init_cortexm cpu_parameters allocated rom_image none) _
      (booted_ok allocated rom_image)
      (λ emu v. run-GoodRun fuel (emu, record { end_emulation = false }) v)
