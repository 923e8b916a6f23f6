-- ===== src/App.antt =====
-- app/thumb2sim.c: the program that runs a ROM image, and its callbacks.
--
-- What it prints is left out; the memory that is read for printing is not. The callbacks of
-- gdbserver/gdbserver.c are the same.
pub mod Exit
pub mod Valid
use libthumb2sim.Base.{
  ℕ, zero, suc, ◌+◌, ◌-◌, ◌*◌, ◌^◌, Bool, true, false, Option, none, some, ◌||◌, ◌&&◌, ltb, leb,
  ◌==◌, if◌then◌else◌, ◌>>=◌,
}
use libthumb2sim.AddressSpace.{AddressSpace, load_word, store_word}
use libthumb2sim.Cpu.{EmuCtx}
use libthumb2sim.Emulation.System.{Callbacks, Pointer}
use libthumb2sim.Simulator.{HardwareParams, ImageFile, Run, init_cortexm, run}

-- `struct user_ctx_t`
pub record UserCtx : Type 0 where
  pub end_emulation : Bool

abbrev pub State : Type 0
State = EmuCtx × UserCtx

unfoldable pub bkpt_callback : State → ℕ → Option State
bkpt_callback (emu, usr) bkpt_number =
    some (emu, if leb 1000000 emu.cpu.insn_ctr then record { end_emulation = true } else usr)

unfoldable pub end_emulation_callback : State → EmuCtx × UserCtx × Bool
end_emulation_callback (emu, usr) = (emu, usr, usr.end_emulation)

-- NULL is not tested for: to follow it is undefined.
unfoldable pub syscall_read : State → Pointer → ℕ → Option (State × ℕ)
syscall_read (emu, usr) destination max_length =
    if max_length == 8
    then (do
      (block, o) ← destination
      first ← store_word emu.addr_space block o 75844
      second ← store_word first block (o + 4) 12257489
      some ((record emu { addr_space = second }, usr), 0))
    else some ((emu, usr), 0)

-- The bytes that are printed, of which each must be readable.
unfoldable pub readable : AddressSpace → ℕ → ℕ → ℕ → Bool
readable m block o zero = true
readable m block o (suc left) = ltb o (m.block_size block) && readable m block (o + 1) left

unfoldable pub syscall_write : State → Pointer → ℕ → Option State
unfolding readable
syscall_write (emu, usr) source length =
    if length == 4
    then (do (block, o) ← source; word ← load_word emu.addr_space block o; some (emu, usr))
    else if length == 0
    then some (emu, usr)
    else (do
      (block, o) ← source
      if readable emu.addr_space block o length then some (emu, usr) else none)

-- The characters up to a 0, with the bytes left in the block.
unfoldable pub string_ends : AddressSpace → ℕ → ℕ → ℕ → Bool
string_ends m block o zero = false
string_ends m block o (suc left) = m.byte block o == 0 || string_ends m block (o + 1) left

unfoldable pub syscall_puts : State → Pointer → Option State
unfolding string_ends
syscall_puts (emu, usr) msg = do
  (block, o) ← msg
  let ends = string_ends emu.addr_space block o (emu.addr_space.block_size block - o)
  if ends then some (emu, usr) else none

unfoldable pub syscall_exit : State → ℕ → Option State
syscall_exit (emu, usr) status = some (emu, record { end_emulation = true })

abbrev pub callbacks : Callbacks UserCtx
callbacks = record {
  bkpt_callback = some bkpt_callback;
  end_emulation_callback = some end_emulation_callback;
  syscall_read = some syscall_read;
  syscall_write = some syscall_write;
  syscall_puts = some syscall_puts;
  syscall_exit = some syscall_exit;
}

abbrev pub cpu_parameters : HardwareParams
cpu_parameters = record {
  rom_size_bytes = 1024 * 1024;
  ram_size_bytes = 128 * 1024;
  ivt_base_address = 0x08000000;
  rom_base_address = 0x08000000;
  ram_base_address = 0x20000000;
}

-- `main` with its one argument, the file of that name and fuel for the main loop; NULL from
-- `init_cortexm` is not tested for.
unfoldable pub main : ℕ → Bool → Option ImageFile → Option (Run UserCtx)
main fuel allocated rom_image = do
  emu ← init_cortexm cpu_parameters allocated rom_image none
  run callbacks fuel (emu, record { end_emulation = false })
