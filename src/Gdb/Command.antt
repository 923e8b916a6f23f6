-- ===== src/Gdb/Command.antt =====
-- gdbserver/gdbserver.c: the commands of the debugger.
use libthumb2sim.Base.{ℕ, Bool, true, false, Option, none, some, List, [], if◌then◌else◌, ◌>>=◌}
use libthumb2sim.Base.Libc.{same_text, after_prefix, split_at, strtoll16}
use libthumb2sim.Cpu.{EmuCtx}
use libthumb2sim.Emulation.System.{Callbacks}
use libthumb2sim.Simulator.{single_step}
use libthumb2sim.Disassembly.Text.{Text, codes}
use libthumb2sim.Gdb.{tx_frame, gdb_dump_register_set, gdb_dump_memory, gdb_hash_memory}

-- What a command leads to: a reply and the function's result, or the end of the program.
pub data Outcome (U : Type 0) : Type 0 where
  replied : EmuCtx × U → Text → Bool → Outcome U
  exited : Outcome U

module _ {U : Type 0} (host : Callbacks U) (md5 : List ℕ → List ℕ) where
  -- The two numbers of a command, with a comma between them.
  unfoldable pub with_range :
      EmuCtx × U → Text → (ℕ → ℕ → Option (Text × Bool)) → Option (Outcome U)
  with_range s operands dump = elim (split_at 44 operands) [
    | some (start_address, length) ↦ do
      (reply, _) ← dump (strtoll16 start_address) (strtoll16 length)
      some (replied s reply true)
    | none ↦ some (replied s (codes "-") false)
  ]

  -- The commands that are told by their first characters.
  unfoldable pub handle_rest : EmuCtx × U → Text → Option (Outcome U)
  unfolding with_range
  handle_rest (emu, user) msg = elim (after_prefix (codes "m") msg) [
    | some operands ↦ with_range (emu, user) operands (gdb_dump_memory emu)
    | none ↦
        if same_text msg (codes "vCont;s:1;c")
        then (do s ← single_step host (emu, user); some (replied s (tx_frame []) true))
        else elim (after_prefix (codes "k") msg) [
          | some _ ↦ some exited
          | none ↦ elim (after_prefix (codes "qmemhash:") msg) [
            | some operands ↦ with_range (emu, user) operands (gdb_hash_memory md5 emu)
            | none ↦ some (replied (emu, user) (codes "-") false)
          ]
        ]
  ]

  unfoldable pub gdb_handle_command : EmuCtx × U → Text → Option (Outcome U)
  unfolding handle_rest
  gdb_handle_command (emu, user) msg =
      if same_text msg (codes "g")
      then (let (reply, success) = gdb_dump_register_set emu in
          some (replied (emu, user) reply success))
      else handle_rest (emu, user) msg

  -- `rx_data` is the text up to the first 0 of the buffer.
  unfoldable pub interpret_rxdata : EmuCtx × U → Text → Option (Outcome U)
  unfolding gdb_handle_command
  interpret_rxdata s rx_data = elim (after_prefix (codes "+$") rx_data) [
    | some rest ↦ elim (split_at 35 rest) [
      | some (rx_msg, _) ↦ gdb_handle_command s rx_msg
      | none ↦ some (replied s (codes "-") false)
    ]
    | none ↦ some (replied s (codes "-") false)
  ]
