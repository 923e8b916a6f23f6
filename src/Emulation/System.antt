-- ===== src/Emulation/System.antt =====
-- impl_emulation.c: the breakpoint instruction, by which the guest calls the host.
--
-- The host's callbacks are parameters: each may be absent, and may change the emulator's state and the
-- host's own, the `user` of `emu_ctx_t`. A pointer is a block and an offset, NULL is `none`. A callback
-- that C leaves undefined gives `none`.
use libthumb2sim.Base.{ℕ, Bool, Option, none, some, ◌==◌, if◌then◌else◌, ◌>>=◌}
use libthumb2sim.Cpu.{EmuCtx, InsnEmuCtx, reg_r0, reg_r1, reg_r2, update}
use libthumb2sim.AddressSpace.{memptr}

abbrev pub Pointer : Type 0
Pointer = Option (ℕ × ℕ)

-- The callbacks of `emu_ctx_t`, over the type of `user`.
pub record Callbacks (U : Type 0) : Type 0 where
  pub bkpt_callback : Option (EmuCtx × U → ℕ → Option (EmuCtx × U))
  pub end_emulation_callback : Option (EmuCtx × U → EmuCtx × U × Bool)
  pub syscall_read : Option (EmuCtx × U → Pointer → ℕ → Option ((EmuCtx × U) × ℕ))
  pub syscall_write : Option (EmuCtx × U → Pointer → ℕ → Option (EmuCtx × U))
  pub syscall_puts : Option (EmuCtx × U → Pointer → Option (EmuCtx × U))
  pub syscall_exit : Option (EmuCtx × U → ℕ → Option (EmuCtx × U))

abbrev pub syscall_guest_read : ℕ
syscall_guest_read = 0

abbrev pub syscall_guest_write : ℕ
syscall_guest_write = 1

abbrev pub syscall_guest_puts : ℕ
syscall_guest_puts = 2

abbrev pub syscall_guest_exit : ℕ
syscall_guest_exit = 3

-- A callback that is set and asked for by the guest's number.
abbrev asked : {F : Type 0} → ℕ → ℕ → Option F → Option F
asked syscall_no number callback = if syscall_no == number then callback else none

abbrev set_r0 : EmuCtx → ℕ → EmuCtx
set_r0 emu v =
    let cpu = emu.cpu in record emu { cpu = record cpu { reg = update cpu.reg reg_r0 v } }

module _ {U : Type 0} (host : Callbacks U) where
  -- The numbers differ, so at most one callback is asked for.
  unfoldable pub syscall : EmuCtx × U → Option (EmuCtx × U)
  syscall (emu, user) =
      let syscall_no = emu.cpu.reg reg_r0 in
      let data_ptr = emu.cpu.reg reg_r1 in
      let len = emu.cpu.reg reg_r2 in
      let pointer = memptr emu.addr_space data_ptr len in
      elim (asked syscall_no syscall_guest_read host.syscall_read) [
        | some read ↦ do
          ((emu', user'), got) ← read (emu, user) pointer len
          some (set_r0 emu' got, user')
        | none ↦ elim (asked syscall_no syscall_guest_write host.syscall_write) [
          | some write ↦ write (emu, user) pointer len
          | none ↦ elim (asked syscall_no syscall_guest_puts host.syscall_puts) [
            | some puts ↦ puts (emu, user) pointer
            | none ↦ elim (asked syscall_no syscall_guest_exit host.syscall_exit) [
              | some exit ↦ exit (emu, user) len
              | none ↦ some (emu, user)
            ]
          ]
        ]
      ]

  unfoldable pub i16_bkpt_t1 : InsnEmuCtx × U → ℕ → Option (InsnEmuCtx × U)
  unfolding syscall
  i16_bkpt_t1 (ctx, user) imm = do
    (emu₁, user₁) ← elim host.bkpt_callback [
      | some callback ↦ callback (ctx.emu_ctx, user) imm
      | none ↦ some (ctx.emu_ctx, user)
    ]
    (emu₂, user₂) ← if imm == 255 then syscall (emu₁, user₁) else some (emu₁, user₁)
    some (record ctx { emu_ctx = emu₂ }, user₂)
