-- ===== src/Simulator/Loop.antt =====
-- cpu_cm3.c, `cpu_run`: the main loop and when it ends.
use libthumb2sim.Base.{
  ◌+◌, ℕ, zero, suc, ◌+◌, ◌%◌, ◌^◌, ◌<◌, ◌≡◌, ◌≢◌, ◌↔◌, inl, inr, refl, sym, ap, ◌∙◌, Bool, true,
  false, Option, none, some, ◌>>=◌, Bool-cases, Option-cases, arith,
}
use libthumb2sim.Cpu.{EmuCtx, reg_pc}
use libthumb2sim.Simulator.{read_insn_word, Run, ended, running, single_step, end_emulation, run}
use libthumb2sim.Emulation.System.{Callbacks}
use libthumb2sim.Decoder.Decode.{first_match, rows}
use libthumb2sim.Simulator.Step.{passed, single_step-undecodable, reg-passed}

module _ {U : Type 0} (host : Callbacks U) where
  -- `Rounds n s t`: from `s` the loop comes to the beginning of another round in `t`, after `n` rounds.
  pub data Rounds : ℕ → EmuCtx × U → EmuCtx × U → Type 0 where
    start_here : {s : EmuCtx × U} → Rounds zero s s
    one_more :
        {n : ℕ} {s t u : EmuCtx × U} {emu : EmuCtx} {user : U}
        → end_emulation host s ≡ (emu, user, false)
        → single_step host (emu, user) ≡ some t
        → Rounds n t u
        → Rounds (suc n) s u

  -- The loop ends with `r` after fewer than `fuel` rounds.
  abbrev pub EndsWithin : ℕ → EmuCtx × U → EmuCtx × U → Type 0
  EndsWithin fuel s r =
      (n : ℕ) × (t : EmuCtx × U) × (n < fuel)
      × Rounds n s t
      × (end_emulation host t ≡ (r.0, r.1, true))

  pub run_stop :
      (fuel : ℕ) (s r : EmuCtx × U)
      → end_emulation host s ≡ (r.0, r.1, true)
      → run host (suc fuel) s ≡ some (ended r)
  unfolding run
  run_stop fuel s r stop = rw stop refl

  pub run_go :
      (fuel : ℕ) (s t : EmuCtx × U)
      → end_emulation host s ≡ (t.0, t.1, false)
      → run host (suc fuel) s ≡ (single_step host t >>= run host fuel)
  unfolding run
  run_go fuel s t go = rw go refl

  run_complete :
      (fuel : ℕ) {n : ℕ} {s t r : EmuCtx × U}
      → n < fuel
      → Rounds n s t
      → end_emulation host t ≡ (r.0, r.1, true)
      → run host fuel s ≡ some (ended r)
  run_complete zero lt rounds stop = absurd (omega arith)
  run_complete (suc fuel) {s = s} {r = r} lt start_here stop = run_stop fuel s r stop
  run_complete (suc fuel) {s = s} lt (one_more {emu = emu} {user = user} go step rest) stop =
      run_go fuel s (emu, user) go ∙ rw step (run_complete fuel (omega arith) rest stop)

  ended_inj :
      {r t : EmuCtx × U} → ◌≡◌ {A = Option (Run U)} (some (ended r)) (some (ended t)) → r ≡ t
  ended_inj e = cc e

  run_out : (s r : EmuCtx × U) → run host 0 s ≢ some (ended r)
  unfolding run
  run_out s r e = absurd (cc e)

  run_sound : (fuel : ℕ) (s r : EmuCtx × U) → run host fuel s ≡ some (ended r) → EndsWithin fuel s r
  run_sound zero s r e = absurd (run_out s r e)
  run_sound (suc fuel) s r e =
      let t : EmuCtx × U = ((end_emulation host s).0, (end_emulation host s).1) in
      elim (Bool-cases (end_emulation host s).2) [
        | inl stop ↦
            let stops : end_emulation host s ≡ (t.0, t.1, true) =
              ap (λ (b : Bool). (t.0, t.1, b)) stop in
            let same_end : t ≡ r = ended_inj (sym (run_stop fuel s t stops) ∙ e) in
            (
              0,
              s,
              omega arith,
              start_here,
              stops ∙ ap (λ (q : EmuCtx × U). (q.0, q.1, true)) same_end,
            )
        | inr go ↦
            let goes : end_emulation host s ≡ (t.0, t.1, false) =
              ap (λ (b : Bool). (t.0, t.1, b)) go in
            let later : (single_step host t >>= run host fuel) ≡ some (ended r) =
              sym (run_go fuel s t goes) ∙ e in
            elim (Option-cases (single_step host t)) [
              | inl undefined ↦ absurd (cc (sym (ap (λ o. o >>= run host fuel) undefined) ∙ later))
              | inr (u, step) ↦
                  let (n, v, lt, rounds, stop) =
                    run_sound fuel u r (sym (ap (λ o. o >>= run host fuel) step) ∙ later) in
                  (suc n, v, omega arith, one_more goes step rounds, stop)
            ]
      ]

  -- Within a given number of rounds the main loop ends in a state just when fewer rounds of single
  -- steps, none of them ended by the callback, lead to a state in which the callback ends the
  -- emulation in that state.
  pub run-ended_iff :
      (fuel : ℕ) (s r : EmuCtx × U) → (run host fuel s ≡ some (ended r)) ↔ EndsWithin fuel s r
  run-ended_iff fuel s r = (
    run_sound fuel s r,
    λ e. let (n, t, lt, rounds, stop) = e in run_complete fuel lt rounds stop,
  )

never_ends :
    {U : Type 0} (host : Callbacks U) (emu : EmuCtx) (user : U)
    → host.end_emulation_callback ≡ none
    → end_emulation host (emu, user) ≡ (emu, user, false)
unfolding end_emulation
never_ends host emu user never = rw never refl

-- What stays through every round.
abbrev pub IsStuck : EmuCtx → EmuCtx → Type 0
IsStuck emu emu' = (emu'.cpu.reg ≡ emu.cpu.reg) × (emu'.addr_space ≡ emu.addr_space)

-- Without an end-of-emulation callback, and with a 32-bit PC at a word that no branch of the
-- decoder takes, the main loop is still running after any number of rounds, with the same
-- registers, the PC among them, and the same memory.
pub run-undecodable :
    {U : Type 0} (host : Callbacks U) (fuel : ℕ) (emu : EmuCtx) (user : U) (word : ℕ)
    → host.end_emulation_callback ≡ none
    → emu.cpu.reg reg_pc < 2 ^ 32
    → read_insn_word emu.addr_space (emu.cpu.reg reg_pc) ≡ some word
    → first_match rows word ≡ none
    → (emu' : EmuCtx) × (run host fuel (emu, user) ≡ some (running (emu', user))) × IsStuck emu emu'
unfolding run
run-undecodable host zero emu user word never bound fetched undecodable = (emu, refl, (refl, refl))
run-undecodable host (suc fuel) emu user word never bound fetched undecodable =
    let stay : (passed emu 0).cpu.reg ≡ emu.cpu.reg = reg-passed emu bound in
    let pc : (emu.cpu.reg reg_pc + 0) % 2 ^ 32 ≡ emu.cpu.reg reg_pc = ap (λ r. r reg_pc) stay in
    let (emu', goes, same_state) =
      run-undecodable host fuel (passed emu 0) user word never (rw pc bound) (rw pc fetched)
        undecodable in
    (
      emu',
      run_go host fuel (emu, user) (emu, user) (never_ends host emu user never)
          ∙ rw (single_step-undecodable host emu user word fetched undecodable) goes,
      (same_state.0 ∙ stay, same_state.1),
    )
