-- ===== src/Disassembly/Agreement.antt =====
-- impl_disassembly.c and impl_emulation.c: what the text says and what the emulator does.
use libthumb2sim.Base.{
  ℕ, ◌≡◌, refl, ◌⊎◌, inl, inr, Bool, true, false, some, List, [], ◌∷◌, ◌++◌, ◌==◌, if◌then◌else◌,
  bit_and, bit_or, add32, mul32, either, same, append_assoc,
}
use libthumb2sim.Base.{◌≢◌}
use libthumb2sim.Disassembly.Reading.{pair_code}
use libthumb2sim.Cpu.{InsnEmuCtx, reg_pc, get_reg}
use libthumb2sim.Decoder.Insn.{Insn}
use libthumb2sim.Emulation.Flags.{cond_satisfied, should_exec_next_insn}
use libthumb2sim.Emulation.Branch.{
  branch, relative_branch_target as emulated_target, i16_b_t1, i16_b_t2, i32_b_t3, i32_b_t4,
  i32_bl_t1, i16_cbnz_t1,
}
use libthumb2sim.Emulation.Execute.{run_insn}
use libthumb2sim.Disassembly.Text.{Text, codes, hex}
use libthumb2sim.Disassembly.Print.{
  say, reg_string, print_opcode, opcode_wide, opcode_narrow, opcode_isconditional,
}
use libthumb2sim.Disassembly.Branch.{
  relative_branch_target, disassembly_i16_b_t1, disassembly_i16_b_t2, disassembly_i32_b_t3,
  disassembly_i32_b_t4, disassembly_i32_bl_t1, disassembly_i16_cbnz_t1,
}
use libthumb2sim.Disassembly.Dispatch.{disassemble}
use libthumb2sim.Disassembly.Trace.{disas_ctx}

-- The number of the condition with a name of two letters, from the table of the architecture.
abbrev pub condition_number : Text → ℕ
condition_number text =
    let code = pair_code text in
    if code == 0x6571
    then 0
    else if code == 0x6e65
    then 1
    else if code == 0x6373
    then 2
    else if code == 0x6363
    then 3
    else if code == 0x6d69
    then 4
    else if code == 0x706c
    then 5
    else if code == 0x7673
    then 6
    else if code == 0x7663
    then 7
    else if code == 0x6869
    then 8
    else if code == 0x6c73
    then 9
    else if code == 0x6765
    then 10
    else if code == 0x6c74
    then 11
    else if code == 0x6774
    then 12
    else if code == 0x6c65
    then 13
    else if code == 0x616c
    then 14
    else 15

-- No condition is printed outside an IT block, where every instruction is executed. Inside one the
-- printed name is that of the condition that decides on the execution.
pub data Guards (ctx : InsnEmuCtx) : List Text → Type 0 where
  outside :
      bit_and ctx.emu_ctx.cpu.it_state 3 ≡ 0 → should_exec_next_insn ctx ≡ true → Guards ctx []
  inside :
      (name : Text)
      → bit_and ctx.emu_ctx.cpu.it_state 3 ≢ 0
      → should_exec_next_insn ctx ≡ cond_satisfied ctx (condition_number name)
      → Guards ctx (say name)

-- The branches whose target is printed as a number.
pub data RelativeBranch : Type 0 where
  narrow_if wide_if : ℕ → ℕ → RelativeBranch
  narrow wide link : ℕ → RelativeBranch
  if_zero : ℕ → ℕ → Bool → RelativeBranch

unfoldable pub relative_insn : RelativeBranch → Insn
relative_insn (narrow_if imm cond) = Insn.b_t1 imm cond
relative_insn (narrow imm) = Insn.b_t2 imm
relative_insn (wide_if imm cond) = Insn.b_t3 imm cond
relative_insn (wide imm) = Insn.b_t4 imm
relative_insn (link imm) = Insn.bl_t1 imm
relative_insn (if_zero rn imm op) = Insn.cbnz_t1 rn imm op

-- The last text of a list, or none.
abbrev pub last_text : List Text → Text
last_text [] = []
last_text (text ∷ []) = text
last_text (text ∷ next ∷ texts) = last_text (next ∷ texts)

last_text-say : (texts : List Text) (text : Text) → last_text (texts ++ say text) ≡ text
last_text-say [] text = refl
last_text-say (first ∷ []) text = refl
last_text-say (first ∷ second ∷ texts) text = last_text-say (second ∷ texts) text

-- The text ends with `0x` and the hexadecimal digits of a number.
abbrev pub EndsWith : ℕ → Text → Type 0
EndsWith target text = (front : Text) × (text ≡ front ++ (codes "0x" ++ hex target))

ends :
    (calls : List Text) (front text : Text) (target printed : ℕ)
    → text ≡ front ++ (codes "0x" ++ hex printed)
    → printed ≡ target
    → EndsWith target (last_text (calls ++ say text))
ends calls front text target printed e h = (front, cc (last_text-say calls text, e, h))

module _ (ctx ctx' : InsnEmuCtx) (printed : ℕ) where
  abbrev Taken : InsnEmuCtx → Type 0
  Taken next = (next ≡ ctx) ⊎ (next ≡ branch ctx printed)

  Taken-branch :
      (next : InsnEmuCtx)
      → Taken next
      → ctx.advance_pc ≡ true
      → some next ≡ some ctx'
      → ctx'.advance_pc ≡ false
      → printed ≡ get_reg ctx' reg_pc
  Taken-branch next (inl e) adv ran taken = absurd (cc (e, adv, ran, taken))
  Taken-branch next (inr e) adv ran taken = cc (e, ran)

-- For B in its four encodings, BL, CBZ and CBNZ, in a context where the PC is still to be
-- advanced: when the handler of the emulator takes the branch, the last text that the disassembler
-- hands over for the CPU before it ends with 0x and the hexadecimal digits of the PC after it.
pub disassemble-run_insn :
    (b : RelativeBranch) (ctx ctx' : InsnEmuCtx)
    → ctx.advance_pc ≡ true
    → run_insn (relative_insn b) ctx ≡ some ctx'
    → ctx'.advance_pc ≡ false
    → EndsWith
        (get_reg ctx' reg_pc)
        (last_text (disassemble (relative_insn b) (disas_ctx ctx.emu_ctx.cpu)))
unfolding relative_branch_target emulated_target relative_insn run_insn disassemble disas_ctx
    disassembly_i16_b_t1 disassembly_i16_b_t2 disassembly_i32_b_t3 disassembly_i32_b_t4
    disassembly_i32_bl_t1 disassembly_i16_cbnz_t1 i16_b_t1 i16_b_t2 i32_b_t3 i32_b_t4 i32_bl_t1
    i16_cbnz_t1
disassemble-run_insn (narrow_if imm cond) ctx ctx' adv ran taken =
    let printed = relative_branch_target (get_reg ctx reg_pc) imm 8 in
    ends
      (print_opcode (disas_ctx ctx.emu_ctx.cpu) (codes "b")
        (bit_or opcode_narrow (opcode_isconditional cond)))
      (codes " ") (codes " 0x" ++ hex printed) (get_reg ctx' reg_pc) printed refl
      (Taken-branch ctx ctx' printed _
        (either (Taken ctx ctx' printed) (cond_satisfied ctx cond) (inr refl) (inl refl)) adv ran
        taken)
disassemble-run_insn (narrow imm) ctx ctx' adv ran taken =
    let printed = relative_branch_target (get_reg ctx reg_pc) imm 11 in
    ends (print_opcode (disas_ctx ctx.emu_ctx.cpu) (codes "b") opcode_narrow) (codes " ")
      (codes " 0x" ++ hex printed) (get_reg ctx' reg_pc) printed refl (cc ran)
disassemble-run_insn (wide_if imm cond) ctx ctx' adv ran taken =
    let printed = add32 (add32 (get_reg ctx reg_pc) (mul32 2 imm)) 4 in
    ends
      (print_opcode (disas_ctx ctx.emu_ctx.cpu) (codes "b")
        (bit_or opcode_wide (opcode_isconditional cond)))
      (codes " ") (codes " 0x" ++ hex printed) (get_reg ctx' reg_pc) printed refl
      (Taken-branch ctx ctx' printed _
        (either (Taken ctx ctx' printed) (cond_satisfied ctx cond) (inr refl) (inl refl)) adv ran
        taken)
disassemble-run_insn (wide imm) ctx ctx' adv ran taken =
    let printed = add32 (add32 (get_reg ctx reg_pc) (mul32 2 imm)) 4 in
    ends (print_opcode (disas_ctx ctx.emu_ctx.cpu) (codes "b") opcode_wide) (codes " ")
      (codes " 0x" ++ hex printed) (get_reg ctx' reg_pc) printed refl (cc ran)
disassemble-run_insn (link imm) ctx ctx' adv ran taken =
    let printed = add32 (add32 (get_reg ctx reg_pc) (mul32 2 imm)) 4 in
    ends (print_opcode (disas_ctx ctx.emu_ctx.cpu) (codes "bl") 0) (codes " ")
      (codes " 0x" ++ hex printed) (get_reg ctx' reg_pc) printed refl (cc ran)
disassemble-run_insn (if_zero rn imm op) ctx ctx' adv ran taken =
    let printed = relative_branch_target (get_reg ctx reg_pc) imm 7 in
    let front = codes " " ++ reg_string rn in
    let name = if op then codes "cbnz" else codes "cbz" in
    ends (print_opcode (disas_ctx ctx.emu_ctx.cpu) name 0) (front ++ codes ", ")
      (front ++ codes ", 0x" ++ hex printed) (get_reg ctx' reg_pc) printed
      (cc (
        append_assoc front (codes ", ") (codes "0x" ++ hex printed),
        append_assoc front (codes ", 0x") (hex printed),
      ))
      (Taken-branch ctx ctx' printed _
        (either (Taken ctx ctx' printed) (same (get_reg ctx rn == 0) op) (inl refl) (inr refl)) adv
        ran taken)
