-- ===== src/Disassembly/Print.antt =====
-- impl_disassembly.c: the helpers that print an instruction's name and its operands.
--
-- A handler does nothing but call `printDisassembly`, and reads only the fields that this callback
-- leaves as they are. So a handler is modelled by the texts that it hands over, one for each call,
-- in their order.
use libthumb2sim.Base.{
  ℕ, zero, suc, ◌+◌, ◌*◌, ◌/◌, ◌^◌, Bool, true, not, ◌&&◌, ◌||◌, List, [], ◌∷◌, ◌++◌, ◌==◌,
  if◌then◌else◌, bit_and, bit_or, bit_xor,
}
use libthumb2sim.Emulation.Flags.{it_none, it_then, it_else}
use libthumb2sim.Disassembly.Text.{Text, codes}

-- `struct disas_ctx_t` without its callback and its buffer.
pub record DisasCtx : Type 0 where
  pub pc : ℕ
  pub it_state : ℕ
  pub it_cond : ℕ

-- One call of `printDisassembly`.
abbrev pub say : Text → List Text
say text = text ∷ []

abbrev pub opcode_wide : ℕ
opcode_wide = 1

abbrev pub opcode_narrow : ℕ
opcode_narrow = 2

abbrev pub opcode_setflags : ℕ
opcode_setflags = 4

abbrev pub opcode_setflags_if_uncond : ℕ
opcode_setflags_if_uncond = 8

abbrev pub opcode_force_condition : ℕ
opcode_force_condition = 16

abbrev pub opcode_isconditional : ℕ → ℕ
opcode_isconditional cond = bit_or opcode_force_condition (bit_and cond 15 * 2 ^ 8)

unfoldable pub cc_string : ℕ → Text
cc_string condition =
    if condition == 0
    then codes "eq"
    else if condition == 1
    then codes "ne"
    else if condition == 2
    then codes "cs"
    else if condition == 3
    then codes "cc"
    else if condition == 4
    then codes "mi"
    else if condition == 5
    then codes "pl"
    else if condition == 6
    then codes "vs"
    else if condition == 7
    then codes "vc"
    else if condition == 8
    then codes "hi"
    else if condition == 9
    then codes "ls"
    else if condition == 10
    then codes "ge"
    else if condition == 11
    then codes "lt"
    else if condition == 12
    then codes "gt"
    else if condition == 13
    then codes "le"
    else if condition == 14
    then codes "al"
    else codes "?"

unfoldable pub reg_string : ℕ → Text
reg_string reg =
    if reg == 0
    then codes "r0"
    else if reg == 1
    then codes "r1"
    else if reg == 2
    then codes "r2"
    else if reg == 3
    then codes "r3"
    else if reg == 4
    then codes "r4"
    else if reg == 5
    then codes "r5"
    else if reg == 6
    then codes "r6"
    else if reg == 7
    then codes "r7"
    else if reg == 8
    then codes "r8"
    else if reg == 9
    then codes "r9"
    else if reg == 10
    then codes "sl"
    else if reg == 11
    then codes "fp"
    else if reg == 12
    then codes "ip"
    else if reg == 13
    then codes "sp"
    else if reg == 14
    then codes "lr"
    else if reg == 15
    then codes "pc"
    else codes "r?"

-- Whether a flag of `aFlags` is set.
abbrev pub has : ℕ → ℕ → Bool
has flags flag = not (bit_and flags flag == 0)

-- The condition that is printed after the name, if there is one.
unfoldable pub print_condition : DisasCtx → ℕ → List Text
print_condition ctx flags =
    let current = bit_and ctx.it_state 3 in
    if bit_and flags opcode_force_condition == 0
    then (if current == it_then
        then say (cc_string ctx.it_cond)
        else if current == it_else
        then say (cc_string (bit_xor ctx.it_cond 1))
        else [])
    else say (cc_string (bit_and flags 0xf00 / 2 ^ 8))

-- The `s` of an instruction that sets the flags.
unfoldable pub print_setflags : DisasCtx → ℕ → List Text
print_setflags ctx flags =
    if has flags opcode_setflags
      || (bit_and ctx.it_state 3 == it_none && has flags opcode_setflags_if_uncond)
    then say (codes "s")
    else []

unfoldable pub print_width : ℕ → List Text
print_width flags =
    if has flags opcode_wide
    then say (codes ".w")
    else if has flags opcode_narrow
    then say (codes ".n")
    else []

unfoldable pub print_opcode : DisasCtx → Text → ℕ → List Text
unfolding print_setflags print_condition print_width
print_opcode ctx opcode flags =
    say opcode ++ print_setflags ctx flags ++ print_condition ctx flags ++ print_width flags

-- `for (i = 0; i < 16; i++)` with the rounds left; `first` is the variable of the source.
unfoldable pub reglist_rounds : ℕ → ℕ → ℕ → Bool → List Text
unfolding reg_string
reglist_rounds zero i reg_list first = []
reglist_rounds (suc left) i reg_list first =
    let clear = bit_and reg_list (2 ^ i) == 0 in
    let rest = reglist_rounds left (i + 1) reg_list (first && clear) in
    if clear then rest else (if first then [] else say (codes ", ")) ++ say (reg_string i) ++ rest

unfoldable pub print_reglist : ℕ → List Text
print_reglist reg_list = say (codes " {") ++ reglist_rounds 16 0 reg_list true ++ say (codes "}")
