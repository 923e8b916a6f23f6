-- ===== src/Disassembly/Lengths.antt =====
-- impl_disassembly.c: how long the printed texts are.
pub mod Operands
pub mod Texts
pub mod Dispatch
use libthumb2sim.Base.{
  ℕ, zero, suc, ◌+◌, ◌-◌, ◌*◌, ◌/◌, ◌%◌, ◌^◌, ◌≤◌, ◌<◌, ◌≡◌, refl, Bool, true, false, ◌&&◌, List,
  [], ◌∷◌, ◌++◌, ltb, leb, ◌==◌, length, length-append, if◌then◌else◌, bit_and, bit_xor, arith,
  leb→le, either,
}
use libthumb2sim.Disassembly.Text.{
  Text, codes, digits, digit_char, decimal, signed_decimal, hex, hex_padded, pad,
}
use libthumb2sim.Disassembly.Print.{
  DisasCtx, say, cc_string, reg_string, print_setflags, print_width, print_condition, print_opcode,
  print_reglist, reglist_rounds,
}

-- The length of the texts together.
abbrev pub total : List Text → ℕ
total [] = 0
total (text ∷ texts) = length text + total texts

pub at_most : (n : ℕ) → n ≤ n
at_most n = omega arith

pub zero_le : (n : ℕ) → 0 ≤ n
zero_le n = omega arith

pub le : (m n : ℕ) → leb m n ≡ true → m ≤ n
le m n h = leb→le m n h

pub weaken : {x m : ℕ} (n : ℕ) → x ≤ m → leb m n ≡ true → x ≤ n
weaken {m = m} n h k = omega (arith, leb→le m n k)

pub length_cat :
    {m n : ℕ} (xs ys : Text) → length xs ≤ m → length ys ≤ n → length (xs ++ ys) ≤ m + n
length_cat xs ys h k = omega (arith, length-append xs ys)

pub total-append : (xs ys : List Text) → total (xs ++ ys) ≡ total xs + total ys
total-append [] ys = omega arith
total-append (x ∷ xs) ys = omega (arith, total-append xs ys)

pub total_cat :
    {m n : ℕ} (xs ys : List Text) → total xs ≤ m → total ys ≤ n → total (xs ++ ys) ≤ m + n
total_cat xs ys h k = omega (arith, total-append xs ys)

pub say_le : {n : ℕ} (text : Text) → length text ≤ n → total (say text) ≤ n
say_le text h = omega arith

digits_le : (base fuel n : ℕ) → length (digits base fuel n) ≤ fuel
unfolding digits
digits_le base zero n = omega arith
digits_le base (suc fuel) n = ground (
  arith,
  length-append (digits base fuel (n / base)) (digit_char (n % base) ∷ []),
  digits_le base fuel (n / base),
)

pub decimal_le : (n : ℕ) → length (decimal n) ≤ 10
decimal_le n = digits_le 10 10 n

pub hex_le : (n : ℕ) → length (hex n) ≤ 8
hex_le n = digits_le 16 8 n

pub signed_decimal_le : (n : ℕ) → length (signed_decimal n) ≤ 11
signed_decimal_le n =
    either (λ t. length t ≤ 11) (ltb n (2 ^ 31)) (weaken 11 (decimal_le n) refl)
      (length_cat (codes "-") (decimal (2 ^ 32 - n)) (at_most 1) (decimal_le (2 ^ 32 - n)))

length-pad : (character k : ℕ) (text : Text) → length (pad character k text) ≡ k + length text
unfolding pad
length-pad character zero text = omega arith
length-pad character (suc k) text = omega (arith, length-pad character k text)

pub hex_padded_le : (n : ℕ) → length (hex_padded 4 n) ≤ 8
hex_padded_le n = omega (arith, length-pad 48 (4 - length (hex n)) (hex n), hex_le n)

pub cc_string_le : (condition : ℕ) → length (cc_string condition) ≤ 2
unfolding cc_string
cc_string_le condition = ground arith

pub reg_string_le : (reg : ℕ) → length (reg_string reg) ≤ 2
unfolding reg_string
reg_string_le reg = ground arith

print_condition_le : (ctx : DisasCtx) (flags : ℕ) → total (print_condition ctx flags) ≤ 2
unfolding print_condition
print_condition_le ctx flags = ground (
  arith,
  cc_string_le ctx.it_cond,
  cc_string_le (bit_xor ctx.it_cond 1),
  cc_string_le (bit_and flags 0xf00 / 2 ^ 8),
)

print_setflags_le : (ctx : DisasCtx) (flags : ℕ) → total (print_setflags ctx flags) ≤ 1
unfolding print_setflags
print_setflags_le ctx flags = ground arith

print_width_le : (flags : ℕ) → total (print_width flags) ≤ 2
unfolding print_width
print_width_le flags = ground arith

pub print_opcode_le :
    (ctx : DisasCtx) (opcode : Text) (flags : ℕ)
    → length opcode ≤ 5
    → total (print_opcode ctx opcode flags) ≤ 10
unfolding print_opcode
print_opcode_le ctx opcode flags h = omega (
  arith,
  total-append (say opcode ++ print_setflags ctx flags ++ print_condition ctx flags)
      (print_width flags),
  total-append (say opcode ++ print_setflags ctx flags) (print_condition ctx flags),
  print_setflags_le ctx flags,
  print_condition_le ctx flags,
  print_width_le flags,
)

reglist_rounds_le :
    (left i list : ℕ) (first : Bool) → total (reglist_rounds left i list first) ≤ 4 * left
unfolding reglist_rounds
reglist_rounds_le zero i list first = omega arith
reglist_rounds_le (suc left) i list first =
    let clear = bit_and list (2 ^ i) == 0 in
    let rest = reglist_rounds left (i + 1) list (first && clear) in
    ground (
      arith,
      total-append ((if first then [] else say (codes ", ")) ++ say (reg_string i)) rest,
      total-append (if first then [] else say (codes ", ")) (say (reg_string i)),
      reg_string_le i,
      reglist_rounds_le left (i + 1) list (first && clear),
    )

pub print_reglist_le : (list : ℕ) → total (print_reglist list) ≤ 67
unfolding print_reglist
print_reglist_le list = omega (
  arith,
  total-append (reglist_rounds 16 0 list true) (say (codes "}")),
  reglist_rounds_le 16 0 list true,
)
