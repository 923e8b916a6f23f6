-- ===== src/Disassembly/Reading.antt =====
-- impl_disassembly.c: reading the printed names and numbers back.
use libthumb2sim.Base.{
  ℕ, zero, suc, ◌+◌, ◌-◌, ◌*◌, ◌/◌, ◌%◌, ◌^◌, ◌<◌, ◌≡◌, refl, [], ◌∷◌, ◌++◌, ltb, ◌==◌,
  if◌then◌else◌, holds_below, holds_below_sound, ==_iff, arith,
}
use libthumb2sim.Disassembly.Text.{Text, digit_char, digits, decimal, hex}
use libthumb2sim.Disassembly.Print.{reg_string}
use native.Mathlib.Nat.{pow-suc}

-- The number that a digit stands for.
abbrev pub digit_value : ℕ → ℕ
digit_value c = if ltb c 58 then c - 48 else c - 87

-- The number that the digits write in a base, read from the left onto a number.
unfoldable pub read_digits : ℕ → ℕ → Text → ℕ
read_digits base before [] = before
read_digits base before (c ∷ text) = read_digits base (before * base + digit_value c) text

read_digits-append :
    (base before : ℕ) (xs ys : Text)
    → read_digits base before (xs ++ ys) ≡ read_digits base (read_digits base before xs) ys
unfolding read_digits
read_digits-append base before [] ys = refl
read_digits-append base before (x ∷ xs) ys =
    read_digits-append base (before * base + digit_value x) xs ys

digit_value-digit_char : (d : ℕ) → d < 16 → digit_value (digit_char d) ≡ d
digit_value-digit_char d h = ground arith

-- Hexadecimal digits that are printed read back as the number, if the fuel is enough.
read_digits-hex : (fuel n : ℕ) → n < 16 ^ fuel → read_digits 16 0 (digits 16 fuel n) ≡ n
unfolding digits read_digits
read_digits-hex zero n h = omega arith
read_digits-hex (suc fuel) n h =
    let below : (n / 16 < 16 ^ fuel) = omega (arith, pow-suc 16 fuel) in
    grind (
      arith,
      read_digits-append 16 0 (digits 16 fuel (n / 16)) (digit_char (n % 16) ∷ []),
      read_digits-hex fuel (n / 16) below,
      digit_value-digit_char n,
      digit_value-digit_char (n % 16),
    )

-- Likewise for decimal ones.
read_digits-dec : (fuel n : ℕ) → n < 10 ^ fuel → read_digits 10 0 (digits 10 fuel n) ≡ n
unfolding digits read_digits
read_digits-dec zero n h = omega arith
read_digits-dec (suc fuel) n h =
    let below : (n / 10 < 10 ^ fuel) = omega (arith, pow-suc 10 fuel) in
    grind (
      arith,
      read_digits-append 10 0 (digits 10 fuel (n / 10)) (digit_char (n % 10) ∷ []),
      read_digits-dec fuel (n / 10) below,
      digit_value-digit_char n,
      digit_value-digit_char (n % 10),
    )

pub read_digits-numbers :
    (n : ℕ) → n < 2 ^ 32 → (read_digits 16 0 (hex n) ≡ n) × (read_digits 10 0 (decimal n) ≡ n)
read_digits-numbers n h = (read_digits-hex 8 n (omega arith), read_digits-dec 10 n (omega arith))

-- The first two characters of a text as one number.
abbrev pub pair_code : Text → ℕ
pair_code [] = 0
pair_code (c ∷ []) = c
pair_code (c ∷ d ∷ text) = c * 2 ^ 8 + d

-- The register with a name: the letter and the digit, or one of the six names.
unfoldable pub reg_number : Text → ℕ
reg_number text =
    let code = pair_code text in
    if code == 0x736c
    then 10
    else if code == 0x6670
    then 11
    else if code == 0x6970
    then 12
    else if code == 0x7370
    then 13
    else if code == 0x6c72
    then 14
    else if code == 0x7063
    then 15
    else code % 2 ^ 8 - 48

pub reg_number-reg_string : (reg : ℕ) → reg < 16 → reg_number (reg_string reg) ≡ reg
unfolding reg_number reg_string holds_below
reg_number-reg_string reg h =
    (==_iff (reg_number (reg_string reg)) reg).0
      (holds_below_sound 16 (λ r. reg_number (reg_string r) == r) reg refl h)
