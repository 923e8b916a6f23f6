-- ===== src/Disassembly/Hexdump.antt =====
-- hexdump.c, and `cpu_print_memory` of cpu_cm3.c: the text of a piece of memory.
--
-- The bytes are given as a function of their index. A `char` may be signed or not: above 127 it is
-- printed as a dot either way.
use libthumb2sim.Base.{
  ℕ, zero, suc, ◌+◌, ◌-◌, ◌%◌, ◌||◌, Option, none, some, [], ◌∷◌, ◌++◌, ltb, leb, ◌==◌,
  if◌then◌else◌,
}
use libthumb2sim.AddressSpace.{AddressSpace, memptr}
use libthumb2sim.Disassembly.Text.{Text, codes, signed_decimal, hex, hex_padded}
use libthumb2sim.Disassembly.Trace.{right_aligned}

unfoldable pub hexdump_char : ℕ → ℕ
hexdump_char character = if leb character 32 || leb 127 character then 46 else character

-- `for (j = ...; ...; j++)` over the characters of a row, with the rounds left.
unfoldable pub char_rounds : (ℕ → ℕ) → ℕ → ℕ → Text
unfolding hexdump_char
char_rounds byte zero j = []
char_rounds byte (suc left) j = hexdump_char (byte j) ∷ char_rounds byte left (j + 1)

-- What follows the two digits of byte `i`.
unfoldable pub after_byte : (ℕ → ℕ) → ℕ → Text
unfolding char_rounds
after_byte byte i =
    if (i + 1) % 16 == 0
    then codes "   " ++ char_rounds byte 16 (i - 15) ++ codes "\r\n"
    else if (i + 1) % 8 == 0
    then codes "   "
    else if (i + 1) % 4 == 0
    then codes " "
    else []

-- `for (i = 0; i < length; i++)` with the rounds left.
unfoldable pub byte_rounds : (ℕ → ℕ) → ℕ → ℕ → Text
unfolding after_byte
byte_rounds byte zero i = []
byte_rounds byte (suc left) i =
    (if i % 16 == 0 then right_aligned 4 (hex i) ++ codes "   " else [])
    ++ hex_padded 2 (byte i)
    ++ codes " "
    ++ after_byte byte i
    ++ byte_rounds byte left (i + 1)

unfoldable pub blank_rounds : ℕ → Text
blank_rounds zero = []
blank_rounds (suc left) = codes "   " ++ blank_rounds left

-- The rest of a last row with fewer than 16 bytes.
unfoldable pub last_row : (ℕ → ℕ) → ℕ → Text
unfolding blank_rounds char_rounds
last_row byte length =
    let used = length % 16 in
    if used == 0
    then []
    else blank_rounds (16 - used)
      ++ (if ltb used 4
          then codes "     "
          else if ltb used 8
          then codes "    "
          else if ltb used 12
          then codes " "
          else [])
      ++ codes "   "
      ++ char_rounds byte used (length - used)
      ++ codes "\r\n"

unfoldable pub hexdump_data : (ℕ → ℕ) → ℕ → Text
unfolding byte_rounds last_row
hexdump_data byte length =
    signed_decimal length
    ++ codes " bytes (0x"
    ++ hex length
    ++ codes ") follow:\r\n"
    ++ byte_rounds byte length 0
    ++ last_row byte length

unfoldable pub hexdump_nameddata : Text → (ℕ → ℕ) → ℕ → Text
unfolding hexdump_data
hexdump_nameddata name byte length =
    codes "\"" ++ name ++ codes "\" " ++ hexdump_data byte length ++ codes "\n"

-- NULL is not tested for, and a length of 0 reads no byte; bytes past the end of the block are undefined.
unfoldable pub cpu_print_memory : AddressSpace → ℕ → ℕ → Option Text
unfolding hexdump_data
cpu_print_memory m address length = elim (memptr m address length) [
  | some (block, o) ↦
      if length == 0 || leb (o + length) (m.block_size block)
      then some (hexdump_data (λ i. m.byte block (o + i)) length)
      else none
  | none ↦ if length == 0 then some (hexdump_data (λ i. 0) 0) else none
]
