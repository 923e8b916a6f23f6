-- ===== src/Disassembly/Testcase.antt =====
-- disassembler.c: the lines of a file of test cases for the disassembler.
--
-- `decodeInstruction`, which a line is run with, is declared nowhere in the repository; so a line is
-- followed up to the arguments of that call. A byte of `data` that is not read is left out.
use libthumb2sim.Base.{
  ℕ, zero, suc, ◌*◌, ◌/◌, ◌%◌, ◌^◌, ◌≤◌, ◌<◌, ◌≡◌, refl, true, Option, none, some, List, [], ◌∷◌,
  ◌++◌, ltb, ◌==◌, if◌then◌else◌, ◌>>=◌, u8, u32, bit_or, length, take, All, holds_below,
  holds_below_sound, ==_iff, arith,
}
use libthumb2sim.Base.Libc.{split_at, strtoll16, skip_spaces, split_sign, skip_0x, leading_number}
use libthumb2sim.Disassembly.Text.{Text, codes}
use libthumb2sim.Gdb.{nibble_to_hexchar, memory_to_hexstr}

-- The loop of `parseHexStr`, two characters a round; `strtoul` of a short text is that of `strtoll`.
unfoldable pub hex_str_rounds : Text → List ℕ
hex_str_rounds [] = []
hex_str_rounds (high ∷ []) = []
hex_str_rounds (high ∷ low ∷ text) = u8 (strtoll16 (high ∷ low ∷ [])) ∷ hex_str_rounds text

-- `none` is the result -1.
unfoldable pub parse_hex_str : Text → ℕ → Option (List ℕ)
unfolding hex_str_rounds
parse_hex_str hex_str max_length =
    if length hex_str % 2 == 1
    then none
    else if ltb max_length (length hex_str / 2)
    then none
    else some (hex_str_rounds hex_str)

-- The word of a wide instruction, or of a narrow one in the upper half.
unfoldable pub bin_opcode : List ℕ → Option ℕ
bin_opcode (a ∷ b ∷ c ∷ d ∷ []) =
    some (u32 (bit_or (bit_or (bit_or (a * 2 ^ 16) (b * 2 ^ 24)) c) (d * 2 ^ 8)))
bin_opcode (a ∷ b ∷ []) = some (u32 (bit_or a (b * 2 ^ 8) * 2 ^ 16))
bin_opcode _ = none

-- `strtok_empty` again and again: the pieces between the bars, at most as many as the fuel.
unfoldable pub elements : ℕ → Text → List Text
elements zero line = []
elements (suc left) line = elim (split_at 124 line) [
  | some (element, rest) ↦ element ∷ elements left rest
  | none ↦ line ∷ []
]

-- A newline at the end of the line is removed.
unfoldable pub without_newline : Text → Text
without_newline [] = []
without_newline (c ∷ []) = if c == 10 then [] else c ∷ []
without_newline (c ∷ d ∷ line) = c ∷ without_newline (d ∷ line)

abbrev pub max_elements : ℕ
max_elements = 32

-- The text that the disassembly is compared with.
unfoldable pub expect_text : Text → Text → Text
expect_text params full_opcode = elim params [
  | [] ↦ take 127 full_opcode
  | ◌∷◌ c rest ↦ take 127 (full_opcode ++ (codes " " ++ (c ∷ rest)))
]

-- `parseLine`: the instruction word and the expected text of a line of six elements.
unfoldable pub parse_line : Text → Option (ℕ × Text)
parse_line line = elim (elements max_elements (without_newline line)) [
  | ◌∷◌ hex_str (◌∷◌ pc (◌∷◌ cond_code (◌∷◌ opcode (◌∷◌ params (◌∷◌ full_opcode []))))) ↦ do
    parsed ← parse_hex_str hex_str 128
    word ← bin_opcode parsed
    some (word, expect_text params full_opcode)
  | _ ↦ none
]

all_bytes :
    holds_below
      (2 ^ 8)
      (λ k. u8 (strtoll16 (nibble_to_hexchar (k / 2 ^ 4) ∷ nibble_to_hexchar k ∷ [])) == k)
    ≡ true
unfolding holds_below strtoll16 skip_spaces split_sign skip_0x leading_number nibble_to_hexchar
all_bytes = refl

byte_digits :
    (b : ℕ)
    → b < 2 ^ 8
    → u8 (strtoll16 (nibble_to_hexchar (b / 2 ^ 4) ∷ nibble_to_hexchar b ∷ [])) ≡ b
byte_digits b h = (==_iff _ b).0 (
    holds_below_sound (2 ^ 8)
      (λ k. u8 (strtoll16 (nibble_to_hexchar (k / 2 ^ 4) ∷ nibble_to_hexchar k ∷ [])) == k) b
      all_bytes h)

hex_str_rounds-memory_to_hexstr :
    (bytes : List ℕ) → All (λ b. b < 2 ^ 8) bytes → hex_str_rounds (memory_to_hexstr bytes) ≡ bytes
unfolding hex_str_rounds memory_to_hexstr
hex_str_rounds-memory_to_hexstr [] h = refl
hex_str_rounds-memory_to_hexstr (b ∷ bytes) h =
    cc (byte_digits b h.0, hex_str_rounds-memory_to_hexstr bytes h.1)

length-memory_to_hexstr : (bytes : List ℕ) → length (memory_to_hexstr bytes) ≡ 2 * length bytes
unfolding memory_to_hexstr
length-memory_to_hexstr [] = refl
length-memory_to_hexstr (b ∷ bytes) = omega (arith, length-memory_to_hexstr bytes)

pub parse_hex_str-memory_to_hexstr :
    (bytes : List ℕ) (max_length : ℕ)
    → All (λ b. b < 2 ^ 8) bytes
    → length bytes ≤ max_length
    → parse_hex_str (memory_to_hexstr bytes) max_length ≡ some bytes
unfolding parse_hex_str
parse_hex_str-memory_to_hexstr bytes max_length h k =
    ground (arith, length-memory_to_hexstr bytes, hex_str_rounds-memory_to_hexstr bytes h)
