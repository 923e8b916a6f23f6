-- ===== src/Disassembly/Text.antt =====
-- Text as the codes of its characters, and the conversions of `printf` that the program uses.
--
-- A buffer is the text before its terminating 0; no text that is printed has a 0 in it.
use Prim.Native.Char.{code}
use Prim.Native.String.{String}
use libthumb2sim.Base.{
  ℕ, zero, suc, ◌+◌, ◌-◌, ◌/◌, ◌%◌, ◌^◌, List, [], ◌∷◌, ◌++◌, ltb, if◌then◌else◌, length,
}

abbrev pub Text : Type 0
Text = List ℕ

abbrev pub codes : String → Text
codes String.[] = []
codes (String.◌∷◌ c s) = code c ∷ codes s

-- The digit of a number below 16.
abbrev pub digit_char : ℕ → ℕ
digit_char d = if ltb d 10 then 48 + d else 87 + d

-- The digits of a number in a base, at most as many as the fuel.
unfoldable pub digits : ℕ → ℕ → ℕ → Text
digits base zero n = []
digits base (suc fuel) n =
    let rest = digits base fuel (n / base) in
    if ltb n base then digit_char n ∷ [] else rest ++ digit_char (n % base) ∷ []

-- `%u` of a 32-bit number, which has at most 10 digits.
abbrev pub decimal : ℕ → Text
decimal n = digits 10 10 n

-- `%d` of the `int` with the bits of `n`.
abbrev pub signed_decimal : ℕ → Text
signed_decimal n = if ltb n (2 ^ 31) then decimal n else codes "-" ++ decimal (2 ^ 32 - n)

-- `%x` of a 32-bit number, which has at most 8 digits.
abbrev pub hex : ℕ → Text
hex n = digits 16 8 n

-- Padding on the left with a character, to a width.
unfoldable pub pad : ℕ → ℕ → Text → Text
pad character zero text = text
pad character (suc missing) text = character ∷ pad character missing text

-- `%0<width>x`
abbrev pub hex_padded : ℕ → ℕ → Text
hex_padded width n = let text = hex n in pad 48 (width - length text) text
