-- ===== src/Base/Libc.antt =====
-- What the program uses of `<string.h>` and `<stdlib.h>`, on texts without their terminating 0.
use Prim.Native.Nat.{ℕ, ◌+◌, ◌-◌, ◌*◌, ◌%◌, ◌^◌}
use mathlib.Core.Bool.{Bool, true, false, ◌&&◌, ◌||◌}
use mathlib.Core.Option.{Option, none, some}
use mathlib.Core.List.{List, [], ◌∷◌}
use libthumb2sim.Base.Tests.{ltb, leb, ◌==◌, if◌then◌else◌}

-- `!strcmp(a, b)`
unfoldable pub same_text : List ℕ → List ℕ → Bool
same_text [] [] = true
same_text [] (d ∷ b) = false
same_text (c ∷ a) [] = false
same_text (c ∷ a) (d ∷ b) = c == d && same_text a b

-- `!strncmp(text, prefix, strlen(prefix))`, and the text that follows.
unfoldable pub after_prefix : List ℕ → List ℕ → Option (List ℕ)
after_prefix [] text = some text
after_prefix (c ∷ prefix) [] = none
after_prefix (c ∷ prefix) (d ∷ text) =
    let rest = after_prefix prefix text in if c == d then rest else none

-- The text before the first `c` and the text after it, which `strchr` and writing a 0 there give.
unfoldable pub split_at : ℕ → List ℕ → Option (List ℕ × List ℕ)
split_at c [] = none
split_at c (d ∷ text) =
    let later = split_at c text in
    if c == d
    then some ([], text)
    else elim later [ some (front, back) ↦ some (d ∷ front, back) | none ↦ none ]

-- The value of a digit or letter, and 36 for any other character.
abbrev pub digit_of : ℕ → ℕ
digit_of c =
    if leb 48 c && leb c 57
    then c - 48
    else if leb 97 c && leb c 122
    then c - 87
    else if leb 65 c && leb c 90
    then c - 55
    else 36

-- The digits up to the first character that is none.
unfoldable pub leading_number : ℕ → ℕ → List ℕ → ℕ
leading_number base before [] = before
leading_number base before (c ∷ text) =
    let rest = leading_number base (before * base + digit_of c) text in
    if ltb (digit_of c) base then rest else before

abbrev pub is_space : ℕ → Bool
is_space c = c == 32 || (leb 9 c && leb c 13)

unfoldable pub skip_spaces : List ℕ → List ℕ
skip_spaces [] = []
skip_spaces (c ∷ text) = let rest = skip_spaces text in if is_space c then rest else c ∷ text

-- `0x` or `0X` before a hexadecimal digit.
unfoldable pub skip_0x : List ℕ → List ℕ
skip_0x [] = []
skip_0x (a ∷ []) = a ∷ []
skip_0x (a ∷ x ∷ []) = a ∷ x ∷ []
skip_0x (a ∷ x ∷ c ∷ text) =
    if a == 48 && (x == 120 || x == 88) && ltb (digit_of c) 16 then c ∷ text else a ∷ x ∷ c ∷ text

-- The sign, and what follows it.
unfoldable pub split_sign : List ℕ → Bool × List ℕ
split_sign [] = (false, [])
split_sign (c ∷ text) =
    if c == 45 then (true, text) else if c == 43 then (false, text) else (false, c ∷ text)

-- `(uint32_t)strtoll(text, NULL, 16)`: a number out of the range of `long long` is the nearest in it.
unfoldable pub strtoll16 : List ℕ → ℕ
strtoll16 text =
    let (negative, digits) = split_sign (skip_spaces text) in
    let magnitude = leading_number 16 0 (skip_0x digits) in
    let bounded =
      if ltb magnitude (2 ^ 63) then magnitude else (if negative then 2 ^ 63 else 2 ^ 63 - 1) in
    if negative then (2 ^ 64 - bounded) % 2 ^ 32 else bounded % 2 ^ 32
