-- ===== src/Base/Word.antt =====
-- The arithmetic of C on `uint32_t`, wrap-around written out. An `int32_t` is its bit pattern.
use Prim.Native.Nat.{ℕ, ◌+◌, ◌-◌, ◌*◌, ◌/◌, ◌%◌, ◌^◌}
use mathlib.Core.Option.{Option, none, some}
use libthumb2sim.Base.Tests.{ltb, if◌then◌else◌}

-- Casts.
abbrev pub u8 : ℕ → ℕ
u8 n = n % 2 ^ 8

abbrev pub u16 : ℕ → ℕ
u16 n = n % 2 ^ 16

abbrev pub u32 : ℕ → ℕ
u32 n = n % 2 ^ 32

abbrev pub add32 : ℕ → ℕ → ℕ
add32 a b = u32 (a + b)

-- `-` on ℕ stops at 0, so the modulus is added first.
abbrev pub sub32 : ℕ → ℕ → ℕ
sub32 a b = u32 (u32 a + 2 ^ 32 - u32 b)

abbrev pub mul32 : ℕ → ℕ → ℕ
mul32 a b = u32 (a * b)

-- `~a`
abbrev pub not32 : ℕ → ℕ
not32 a = 2 ^ 32 - 1 - u32 a

-- A shift of a 32-bit value by 32 or more, or by a negative count, is undefined.
abbrev pub shl32 : ℕ → ℕ → Option ℕ
shl32 a k = if ltb k 32 then some (u32 (a * 2 ^ k)) else none

abbrev pub shr32 : ℕ → ℕ → Option ℕ
shr32 a k = if ltb k 32 then some (a / 2 ^ k) else none

-- `>>` on an `int32_t` copies the sign.
abbrev pub asr32 : ℕ → ℕ → Option ℕ
asr32 a k =
    if ltb k 32 then some (if ltb a (2 ^ 31) then a / 2 ^ k else not32 (not32 a / 2 ^ k)) else none
