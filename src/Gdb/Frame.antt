-- ===== src/Gdb/Frame.antt =====
-- gdbserver/gdbserver.c: reading the frames back.
use libthumb2sim.Base.{
  ℕ, ◌+◌, ◌%◌, ◌^◌, ◌<◌, ◌≡◌, ◌≢◌, refl, Option, none, some, [], ◌∷◌, ◌++◌, ◌==◌, if◌then◌else◌,
  ◌>>=◌, u8, All, holds_below, holds_below_sound, ==_iff, arith,
}
use libthumb2sim.Base.{length, ◌&&◌}
use libthumb2sim.Base.Libc.{after_prefix, split_at}
use libthumb2sim.Disassembly.Text.{Text, codes, hex_padded, digits, pad}
use libthumb2sim.Disassembly.Reading.{read_digits}
use libthumb2sim.Gdb.{cksum_rounds, tx_frame}

-- The sum of the characters of a text.
unfoldable pub char_sum : Text → ℕ
char_sum [] = 0
char_sum (c ∷ message) = c + char_sum message

-- The debugger's side: a frame is accepted if it ends with two digits, and these are the sum of its
-- characters, modulo 256.
unfoldable pub rx_frame : Text → Option Text
rx_frame frame = do
  body ← after_prefix (codes "+$") frame
  (message, cksum) ← split_at 35 body
  let right = length cksum == 2 && read_digits 16 0 cksum == char_sum message % 2 ^ 8
  if right then some message else none

split_at-append :
    (c : ℕ) (xs ys : Text) → All (λ d. d ≢ c) xs → split_at c (xs ++ (c ∷ ys)) ≡ some (xs, ys)
unfolding split_at
split_at-append c [] ys h = ground arith
split_at-append c (x ∷ xs) ys h = rw (split_at-append c xs ys h.1) (ground (arith, h.0))

cksum_rounds_lem :
    (cksum : ℕ) (message : Text)
    → cksum < 2 ^ 8
    → cksum_rounds cksum message ≡ (cksum + char_sum message) % 2 ^ 8
unfolding cksum_rounds char_sum
cksum_rounds_lem cksum [] h = omega arith
cksum_rounds_lem cksum (c ∷ message) h =
    omega (arith, cksum_rounds_lem (u8 (cksum + c)) message (omega arith))

two_digits : (n : ℕ) → n < 2 ^ 8 → read_digits 16 0 (hex_padded 2 n) ≡ n
unfolding read_digits digits pad holds_below
two_digits n h =
    (==_iff (read_digits 16 0 (hex_padded 2 n)) n).0
      (holds_below_sound (2 ^ 8) (λ k. read_digits 16 0 (hex_padded 2 k) == k) n refl h)

two_long : (n : ℕ) → n < 2 ^ 8 → length (hex_padded 2 n) ≡ 2
unfolding digits pad holds_below
two_long n h =
    (==_iff (length (hex_padded 2 n)) 2).0
      (holds_below_sound (2 ^ 8) (λ k. length (hex_padded 2 k) == 2) n refl h)

pub rx_frame-tx_frame :
    (message : Text) → All (λ d. d ≢ 35) message → rx_frame (tx_frame message) ≡ some message
unfolding rx_frame tx_frame after_prefix
rx_frame-tx_frame message h =
    let cksum = cksum_rounds 0 message in
    let sum : cksum ≡ char_sum message % 2 ^ 8 =
      omega (arith, cksum_rounds_lem 0 message (omega arith)) in
    rw (split_at-append 35 message (hex_padded 2 cksum) h) (
      rw (two_digits cksum (omega (arith, sum)), two_long cksum (omega (arith, sum)))
        (ground (arith, sum)))
