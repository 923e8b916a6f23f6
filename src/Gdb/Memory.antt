-- ===== src/Gdb/Memory.antt =====
-- gdbserver/gdbserver.c: what the debugger is told of the memory and of the registers.
use libthumb2sim.Base.{
  ltb, ℕ, zero, suc, ◌+◌, ◌-◌, ◌^◌, ◌≤◌, ◌<◌, ◌≡◌, refl, true, false, none, some, List, [], ◌∷◌,
  arith, inl, inr, Option-cases,
}
use libthumb2sim.Base.{◌/◌, ◌≢◌, ◌>>=◌, Option, Bool, All, length}
use libthumb2sim.Disassembly.Testcase.{parse_hex_str, parse_hex_str-memory_to_hexstr}
use libthumb2sim.Gdb.Frame.{rx_frame, rx_frame-tx_frame}
use libthumb2sim.AddressSpace.{AddressSlice, AddressSpace, getslice, memptr, load_byte}
use libthumb2sim.AddressSpace.Access.{IsValid, found-in_block}
use libthumb2sim.Cpu.{EmuCtx}
use libthumb2sim.Disassembly.Text.{Text, codes}
use libthumb2sim.Gdb.{nibble_to_hexchar, tx_frame, memory_to_hexstr, read_bytes, gdb_dump_memory}

-- The bytes of a block from an offset on.
unfoldable pub bytes_from : (ℕ → ℕ) → ℕ → ℕ → List ℕ
bytes_from byte o zero = []
bytes_from byte o (suc left) = byte o ∷ bytes_from byte (o + 1) left

read_bytes-bytes_from :
    (m : AddressSpace) (block o left : ℕ)
    → o + left ≤ m.block_size block
    → read_bytes m block o left ≡ some (bytes_from (m.byte block) o left)
unfolding read_bytes bytes_from load_byte
read_bytes-bytes_from m block o zero h = refl
read_bytes-bytes_from m block o (suc left) h =
    ground (arith, read_bytes-bytes_from m block (o + 1) left (omega arith))

bytes_from-lt :
    (byte : ℕ → ℕ) (o left : ℕ)
    → ((i : ℕ) → byte i < 2 ^ 8)
    → All (λ b. b < 2 ^ 8) (bytes_from byte o left)
unfolding bytes_from
bytes_from-lt byte o zero h = tt
bytes_from-lt byte o (suc left) h = (h o, bytes_from-lt byte (o + 1) left h)

length-bytes_from : (byte : ℕ → ℕ) (o left : ℕ) → length (bytes_from byte o left) ≡ left
unfolding bytes_from
length-bytes_from byte o zero = refl
length-bytes_from byte o (suc left) = omega (arith, length-bytes_from byte (o + 1) left)

nibble_to_hexchar_ne : (b : ℕ) → nibble_to_hexchar b ≢ 35
unfolding nibble_to_hexchar
nibble_to_hexchar_ne b = ground arith

no_hash : (bytes : List ℕ) → All (λ c. c ≢ 35) (memory_to_hexstr bytes)
unfolding memory_to_hexstr
no_hash [] = tt
no_hash (b ∷ bytes) = (nibble_to_hexchar_ne (b / 2 ^ 4), (nibble_to_hexchar_ne b, no_hash bytes))

-- What a debugger makes of a reply of `n` bytes: the text of the frame, as hexadecimal digits.
abbrev pub received : Text → ℕ → Option (List ℕ)
received reply n = do message ← rx_frame reply; parse_hex_str message n

-- The answer to a request for `n` bytes from `a` on, with the slice that has them, if there is one.
pub data Answer (m : AddressSpace) (a n : ℕ)
    : Option AddressSlice → Option (Text × Bool) → Type 0 where
  refused : Answer m a n none (some (codes "-", false))
  sent :
      {s : AddressSlice} {reply : Text}
      → received reply n ≡ some (bytes_from (m.byte s.block) (a - s.begin) n)
      → Answer m a n (some s) (some (reply, true))

received-tx_frame :
    (bytes : List ℕ) (n : ℕ)
    → All (λ b. b < 2 ^ 8) bytes
    → length bytes ≤ n
    → received (tx_frame (memory_to_hexstr bytes)) n ≡ some bytes
received-tx_frame bytes n h k =
    rw (rx_frame-tx_frame (memory_to_hexstr bytes) (no_hash bytes))
      (parse_hex_str-memory_to_hexstr bytes n h k)

-- In a valid address space, for a length from 1 to 2^31 - 1 and a range that does not wrap round,
-- the reply to a request for memory is defined: when a slice has the range, a frame that the
-- receiver accepts and whose text, read as pairs of hexadecimal digits, is the bytes of the slice
-- from the address on; else a minus sign.
pub gdb_dump_memory-Answer :
    (emu : EmuCtx) (a n : ℕ)
    → IsValid emu.addr_space
    → 0 < n
    → n < 2 ^ 31
    → a + n ≤ 2 ^ 32
    → Answer emu.addr_space a n (getslice emu.addr_space.slices a n) (gdb_dump_memory emu a n)
unfolding gdb_dump_memory memptr
gdb_dump_memory-Answer emu a n valid pos small h =
    let m = emu.addr_space in
    elim (Option-cases (getslice m.slices a n)) [
      | inl e ↦ rw (gdb_dump_memory, memptr, e) refused
      | inr (s, e) ↦
          let inside = found-in_block valid a n pos h e in
          let fits : ltb n (2 ^ 31) ≡ true = ground arith in
          let o = a - s.begin in
          let bytes = bytes_from (m.byte s.block) o n in
          rw (gdb_dump_memory, memptr, e, fits, read_bytes-bytes_from m s.block o n inside.1)
            (sent (
              received-tx_frame bytes n (bytes_from-lt (m.byte s.block) o n (valid.bytes s.block))
                (omega (arith, length-bytes_from (m.byte s.block) o n))))
    ]
