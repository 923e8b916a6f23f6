-- ===== src/Gdb.antt =====
-- gdbserver/gdbserver.c: the replies to the debugger.
--
-- A reply is the text that is written to the connection. The connection itself, its `select` and
-- its `fread`, are left out. The host is little-endian, so `htonl` reverses the bytes of a word.
pub mod Command
pub mod Frame
pub mod Memory
use libthumb2sim.Base.{
  ℕ, zero, suc, ◌+◌, ◌-◌, ◌*◌, ◌/◌, ◌%◌, ◌^◌, Bool, true, false, Option, none, some, List, [], ◌∷◌,
  ◌++◌, ltb, if◌then◌else◌, ◌>>=◌, u8, bit_and,
}
use libthumb2sim.AddressSpace.{AddressSpace, memptr, load_byte}
use libthumb2sim.Cpu.{Cpu, EmuCtx}
use libthumb2sim.Disassembly.Text.{Text, codes, hex_padded}

-- The loop of `tx_frame` on a `uint8_t`, from the sum of the characters before.
unfoldable pub cksum_rounds : ℕ → Text → ℕ
cksum_rounds cksum [] = cksum
cksum_rounds cksum (c ∷ message) = cksum_rounds (u8 (cksum + c)) message

unfoldable pub tx_frame : Text → Text
tx_frame message = codes "+$" ++ (message ++ (codes "#" ++ hex_padded 2 (cksum_rounds 0 message)))

-- Bytes in the opposite order.
abbrev pub htonl : ℕ → ℕ
htonl w =
    w % 2 ^ 8 * 2 ^ 24
    + w / 2 ^ 8 % 2 ^ 8 * 2 ^ 16
    + w / 2 ^ 16 % 2 ^ 8 * 2 ^ 8
    + w / 2 ^ 24 % 2 ^ 8

unfoldable pub reg_rounds : ℕ → ℕ → Cpu → Text
reg_rounds zero i cpu = []
reg_rounds (suc left) i cpu = hex_padded 8 (htonl (cpu.reg i)) ++ reg_rounds left (i + 1) cpu

unfoldable pub zero_rounds : ℕ → Text
zero_rounds zero = []
zero_rounds (suc left) = codes "00000000" ++ zero_rounds left

-- The text that `gdb_dump_register_set` puts together in `reply_buffer`.
unfoldable pub register_reply : Cpu → Text
register_reply cpu = reg_rounds 16 0 cpu ++ (zero_rounds 25 ++ hex_padded 8 (htonl cpu.psr))

unfoldable pub gdb_dump_register_set : EmuCtx → Text × Bool
gdb_dump_register_set emu = (tx_frame (register_reply emu.cpu), true)

unfoldable pub nibble_to_hexchar : ℕ → ℕ
nibble_to_hexchar n =
    let nibble = bit_and n 15 in if ltb nibble 10 then 48 + nibble else 97 + nibble - 10

unfoldable pub memory_to_hexstr : List ℕ → Text
memory_to_hexstr [] = []
memory_to_hexstr (b ∷ bytes) =
    nibble_to_hexchar (b / 2 ^ 4) ∷ nibble_to_hexchar b ∷ memory_to_hexstr bytes

-- The bytes behind a pointer, undefined past the end of its block.
unfoldable pub read_bytes : AddressSpace → ℕ → ℕ → ℕ → Option (List ℕ)
read_bytes m block o zero = some []
read_bytes m block o (suc left) = do
  b ← load_byte m block o
  bytes ← read_bytes m block (o + 1) left
  some (b ∷ bytes)

-- The size of `reply`, `2 * length + 1`, wraps round from 2^31 bytes on, and the string then leaves it.
unfoldable pub gdb_dump_memory : EmuCtx → ℕ → ℕ → Option (Text × Bool)
gdb_dump_memory emu start_address length = elim (memptr emu.addr_space start_address length) [
  | some (block, o) ↦
      if ltb length (2 ^ 31)
      then (do
        bytes ← read_bytes emu.addr_space block o length
        some (tx_frame (memory_to_hexstr bytes), true))
      else none
  | none ↦ some (codes "-", false)
]

-- `md5` is the digest of the MD5 sources, which are a copy of another project's.
module _ (md5 : List ℕ → List ℕ) where
  unfoldable pub gdb_hash_memory : EmuCtx → ℕ → ℕ → Option (Text × Bool)
  gdb_hash_memory emu start_address length = elim (memptr emu.addr_space start_address length) [
    | some (block, o) ↦ do
      bytes ← read_bytes emu.addr_space block o length
      some (tx_frame (memory_to_hexstr (md5 bytes)), true)
    | none ↦ some (codes "-", false)
  ]
