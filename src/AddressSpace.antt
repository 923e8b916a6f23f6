-- ===== src/AddressSpace.antt =====
-- address_space.c: up to four slices of a 32-bit address space, each backed by a host block.
--
-- A slice's `data` pointer is the number of a host block, so two slices may share one (a shadow
-- mapping). A block has a size and bytes; an access outside it is undefined in C, here `none`. The
-- host is little-endian, as the casts to `uint16_t *` and `uint32_t *` need. The slice's name and
-- what goes to stderr are left out.
pub mod Access
pub mod Store
pub mod Laws
pub mod Valid
pub mod Region
use libthumb2sim.Base.{
  ℕ, ◌+◌, ◌-◌, ◌*◌, ◌/◌, ◌^◌, Bool, ◌&&◌, Option, none, some, List, [], ◌∷◌, ◌++◌, ltb, leb, ◌==◌,
  if◌then◌else◌, ◌>>=◌, u8, u16, u32, add32, sub32, length,
}

abbrev pub max_address_slices : ℕ
max_address_slices = 4

pub record AddressSlice : Type 0 where
  pub begin : ℕ
  pub end : ℕ
  pub block : ℕ
  pub read_only : Bool
  pub shadow_mapping : Bool

-- `slice_cnt` is the length of the list.
pub record AddressSpace : Type 0 where
  pub slices : List AddressSlice
  pub block_size : ℕ → ℕ
  pub byte : ℕ → ℕ → ℕ

-- The address of the last byte, computed in `uint32_t`.
abbrev pub last_address : ℕ → ℕ → ℕ
last_address address len = sub32 (add32 address len) 1

unfoldable pub covers : AddressSlice → ℕ → ℕ → Bool
covers s address len = leb s.begin address && ltb (last_address address len) s.end

unfoldable pub getslice : List AddressSlice → ℕ → ℕ → Option AddressSlice
getslice [] address len = none
getslice (s ∷ rest) address len = if covers s address len then some s else getslice rest address len

-- A pointer is a block and an offset; NULL is `none`.
unfoldable pub memptr : AddressSpace → ℕ → ℕ → Option (ℕ × ℕ)
memptr m address len = elim (getslice m.slices address len) [
  | none ↦ none
  | some s ↦ some (s.block, address - s.begin)
]

unfoldable pub load_byte : AddressSpace → ℕ → ℕ → Option ℕ
load_byte m b o = if ltb o (m.block_size b) then some (m.byte b o) else none

unfoldable pub store_byte : AddressSpace → ℕ → ℕ → ℕ → Option AddressSpace
store_byte m b o v =
    if ltb o (m.block_size b)
    then some (record m { byte = λ c i. if c == b && i == o then u8 v else m.byte c i })
    else none

-- `*(uint16_t*)` and `*(uint32_t*)`, low byte first.
unfoldable pub load_half : AddressSpace → ℕ → ℕ → Option ℕ
load_half m b o = do low ← load_byte m b o; high ← load_byte m b (o + 1); some (low + 2 ^ 8 * high)

unfoldable pub load_word : AddressSpace → ℕ → ℕ → Option ℕ
load_word m b o = do low ← load_half m b o; high ← load_half m b (o + 2); some (low + 2 ^ 16 * high)

unfoldable pub store_half : AddressSpace → ℕ → ℕ → ℕ → Option AddressSpace
store_half m b o v = do m₁ ← store_byte m b o v; store_byte m₁ b (o + 1) (v / 2 ^ 8)

unfoldable pub store_word : AddressSpace → ℕ → ℕ → ℕ → Option AddressSpace
store_word m b o v = do m₁ ← store_half m b o v; store_half m₁ b (o + 2) (v / 2 ^ 16)

-- An address in no slice reads as 0.
unfoldable pub read_n : AddressSpace → ℕ → ℕ → Option ℕ
read_n m address len = elim (getslice m.slices address len) [
  | none ↦ some 0
  | some s ↦
      if len == 1
      then load_byte m s.block (address - s.begin)
      else if len == 2
      then load_half m s.block (address - s.begin)
      else if len == 4
      then load_word m s.block (address - s.begin)
      else some 0
]

-- A write to an address in no slice, or in a read-only slice, changes nothing.
unfoldable pub write_n : AddressSpace → ℕ → ℕ → ℕ → Option AddressSpace
write_n m address len value = elim (getslice m.slices address len) [
  | none ↦ some m
  | some s ↦
      if s.read_only
      then some m
      else if len == 1
      then store_byte m s.block (address - s.begin) value
      else if len == 2
      then store_half m s.block (address - s.begin) value
      else if len == 4
      then store_word m s.block (address - s.begin) value
      else some m
]

unfoldable pub read8 : AddressSpace → ℕ → Option ℕ
read8 m address = do v ← read_n m address 1; some (u8 v)

unfoldable pub write8 : AddressSpace → ℕ → ℕ → Option AddressSpace
write8 m address value = write_n m address 1 (u8 value)

unfoldable pub read16 : AddressSpace → ℕ → Option ℕ
read16 m address = do v ← read_n m address 2; some (u16 v)

unfoldable pub write16 : AddressSpace → ℕ → ℕ → Option AddressSpace
write16 m address value = write_n m address 2 (u16 value)

unfoldable pub read32 : AddressSpace → ℕ → Option ℕ
read32 m address = read_n m address 4

unfoldable pub write32 : AddressSpace → ℕ → ℕ → Option AddressSpace
write32 m address value = write_n m address 4 (u32 value)

-- `none` is the exit of the process when the slices are exhausted. `data` is the block's number.
unfoldable pub add_region : AddressSpace → ℕ → ℕ → ℕ → Bool → Bool → Option AddressSpace
add_region m start_addr len block read_only shadow_mapping =
    if length m.slices == max_address_slices
    then none
    else some (record m { slices = m.slices ++ slice ∷ [] })
  where
    slice : AddressSlice
    slice = record {
      begin = start_addr;
      end = add32 start_addr len;
      block = block;
      read_only = read_only;
      shadow_mapping = shadow_mapping;
    }

-- `memset` to 0: no slice is left. The host's blocks are not touched.
unfoldable pub init : AddressSpace → AddressSpace
init m = record m { slices = [] }
