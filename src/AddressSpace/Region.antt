-- ===== src/AddressSpace/Region.antt =====
-- address_space.c: new regions, and a range that wraps round.
use libthumb2sim.Base.{
  ℕ, ◌+◌, ◌-◌, ◌^◌, ◌≤◌, ◌<◌, ◌≡◌, inl, inr, refl, ap, ◌∙◌, Bool, true, none, some, List, [], ◌∷◌,
  ◌++◌, add32, length, All-append, length-append, Bool-cases, arith,
}
use libthumb2sim.Base.{◌%◌, Option, if◌then◌else◌}
use libthumb2sim.AddressSpace.{
  AddressSlice, AddressSpace, covers, getslice, load_byte, load_half, load_word, read_n, read32,
  add_region, max_address_slices,
}
use libthumb2sim.AddressSpace.Access.{Fits, IsValid}

getslice-append :
    (ss ts : List AddressSlice) (a n : ℕ) {s : AddressSlice}
    → getslice ss a n ≡ some s
    → getslice (ss ++ ts) a n ≡ some s
unfolding getslice
getslice-append [] ts a n e = absurd (cc e)
getslice-append (t ∷ ss) ts a n e = elim (Bool-cases (covers t a n)) [
  | inl hit ↦ ground arith
  | inr miss ↦ rw miss (getslice-append ss ts a n (ground arith))
]

-- The first result, or else the second.
abbrev pub or_else : Option AddressSlice → Option AddressSlice → Option AddressSlice
or_else (some s) later = some s
or_else none later = later

getslice-append_one :
    (ss : List AddressSlice) (t : AddressSlice) (a n : ℕ)
    → getslice (ss ++ t ∷ []) a n
      ≡ or_else (getslice ss a n) (if covers t a n then some t else none)
unfolding getslice
getslice-append_one [] t a n = refl
getslice-append_one (s ∷ ss) t a n = elim (Bool-cases (covers s a n)) [
  | inl hit ↦ rw hit refl
  | inr miss ↦ rw miss (getslice-append_one ss t a n)
]

-- A region of a block and a length from an address on, behind the slices that were there.
pub record Added (m m' : AddressSpace) (start_addr len block : ℕ) (read_only shadow_mapping : Bool)
    : Type 0 where
  pub valid : IsValid m'
  pub same_size : m'.block_size ≡ m.block_size
  pub same_bytes : m'.byte ≡ m.byte
  pub region : AddressSlice
  pub behind : m'.slices ≡ m.slices ++ region ∷ []
  pub begins : region.begin ≡ start_addr
  pub ends : region.end ≡ (start_addr + len) % 2 ^ 32
  pub backed : region.block ≡ block
  pub writable : region.read_only ≡ read_only
  pub shadows : region.shadow_mapping ≡ shadow_mapping
  pub answers :
      (a n : ℕ)
      → getslice m'.slices a n
        ≡ or_else (getslice m.slices a n) (if covers region a n then some region else none)

-- In a valid address space with a free slot, a region whose length its block has is added: the
-- space stays valid, with the same blocks and bytes; behind the slices that were there is one with
-- the begin, the block, the read-only and the shadow mark that were given and with the wrapped
-- end; and an access finds the slice that it found before, or else the new one if that covers it.
pub add_region-Added :
    (m : AddressSpace) (start_addr len block : ℕ) (read_only shadow_mapping : Bool)
    → IsValid m
    → length m.slices < max_address_slices
    → len ≤ m.block_size block
    → (m' : AddressSpace) × (add_region m start_addr len block read_only shadow_mapping ≡ some m')
      × Added m m' start_addr len block read_only shadow_mapping
unfolding add_region
add_region-Added m start_addr len block read_only shadow_mapping valid room enough = (
  m',
  ground arith,
  record {
    valid = record {
      few = rw (length-append m.slices (slice ∷ [])) (omega arith);
      fits = All-append (Fits m.block_size) m.slices (slice ∷ []) valid.fits (omega arith, tt);
      bytes = valid.bytes;
    };
    same_size = refl;
    same_bytes = refl;
    region = slice;
    behind = refl;
    begins = refl;
    ends = refl;
    backed = refl;
    writable = refl;
    shadows = refl;
    answers = getslice-append_one m.slices slice;
  },
)
  where
    slice : AddressSlice
    slice = record {
      begin = start_addr;
      end = add32 start_addr len;
      block = block;
      read_only = read_only;
      shadow_mapping = shadow_mapping;
    }

    m' : AddressSpace
    m' = record m { slices = m.slices ++ slice ∷ [] }

slices-add_region :
    (m m' : AddressSpace) (start_addr len block : ℕ) (read_only shadow_mapping : Bool)
    → add_region m start_addr len block read_only shadow_mapping ≡ some m'
    → (t : AddressSlice) × (m'.slices ≡ m.slices ++ t ∷ [])
unfolding add_region
slices-add_region m m' start_addr len block read_only shadow_mapping added =
    let t : AddressSlice = record {
      begin = start_addr;
      end = add32 start_addr len;
      block = block;
      read_only = read_only;
      shadow_mapping = shadow_mapping;
    } in
    (t, ground arith)

-- An access that finds a slice finds the same slice after a region is added, whatever the region
-- is.
pub getslice-add_region :
    (m m' : AddressSpace) (start_addr len block a n : ℕ) (read_only shadow_mapping : Bool)
    (s : AddressSlice)
    → add_region m start_addr len block read_only shadow_mapping ≡ some m'
    → getslice m.slices a n ≡ some s
    → getslice m'.slices a n ≡ some s
getslice-add_region m m' start_addr len block a n read_only shadow_mapping s added found =
    let (t, behind) = slices-add_region m m' start_addr len block read_only shadow_mapping added in
    rw behind (getslice-append m.slices (t ∷ []) a n found)

pub getslice_head :
    (s : AddressSlice) (rest : List AddressSlice) (a n : ℕ)
    → covers s a n ≡ true
    → getslice (s ∷ rest) a n ≡ some s
unfolding getslice
getslice_head s rest a n hit = rw hit refl

covers-wrapped :
    (s : AddressSlice) (a : ℕ)
    → s.begin ≤ a
    → a < 2 ^ 32
    → 2 ^ 32 < a + 4
    → a + 3 - 2 ^ 32 < s.end
    → covers s a 4 ≡ true
unfolding covers
covers-wrapped s a low h wraps high = ground arith

-- A 32-bit read whose range wraps round, where the first slice begins at or below the address and
-- ends above the wrapped end, and where the block of that slice ends at or below the offset of the
-- address, is looked up in that slice, and is undefined.
pub read32-wrapped :
    (m : AddressSpace) (s : AddressSlice) (rest : List AddressSlice) (a : ℕ)
    → m.slices ≡ s ∷ rest
    → s.begin ≤ a
    → a < 2 ^ 32
    → 2 ^ 32 < a + 4
    → a + 3 - 2 ^ 32 < s.end
    → m.block_size s.block ≤ a - s.begin
    → (getslice m.slices a 4 ≡ some s) × (read32 m a ≡ none)
unfolding read32 read_n load_word load_half load_byte
read32-wrapped m s rest a first low h wraps high outside =
    let found : getslice m.slices a 4 ≡ some s =
      ap (λ ss. getslice ss a 4) first
      ∙ getslice_head s rest a 4 (covers-wrapped s a low h wraps high) in
    (found, rw (found, read_n) (ground arith))
