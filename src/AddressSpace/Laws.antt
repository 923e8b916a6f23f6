-- ===== src/AddressSpace/Laws.antt =====
-- Reads after writes of address_space.c.
use libthumb2sim.Base.{
  ℕ, ◌+◌, ◌-◌, ◌^◌, ◌≤◌, ◌<◌, ◌≡◌, ◌≢◌, ◌⊎◌, inl, inr, refl, ◌∙◌, false, Option, some, u8, u16, u32,
  Bool-cases, Option-cases, arith, ap, ap₂, sym,
}
use libthumb2sim.AddressSpace.{
  AddressSlice, AddressSpace, getslice, load_byte, load_half, load_word, read_n, write_n, read32,
  write8, write16, write32,
}
use libthumb2sim.AddressSpace.Access.{IsValid, found-in_block}
use libthumb2sim.AddressSpace.Store.{
  Stored, Stored-IsValid, store_byte-StoresAs, store_half-StoresAs, store_word-StoresAs,
}

-- What a write can do: nothing, or a store inside the slice's block.
pub record Written (m : AddressSpace) (result : Option AddressSpace) : Type 0 where
  pub after : AddressSpace
  pub defined : result ≡ some after
  pub valid : IsValid after
  pub same_slices : after.slices ≡ m.slices
  pub same_size : after.block_size ≡ m.block_size

-- In a slice a 32-bit access is one of its block.
read32_of_found :
    (m : AddressSpace) (a : ℕ) (s : AddressSlice)
    → getslice m.slices a 4 ≡ some s
    → read32 m a ≡ load_word m s.block (a - s.begin)
unfolding read32 read_n
read32_of_found m a s e = rw (e, read_n)

-- A load of other bytes sees nothing of a store.
load_word-frame :
    {m m' : AddressSpace} (b o n c i : ℕ)
    → Stored m m' b o n
    → (c ≢ b) ⊎ ((i + 4 ≤ o) ⊎ (o + n ≤ i))
    → load_word m' c i ≡ load_word m c i
unfolding load_word load_half load_byte
load_word-frame {m} {m'} b o n c i s apart =
    rw
      (
        s.same_size,
        at i (omega arith) (omega arith),
        at (i + 1) (omega arith) (omega arith),
        at (i + 2) (omega arith) (omega arith),
        at (i + 2 + 1) (omega arith) (omega arith),
      )
      refl
  where
    at : (j : ℕ) → i ≤ j → j < i + 4 → m'.byte c j ≡ m.byte c j
    at j low high = ground (arith, s.frame c j)

module _ {m : AddressSpace} (valid : IsValid m) where
  unchanged : Written m (some m)
  unchanged = record {
    after = m;
    defined = refl;
    valid = valid;
    same_slices = refl;
    same_size = refl;
  }

  stored :
      {result : Option AddressSpace} {m' : AddressSpace} {b o n : ℕ}
      → result ≡ some m'
      → Stored m m' b o n
      → Written m result
  stored {m' = m'} e s = record {
    after = m';
    defined = e;
    valid = Stored-IsValid s valid;
    same_slices = s.same_slices;
    same_size = s.same_size;
  }

  -- In a valid address space, a 32-bit write whose range does not wrap round is defined and leaves
  -- a valid address space with the same slices and the same block sizes.
  pub write32-Written : (a v : ℕ) → a + 4 ≤ 2 ^ 32 → Written m (write32 m a v)
  unfolding write32 write_n
  write32-Written a v h = elim (Option-cases (getslice m.slices a 4)) [
    | inl e ↦ rw (e, write_n) unchanged
    | inr (s, e) ↦ elim (Bool-cases s.read_only) [
      | inl ro ↦ rw (e, write_n, ro) unchanged
      | inr w ↦
          let (m', done, at, frame) =
            store_word-StoresAs m s.block (a - s.begin) (u32 v)
              (omega (arith, found-in_block valid a 4 (omega arith) h e)) in
          rw (e, write_n, w) (stored done frame)
    ]
  ]

  pub write16-Written : (a v : ℕ) → a + 2 ≤ 2 ^ 32 → Written m (write16 m a v)
  unfolding write16 write_n
  write16-Written a v h = elim (Option-cases (getslice m.slices a 2)) [
    | inl e ↦ rw (e, write_n) unchanged
    | inr (s, e) ↦ elim (Bool-cases s.read_only) [
      | inl ro ↦ rw (e, write_n, ro) unchanged
      | inr w ↦
          let (m', done, at, frame) =
            store_half-StoresAs m s.block (a - s.begin) (u16 v)
              (omega (arith, found-in_block valid a 2 (omega arith) h e)) in
          rw (e, write_n, w) (stored done frame)
    ]
  ]

  pub write8-Written : (a v : ℕ) → a + 1 ≤ 2 ^ 32 → Written m (write8 m a v)
  unfolding write8 write_n
  write8-Written a v h = elim (Option-cases (getslice m.slices a 1)) [
    | inl e ↦ rw (e, write_n) unchanged
    | inr (s, e) ↦ elim (Bool-cases s.read_only) [
      | inl ro ↦ rw (e, write_n, ro) unchanged
      | inr w ↦
          let (m', done, at, frame) =
            store_byte-StoresAs m s.block (a - s.begin) (u8 v)
              (omega (arith, found-in_block valid a 1 (omega arith) h e)) in
          rw (e, write_n, w) (stored done frame)
    ]
  ]

  -- In a valid address space, when a 32-bit address range that does not wrap lies in a writable
  -- slice and another address is found in a slice that maps the same bytes, the 32-bit write is
  -- defined and a read of the other address gives the value back, reduced to 32 bits.
  pub read32-write32 :
      (a c v : ℕ) (s t : AddressSlice)
      → a + 4 ≤ 2 ^ 32
      → getslice m.slices a 4 ≡ some s
      → s.read_only ≡ false
      → getslice m.slices c 4 ≡ some t
      → t.block ≡ s.block
      → c - t.begin ≡ a - s.begin
      → (m' : AddressSpace) × (write32 m a v ≡ some m') × (read32 m' c ≡ some (u32 v))
  unfolding write32 write_n read32 read_n
  read32-write32 a c v s t h found writable seen block offset =
      let (m', done, at, frame) =
        store_word-StoresAs m s.block (a - s.begin) (u32 v)
          (omega (arith, found-in_block valid a 4 (omega arith) h found)) in
      (
        m',
        rw (found, write_n, writable) done,
        read32_of_found m' c t (ap (λ ss. getslice ss c 4) frame.same_slices ∙ seen)
            ∙ (ap₂ (load_word m') block offset ∙ (at ∙ ap some (omega arith))),
      )

  -- In a valid address space, a 32-bit write in a writable slice, whose range does not wrap round,
  -- leaves the value read through a slice at bytes of another block or beside the written ones.
  pub read32-write32_ne :
      (a c v : ℕ) (s t : AddressSlice)
      → a + 4 ≤ 2 ^ 32
      → getslice m.slices a 4 ≡ some s
      → s.read_only ≡ false
      → getslice m.slices c 4 ≡ some t
      → (t.block ≢ s.block) ⊎ ((c - t.begin + 4 ≤ a - s.begin) ⊎ (a - s.begin + 4 ≤ c - t.begin))
      → (m' : AddressSpace) × (write32 m a v ≡ some m') × (read32 m' c ≡ read32 m c)
  unfolding write32 write_n read32 read_n
  read32-write32_ne a c v s t h found writable seen apart =
      let (m', done, at, frame) =
        store_word-StoresAs m s.block (a - s.begin) (u32 v)
          (omega (arith, found-in_block valid a 4 (omega arith) h found)) in
      (
        m',
        rw (found, write_n, writable) done,
        read32_of_found m' c t (ap (λ ss. getslice ss c 4) frame.same_slices ∙ seen)
            ∙ (load_word-frame s.block (a - s.begin) 4 t.block (c - t.begin) frame apart
                ∙ sym (read32_of_found m c t seen)),
      )
