-- ===== src/AddressSpace/Access.antt =====
-- address_space.c: when an access stays inside the host's blocks.
use libthumb2sim.Base.{
  ℕ, ◌+◌, ◌-◌, ◌*◌, ◌^◌, ◌≤◌, ◌<◌, ◌≡◌, inl, inr, true, some, List, [], ◌∷◌, u8, u16, length, All,
  Bool-cases, Option-cases, arith, subst,
}
use libthumb2sim.AddressSpace.{
  AddressSlice, AddressSpace, covers, getslice, load_byte, load_half, load_word, read_n, read8,
  read16, read32, max_address_slices,
}

abbrev pub Fits : (ℕ → ℕ) → AddressSlice → Type 0
Fits size s = s.end ≤ s.begin + size s.block

pub record IsValid (m : AddressSpace) : Type 0 where
  pub few : length m.slices ≤ max_address_slices
  pub fits : All (Fits m.block_size) m.slices
  pub bytes : (b o : ℕ) → m.byte b o < 2 ^ 8

-- The slice that is found lies in the table and covers the range as the code tests it.
pub getslice-covers :
    (P : AddressSlice → Type 0) (ss : List AddressSlice) (a n : ℕ) {s : AddressSlice}
    → All P ss
    → getslice ss a n ≡ some s
    → P s × (covers s a n ≡ true)
unfolding getslice
getslice-covers P [] a n all e = absurd (cc e)
getslice-covers P (t ∷ ss) a n {s} all e = elim (Bool-cases (covers t a n)) [
  | inl hit ↦
      let same : t ≡ s = ground arith in subst (λ r. P r × (covers r a n ≡ true)) same (all.0, hit)
  | inr miss ↦ getslice-covers P ss a n all.1 (ground arith)
]

-- Where the range does not wrap, a covering slice holds the whole of it.
pub covers-within :
    (s : AddressSlice) (a n : ℕ)
    → 0 < n
    → a + n ≤ 2 ^ 32
    → covers s a n ≡ true
    → (s.begin ≤ a) × (a + n ≤ s.end)
unfolding covers
covers-within s a n pos h e = ground arith

module _ {m : AddressSpace} (valid : IsValid m) where
  pub found-in_block :
      (a n : ℕ) {s : AddressSlice}
      → 0 < n
      → a + n ≤ 2 ^ 32
      → getslice m.slices a n ≡ some s
      → (s.begin ≤ a) × (a - s.begin + n ≤ m.block_size s.block)
  found-in_block a n {s} pos h e =
      let both = getslice-covers (Fits m.block_size) m.slices a n valid.fits e in
      omega (arith, covers-within s a n pos h both.1)

  load_byte-ok : (b o : ℕ) → o < m.block_size b → (v : ℕ) × (load_byte m b o ≡ some v) × (v < 2 ^ 8)
  unfolding load_byte
  load_byte-ok b o h = (m.byte b o, ground arith, valid.bytes b o)

  load_half-ok :
      (b o : ℕ) → o + 2 ≤ m.block_size b → (v : ℕ) × (load_half m b o ≡ some v) × (v < 2 ^ 16)
  unfolding load_half load_byte
  load_half-ok b o h = (
    m.byte b o + 2 ^ 8 * m.byte b (o + 1),
    ground arith,
    omega (arith, valid.bytes b o, valid.bytes b (o + 1)),
  )

  load_word-ok :
      (b o : ℕ) → o + 4 ≤ m.block_size b → (v : ℕ) × (load_word m b o ≡ some v) × (v < 2 ^ 32)
  unfolding load_word
  load_word-ok b o h =
      let low = load_half-ok b o (omega arith) in
      let high = load_half-ok b (o + 2) (omega arith) in
      (low.0 + 2 ^ 16 * high.0, rw (low.1, high.1), omega (arith, low.2, high.2))

  -- In a valid address space, a 32-bit read whose range does not wrap round is defined and gives a
  -- 32-bit value, in a slice or outside every slice.
  pub read32-ok : (a : ℕ) → a + 4 ≤ 2 ^ 32 → (v : ℕ) × (read32 m a ≡ some v) × (v < 2 ^ 32)
  unfolding read32 read_n
  read32-ok a h = elim (Option-cases (getslice m.slices a 4)) [
    | inl e ↦ (0, rw (e, read_n), omega arith)
    | inr (s, e) ↦
        let r =
          load_word-ok s.block (a - s.begin)
            (omega (arith, found-in_block a 4 (omega arith) h e)) in
        (r.0, rw (e, read_n) r.1, r.2)
  ]

  pub read16-ok : (a : ℕ) → a + 2 ≤ 2 ^ 32 → (v : ℕ) × (read16 m a ≡ some v) × (v < 2 ^ 16)
  unfolding read16 read_n
  read16-ok a h = elim (Option-cases (getslice m.slices a 2)) [
    | inl e ↦ (0, rw (e, read_n), omega arith)
    | inr (s, e) ↦
        let r =
          load_half-ok s.block (a - s.begin)
            (omega (arith, found-in_block a 2 (omega arith) h e)) in
        (u16 r.0, rw (e, read_n, r.1), omega arith)
  ]

  pub read8-ok : (a : ℕ) → a + 1 ≤ 2 ^ 32 → (v : ℕ) × (read8 m a ≡ some v) × (v < 2 ^ 8)
  unfolding read8 read_n
  read8-ok a h = elim (Option-cases (getslice m.slices a 1)) [
    | inl e ↦ (0, rw (e, read_n), omega arith)
    | inr (s, e) ↦
        let r =
          load_byte-ok s.block (a - s.begin)
            (omega (arith, found-in_block a 1 (omega arith) h e)) in
        (u8 r.0, rw (e, read_n, r.1), omega arith)
  ]
