-- ===== src/AddressSpace/Store.antt =====
-- Writes of address_space.c: which are defined, and what they leave alone.
use libthumb2sim.Base.{
  ℕ, lt→ltb, ◌+◌, ◌*◌, ◌/◌, ◌%◌, ◌^◌, ◌≤◌, ◌<◌, ◌≡◌, ◌≢◌, ◌⊎◌, refl, ◌∙◌, ◌&&◌, Option, some, ◌==◌,
  if◌then◌else◌, u8, arith, ap,
}
use libthumb2sim.AddressSpace.{
  AddressSpace, load_byte, load_half, load_word, store_byte, store_half, store_word,
}
use libthumb2sim.AddressSpace.Access.{IsValid}

-- The bytes that a store of `n` bytes at `(b, o)` leaves alone, and what frames the others.
pub record Stored (m m' : AddressSpace) (b o n : ℕ) : Type 0 where
  pub same_slices : m'.slices ≡ m.slices
  pub same_size : m'.block_size ≡ m.block_size
  pub bytes : ((c i : ℕ) → m.byte c i < 2 ^ 8) → (c i : ℕ) → m'.byte c i < 2 ^ 8
  pub frame : (c i : ℕ) → (c ≢ b) ⊎ ((i < o) ⊎ (o + n ≤ i)) → m'.byte c i ≡ m.byte c i

module _ (m : AddressSpace) (b o v : ℕ) where
  pub store_byte-Stored :
      o < m.block_size b
      → (m' : AddressSpace) × (store_byte m b o v ≡ some m')
        × (m'.byte b o ≡ u8 v)
        × Stored m m' b o 1
  unfolding store_byte
  store_byte-Stored h = (
    record m { byte = λ c i. if c == b && i == o then u8 v else m.byte c i },
    ground arith,
    ground arith,
    record {
      same_slices = refl;
      same_size = refl;
      bytes = λ all c i. ground (arith, all c i);
      frame = λ c i p. ground arith;
    },
  )

pub Stored-trans :
    {m₁ m₂ m₃ : AddressSpace} {b o n : ℕ} (k : ℕ)
    → Stored m₁ m₂ b o n
    → Stored m₂ m₃ b (o + n) k
    → Stored m₁ m₃ b o (n + k)
Stored-trans k s t = record {
  same_slices = t.same_slices ∙ s.same_slices;
  same_size = t.same_size ∙ s.same_size;
  bytes = λ all. t.bytes (s.bytes all);
  frame = λ c i p. ground (arith, s.frame c i, t.frame c i);
}

pub Stored-IsValid : {m m' : AddressSpace} {b o n : ℕ} → Stored m m' b o n → IsValid m → IsValid m'
Stored-IsValid {m} {m'} s v = record {
  few = rw s.same_slices v.few;
  fits = rw (s.same_slices, s.same_size) v.fits;
  bytes = s.bytes v.bytes;
}

-- The result of a store of `n` bytes, and what a load of them gives then.
abbrev StoresAs :
    (AddressSpace → ℕ → ℕ → Option ℕ) → Option AddressSpace → AddressSpace → ℕ → ℕ → ℕ → ℕ → Type 0
StoresAs load stored m b o n v =
    (m' : AddressSpace) × (stored ≡ some m')
    × (load m' b o ≡ some (v % 2 ^ (8 * n)))
    × Stored m m' b o n

pub store_byte-StoresAs :
    (m : AddressSpace) (b o v : ℕ)
    → o < m.block_size b
    → StoresAs load_byte (store_byte m b o v) m b o 1 v
unfolding load_byte
store_byte-StoresAs m b o v h =
    let (m', e, at, s) = store_byte-Stored m b o v h in
    (m', e, rw (s.same_size, lt→ltb _ _ h, at), s)

half_value :
    {m₁ m₂ : AddressSpace} (b o v : ℕ)
    → o + 2 ≤ m₂.block_size b
    → m₁.byte b o ≡ u8 v
    → m₂.byte b (o + 1) ≡ u8 (v / 2 ^ 8)
    → Stored m₁ m₂ b (o + 1) 1
    → load_half m₂ b o ≡ some (v % 2 ^ 16)
unfolding load_half load_byte
half_value b o v h low high s = ground (arith, s.frame b o)

pub store_half-StoresAs :
    (m : AddressSpace) (b o v : ℕ)
    → o + 2 ≤ m.block_size b
    → StoresAs load_half (store_half m b o v) m b o 2 v
unfolding store_half
store_half-StoresAs m b o v h =
    let (m₁, e₁, at₁, s₁) = store_byte-Stored m b o v (omega arith) in
    let (m₂, e₂, at₂, s₂) =
      store_byte-Stored m₁ b (o + 1) (v / 2 ^ 8) (rw s₁.same_size (omega arith)) in
    (
      m₂,
      rw (e₁, e₂),
      half_value b o v (rw (s₂.same_size, s₁.same_size) h) at₁ at₂ s₂,
      Stored-trans 1 s₁ s₂,
    )

-- A load only looks at its own bytes.
load_half-frame :
    {m₁ m₂ : AddressSpace} (b o n : ℕ)
    → Stored m₁ m₂ b (o + 2) n
    → load_half m₂ b o ≡ load_half m₁ b o
unfolding load_half load_byte
load_half-frame b o n s =
    ground (arith, s.frame b o, s.frame b (o + 1), ap (λ (f : ℕ → ℕ). f b) s.same_size)

word_value :
    {m₁ m₂ : AddressSpace} (b o v : ℕ)
    → load_half m₁ b o ≡ some (v % 2 ^ 16)
    → load_half m₂ b (o + 2) ≡ some (v / 2 ^ 16 % 2 ^ 16)
    → Stored m₁ m₂ b (o + 2) 2
    → load_word m₂ b o ≡ some (v % 2 ^ 32)
unfolding load_word
word_value b o v low high s = rw (load_half-frame b o 2 s, low, high) (ap some (omega arith))

pub store_word-StoresAs :
    (m : AddressSpace) (b o v : ℕ)
    → o + 4 ≤ m.block_size b
    → StoresAs load_word (store_word m b o v) m b o 4 v
unfolding store_word
store_word-StoresAs m b o v h =
    let (m₁, e₁, at₁, s₁) = store_half-StoresAs m b o v (omega arith) in
    let (m₂, e₂, at₂, s₂) =
      store_half-StoresAs m₁ b (o + 2) (v / 2 ^ 16) (rw s₁.same_size (omega arith)) in
    (m₂, rw (e₁, e₂), word_value b o v at₁ at₂ s₂, Stored-trans 2 s₁ s₂)
