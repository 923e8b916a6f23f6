-- ===== src/AddressSpace/Valid.antt =====
-- address_space.c: every access keeps the address space valid, also one that wraps round.
use libthumb2sim.Base.{
  ℕ, ◌+◌, ◌-◌, ◌/◌, ◌^◌, ◌<◌, Option, none, some, ◌==◌, ◌&&◌, ltb, if◌then◌else◌, ◌>>=◌, u8, u16,
  u32, either, arith,
}
use libthumb2sim.Base.OnSome.{OnSome, undefined, defined, OnSome-bind}
use libthumb2sim.AddressSpace.{
  AddressSpace, AddressSlice, getslice, load_byte, load_half, load_word, store_byte, store_half,
  store_word, read_n, write_n, read8, read16, read32, write8, write16, write32,
}
use libthumb2sim.AddressSpace.Access.{IsValid}

abbrev pub Below : ℕ → ℕ → Type 0
Below bound v = v < bound

cast-OnSome :
    (cast : ℕ → ℕ)
    → ((v : ℕ) → cast v < 2 ^ 32)
    → (o : Option ℕ) → OnSome (Below (2 ^ 32)) (o >>= λ v. some (cast v))
cast-OnSome cast below none = undefined
cast-OnSome cast below (some v) = defined (below v)

module _ {m : AddressSpace} (valid : IsValid m) where
  load_byte-OnSome : (b o : ℕ) → OnSome (Below (2 ^ 8)) (load_byte m b o)
  unfolding load_byte
  load_byte-OnSome b o =
      either (OnSome (Below (2 ^ 8))) (ltb o (m.block_size b)) (defined (valid.bytes b o)) undefined

  load_half-OnSome : (b o : ℕ) → OnSome (Below (2 ^ 16)) (load_half m b o)
  unfolding load_half
  load_half-OnSome b o = OnSome-bind (load_byte m b o) _ (load_byte-OnSome b o) (λ low h.
      OnSome-bind (load_byte m b (o + 1)) _ (load_byte-OnSome b (o + 1))
        (λ high k. defined (omega arith)))

  pub load_word-OnSome : (b o : ℕ) → OnSome (Below (2 ^ 32)) (load_word m b o)
  unfolding load_word
  load_word-OnSome b o = OnSome-bind (load_half m b o) _ (load_half-OnSome b o) (λ low h.
      OnSome-bind (load_half m b (o + 2)) _ (load_half-OnSome b (o + 2))
        (λ high k. defined (omega arith)))

  pub read8-OnSome : (a : ℕ) → OnSome (Below (2 ^ 32)) (read8 m a)
  unfolding read8
  read8-OnSome a = cast-OnSome u8 (λ v. omega arith) (read_n m a 1)

  pub read16-OnSome : (a : ℕ) → OnSome (Below (2 ^ 32)) (read16 m a)
  unfolding read16
  read16-OnSome a = cast-OnSome u16 (λ v. omega arith) (read_n m a 2)

  pub read32-OnSome : (a : ℕ) → OnSome (Below (2 ^ 32)) (read32 m a)
  unfolding read32 read_n
  read32-OnSome a =
      elim (getslice m.slices a 4)
        as (λ (s : Option AddressSlice).
          OnSome (Below (2 ^ 32))
            (elim s [ none ↦ some 0 | some s ↦ load_word m s.block (a - s.begin) ])) [
              | none ↦ defined (omega arith)
              | some s ↦ load_word-OnSome s.block (a - s.begin)
            ]

  store_byte-OnSome : (b o v : ℕ) → OnSome IsValid (store_byte m b o v)
  unfolding store_byte
  store_byte-OnSome b o v =
      either (OnSome IsValid) (ltb o (m.block_size b))
        (defined (record {
          few = valid.few;
          fits = valid.fits;
          bytes = λ c i. either (Below (2 ^ 8)) (c == b && i == o) (omega arith) (valid.bytes c i);
        }))
        undefined

store_half-OnSome :
    {m : AddressSpace} → IsValid m → (b o v : ℕ) → OnSome IsValid (store_half m b o v)
unfolding store_half
store_half-OnSome {m} valid b o v =
    OnSome-bind (store_byte m b o v) _ (store_byte-OnSome valid b o v)
      (λ m₁ valid₁. store_byte-OnSome valid₁ b (o + 1) (v / 2 ^ 8))

pub store_word-OnSome :
    {m : AddressSpace} → IsValid m → (b o v : ℕ) → OnSome IsValid (store_word m b o v)
unfolding store_word
store_word-OnSome {m} valid b o v =
    OnSome-bind (store_half m b o v) _ (store_half-OnSome valid b o v)
      (λ m₁ valid₁. store_half-OnSome valid₁ b (o + 2) (v / 2 ^ 16))

-- The part of `write_n` that follows the search for the slice.
write_slice-OnSome :
    {m : AddressSpace}
    → IsValid m
    → (a len v : ℕ) (found : Option AddressSlice)
    → OnSome IsValid (elim found [
      | none ↦ some m
      | some s ↦
          if s.read_only
          then some m
          else if len == 1
          then store_byte m s.block (a - s.begin) v
          else if len == 2
          then store_half m s.block (a - s.begin) v
          else if len == 4
          then store_word m s.block (a - s.begin) v
          else some m
    ])
write_slice-OnSome valid a len v none = defined valid
write_slice-OnSome valid a len v (some s) = either (OnSome IsValid) s.read_only (defined valid) (
    either (OnSome IsValid) (len == 1) (store_byte-OnSome valid s.block (a - s.begin) v) (
      either (OnSome IsValid) (len == 2) (store_half-OnSome valid s.block (a - s.begin) v) (
        either (OnSome IsValid) (len == 4) (store_word-OnSome valid s.block (a - s.begin) v)
          (defined valid))))

module _ {m : AddressSpace} (valid : IsValid m) (a v : ℕ) where
  write_n-OnSome : (len : ℕ) → OnSome IsValid (write_n m a len v)
  unfolding write_n
  write_n-OnSome len = write_slice-OnSome valid a len v (getslice m.slices a len)

pub write8-OnSome : {m : AddressSpace} → IsValid m → (a v : ℕ) → OnSome IsValid (write8 m a v)
unfolding write8
write8-OnSome valid a v = write_n-OnSome valid a (u8 v) 1

pub write16-OnSome : {m : AddressSpace} → IsValid m → (a v : ℕ) → OnSome IsValid (write16 m a v)
unfolding write16
write16-OnSome valid a v = write_n-OnSome valid a (u16 v) 2

pub write32-OnSome : {m : AddressSpace} → IsValid m → (a v : ℕ) → OnSome IsValid (write32 m a v)
unfolding write32
write32-OnSome valid a v = write_n-OnSome valid a (u32 v) 4
