-- ===== src/Emulation/Machine/Partial.antt =====
-- impl_emulation.c: the steps of the handlers that may be undefined, and the words they give.
use libthumb2sim.Base.{
  ℕ, ◌-◌, ◌*◌, ◌^◌, ◌<◌, Option, ◌==◌, ltb, ◌>>=◌, arith, either, shl32, shr32, asr32,
}
use libthumb2sim.Base.OnSome.{OnSome, undefined, defined, OnSome-bind}
use libthumb2sim.Emulation.Shift.{
  Shifted, barrel_shift, shift_left, shift_right, rotate_right, type_lsl, type_lsr, type_ror,
  bit_below,
}
use libthumb2sim.Emulation.Machine.State.{
  IsWord, u32-lt, not32-lt, quotient-lt, bit_and-lt, bit_or-word,
}

-- The result of a partial step is a word.
pub shl32-OnSome : (a k : ℕ) → OnSome IsWord (shl32 a k)
shl32-OnSome a k = either (OnSome IsWord) (ltb k 32) (defined (u32-lt (a * 2 ^ k))) undefined

pub shr32-OnSome : (a k : ℕ) → a < 2 ^ 32 → OnSome IsWord (shr32 a k)
shr32-OnSome a k h = either (OnSome IsWord) (ltb k 32) (defined (quotient-lt a (2 ^ k) h)) undefined

pub asr32-OnSome : (a k : ℕ) → a < 2 ^ 32 → OnSome IsWord (asr32 a k)
asr32-OnSome a k h =
    either (OnSome IsWord) (ltb k 32)
      (defined (either IsWord (ltb a (2 ^ 31)) (quotient-lt a (2 ^ k) h) (not32-lt _))) undefined

pub bit_below-OnSome : (k : ℕ) → OnSome IsWord (bit_below k)
bit_below-OnSome k = either (OnSome IsWord) (k == 0) undefined (shl32-OnSome 1 (k - 1))

abbrev pub IsShifted : Shifted → Type 0
IsShifted out = out.value < 2 ^ 32

shift_left-OnSome : (a k : ℕ) → OnSome IsShifted (shift_left a k)
unfolding shift_left
shift_left-OnSome a k = OnSome-bind (shl32 a k) _ (shl32-OnSome a k) (λ v h. defined h)

shift_right-OnSome : (a k : ℕ) → a < 2 ^ 32 → OnSome IsShifted (shift_right a k)
unfolding shift_right
shift_right-OnSome a k h =
    OnSome-bind (bit_below k) _ (bit_below-OnSome k)
      (λ bit b. OnSome-bind (shr32 a k) _ (shr32-OnSome a k h) (λ v p. defined p))

rotate_right-OnSome : (a k : ℕ) → a < 2 ^ 32 → OnSome IsShifted (rotate_right a k)
unfolding rotate_right
rotate_right-OnSome a k h = OnSome-bind (shl32 1 k) _ (shl32-OnSome 1 k) (λ one o.
    OnSome-bind (shl32 _ (32 - k)) _ (shl32-OnSome _ (32 - k)) (λ high p.
      OnSome-bind (shr32 _ k) _ (shr32-OnSome _ k (bit_and-lt a _ h))
        (λ low q. defined (bit_or-word high low p q))))

pub barrel_shift-OnSome : (a t k : ℕ) → a < 2 ^ 32 → OnSome IsShifted (barrel_shift a t k)
unfolding barrel_shift
barrel_shift-OnSome a t k h = either (OnSome IsShifted) (t == type_lsl) (shift_left-OnSome a k) (
    either (OnSome IsShifted) (t == type_lsr) (shift_right-OnSome a k h) (
      either (OnSome IsShifted) (t == type_ror) (rotate_right-OnSome a k h)
        (defined (omega arith))))

-- A partial step and what follows it, for each kind of step.
module _ {A : Type 0} {Q : A → Type 0} where
  pub barrel_shift-bind :
      (a t k : ℕ) (f : Shifted → Option A)
      → a < 2 ^ 32
      → ((out : Shifted) → out.value < 2 ^ 32 → OnSome Q (f out))
      → OnSome Q (barrel_shift a t k >>= f)
  barrel_shift-bind a t k f h g = OnSome-bind (barrel_shift a t k) f (barrel_shift-OnSome a t k h) g

  pub bit_below-bind :
      (k : ℕ) (f : ℕ → Option A) → ((bit : ℕ) → OnSome Q (f bit)) → OnSome Q (bit_below k >>= f)
  bit_below-bind k f g = OnSome-bind (bit_below k) f (bit_below-OnSome k) (λ bit h. g bit)

  pub shl32-bind :
      (a k : ℕ) (f : ℕ → Option A)
      → ((v : ℕ) → v < 2 ^ 32 → OnSome Q (f v))
      → OnSome Q (shl32 a k >>= f)
  shl32-bind a k f g = OnSome-bind (shl32 a k) f (shl32-OnSome a k) g

  pub shr32-bind :
      (a k : ℕ) (f : ℕ → Option A)
      → a < 2 ^ 32
      → ((v : ℕ) → v < 2 ^ 32 → OnSome Q (f v))
      → OnSome Q (shr32 a k >>= f)
  shr32-bind a k f h g = OnSome-bind (shr32 a k) f (shr32-OnSome a k h) g

  pub asr32-bind :
      (a k : ℕ) (f : ℕ → Option A)
      → a < 2 ^ 32
      → ((v : ℕ) → v < 2 ^ 32 → OnSome Q (f v))
      → OnSome Q (asr32 a k >>= f)
  asr32-bind a k f h g = OnSome-bind (asr32 a k) f (asr32-OnSome a k h) g
