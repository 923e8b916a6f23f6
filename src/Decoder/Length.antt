-- ===== src/Decoder/Length.antt =====
-- decoder.c: the decoded length, and the rule of the architecture on the first five bits.
use libthumb2sim.Base.{
  ℕ, ◌*◌, ◌/◌, ◌^◌, ◌≤◌, ◌<◌, ◌≡◌, ◌≢◌, ◌⊎◌, inl, inr, refl, sym, ap, subst, ◌∙◌, Bool, true, not,
  ◌&&◌, ◌||◌, none, some, List, [], ◌∷◌, ltb, ◌==◌, if◌then◌else◌, bit_and, Bool-cases,
  Option-cases, arith,
}
use libthumb2sim.Base.Bits.{
  bit_and_part, bit_and_field, bit_and_mask, bit_and_comm, bit_and_assoc, zero-bit_and,
}
use libthumb2sim.Decoder.Insn.{Insn}
use libthumb2sim.Decoder.Row.{Row, matches}
use libthumb2sim.Decoder.Decode.{first_match, rows, decode_insn}

-- The length that the architecture gives to the word: 4 for 0b11101, 0b11110 and 0b11111.
abbrev pub length_of_word : ℕ → ℕ
length_of_word opcode = if ltb (opcode / 2 ^ 27) 29 then 2 else 4

-- `m` shows all the bits of `t`.
abbrev shows : ℕ → ℕ → Bool
shows m t = bit_and m t == t

-- A test on the constants of a branch alone.
has_right_length : Row → Bool
has_right_length r =
    if r.insn_length == 4
    then shows r.mask 0xe0000000
      && bit_and r.compare 0xe0000000 == 0xe0000000
      && not (bit_and r.compare 0x18000000 == 0)
    else r.insn_length == 2
      && ((shows r.mask 0xe0000000 && not (bit_and r.compare 0xe0000000 == 0xe0000000))
          || (shows r.mask 0xf8000000 && bit_and r.compare 0xf8000000 == 0xe0000000))

pub all_rows : (Row → Bool) → List Row → Bool
all_rows p [] = true
all_rows p (r ∷ rest) = p r && all_rows p rest

rows-has_right_length : all_rows has_right_length rows ≡ true
unfolding all_rows has_right_length rows
rows-has_right_length = refl

-- The top bits that a matching word has.
top_bits :
    (r : Row) (opcode k m : ℕ)
    → matches r opcode ≡ true
    → shows r.mask (m * 2 ^ k) ≡ true
    → bit_and (opcode / 2 ^ k) m * 2 ^ k ≡ bit_and r.compare (m * 2 ^ k)
unfolding matches
top_bits r opcode k m hit part =
    sym (bit_and_field k opcode m)
    ∙ bit_and_part opcode r.mask r.compare (m * 2 ^ k) (ground arith) (ground arith)

-- A bit of the compared constant is a bit of the word.
shown_bits :
    (r : Row) (opcode t : ℕ)
    → matches r opcode ≡ true
    → bit_and r.compare t ≢ 0
    → bit_and opcode t ≢ 0
unfolding matches
shown_bits r opcode t hit ne e = ne (
    ground (
      arith,
      bit_and_assoc opcode r.mask t,
      bit_and_comm r.mask t,
      bit_and_assoc opcode t r.mask,
      zero-bit_and r.mask,
    ))

wide_word :
    (r : Row) (opcode : ℕ)
    → opcode < 2 ^ 32
    → matches r opcode ≡ true
    → shows r.mask 0xe0000000 ≡ true
    → bit_and r.compare 0xe0000000 ≡ 0xe0000000
    → bit_and r.compare 0x18000000 ≢ 0
    → 29 ≤ opcode / 2 ^ 27
wide_word r opcode h hit part high low = omega (
  arith,
  top_bits r opcode 29 7 hit part,
  bit_and_mask 3 (opcode / 2 ^ 29),
  shown_bits r opcode 0x18000000 hit low,
  bit_and_field 27 opcode 3,
  bit_and_mask 2 (opcode / 2 ^ 27),
)

narrow_word :
    (r : Row) (opcode : ℕ)
    → opcode < 2 ^ 32
    → matches r opcode ≡ true
    → shows r.mask 0xe0000000 ≡ true
    → bit_and r.compare 0xe0000000 ≢ 0xe0000000
    → opcode / 2 ^ 27 < 29
narrow_word r opcode h hit part high =
    omega (arith, top_bits r opcode 29 7 hit part, bit_and_mask 3 (opcode / 2 ^ 29))

narrow_word_branch :
    (r : Row) (opcode : ℕ)
    → opcode < 2 ^ 32
    → matches r opcode ≡ true
    → shows r.mask 0xf8000000 ≡ true
    → bit_and r.compare 0xf8000000 ≡ 0xe0000000
    → opcode / 2 ^ 27 < 29
narrow_word_branch r opcode h hit part high =
    omega (arith, top_bits r opcode 27 31 hit part, bit_and_mask 5 (opcode / 2 ^ 27))

row_length :
    (r : Row) (opcode : ℕ)
    → opcode < 2 ^ 32
    → matches r opcode ≡ true
    → has_right_length r ≡ true
    → r.insn_length ≡ length_of_word opcode
unfolding has_right_length
row_length r opcode h hit right =
    ground (
      arith,
      wide_word r opcode h hit,
      narrow_word r opcode h hit,
      narrow_word_branch r opcode h hit,
    )

-- The branch that is taken is one of the chain, and its test holds.
pub first_match_sound :
    (p : Row → Bool) (rs : List Row) (opcode : ℕ) {r : Row}
    → all_rows p rs ≡ true
    → first_match rs opcode ≡ some r
    → (p r ≡ true) × (matches r opcode ≡ true)
unfolding first_match all_rows
first_match_sound p [] opcode all e = absurd (cc e)
first_match_sound p (s ∷ rs) opcode {r} all e = elim (Bool-cases (matches s opcode)) [
  | inl hit ↦
      let same_row : s ≡ r = ground arith in
      subst (λ r. (p r ≡ true) × (matches r opcode ≡ true)) same_row (ground arith, hit)
  | inr miss ↦ first_match_sound p rs opcode (ground arith) (ground arith)
]

-- For every 32-bit word, the decoder either finds no branch, and then gives the length 0 and makes
-- no call, or it makes a call and gives the length that the architecture assigns by the top bits
-- of the word: 4 from 0xe8000000 on, and 2 below.
pub decode_insn-length :
    (opcode : ℕ)
    → opcode < 2 ^ 32
    → (decode_insn opcode ≡ (0, none))
      ⊎ ((insn : Insn) × (decode_insn opcode ≡ (length_of_word opcode, some insn)))
unfolding decode_insn
decode_insn-length opcode h = elim (Option-cases (first_match rows opcode)) [
  | inl e ↦ inl (rw (e, decode_insn))
  | inr (r, e) ↦
      let both = first_match_sound has_right_length rows opcode rows-has_right_length e in
      inr (
        r.call opcode,
        rw (e, decode_insn)
            (ap (λ n. (n, some (r.call opcode))) (row_length r opcode h both.1 both.0)),
      )
]
