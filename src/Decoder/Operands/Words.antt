-- ===== src/Decoder/Operands/Words.antt =====
-- decoder.c: the operands of every instruction that is decoded.
use libthumb2sim.Base.{
  ℕ, ◌≡◌, refl, subst, some, none, List, [], ◌∷◌, ◌++◌, All, All-append, Bool-cases, Option-cases,
  inl, inr, arith,
}
use libthumb2sim.Decoder.Insn.{Insn}
use libthumb2sim.Decoder.Row.{Row, matches}
use libthumb2sim.Decoder.Rows.{
  rows_1, rows_2, rows_3, rows_4, rows_5, rows_6, rows_7, rows_8, rows_9, rows_10, rows_11, rows_12,
  rows_13, rows_14, rows_15, rows_16, rows_17, rows_18, rows_19, rows_20, rows_21, rows_22, rows_23,
  rows_24, rows_25, rows_26, rows_27, rows_28, rows_29, rows_30, rows_31, rows_32, rows_33, rows_34,
  rows_35, rows_36, rows_37, rows_38, rows_39, rows_40, rows_41, rows_42, rows_43,
}
use libthumb2sim.Decoder.Decode.{first_match, rows, decode_insn}
use libthumb2sim.Decoder.Operands.{OperandsFit, RowFits}
use libthumb2sim.Decoder.Operands.Rows.{
  rows_1-Fits, rows_2-Fits, rows_3-Fits, rows_4-Fits, rows_5-Fits, rows_6-Fits, rows_7-Fits,
  rows_8-Fits, rows_9-Fits, rows_10-Fits, rows_11-Fits, rows_12-Fits, rows_13-Fits, rows_14-Fits,
  rows_15-Fits, rows_16-Fits, rows_17-Fits, rows_18-Fits, rows_19-Fits, rows_20-Fits, rows_21-Fits,
  rows_22-Fits, rows_23-Fits, rows_24-Fits, rows_25-Fits, rows_26-Fits, rows_27-Fits, rows_28-Fits,
  rows_29-Fits, rows_30-Fits, rows_31-Fits, rows_32-Fits, rows_33-Fits, rows_34-Fits, rows_35-Fits,
  rows_36-Fits, rows_37-Fits, rows_38-Fits, rows_39-Fits, rows_40-Fits, rows_41-Fits, rows_42-Fits,
  rows_43-Fits, rows_44-Fits,
}

-- The branches of a list fit.
data AllFit : List Row → Type 0 where
  last : {rs : List Row} → All RowFits rs → AllFit rs

all_fit : {rs : List Row} → AllFit rs → All RowFits rs
all_fit (last all) = all

more : (rs : List Row) {later : List Row} → All RowFits rs → AllFit later → AllFit (rs ++ later)
more rs {later} all fit = last (All-append RowFits rs later all (all_fit fit))

rows-Fits : AllFit rows
unfolding rows
rows-Fits = more rows_1 rows_1-Fits (
    more rows_2 rows_2-Fits (
      more rows_3 rows_3-Fits (
        more rows_4 rows_4-Fits (
          more rows_5 rows_5-Fits (
            more rows_6 rows_6-Fits (
              more rows_7 rows_7-Fits (
                more rows_8 rows_8-Fits (
                  more rows_9 rows_9-Fits (
                    more rows_10 rows_10-Fits (
                      more rows_11 rows_11-Fits (
                        more rows_12 rows_12-Fits (
                          more rows_13 rows_13-Fits (
                            more rows_14 rows_14-Fits (
                              more rows_15 rows_15-Fits (
                                more rows_16 rows_16-Fits (
                                  more rows_17 rows_17-Fits (
                                    more rows_18 rows_18-Fits (
                                      more rows_19 rows_19-Fits (
                                        more rows_20 rows_20-Fits (
                                          more rows_21 rows_21-Fits (
                                            more rows_22 rows_22-Fits (
                                              more rows_23 rows_23-Fits (
                                                more rows_24 rows_24-Fits (
                                                  more rows_25 rows_25-Fits (
                                                    more rows_26 rows_26-Fits (
                                                      more rows_27 rows_27-Fits (
                                                        more rows_28 rows_28-Fits (
                                                          more rows_29 rows_29-Fits (
                                                            more rows_30 rows_30-Fits (
                                                            more rows_31 rows_31-Fits (
                                                            more rows_32 rows_32-Fits (
                                                            more rows_33 rows_33-Fits (
                                                            more rows_34 rows_34-Fits (
                                                            more rows_35 rows_35-Fits (
                                                            more rows_36 rows_36-Fits (
                                                            more rows_37 rows_37-Fits (
                                                            more rows_38 rows_38-Fits (
                                                            more rows_39 rows_39-Fits (
                                                            more rows_40 rows_40-Fits (
                                                            more rows_41 rows_41-Fits (
                                                            more rows_42 rows_42-Fits (
                                                            more rows_43 rows_43-Fits
                                                            (last rows_44-Fits))))))))))))))))))))))
                                                            )))))))))))))))))))))

first_match-lem :
    (P : Row → Type 0) (rs : List Row) (opcode : ℕ) {r : Row}
    → All P rs
    → first_match rs opcode ≡ some r
    → P r
unfolding first_match
first_match-lem P [] opcode all e = absurd (cc e)
first_match-lem P (r ∷ rs) opcode all e = elim (Bool-cases (matches r opcode)) [
  | inl hit ↦ subst P (ground (arith, hit, e)) all.0
  | inr miss ↦ first_match-lem P rs opcode all.1 (ground (arith, miss, e))
]

-- Whatever the word is, the operands of the instruction that is decoded fit: where the handler
-- changes the state, each register number is below 16, and an operand that is stored as it is has
-- the width of its place.
pub decode_insn-OperandsFit :
    (opcode : ℕ) (insn : Insn) → (decode_insn opcode).1 ≡ some insn → OperandsFit insn
unfolding decode_insn
decode_insn-OperandsFit opcode insn e = elim (Option-cases (first_match rows opcode)) [
  | inl missing ↦
      let nothing : (decode_insn opcode).1 ≡ none = rw (decode_insn, missing) refl in
      absurd (cc (e, nothing))
  | inr (r, found) ↦
      let made : (decode_insn opcode).1 ≡ some (r.call opcode) = rw (decode_insn, found) refl in
      let call : r.call opcode ≡ insn = cc (made, e) in
      subst OperandsFit call (first_match-lem RowFits rows opcode (all_fit rows-Fits) found opcode)
]
