-- ===== src/Decoder/Decode.antt =====
-- decoder.c, `decode_insn`: the first branch whose test holds.
--
-- The handler table may be NULL or lack the handler: the caller then makes no call. The printing of
-- the decoding is left out.
use libthumb2sim.Base.{ℕ, Option, none, some, List, [], ◌∷◌, ◌++◌, if◌then◌else◌}
use libthumb2sim.Decoder.Insn.{Insn}
use libthumb2sim.Decoder.Row.{Row, matches}
use libthumb2sim.Decoder.Rows.{
  rows_1, rows_2, rows_3, rows_4, rows_5, rows_6, rows_7, rows_8, rows_9, rows_10, rows_11, rows_12,
  rows_13, rows_14, rows_15, rows_16, rows_17, rows_18, rows_19, rows_20, rows_21, rows_22, rows_23,
  rows_24, rows_25, rows_26, rows_27, rows_28, rows_29, rows_30, rows_31, rows_32, rows_33, rows_34,
  rows_35, rows_36, rows_37, rows_38, rows_39, rows_40, rows_41, rows_42, rows_43, rows_44,
}

unfoldable pub first_match : List Row → ℕ → Option Row
first_match [] opcode = none
first_match (r ∷ rest) opcode =
    let later = first_match rest opcode in if matches r opcode then some r else later

unfoldable pub rows : List Row
unfolding rows_1 rows_2 rows_3 rows_4 rows_5 rows_6 rows_7 rows_8 rows_9 rows_10 rows_11 rows_12
    rows_13 rows_14 rows_15 rows_16 rows_17 rows_18 rows_19 rows_20 rows_21 rows_22 rows_23 rows_24
    rows_25 rows_26 rows_27 rows_28 rows_29 rows_30 rows_31 rows_32 rows_33 rows_34 rows_35 rows_36
    rows_37 rows_38 rows_39 rows_40 rows_41 rows_42 rows_43 rows_44
rows =
    rows_1
    ++ (rows_2
        ++ (rows_3
            ++ (rows_4
                ++ (rows_5
                    ++ (rows_6
                        ++ (rows_7
                            ++ (rows_8
                                ++ (rows_9
                                    ++ (rows_10
                                        ++ (rows_11
                                            ++ (rows_12
                                                ++ (rows_13
                                                    ++ (rows_14
                                                        ++ (rows_15
                                                            ++ (rows_16
                                                            ++ (rows_17
                                                            ++ (rows_18
                                                            ++ (rows_19
                                                            ++ (rows_20
                                                            ++ (rows_21
                                                            ++ (rows_22
                                                            ++ (rows_23
                                                            ++ (rows_24
                                                            ++ (rows_25
                                                            ++ (rows_26
                                                            ++ (rows_27
                                                            ++ (rows_28
                                                            ++ (rows_29
                                                            ++ (rows_30
                                                            ++ (rows_31
                                                            ++ (rows_32
                                                            ++ (rows_33
                                                            ++ (rows_34
                                                            ++ (rows_35
                                                            ++ (rows_36
                                                            ++ (rows_37
                                                            ++ (rows_38
                                                            ++ (rows_39
                                                            ++ (rows_40
                                                            ++ (rows_41
                                                            ++ (rows_42 ++ (rows_43 ++ (rows_44)))))
                                                            ))))))))))))))))))))))))))))))))))))))

-- The length that is decoded, 0 where no branch is taken, and the call that is made.
unfoldable pub decode_insn : ℕ → ℕ × Option Insn
unfolding first_match rows
decode_insn opcode = elim (first_match rows opcode) [
  | some r ↦ (r.insn_length, some (r.call opcode))
  | none ↦ (0, none)
]
