-- ===== src/Decoder/Operands/Rows.antt =====
-- decoder.c: the operands of every branch.
use libthumb2sim.Base.{arith, All}
use libthumb2sim.Base.Bits.{bit_and-le_right}
use libthumb2sim.Decoder.Operands.{
  OperandsFit, RowFits, bit_or-nibble, bit_or-word, thumb_expand_imm-lt,
}
use libthumb2sim.Decoder.Rows.{
  rows_1, rows_2, rows_3, rows_4, rows_5, rows_6, rows_7, rows_8, rows_9, rows_10, rows_11, rows_12,
  rows_13, rows_14, rows_15, rows_16, rows_17, rows_18, rows_19, rows_20, rows_21, rows_22, rows_23,
  rows_24, rows_25, rows_26, rows_27, rows_28, rows_29, rows_30, rows_31, rows_32, rows_33, rows_34,
  rows_35, rows_36, rows_37, rows_38, rows_39, rows_40, rows_41, rows_42, rows_43, rows_44,
}

ruleset fields = (arith, bit_and-le_right, bit_or-nibble, bit_or-word, thumb_expand_imm-lt)

pub rows_1-Fits : All RowFits rows_1
unfolding rows_1 OperandsFit
rows_1-Fits = grind fields

pub rows_2-Fits : All RowFits rows_2
unfolding rows_2 OperandsFit
rows_2-Fits = grind fields

pub rows_3-Fits : All RowFits rows_3
unfolding rows_3 OperandsFit
rows_3-Fits = grind fields

pub rows_4-Fits : All RowFits rows_4
unfolding rows_4 OperandsFit
rows_4-Fits = grind fields

pub rows_5-Fits : All RowFits rows_5
unfolding rows_5 OperandsFit
rows_5-Fits = grind fields

pub rows_6-Fits : All RowFits rows_6
unfolding rows_6 OperandsFit
rows_6-Fits = grind fields

pub rows_7-Fits : All RowFits rows_7
unfolding rows_7 OperandsFit
rows_7-Fits = grind fields

pub rows_8-Fits : All RowFits rows_8
unfolding rows_8 OperandsFit
rows_8-Fits = grind fields

pub rows_9-Fits : All RowFits rows_9
unfolding rows_9 OperandsFit
rows_9-Fits = grind fields

pub rows_10-Fits : All RowFits rows_10
unfolding rows_10 OperandsFit
rows_10-Fits = grind fields

pub rows_11-Fits : All RowFits rows_11
unfolding rows_11 OperandsFit
rows_11-Fits = grind fields

pub rows_12-Fits : All RowFits rows_12
unfolding rows_12 OperandsFit
rows_12-Fits = grind fields

pub rows_13-Fits : All RowFits rows_13
unfolding rows_13 OperandsFit
rows_13-Fits = grind fields

pub rows_14-Fits : All RowFits rows_14
unfolding rows_14 OperandsFit
rows_14-Fits = grind fields

pub rows_15-Fits : All RowFits rows_15
unfolding rows_15 OperandsFit
rows_15-Fits = grind fields

pub rows_16-Fits : All RowFits rows_16
unfolding rows_16 OperandsFit
rows_16-Fits = grind fields

pub rows_17-Fits : All RowFits rows_17
unfolding rows_17 OperandsFit
rows_17-Fits = grind fields

pub rows_18-Fits : All RowFits rows_18
unfolding rows_18 OperandsFit
rows_18-Fits = grind fields

pub rows_19-Fits : All RowFits rows_19
unfolding rows_19 OperandsFit
rows_19-Fits = grind fields

pub rows_20-Fits : All RowFits rows_20
unfolding rows_20 OperandsFit
rows_20-Fits = grind fields

pub rows_21-Fits : All RowFits rows_21
unfolding rows_21 OperandsFit
rows_21-Fits = grind fields

pub rows_22-Fits : All RowFits rows_22
unfolding rows_22 OperandsFit
rows_22-Fits = grind fields

pub rows_23-Fits : All RowFits rows_23
unfolding rows_23 OperandsFit
rows_23-Fits = grind fields

pub rows_24-Fits : All RowFits rows_24
unfolding rows_24 OperandsFit
rows_24-Fits = grind fields

pub rows_25-Fits : All RowFits rows_25
unfolding rows_25 OperandsFit
rows_25-Fits = grind fields

pub rows_26-Fits : All RowFits rows_26
unfolding rows_26 OperandsFit
rows_26-Fits = grind fields

pub rows_27-Fits : All RowFits rows_27
unfolding rows_27 OperandsFit
rows_27-Fits = grind fields

pub rows_28-Fits : All RowFits rows_28
unfolding rows_28 OperandsFit
rows_28-Fits = grind fields

pub rows_29-Fits : All RowFits rows_29
unfolding rows_29 OperandsFit
rows_29-Fits = grind fields

pub rows_30-Fits : All RowFits rows_30
unfolding rows_30 OperandsFit
rows_30-Fits = grind fields

pub rows_31-Fits : All RowFits rows_31
unfolding rows_31 OperandsFit
rows_31-Fits = grind fields

pub rows_32-Fits : All RowFits rows_32
unfolding rows_32 OperandsFit
rows_32-Fits = grind fields

pub rows_33-Fits : All RowFits rows_33
unfolding rows_33 OperandsFit
rows_33-Fits = grind fields

pub rows_34-Fits : All RowFits rows_34
unfolding rows_34 OperandsFit
rows_34-Fits = grind fields

pub rows_35-Fits : All RowFits rows_35
unfolding rows_35 OperandsFit
rows_35-Fits = grind fields

pub rows_36-Fits : All RowFits rows_36
unfolding rows_36 OperandsFit
rows_36-Fits = grind fields

pub rows_37-Fits : All RowFits rows_37
unfolding rows_37 OperandsFit
rows_37-Fits = grind fields

pub rows_38-Fits : All RowFits rows_38
unfolding rows_38 OperandsFit
rows_38-Fits = grind fields

pub rows_39-Fits : All RowFits rows_39
unfolding rows_39 OperandsFit
rows_39-Fits = grind fields

pub rows_40-Fits : All RowFits rows_40
unfolding rows_40 OperandsFit
rows_40-Fits = grind fields

pub rows_41-Fits : All RowFits rows_41
unfolding rows_41 OperandsFit
rows_41-Fits = grind fields

pub rows_42-Fits : All RowFits rows_42
unfolding rows_42 OperandsFit
rows_42-Fits = grind fields

pub rows_43-Fits : All RowFits rows_43
unfolding rows_43 OperandsFit
rows_43-Fits = grind fields

pub rows_44-Fits : All RowFits rows_44
unfolding rows_44 OperandsFit
rows_44-Fits = grind fields
