-- ===== src/Disassembly/Buffer.antt =====
-- cpu_cm3.c, `print_disas_callback`: the buffer of 128 characters to which the texts are added.
use libthumb2sim.Base.{
  ◌-◌, ◌≤◌, ◌≡◌, refl, ap, List, [], ◌∷◌, ◌++◌, length, length-append, take, concat, take_all,
  take-append, append_assoc, append-nil, take-take, length-take_le, arith,
}
use libthumb2sim.Decoder.Insn.{Insn}
use libthumb2sim.Disassembly.Text.{Text}
use libthumb2sim.Disassembly.Print.{DisasCtx}
use libthumb2sim.Disassembly.Dispatch.{disassemble}
use libthumb2sim.Disassembly.Lengths.{total}
use libthumb2sim.Disassembly.Lengths.Dispatch.{disassemble_le}

-- `vsnprintf(disasBuffer + l, 128 - l, ...)`, which keeps a place for the terminating 0.
unfoldable pub print_disas_callback : Text → Text → Text
print_disas_callback buffer text = buffer ++ take (127 - length buffer) text

-- The calls of a handler, one after the other.
unfoldable pub print_calls : Text → List Text → Text
print_calls buffer [] = buffer
print_calls buffer (text ∷ texts) = print_calls (print_disas_callback buffer text) texts

callback-le :
    (buffer text : Text) → length buffer ≤ 127 → length (print_disas_callback buffer text) ≤ 127
unfolding print_disas_callback
callback-le buffer text h = omega (
  arith,
  length-append buffer (take (127 - length buffer) text),
  length-take_le (127 - length buffer) text,
)

callback_unfolded :
    (buffer text : Text)
    → print_disas_callback buffer text ≡ buffer ++ take (127 - length buffer) text
unfolding print_disas_callback
callback_unfolded buffer text = refl

-- The buffer that holds at most 127 characters, to which the texts are added one by one and cut
-- off where the room ends, holds the first 127 characters of all of them in a row.
pub print_calls_lem :
    (buffer : Text) (texts : List Text)
    → length buffer ≤ 127
    → print_calls buffer texts ≡ take 127 (buffer ++ concat texts)
unfolding print_calls
print_calls_lem buffer [] h = cc (append-nil buffer, take_all 127 buffer h)
print_calls_lem buffer (text ∷ texts) h =
    let left = 127 - length buffer in
    let rest = concat texts in
    cc (
      print_calls_lem (print_disas_callback buffer text) texts (callback-le buffer text h),
      callback_unfolded buffer text,
      append_assoc buffer (take left text) rest,
      take-append 127 buffer (take left text ++ rest) h,
      take-append 127 buffer (text ++ rest) h,
      take-take left text rest,
    )

total-concat : (texts : List Text) → length (concat texts) ≡ total texts
total-concat [] = refl
total-concat (text ∷ texts) = omega (arith, length-append text (concat texts), total-concat texts)

-- The buffer after the handler of an instruction, which starts with an empty one.
unfoldable pub disassembly : Insn → DisasCtx → Text
disassembly insn ctx = print_calls [] (disassemble insn ctx)

-- The text of every instruction, in every context, has at most 127 characters, so that the buffer
-- of 128 holds all of it and cuts nothing off.
pub disassembly_whole :
    (insn : Insn) (ctx : DisasCtx)
    → (disassembly insn ctx ≡ concat (disassemble insn ctx)) × (length (disassembly insn ctx) ≤ 127)
unfolding disassembly
disassembly_whole insn ctx =
    let texts = disassemble insn ctx in
    let short : length (concat texts) ≤ 127 =
      omega (arith, total-concat texts, disassemble_le insn ctx) in
    let whole : print_calls [] texts ≡ concat texts =
      cc (print_calls_lem [] texts (omega arith), take_all 127 (concat texts) short) in
    (whole, omega (arith, ap length whole, short))
