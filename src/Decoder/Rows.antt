-- ===== src/Decoder/Rows.antt =====
-- decoder.c, `decode_insn`: the branches of its chain of tests, in their order.
mod Part1
mod Part2
mod Part3
mod Part4
mod Part5
mod Part6
mod Part7
unfoldable pub use Part1.*
unfoldable pub use Part2.*
unfoldable pub use Part3.*
unfoldable pub use Part4.*
unfoldable pub use Part5.*
unfoldable pub use Part6.*
unfoldable pub use Part7.*
