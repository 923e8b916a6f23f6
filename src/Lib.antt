-- ===== src/Lib.antt =====
-- libthumb2sim: an emulator of the ARM Thumb-2 instruction set, modelled from its C sources.
--
-- The program fetches a 32-bit word at the PC, decodes it by a chain of mask tests, calls the handler of
-- the instruction, and then moves the PC, the instruction counter and the IT state on. Guest memory is a
-- table of up to four slices, each backed by memory of the host. The files of this library are:
--
--   Base          words of 32 bits, Boolean tests, lists, binary digits and bitwise operations, and the
--                 signed numbers, over the native natural numbers; the lemmas that the parts share
--   AddressSpace  address_space.c: the slice table and its accesses. Access and Store: accesses and the
--                 blocks. Laws: reads after writes. Region: new regions and the range that wraps
--   Cpu           include/thumb2sim.h, impl_emulation.h: the state of the CPU, and when it is valid
--   Decoder       decoder.c: Insn has the calls of decoding_handler_t, Rows the branches of decode_insn in
--                 the order of the source, Decode the first branch that matches, Imm the immediates.
--                 Length, Imm/Laws and Imm/Offset: what is decoded. Operands: the widths of the operands
--   Emulation     impl_emulation.c: the flags, the barrel shifter and the handlers, by kind (Arith, Logic,
--                 Move, Branch, Memory, Multiple, System); Execute is the table emulation_callbacks.
--                 A handler emulation_i16_it_T1 is i16_it_t1 here. The modules below them are about
--                 the flags, CLZ, branch targets, rotation, products, and a store before a load. Machine:
--                 the handlers and the validity of the machine
--   Simulator     cpu_cm3.c and convenience.c: cpu_single_step (single_step), cpu_run (run), cpu_reset
--                 (reset), load_file and init_cortexm. Step and Loop: steps and runs. ItBlock: the IT
--                 instruction and the steps after it. Psr and Finish: what follows the instruction
--                 in a step. Init: the initial state
--   Disassembly   impl_disassembly.c: Print and Operands have its helpers, Arith to System the handlers
--                 by kind, Dispatch the table disassemblyCallbacks. A handler is the texts it hands to
--                 printDisassembly. Buffer and Trace: print_disas_callback, cpu_debug_insn and
--                 cpu_print_state of cpu_cm3.c. Hexdump: hexdump.c and cpu_print_memory. Testcase:
--                 disassembler.c. Lengths, Reading, Agreement: the sizes of the texts, reading them back,
--                 and the texts beside the emulator
--   Gdb           gdbserver/gdbserver.c: frames and replies; Command is gdb_handle_command and
--                 interpret_rxdata. Frame and Memory: what the debugger receives
--   App           app/thumb2sim.c: main and its callbacks. Valid and Exit: its runs
--   Tests         a concrete state, and tests of each part on it
--
-- How the code is modelled:
--
--   * A function that changes emu_ctx_t takes and returns the state. Registers are a function of the
--     register's number. Words are natural numbers below 2^32, with the wrap-around written out.
--   * none stands for what C leaves undefined: a shift by 32 or more, an access outside a host block, a
--     signed overflow. It also stands for the exit of the process when the slices are exhausted, and for
--     init_cortexm's NULL.
--   * A signed overflow in subCondCode and in SDIV is undefined. The other sums of signed operands, whose
--     immediates are too small to overflow as the decoder gives them, and 1 << 31 are 32-bit patterns.
--     The host is taken to be little-endian.
--   * A pointer into host memory is the number of a block and an offset, so that slices may share bytes.
--   * The host's callbacks are parameters, and may change the emulator's state and their own.
--   * cpu_run loops without an end. Here it takes a number of rounds, and says whether the callback ended
--     it or whether it is still running.
--   * The loops over 32 bits, 16 registers and 3 mask bits recurse on the rounds that are left.
--   * A text is the list of the codes of its characters, before the terminating 0. The digits of a number
--     have fuel: 8 for %x and 10 for %u, which 32 bits need. The pieces of a line of test cases are 32 at
--     most, as in the code. What is used of string.h and stdlib.h is written out in Base/Libc.
--
-- Not modelled: messages on stderr other than the trace of the instructions, the state and
-- the memory, cpu_dump_file, free_cortexm, the default hardware parameters, the connection and the main
-- of the GDB server and its copy of an MD5 implementation (a parameter here), the loop over the file of
-- test cases, the guest's test programs (cm4test), and the Python code (codegen, qemu).
pub mod Base
pub mod AddressSpace
pub mod Cpu
pub mod Emulation
pub mod Decoder
pub mod Disassembly
pub mod Gdb
pub mod App
pub mod Simulator
pub mod Tests
