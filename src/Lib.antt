-- ===== src/Lib.antt =====
-- The fixed32 assembler and disassembler of the M65832 core.
--
-- Processor/Tools/Asm/m65f32asm.c reads a program line by line, in native fixed32 or traditional
-- 6502 notation, emits 32-bit instruction words and data into a 512 KB buffer, patches the
-- references to later labels, and writes the buffer as RSD hex text. Processor/Tools/Asm/m65f32dis.c
-- reads that text, decodes the words, and lists them raw or in traditional notation. Two loaders
-- for boards and the Verilator test bench put the same text into the memory of the core.
--
-- Which file models which part:
--   Base, Base/*        machine words with their wrap-around, bit fields, C text and ctype tests
--   Isa                 the opcode, register and condition numbers that both programs declare
--   Asm/State           the static variables as the record State; exit(1) as a Failure; a function
--                       that changes them is an Action, one that also returns a value an M
--   Asm/Encode          enc_r3, enc_i13f, enc_m14, enc_u20, enc_b21, enc_j26, enc_jr, enc_sys
--   Asm/Code            log_to_phy, emit32, emit8, patch32, read32
--   Asm/Symbols         find_label, add_label, find_constant, and the definitions by a line
--   Asm/Lower           emit_load_const, dp_to_reg, emit_mem_access, emit_alu_mem
--   Asm/Lexer           skip_ws, at_end, parse_register, expect_comma, reject_flag_operand
--   Asm/Expr            parse_atom and parse_expr
--   Asm/Operand         parse_operand
--   Asm/Branch          emit_branch and the jumps to labels
--   Asm/Line/*          assemble_line, one file for a section of that function; a mnemonic's code
--                       is a handler, and the sections are tried in the source's order
--   Asm/Fixups          resolve_fixups
--   Asm/Program         main and write_hex
--   Dis/Decode          decode
--   Dis/Print, Dis/Raw  the printf formats, reg_name, dis_raw
--   Dis/Match, Match/*  match_traditional
--   Dis/HexIn           read_hex and read32_at
--   Dis/Listing         the listing of main
--   Dis/Args            the options of main, and main as a whole
--   Asm/Keeps           rules for what an action keeps
--   Asm/Invariant/*     the invariant of the assembler's state
--   Board, Board/*      the loaders in Processor/Project/Vivado: ARM_Linux/ProgramLoader/loader.c
--                       (Loader, Watch), TargetBoards/Zedboard/project_src/run_simple.c (Runner,
--                       Program, Literal), and the transfer loop that both have (Transfer)
--   Sim, Sim/*          Processor/Src/SysDeps/Verilator/TestMain.cpp: loadHexFile (Load),
--                       GetCommittedRegisterValue (Registers), the command line (Args), the main
--                       loop (Loop), and the results (Report); Dumper.h beside it: the serial
--                       and register dumpers (Dump)
--   Sim/Debug/*         VerilatorHelper.h beside it: the debug register and GetDebugRegister
--   Sim/Kanata/*        KanataDumper of Dumper.h, and a reader of its log
--   RoundTrip/*         that the two programs agree
--   Machine, Machine/*  registers, memory and the effect of the instructions that the lowering
--                       uses, after Processor/Src/Decoder/Decoder.sv, and what lowered code does
--   Tests, Examples     runs on concrete inputs
--
-- Pointers into a line are the bytes from there on, and the cursor *pp is a field of the state.
-- A 32-bit or 64-bit integer, signed or not, is its pattern, with every wrap-around written out.
-- The tables are lists that grow at the end, which is where the source writes; the limits of
-- 4096 labels, constants and fixups are kept. The code buffer is a function from the physical
-- address to a byte. An access outside it, which C leaves undefined, is the failure memory_fault.
-- What C leaves undefined elsewhere is an outcome of its own: undefined and overrun in the loader,
-- none where the test bench reads behind the active list, the field overflow of its counters.
--
-- Fuel: parse_atom and parse_expr have twice the length of the text and two; the loops
-- over a list of items have the length of the text; .ALIGN has the alignment; the listing has the
-- number of instructions.
--
-- The sending loops have one round more than characters. The main loop of the test bench and the
-- polling loop of run_simple.c take any fuel; Sim/Ends and Board/Polls say how much is enough.
--
-- Parameters: what stands in memory that the loaders read before they set it (Unset), the
-- registers of the board by round, the verilated model of the core with its signals (Model),
-- the accessors of its debug register (Wires), and whether calloc gives memory.
--
-- Not modelled: opening and closing files and devices, messages, and the core
-- itself (SystemVerilog).
pub mod Base
pub mod Isa
pub mod Asm
pub mod Board
pub mod Dis
pub mod Sim
pub mod RoundTrip
pub mod Machine
