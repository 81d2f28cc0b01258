-- ===== src/Asm/Invariant/Native.antt =====
-- The native instructions keep the invariant: the ALU table, moves, shifts, loads and stores.
use rsd_m.Asm.Invariant.Stores.{emit32-Keeps}
use rsd_m.Asm.Expr.{expression}
use rsd_m.Asm.Invariant.Operands.{parse_operand-Keeps}
use rsd_m.Asm.Invariant.Lowering.{emit_mem_access-Keeps, emit_alu_mem-Keeps}
use rsd_m.Asm.Invariant.Parsing.{
  set_cursor-Keeps, skip-Keeps, register_comma-Keeps, parse_register-Keeps, expression-Keeps,
  reject_flag_operand-Keeps,
}
use rsd_m.Asm.Invariant.{IsWell}
use rsd_m.Asm.Keeps.{Keeps, keeps_rules}
use rsd_m.Asm.Invariant.Offers.{Offers, Offers-none, offers_rules, Offers-or_else}
use rsd_m.Base.Text.{Text, peek}
use rsd_m.Asm.Line.Native.{
  move_line, shift_three, shift_line, native, change_memory, operand_access, muldiv_line,
  access_line, bracket_access, change_operand, upper_line, shift_last, shift_operand,
}
use rsd_m.Asm.Line.Alu.{
  three_registers, alu_traditional, compare_with, alu_entries, alu_line, alu_entry,
  register_immediate, cmp_line, AluEntry,
}
use rsd_m.Asm.Lower.{AddrMode, window_reg}
use rsd_m.Asm.State.{pure}
use rsd_m.Base.{ℕ, ◌==◌, ◌||◌, if◌then◌else◌, none, some, Option, List, [], ◌∷◌}

three_registers-Keeps : (op func f : ℕ) → Keeps IsWell (three_registers op func f)
unfolding three_registers
three_registers-Keeps op func f =
    search (keeps_rules, register_comma-Keeps, parse_register-Keeps, emit32-Keeps) depth 12

register_immediate-Keeps : (op f : ℕ) → Keeps IsWell (register_immediate op f)
unfolding register_immediate
register_immediate-Keeps op f =
    search (keeps_rules, register_comma-Keeps, expression-Keeps, emit32-Keeps) depth 12

pub alu_traditional-Keeps : (rr ri dst src : ℕ) → Keeps IsWell (alu_traditional rr ri dst src)
unfolding alu_traditional
alu_traditional-Keeps rr ri dst src = search (keeps_rules, parse_operand-Keeps, emit_alu_mem-Keeps)

compare_with-Keeps : (lhs : ℕ) (q : Text) → Keeps IsWell (compare_with lhs q)
unfolding compare_with
compare_with-Keeps lhs q =
    search (keeps_rules, set_cursor-Keeps, expression-Keeps, parse_register-Keeps, emit32-Keeps)
      depth 16

cmp_line-Keeps : (commas : ℕ) → Keeps IsWell (cmp_line commas)
unfolding cmp_line
cmp_line-Keeps commas =
    search (keeps_rules, register_comma-Keeps, compare_with-Keeps, alu_traditional-Keeps) depth 16

alu_line-Keeps : (e : AluEntry) (commas : ℕ) → Keeps IsWell (alu_line e commas)
unfolding alu_line
alu_line-Keeps e commas =
    search (keeps_rules, cmp_line-Keeps, alu_traditional-Keeps, three_registers-Keeps) depth 16

alu_entry-Offers : (e : AluEntry) (mnem : Text) (commas : ℕ) → Offers (alu_entry e mnem commas)
unfolding alu_entry
alu_entry-Offers e mnem commas =
    search
      (offers_rules, keeps_rules, alu_line-Keeps, three_registers-Keeps, register_immediate-Keeps)
      depth 16

pub alu_entries-Offers :
    (es : List AluEntry) (mnem : Text) (commas : ℕ) → Offers (alu_entries es mnem commas)
unfolding alu_entries
alu_entries-Offers [] mnem commas = Offers-none
alu_entries-Offers (e ∷ es) mnem commas =
    Offers-or_else (alu_entry e mnem commas) (alu_entries es mnem commas)
      (alu_entry-Offers e mnem commas) (alu_entries-Offers es mnem commas)

move_line-Keeps : Keeps IsWell move_line
unfolding move_line
move_line-Keeps =
    search
      (
        keeps_rules, register_comma-Keeps, parse_register-Keeps, reject_flag_operand-Keeps,
        emit32-Keeps,
      )
      depth 12

muldiv_line-Keeps : (op : ℕ) → Keeps IsWell (muldiv_line op)
unfolding muldiv_line
muldiv_line-Keeps op =
    search
      (
        keeps_rules, register_comma-Keeps, parse_register-Keeps, reject_flag_operand-Keeps,
        emit32-Keeps,
      )
      depth 12

upper_line-Keeps : (op : ℕ) → Keeps IsWell (upper_line op)
unfolding upper_line
upper_line-Keeps op = search (keeps_rules, register_comma-Keeps, expression-Keeps, emit32-Keeps)

change_memory-Keeps :
    (op imm : ℕ) (mode : AddrMode) (v : ℕ) (w : Option ℕ)
    → Keeps IsWell (change_memory op imm mode v w)
unfolding change_memory
change_memory-Keeps op imm mode v none = search (keeps_rules, emit_mem_access-Keeps, emit32-Keeps)
change_memory-Keeps op imm mode v (some n) = search emit32-Keeps

pub change_operand-Keeps :
    (op imm : ℕ) (mode : AddrMode) (v : ℕ) → Keeps IsWell (change_operand op imm mode v)
unfolding change_operand
change_operand-Keeps op imm mode v = change_memory-Keeps op imm mode v (window_reg mode v)

shift_last-Keeps : (k rd rs : ℕ) (q : Text) → Keeps IsWell (shift_last k rd rs q)
unfolding shift_last
shift_last-Keeps k rd rs q =
    search
      (
        keeps_rules, set_cursor-Keeps, expression-Keeps, parse_register-Keeps,
        reject_flag_operand-Keeps, emit32-Keeps,
      )
      depth 16

shift_three-Keeps : (k : ℕ) → Keeps IsWell (shift_three k)
unfolding shift_three
shift_three-Keeps k = search (keeps_rules, register_comma-Keeps, shift_last-Keeps) depth 12

shift_operand-Keeps : (k : ℕ) → Keeps IsWell (shift_operand k)
unfolding shift_operand
shift_operand-Keeps k = search (keeps_rules, parse_operand-Keeps, change_operand-Keeps)

shift_line-Keeps : (commas k : ℕ) → Keeps IsWell (shift_line commas k)
unfolding shift_line
shift_line-Keeps commas k =
    search (keeps_rules, skip-Keeps, emit32-Keeps, shift_three-Keeps, shift_operand-Keeps) depth 16

offset-Keeps :
    (q : Text) → Keeps IsWell (if peek q == b'+' || peek q == b'-' then expression else pure 0)
offset-Keeps q = search (keeps_rules, expression-Keeps)

bracket_access-Keeps : (op rt : ℕ) → Keeps IsWell (bracket_access op rt)
unfolding bracket_access
bracket_access-Keeps op rt =
    search (keeps_rules, parse_register-Keeps, set_cursor-Keeps, offset-Keeps, emit32-Keeps) depth
      20

operand_access-Keeps : (op rt : ℕ) → Keeps IsWell (operand_access op rt)
unfolding operand_access
operand_access-Keeps op rt = search (keeps_rules, parse_operand-Keeps, emit_mem_access-Keeps)

access_line-Keeps : (op : ℕ) → Keeps IsWell (access_line op)
unfolding access_line
access_line-Keeps op =
    search
      (
        keeps_rules, register_comma-Keeps, skip-Keeps, set_cursor-Keeps, bracket_access-Keeps,
        operand_access-Keeps,
      )
      depth 16

pub native-Offers : (mnem : Text) (commas : ℕ) → Offers (native mnem commas)
unfolding native
native-Offers mnem commas =
    search
      (
        offers_rules, move_line-Keeps, muldiv_line-Keeps, upper_line-Keeps, shift_line-Keeps,
        access_line-Keeps,
      )
      depth 60 fits 4000
