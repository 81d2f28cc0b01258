-- ===== src/Asm/Line/Traditional.antt =====
-- The traditional notation of `assemble_line`: loads and stores of the registers, the
-- accumulator's operations, increments, transfers and `ASL`.
use rsd_m.Base.{ℕ, Bool, true, false, List, [], ◌∷◌, Option, none, some, bit_and, if◌then◌else◌}
use rsd_m.Base.Text.{Text}
use rsd_m.Base.Word.{u32}
use rsd_m.Isa.{
  op_ld, op_st, op_add, op_addi, op_sub, op_subi, op_or, op_ori, op_xor, op_xori, op_cmp, op_cmpi,
  op_and, op_andi, op_xfer, op_shift_i, sh_shl, reg_zero, reg_a, reg_x, reg_y, reg_sp, reg_d, reg_b,
  reg_t,
}
use rsd_m.Asm.State.{Action, cursor, ◌>>=◌, ◌>>◌}
use rsd_m.Asm.Lexer.{at_end}
use rsd_m.Asm.Code.{emit32}
use rsd_m.Asm.Encode.{enc_r3, enc_i13f}
use rsd_m.Asm.Lower.{AddrMode, am_imm, am_imp, am_acc, emit_load_const, emit_mem_access, window_reg}
use rsd_m.Asm.Operand.{parse_operand}
use rsd_m.Asm.Line.Base.{Entry, first_entry, ◌or_else◌}
use rsd_m.Asm.Line.Alu.{alu_traditional}
use rsd_m.Asm.Line.Native.{shift_imm, change_operand}

abbrev pub is_imm : AddrMode → Bool
is_imm am_imm = true
is_imm _ = false

abbrev is_implied : AddrMode → Bool
is_implied am_imp = true
is_implied am_acc = true
is_implied _ = false

-- `LDA`, `LDX`, `LDY`.
unfoldable pub load_line : ℕ → Action
load_line reg = do
  op ← parse_operand
  if is_imm op.mode
      then emit_load_const reg (u32 op.value)
      else emit_mem_access op_ld reg op.mode op.value

-- `STA`, `STX`, `STY`, `STZ`.
unfoldable pub store_line : ℕ → Action
store_line reg = do op ← parse_operand; emit_mem_access op_st reg op.mode op.value

unfoldable pub bit_operand : AddrMode → ℕ → Option ℕ → Action
bit_operand mode value (some rn) = emit32 (enc_r3 op_and reg_zero reg_a rn 0 1)
bit_operand mode value none = do
  emit_mem_access op_ld reg_t mode value
  emit32 (enc_r3 op_and reg_zero reg_a reg_t 0 1)

unfoldable pub bit_line : Action
unfolding bit_operand window_reg
bit_line = do
  op ← parse_operand
  if is_imm op.mode
      then emit32 (enc_i13f op_andi reg_zero reg_a (bit_and (u32 op.value) 0x1fff) 1)
      else bit_operand op.mode op.value (window_reg op.mode op.value)

-- `INC` and `DEC`, on the accumulator or an operand.
unfoldable pub step_line : ℕ → Action
step_line op = do
  p ← cursor
  if at_end p
      then emit32 (enc_i13f op reg_a reg_a 1 1)
      else (do operand ← parse_operand; change_operand op 1 operand.mode operand.value)

unfoldable pub step_register : ℕ → ℕ → Action
step_register op reg = emit32 (enc_i13f op reg reg 1 1)

unfoldable pub transfer : ℕ → ℕ → Action
transfer rd rs = emit32 (enc_r3 op_xfer rd rs 0 0 0)

unfoldable pub asl_line : Action
asl_line = do
  op ← parse_operand
  if is_implied op.mode
      then emit32 (enc_i13f op_shift_i reg_a reg_a (shift_imm sh_shl 1) 1)
      else change_operand op_shift_i (shift_imm sh_shl 1) op.mode op.value

abbrev pub loads_stores : List Entry
loads_stores =
    ("LDA", load_line reg_a)
    ∷ ("LDX", load_line reg_x)
    ∷ ("LDY", load_line reg_y)
    ∷ ("STA", store_line reg_a)
    ∷ ("STX", store_line reg_x)
    ∷ ("STY", store_line reg_y)
    ∷ ("STZ", store_line reg_zero)
    ∷ []

abbrev pub accumulator_ops : List Entry
accumulator_ops =
    ("ADC", alu_traditional op_add op_addi reg_a reg_a)
    ∷ ("SBC", alu_traditional op_sub op_subi reg_a reg_a)
    ∷ ("ORA", alu_traditional op_or op_ori reg_a reg_a)
    ∷ ("EOR", alu_traditional op_xor op_xori reg_a reg_a)
    ∷ ("CPX", alu_traditional op_cmp op_cmpi reg_zero reg_x)
    ∷ ("CPY", alu_traditional op_cmp op_cmpi reg_zero reg_y)
    ∷ ("BIT", bit_line)
    ∷ []

abbrev pub steps : List Entry
steps =
    ("INA", step_register op_addi reg_a)
    ∷ ("DEA", step_register op_subi reg_a)
    ∷ ("INX", step_register op_addi reg_x)
    ∷ ("DEX", step_register op_subi reg_x)
    ∷ ("INY", step_register op_addi reg_y)
    ∷ ("DEY", step_register op_subi reg_y)
    ∷ ("INC", step_line op_addi)
    ∷ ("DEC", step_line op_subi)
    ∷ []

abbrev pub transfers : List Entry
transfers =
    ("TAX", transfer reg_x reg_a)
    ∷ ("TXA", transfer reg_a reg_x)
    ∷ ("TAY", transfer reg_y reg_a)
    ∷ ("TYA", transfer reg_a reg_y)
    ∷ ("TSX", transfer reg_x reg_sp)
    ∷ ("TXS", transfer reg_sp reg_x)
    ∷ ("TAB", transfer reg_b reg_a)
    ∷ ("TBA", transfer reg_a reg_b)
    ∷ ("TCD", transfer reg_d reg_a)
    ∷ ("TDC", transfer reg_a reg_d)
    ∷ ("TTA", transfer reg_a reg_t)
    ∷ ("TAT", transfer reg_t reg_a)
    ∷ []

-- From the loads to `ASL`, in the order of the source.
unfoldable pub traditional : Text → Option Action
unfolding asl_line
traditional mnem =
    first_entry loads_stores mnem
    or_else first_entry accumulator_ops mnem
    or_else first_entry steps mnem
    or_else first_entry transfers mnem
    or_else first_entry (("ASL", asl_line) ∷ []) mnem
