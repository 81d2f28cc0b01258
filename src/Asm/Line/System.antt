-- ===== src/Asm/Line/System.antt =====
-- System instructions, sign extension, system registers, read-modify-write and the other late
-- mnemonics of `assemble_line`.
use rsd_m.Base.{ℕ, List, [], ◌∷◌, Option, if◌then◌else◌}
use rsd_m.Base.Text.{Text}
use rsd_m.Base.Word.{u32}
use rsd_m.Isa.{
  op_shift_i, op_andi, op_and, op_or, op_xor, op_ld, op_st, reg_zero, reg_sp, reg_a, reg_x, reg_y,
  reg_b, reg_d, reg_t, reg_vbr, sh_shl, sh_shr, sh_sar, sys_trap, sys_fence, sys_fencer, sys_fencew,
  sys_wai, sys_stp,
}
use rsd_m.Asm.State.{
  Action, pure, fail, cursor, ◌>>=◌, ◌>>◌, immediate_required, block_move, needs_opcode,
}
use rsd_m.Asm.Lexer.{at_end, parse_register}
use rsd_m.Asm.Expr.{expression}
use rsd_m.Asm.Code.{emit32}
use rsd_m.Asm.Encode.{enc_r3, enc_i13f, enc_sys}
use rsd_m.Asm.Lower.{emit_load_const, emit_mem_access}
use rsd_m.Asm.Operand.{parse_operand}
use rsd_m.Asm.Line.Base.{Entry, first_entry, ◌or_else◌, emit_nop, register_comma}
use rsd_m.Asm.Line.Native.{shift_imm}
use rsd_m.Asm.Line.Traditional.{is_imm, transfer}
use rsd_m.Asm.Line.Simple.{emit_push, ignore_operand}

unfoldable pub trap_line : Action
trap_line = do
  p ← cursor
  imm ← (if at_end p then pure 0 else expression)
  emit32 (enc_sys sys_trap (u32 imm))

unfoldable pub sys_line : ℕ → Action
sys_line sub = emit32 (enc_sys sub 0)

-- Two shifts by `32 - width`, up and then down; the second sets the flags.
unfoldable pub extend_line : ℕ → ℕ → Action
extend_line amount down = do
  rd ← register_comma
  rs ← parse_register
  emit32 (enc_i13f op_shift_i rd rs (shift_imm sh_shl amount) 0)
  emit32 (enc_i13f op_shift_i rd rd (shift_imm down amount) 1)

unfoldable pub zext8_line : Action
zext8_line = do rd ← register_comma; rs ← parse_register; emit32 (enc_i13f op_andi rd rs 0xff 1)

-- `SVBR`, `SB`, `SD`.
unfoldable pub set_system : ℕ → Action
set_system reg = do
  op ← parse_operand
  if is_imm op.mode then emit_load_const reg (u32 op.value) else fail immediate_required

-- `PEA` and `PER`.
unfoldable pub push_value : Action
unfolding emit_push
push_value = do v ← expression; emit_load_const reg_t (u32 v); emit_push reg_t

unfoldable pub tsb_line : Action
tsb_line = do
  op ← parse_operand
  emit_mem_access op_ld reg_t op.mode op.value
  emit32 (enc_r3 op_and reg_zero reg_a reg_t 0 1)
  emit32 (enc_r3 op_or reg_t reg_t reg_a 0 0)
  emit_mem_access op_st reg_t op.mode op.value

-- `R1` is the scratch register.
unfoldable pub trb_line : Action
trb_line = do
  op ← parse_operand
  emit_mem_access op_ld reg_t op.mode op.value
  emit32 (enc_r3 op_and reg_zero reg_a reg_t 0 1)
  emit32 (enc_r3 op_and reg_zero reg_t reg_a 0 0)
  emit32 (enc_r3 op_and 1 reg_t reg_a 0 0)
  emit32 (enc_r3 op_xor reg_t reg_t 1 0 0)
  emit_mem_access op_st reg_t op.mode op.value

unfoldable pub xba_line : Action
xba_line = do
  emit32 (enc_i13f op_shift_i reg_t reg_a (shift_imm sh_shr 8) 0)
  emit32 (enc_i13f op_andi reg_t reg_t 0xff 0)
  emit32 (enc_i13f op_shift_i reg_a reg_a (shift_imm sh_shl 8) 0)
  emit32 (enc_r3 op_or reg_a reg_a reg_t 0 0)

unfoldable pub pei_line : Action
unfolding emit_push
pei_line = do op ← parse_operand; emit_mem_access op_ld reg_t op.mode op.value; emit_push reg_t

abbrev pub system_ops : List Entry
system_ops =
    ("TRAP", trap_line)
    ∷ ("FENCE", sys_line sys_fence)
    ∷ ("FENCER", sys_line sys_fencer)
    ∷ ("FENCEW", sys_line sys_fencew)
    ∷ ("WAI", sys_line sys_wai)
    ∷ ("STP", sys_line sys_stp)
    ∷ ("BRK", sys_line sys_trap)
    ∷ ("RSET", emit_nop)
    ∷ ("RCLR", emit_nop)
    ∷ ("REPE", ignore_operand emit_nop)
    ∷ ("SEPE", ignore_operand emit_nop)
    ∷ ("XCE", emit_nop)
    ∷ ("SEXT8", extend_line 24 sh_sar)
    ∷ ("SEXT16", extend_line 16 sh_sar)
    ∷ ("ZEXT8", zext8_line)
    ∷ ("ZEXT16", extend_line 16 sh_shr)
    ∷ []

abbrev pub late_ops : List Entry
late_ops =
    ("TXY", transfer reg_y reg_x)
    ∷ ("TYX", transfer reg_x reg_y)
    ∷ ("SVBR", set_system reg_vbr)
    ∷ ("SB", set_system reg_b)
    ∷ ("SD", set_system reg_d)
    ∷ ("PEA", push_value)
    ∷ ("TSB", tsb_line)
    ∷ ("TRB", trb_line)
    ∷ ("MVP", fail block_move)
    ∷ ("MVN", fail block_move)
    ∷ ("CLZ", fail needs_opcode)
    ∷ ("CTZ", fail needs_opcode)
    ∷ ("POPCNT", fail needs_opcode)
    ∷ ("TCS", transfer reg_sp reg_a)
    ∷ ("TSC", transfer reg_a reg_sp)
    ∷ ("XBA", xba_line)
    ∷ ("COP", ignore_operand (sys_line sys_trap))
    ∷ ("PHK", emit_push reg_zero)
    ∷ ("PEI", pei_line)
    ∷ ("PER", push_value)
    ∷ []

-- From `TRAP` to `PER`, in the order of the source.
unfoldable pub system : Text → Option Action
system mnem = first_entry system_ops mnem or_else first_entry late_ops mnem
