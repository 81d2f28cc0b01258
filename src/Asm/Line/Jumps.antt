-- ===== src/Asm/Line/Jumps.antt =====
-- Branches, jumps, calls and returns of `assemble_line`.
use rsd_m.Base.{ℕ, Bool, true, false, ◌||◌, [], ◌∷◌, Option, if◌then◌else◌}
use rsd_m.Base.Text.{Text}
use rsd_m.Isa.{
  op_ld, op_jmp_abs, op_jsr_abs, op_jmp_reg, op_jsr_reg, op_rts, reg_t, cond_eq, cond_ne, cond_cs,
  cond_cc, cond_mi, cond_pl, cond_vs, cond_vc, cond_al,
}
use rsd_m.Asm.State.{
  Failure, Action, fail, ◌>>=◌, ◌>>◌, unsupported_jmp, unsupported_jsr, unsupported_jml,
}
use rsd_m.Asm.Lexer.{parse_register}
use rsd_m.Asm.Code.{emit32}
use rsd_m.Asm.Encode.{enc_jr}
use rsd_m.Asm.Lower.{AddrMode, am_dp, am_abs, am_ind, am_label, emit_mem_access}
use rsd_m.Asm.Operand.{Operand, parse_operand}
use rsd_m.Asm.Branch.{emit_branch, jump_operand}
use rsd_m.Asm.Line.Base.{first_entry, when_any, ◌or_else◌, register_comma}

abbrev is_target_mode : AddrMode → Bool
is_target_mode am_label = true
is_target_mode am_abs = true
is_target_mode _ = false

abbrev is_indirect_mode : AddrMode → Bool
is_indirect_mode am_ind = true
is_indirect_mode _ = false

abbrev is_target : Operand → Bool
is_target op = op.has_label || is_target_mode op.mode

-- `JMP (addr)`: load the address, then jump to it.
unfoldable pub jump_indirect : ℕ → Action
jump_indirect value = do emit_mem_access op_ld reg_t am_dp value; emit32 (enc_jr op_jmp_reg 0 reg_t)

-- `JMP` and `JML`, which differ in their message only.
unfoldable pub jmp_line : Failure → Action
unfolding jump_indirect
jmp_line unsupported = do
  op ← parse_operand
  if is_target op
      then jump_operand op_jmp_abs op
      else if is_indirect_mode op.mode
      then jump_indirect op.value
      else fail unsupported

unfoldable pub jsr_line : Action
jsr_line = do
  op ← parse_operand
  if is_target op then jump_operand op_jsr_abs op else fail unsupported_jsr

-- `JSL` takes any operand for a target.
unfoldable pub jsl_line : Action
jsl_line = do op ← parse_operand; jump_operand op_jsr_abs op

unfoldable pub jmp_reg_line : Action
jmp_reg_line = do rs ← parse_register; emit32 (enc_jr op_jmp_reg 0 rs)

unfoldable pub jsr_reg_line : Action
jsr_reg_line = do rd ← register_comma; rs ← parse_register; emit32 (enc_jr op_jsr_reg rd rs)

-- `RTI` is the same as `RTS`.
unfoldable pub return_line : Action
return_line = emit32 (enc_jr op_rts 0 reg_t)

unfoldable pub branches : Text → Option Action
branches = first_entry (
    ("BRA", emit_branch cond_al 0)
    ∷ ("BSR", emit_branch cond_al 1)
    ∷ ("BEQ", emit_branch cond_eq 0)
    ∷ ("BNE", emit_branch cond_ne 0)
    ∷ ("BCS", emit_branch cond_cs 0)
    ∷ ("BCC", emit_branch cond_cc 0)
    ∷ ("BMI", emit_branch cond_mi 0)
    ∷ ("BPL", emit_branch cond_pl 0)
    ∷ ("BVS", emit_branch cond_vs 0)
    ∷ ("BVC", emit_branch cond_vc 0)
    ∷ ("BRL", emit_branch cond_al 0)
    ∷ [])

unfoldable pub jumps : Text → Option Action
unfolding jmp_line jsr_line jmp_reg_line jsr_reg_line return_line
jumps mnem =
    first_entry (("JMP", jmp_line unsupported_jmp) ∷ ("JSR", jsr_line) ∷ []) mnem
    or_else when_any ("JMPR" ∷ "JMP.REG" ∷ []) jmp_reg_line mnem
    or_else when_any ("JSRR" ∷ "JSR.REG" ∷ []) jsr_reg_line mnem
    or_else when_any ("RTS" ∷ "RTL" ∷ []) return_line mnem
    or_else when_any ("RTI" ∷ []) return_line mnem

-- `JML` and `JSL` come much later in the source.
unfoldable pub long_jumps : Text → Option Action
unfolding jmp_line jsl_line
long_jumps = first_entry (("JML", jmp_line unsupported_jml) ∷ ("JSL", jsl_line) ∷ [])
