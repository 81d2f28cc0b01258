-- ===== src/Asm/Line/Simple.antt =====
-- The stack, the flag placeholders and `LEA` of `assemble_line`.
use rsd_m.Base.{ℕ, List, [], ◌∷◌, Option}
use rsd_m.Base.Text.{Text}
use rsd_m.Base.Word.{u32}
use rsd_m.Isa.{
  op_subi, op_addi, op_add, op_ld, op_st, reg_zero, reg_sp, reg_a, reg_x, reg_y, reg_b, reg_d,
}
use rsd_m.Asm.State.{Action, fail, ◌>>=◌, ◌>>◌, unsupported_lea}
use rsd_m.Asm.Lexer.{parse_register}
use rsd_m.Asm.Expr.{expression}
use rsd_m.Asm.Code.{emit32}
use rsd_m.Asm.Encode.{enc_r3, enc_i13f, enc_m14}
use rsd_m.Asm.Lower.{AddrMode, am_dp, am_dpx, am_abs, emit_load_const}
use rsd_m.Asm.Operand.{parse_operand}
use rsd_m.Asm.Line.Base.{Entry, first_entry, when_any, ◌or_else◌, emit_nop}

-- `EMIT_PUSH` and `EMIT_PULL`.
unfoldable pub emit_push : ℕ → Action
emit_push r = do emit32 (enc_i13f op_subi reg_sp reg_sp 4 0); emit32 (enc_m14 op_st r reg_sp 0)

unfoldable pub emit_pull : ℕ → Action
emit_pull r = do emit32 (enc_m14 op_ld r reg_sp 0); emit32 (enc_i13f op_addi reg_sp reg_sp 4 0)

unfoldable pub push_line : Action
unfolding emit_push
push_line = do r ← parse_register; emit_push r

unfoldable pub pull_line : Action
unfolding emit_pull
pull_line = do r ← parse_register; emit_pull r

-- `P` is not saved: `PHP` pushes 0 and `PLP` discards.
abbrev pub stack_ops : List Entry
stack_ops =
    ("PHA", emit_push reg_a)
    ∷ ("PLA", emit_pull reg_a)
    ∷ ("PHX", emit_push reg_x)
    ∷ ("PLX", emit_pull reg_x)
    ∷ ("PHY", emit_push reg_y)
    ∷ ("PLY", emit_pull reg_y)
    ∷ ("PHB", emit_push reg_b)
    ∷ ("PLB", emit_pull reg_b)
    ∷ ("PHD", emit_push reg_d)
    ∷ ("PLD", emit_pull reg_d)
    ∷ ("PHP", emit_push reg_zero)
    ∷ ("PLP", emit_pull reg_zero)
    ∷ ("PUSH", push_line)
    ∷ []

-- The operand is read and dropped.
unfoldable pub ignore_operand : Action → Action
ignore_operand act = do v ← expression; act

abbrev pub flag_ops : List Entry
flag_ops =
    ("CLC", emit_nop)
    ∷ ("SEC", emit_nop)
    ∷ ("CLD", emit_nop)
    ∷ ("SED", emit_nop)
    ∷ ("CLI", emit_nop)
    ∷ ("SEI", emit_nop)
    ∷ ("CLV", emit_nop)
    ∷ ("REP", ignore_operand emit_nop)
    ∷ ("SEP", ignore_operand emit_nop)
    ∷ []

unfoldable pub lea_mode : AddrMode → ℕ → Action
lea_mode am_dp v = emit32 (enc_i13f op_addi reg_a reg_d v 0)
lea_mode am_dpx v = do
  emit32 (enc_i13f op_addi reg_a reg_d v 0)
  emit32 (enc_r3 op_add reg_a reg_a reg_x 0 0)
lea_mode am_abs v = do emit_load_const reg_a v; emit32 (enc_r3 op_add reg_a reg_b reg_a 0 0)
lea_mode _ v = fail unsupported_lea

unfoldable pub lea_line : Action
unfolding lea_mode
lea_line = do op ← parse_operand; lea_mode op.mode (u32 op.value)

-- From the stack to `LEA`, in the order of the source.
unfoldable pub simple : Text → Option Action
unfolding pull_line lea_line
simple mnem =
    first_entry stack_ops mnem
    or_else when_any ("PULL" ∷ "POP" ∷ []) pull_line mnem
    or_else first_entry flag_ops mnem
    or_else first_entry (("LEA", lea_line) ∷ []) mnem
