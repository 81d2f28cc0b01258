-- ===== src/Asm/Invariant/Traditional.antt =====
-- The traditional notation keeps the invariant.
use rsd_m.Asm.Expr.{expression}
use rsd_m.Asm.Invariant.Operands.{parse_operand-Keeps}
use rsd_m.Asm.Invariant.Native.{alu_traditional-Keeps, change_operand-Keeps}
use rsd_m.Asm.Invariant.Parsing.{parse_register-Keeps, expression-Keeps}
use rsd_m.Asm.Invariant.Lowering.{emit_mem_access-Keeps, emit_load_const-Keeps}
use rsd_m.Asm.Invariant.Stores.{emit32-Keeps}
use rsd_m.Asm.Invariant.Offers.{Offers, offers_rules}
use rsd_m.Asm.Invariant.{IsWell}
use rsd_m.Base.Text.{Text}
use rsd_m.Asm.Keeps.{Keeps, keeps_rules, Keeps-bind}
use rsd_m.Asm.Line.Base.{emit_nop, nop_word}
use rsd_m.Asm.Line.Simple.{
  emit_push, emit_pull, lea_mode, push_line, lea_line, pull_line, ignore_operand, simple,
}
use rsd_m.Asm.Line.Traditional.{
  load_line, step_register, bit_line, asl_line, traditional, transfer, store_line, step_line,
  bit_operand,
}
use rsd_m.Asm.Lower.{
  am_imp, am_acc, am_imm, am_dp, am_dpx, am_dpy, am_abs, am_absx, am_absy, am_ind, am_indx, am_indy,
  am_label, am_reg, AddrMode,
}
use rsd_m.Asm.State.{Action}
use rsd_m.Base.{ℕ, none, some, Option}

load_line-Keeps : (reg : ℕ) → Keeps IsWell (load_line reg)
unfolding load_line
load_line-Keeps reg =
    search (keeps_rules, parse_operand-Keeps, emit_load_const-Keeps, emit_mem_access-Keeps) depth 12

pub store_line-Keeps : (reg : ℕ) → Keeps IsWell (store_line reg)
unfolding store_line
store_line-Keeps reg = search (keeps_rules, parse_operand-Keeps, emit_mem_access-Keeps)

bit_operand-Keeps : (mode : AddrMode) (v : ℕ) (w : Option ℕ) → Keeps IsWell (bit_operand mode v w)
unfolding bit_operand
bit_operand-Keeps mode v none = search (keeps_rules, emit_mem_access-Keeps, emit32-Keeps)
bit_operand-Keeps mode v (some n) = search emit32-Keeps

bit_line-Keeps : Keeps IsWell bit_line
unfolding bit_line
bit_line-Keeps = search (keeps_rules, parse_operand-Keeps, emit32-Keeps, bit_operand-Keeps) depth 12

step_line-Keeps : (op : ℕ) → Keeps IsWell (step_line op)
unfolding step_line
step_line-Keeps op =
    search (keeps_rules, emit32-Keeps, parse_operand-Keeps, change_operand-Keeps) depth 12

step_register-Keeps : (op reg : ℕ) → Keeps IsWell (step_register op reg)
unfolding step_register
step_register-Keeps op reg = search emit32-Keeps

pub transfer-Keeps : (rd rs : ℕ) → Keeps IsWell (transfer rd rs)
unfolding transfer
transfer-Keeps rd rs = search emit32-Keeps

asl_line-Keeps : Keeps IsWell asl_line
unfolding asl_line
asl_line-Keeps =
    search (keeps_rules, parse_operand-Keeps, emit32-Keeps, change_operand-Keeps) depth 12

pub traditional-Offers : (mnem : Text) → Offers (traditional mnem)
unfolding traditional
traditional-Offers mnem =
    search
      (
        offers_rules, load_line-Keeps, store_line-Keeps, alu_traditional-Keeps, bit_line-Keeps,
        step_register-Keeps, step_line-Keeps, transfer-Keeps, asl_line-Keeps,
      )
      depth 60 fits 6000

pub emit_push-Keeps : (r : ℕ) → Keeps IsWell (emit_push r)
unfolding emit_push
emit_push-Keeps r = search (keeps_rules, emit32-Keeps)

emit_pull-Keeps : (r : ℕ) → Keeps IsWell (emit_pull r)
unfolding emit_pull
emit_pull-Keeps r = search (keeps_rules, emit32-Keeps)

push_line-Keeps : Keeps IsWell push_line
unfolding push_line
push_line-Keeps = search (keeps_rules, parse_register-Keeps, emit_push-Keeps)

pull_line-Keeps : Keeps IsWell pull_line
unfolding pull_line
pull_line-Keeps = search (keeps_rules, parse_register-Keeps, emit_pull-Keeps)

pub emit_nop-Keeps : Keeps IsWell emit_nop
unfolding emit_nop
emit_nop-Keeps = emit32-Keeps nop_word

pub ignore_operand-Keeps : (act : Action) → Keeps IsWell act → Keeps IsWell (ignore_operand act)
unfolding ignore_operand
ignore_operand-Keeps act k = Keeps-bind expression (λ v. act) expression-Keeps (λ v. k)

lea_mode-Keeps : (mode : AddrMode) (v : ℕ) → Keeps IsWell (lea_mode mode v)
unfolding lea_mode
lea_mode-Keeps am_imp v = search keeps_rules
lea_mode-Keeps am_acc v = search keeps_rules
lea_mode-Keeps am_imm v = search keeps_rules
lea_mode-Keeps am_dp v = search emit32-Keeps
lea_mode-Keeps am_dpx v = search (keeps_rules, emit32-Keeps)
lea_mode-Keeps am_dpy v = search keeps_rules
lea_mode-Keeps am_abs v = search (keeps_rules, emit32-Keeps, emit_load_const-Keeps)
lea_mode-Keeps am_absx v = search keeps_rules
lea_mode-Keeps am_absy v = search keeps_rules
lea_mode-Keeps am_ind v = search keeps_rules
lea_mode-Keeps am_indx v = search keeps_rules
lea_mode-Keeps am_indy v = search keeps_rules
lea_mode-Keeps am_label v = search keeps_rules
lea_mode-Keeps am_reg v = search keeps_rules

lea_line-Keeps : Keeps IsWell lea_line
unfolding lea_line
lea_line-Keeps = search (keeps_rules, parse_operand-Keeps, lea_mode-Keeps)

pub simple-Offers : (mnem : Text) → Offers (simple mnem)
unfolding simple
simple-Offers mnem =
    search
      (
        offers_rules, emit_push-Keeps, emit_pull-Keeps, push_line-Keeps, pull_line-Keeps,
        emit_nop-Keeps, ignore_operand-Keeps, lea_line-Keeps,
      )
      depth 60 fits 6000
