-- ===== src/Asm/Invariant/System.antt =====
-- System instructions and the sized forms keep the invariant.
use rsd_m.Asm.Invariant.Parsing.{
  skip-Keeps, register_comma-Keeps, expression-Keeps, parse_register-Keeps, set_cursor-Keeps,
}
use rsd_m.Asm.Invariant.Lowering.{emit_alu_mem-Keeps, emit_mem_access-Keeps, emit_load_const-Keeps}
use rsd_m.Asm.Expr.{expression}
use rsd_m.Asm.Invariant.Operands.{parse_operand-Keeps}
use rsd_m.Asm.Invariant.Stores.{emit32-Keeps}
use rsd_m.Asm.Operand.{Operand}
use rsd_m.Asm.Lexer.{at_end}
use rsd_m.Asm.Invariant.Traditional.{
  store_line-Keeps, emit_nop-Keeps, ignore_operand-Keeps, emit_push-Keeps, transfer-Keeps,
}
use rsd_m.Asm.Invariant.{IsWell}
use rsd_m.Asm.Keeps.{Keeps, keeps_rules}
use rsd_m.Asm.Invariant.Offers.{Offers, Offers-none, offers_rules, Offers-if, Offers-some}
use rsd_m.Base.Text.{Text, str_eq}
use rsd_m.Asm.Line.System.{
  system, zext8_line, xba_line, trap_line, push_value, set_system, tsb_line, sys_line, trb_line,
  extend_line, pei_line,
}
use rsd_m.Asm.Line.Extended.{
  byte, word, full, operate, load, compare, mask_result, ext_action, unary_line, ext_store,
  ext_line, ext_compare, ext_load, ext_operate, extended, ext_entries, ext_unary, ExtEntry, Sized,
  Kind, Size,
}
use rsd_m.Asm.State.{pure}
use rsd_m.Base.{ℕ, if◌then◌else◌, some, List, [], ◌∷◌, Bool}

trap_value-Keeps : (p : Text) → Keeps IsWell (if at_end p then pure 0 else expression)
trap_value-Keeps p = search (keeps_rules, expression-Keeps)

trap_line-Keeps : Keeps IsWell trap_line
unfolding trap_line
trap_line-Keeps = search (keeps_rules, trap_value-Keeps, emit32-Keeps)

sys_line-Keeps : (sub : ℕ) → Keeps IsWell (sys_line sub)
unfolding sys_line
sys_line-Keeps sub = search emit32-Keeps

extend_line-Keeps : (amount down : ℕ) → Keeps IsWell (extend_line amount down)
unfolding extend_line
extend_line-Keeps amount down =
    search (keeps_rules, register_comma-Keeps, parse_register-Keeps, emit32-Keeps) depth 12

zext8_line-Keeps : Keeps IsWell zext8_line
unfolding zext8_line
zext8_line-Keeps =
    search (keeps_rules, register_comma-Keeps, parse_register-Keeps, emit32-Keeps) depth 12

set_system-Keeps : (reg : ℕ) → Keeps IsWell (set_system reg)
unfolding set_system
set_system-Keeps reg = search (keeps_rules, parse_operand-Keeps, emit_load_const-Keeps)

push_value-Keeps : Keeps IsWell push_value
unfolding push_value
push_value-Keeps =
    search (keeps_rules, expression-Keeps, emit_load_const-Keeps, emit_push-Keeps) depth 12

tsb_line-Keeps : Keeps IsWell tsb_line
unfolding tsb_line
tsb_line-Keeps =
    search (keeps_rules, parse_operand-Keeps, emit_mem_access-Keeps, emit32-Keeps) depth 12

trb_line-Keeps : Keeps IsWell trb_line
unfolding trb_line
trb_line-Keeps =
    search (keeps_rules, parse_operand-Keeps, emit_mem_access-Keeps, emit32-Keeps) depth 16

xba_line-Keeps : Keeps IsWell xba_line
unfolding xba_line
xba_line-Keeps = search (keeps_rules, emit32-Keeps) depth 12

pei_line-Keeps : Keeps IsWell pei_line
unfolding pei_line
pei_line-Keeps =
    search (keeps_rules, parse_operand-Keeps, emit_mem_access-Keeps, emit_push-Keeps) depth 12

pub system-Offers : (mnem : Text) → Offers (system mnem)
unfolding system
system-Offers mnem =
    search
      (
        offers_rules, keeps_rules, trap_line-Keeps, sys_line-Keeps, emit_nop-Keeps,
        ignore_operand-Keeps, extend_line-Keeps, zext8_line-Keeps, transfer-Keeps, set_system-Keeps,
        push_value-Keeps, tsb_line-Keeps, trb_line-Keeps, xba_line-Keeps, emit_push-Keeps,
        pei_line-Keeps,
      )
      depth 60 fits 8000

mask_result-Keeps : (size : Size) (f : ℕ) → Keeps IsWell (mask_result size f)
unfolding mask_result
mask_result-Keeps byte f = search emit32-Keeps
mask_result-Keeps word f = search (keeps_rules, emit32-Keeps)
mask_result-Keeps full f = search keeps_rules

ext_load-Keeps : (size : Size) (op : Operand) → Keeps IsWell (ext_load size op)
unfolding ext_load
ext_load-Keeps size op =
    search (keeps_rules, emit_load_const-Keeps, emit_mem_access-Keeps, mask_result-Keeps) depth 12

ext_compare-Keeps :
    (e : ExtEntry) (size : Size) (f : ℕ) (op : Operand) → Keeps IsWell (ext_compare e size f op)
unfolding ext_compare
ext_compare-Keeps e size f op = search (keeps_rules, emit_mem_access-Keeps, emit32-Keeps) depth 12

ext_operate-Keeps :
    (e : ExtEntry) (size : Size) (f : ℕ) (op : Operand) → Keeps IsWell (ext_operate e size f op)
unfolding ext_operate
ext_operate-Keeps e size f op = search (keeps_rules, emit_alu_mem-Keeps, mask_result-Keeps)

ext_action-Keeps :
    (k : Kind) (e : ExtEntry) (size : Size) (f : ℕ) (op : Operand)
    → Keeps IsWell (ext_action k e size f op)
unfolding ext_action
ext_action-Keeps load e size f op = search ext_load-Keeps
ext_action-Keeps compare e size f op = search ext_compare-Keeps
ext_action-Keeps operate e size f op = search ext_operate-Keeps

ext_line-Keeps : (e : ExtEntry) (m : Sized) → Keeps IsWell (ext_line e m)
unfolding ext_line
ext_line-Keeps e m = search (keeps_rules, parse_operand-Keeps, ext_action-Keeps)

ext_entries-Offers : (es : List ExtEntry) (m : Sized) → Offers (ext_entries es m)
unfolding ext_entries
ext_entries-Offers [] m = Offers-none
ext_entries-Offers (e ∷ es) m =
    Offers-if (str_eq m.base e.mn) (some (ext_line e m)) (ext_entries es m)
      (Offers-some (ext_line e m) (ext_line-Keeps e m)) (ext_entries-Offers es m)

unary_line-Keeps : (op imm : ℕ) (flagless : Bool) → Keeps IsWell (unary_line op imm flagless)
unfolding unary_line
unary_line-Keeps op imm flagless =
    search (keeps_rules, skip-Keeps, set_cursor-Keeps, emit32-Keeps) depth 12

ext_unary-Offers : (m : Sized) → Offers (ext_unary m)
unfolding ext_unary
ext_unary-Offers m = search (offers_rules, unary_line-Keeps) depth 30 fits 3000

ext_store-Offers : (m : Sized) → Offers (ext_store m)
unfolding ext_store
ext_store-Offers m = search (offers_rules, store_line-Keeps) depth 12

pub extended-Offers : (mnem : Text) → Offers (extended mnem)
unfolding extended
extended-Offers mnem =
    search (offers_rules, ext_entries-Offers, ext_unary-Offers, ext_store-Offers) depth 12
