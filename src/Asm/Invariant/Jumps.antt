-- ===== src/Asm/Invariant/Jumps.antt =====
-- References to labels keep the invariant.
use rsd_m.Asm.Invariant.Tables.{add_label-Keeps, fixup_word-Keeps}
use rsd_m.Asm.Code.{emit32}
use rsd_m.Asm.Invariant.Lowering.{emit_mem_access-Keeps}
use rsd_m.Asm.Invariant.Operands.{parse_operand-Keeps}
use rsd_m.Asm.Symbols.{add_label}
use rsd_m.Asm.Invariant.Parsing.{register_comma-Keeps, parse_register-Keeps}
use rsd_m.Asm.Invariant.Stores.{emit32-Keeps}
use rsd_m.Asm.Invariant.{IsWell}
use rsd_m.Asm.Invariant.Offers.{Offers, offers_rules}
use rsd_m.Base.Text.{Text}
use rsd_m.Asm.Keeps.{Keeps, Keeps-bind, keeps_rules, Stops}
use rsd_m.Asm.Operand.{Operand}
use rsd_m.Asm.State.{Failure, Label, ◌>>◌, fix_b21, fix_j26}
use rsd_m.Asm.Line.Jumps.{
  jsr_reg_line, branches, jumps, long_jumps, jsl_line, return_line, jmp_reg_line, jmp_line,
  jump_indirect, jsr_line,
}
use rsd_m.Asm.Branch.{
  jump_to, branch_to, branch_later, jump_later, emit_branch, jump_operand, add_fixup, displacement,
  branch_word,
}
use rsd_m.Base.{ℕ, Option, some, ◌==◌, none, bit_and, inl, inr, Bool-cases}

branch_later-Keeps : (cond link : ℕ) (l : Text) → Keeps IsWell (branch_later cond link l)
unfolding branch_later
branch_later-Keeps cond link l =
    Keeps-bind (add_label l) (λ e. add_fixup fix_b21 l cond link 0 >> emit32 0) (add_label-Keeps l)
      (λ e. fixup_word-Keeps fix_b21 l cond link 0)

jump_later-Keeps : (op : ℕ) (l : Text) → Keeps IsWell (jump_later op l)
unfolding jump_later
jump_later-Keeps op l =
    Keeps-bind (add_label l) (λ e. add_fixup fix_j26 l 0 0 op >> emit32 0) (add_label-Keeps l)
      (λ e. fixup_word-Keeps fix_j26 l 0 0 op)

branch_to-Keeps :
    (cond link : ℕ) (n : Text) (l : Option Label) → Keeps IsWell (branch_to cond link n l)
unfolding branch_to
branch_to-Keeps cond link n none = record { at = (branch_later-Keeps cond link n).at }
branch_to-Keeps cond link n (some l) = record {
  at = λ s h. elim (Bool-cases l.defined) [
    | inr e ↦ rw (e, branch_to) ((branch_later-Keeps cond link n).at s h)
    | inl e ↦ elim (Bool-cases (bit_and (displacement l.addr s.cur_pc) 3 == 0)) [
      | inl a ↦
          rw (e, a, branch_to)
            ((emit32-Keeps (branch_word cond link (displacement l.addr s.cur_pc))).at s h)
      | inr a ↦ rw (e, a, branch_to) tt
    ]
  ];
}

pub emit_branch-Keeps : (cond link : ℕ) → Keeps IsWell (emit_branch cond link)
unfolding emit_branch
emit_branch-Keeps cond link =
    search (keeps_rules, emit32-Keeps, parse_operand-Keeps, branch_to-Keeps) depth 12

jump_to-Keeps : (op : ℕ) (n : Text) (l : Option Label) → Keeps IsWell (jump_to op n l)
unfolding jump_to
jump_to-Keeps op n none = jump_later-Keeps op n
jump_to-Keeps op n (some l) = search (keeps_rules, emit32-Keeps, jump_later-Keeps)

pub jump_operand-Keeps : (op : ℕ) (o : Operand) → Keeps IsWell (jump_operand op o)
unfolding jump_operand
jump_operand-Keeps op o = search (keeps_rules, emit32-Keeps, jump_to-Keeps)

jump_indirect-Keeps : (v : ℕ) → Keeps IsWell (jump_indirect v)
unfolding jump_indirect
jump_indirect-Keeps v = search (keeps_rules, emit32-Keeps, emit_mem_access-Keeps)

jmp_line-Keeps : (e : Failure) → Stops e → Keeps IsWell (jmp_line e)
unfolding jmp_line
jmp_line-Keeps e h =
    search (keeps_rules, h, parse_operand-Keeps, jump_operand-Keeps, jump_indirect-Keeps) depth 12

jsr_line-Keeps : Keeps IsWell jsr_line
unfolding jsr_line
jsr_line-Keeps = search (keeps_rules, parse_operand-Keeps, jump_operand-Keeps)

jsl_line-Keeps : Keeps IsWell jsl_line
unfolding jsl_line
jsl_line-Keeps = search (keeps_rules, parse_operand-Keeps, jump_operand-Keeps)

jmp_reg_line-Keeps : Keeps IsWell jmp_reg_line
unfolding jmp_reg_line
jmp_reg_line-Keeps = search (keeps_rules, parse_register-Keeps, emit32-Keeps)

jsr_reg_line-Keeps : Keeps IsWell jsr_reg_line
unfolding jsr_reg_line
jsr_reg_line-Keeps = search (keeps_rules, register_comma-Keeps, parse_register-Keeps, emit32-Keeps)

return_line-Keeps : Keeps IsWell return_line
unfolding return_line
return_line-Keeps = search emit32-Keeps

pub branches-Offers : (mnem : Text) → Offers (branches mnem)
unfolding branches
branches-Offers mnem = search (offers_rules, emit_branch-Keeps) depth 40 fits 3000

pub jumps-Offers : (mnem : Text) → Offers (jumps mnem)
unfolding jumps
jumps-Offers mnem =
    search
      (
        offers_rules, jmp_line-Keeps, jsr_line-Keeps, jmp_reg_line-Keeps, jsr_reg_line-Keeps,
        return_line-Keeps,
      )
      depth 40 fits 3000

pub long_jumps-Offers : (mnem : Text) → Offers (long_jumps mnem)
unfolding long_jumps
long_jumps-Offers mnem = search (offers_rules, jmp_line-Keeps, jsl_line-Keeps) depth 20
