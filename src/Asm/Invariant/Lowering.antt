-- ===== src/Asm/Invariant/Lowering.antt =====
-- The lowering of addressing modes keeps the invariant.
use rsd_m.Asm.Invariant.Stores.{emit32-Keeps}
use rsd_m.Asm.Invariant.{IsWell}
use rsd_m.Asm.Keeps.{Keeps, keeps_rules}
use rsd_m.Asm.Lower.{
  access_indx, emit_load_const, emit_alu_mem, access_indy, access_dp, far_access, emit_mem_access,
  alu_operand, access_ind, AddrMode, am_imm, am_imp, am_acc, am_dp, am_dpx, am_dpy, am_abs, am_absx,
  am_absy, am_ind, am_indx, am_indy, am_label, am_reg, dp_to_reg, window_reg,
}
use rsd_m.Base.{ℕ, Option, some, none}

pub emit_load_const-Keeps : (rd val : ℕ) → Keeps IsWell (emit_load_const rd val)
unfolding emit_load_const
emit_load_const-Keeps rd val = search (keeps_rules, emit32-Keeps) depth 12

far_access-Keeps : (op r v index : ℕ) → Keeps IsWell (far_access op r v index)
unfolding far_access
far_access-Keeps op r v index = search (keeps_rules, emit32-Keeps, emit_load_const-Keeps) depth 12

access_dp-Keeps : (op r v : ℕ) (w : Option ℕ) → Keeps IsWell (access_dp op r v w)
unfolding access_dp
access_dp-Keeps op r v none = emit32-Keeps _
access_dp-Keeps op r v (some n) = search (keeps_rules, emit32-Keeps)

access_ind-Keeps : (op r v : ℕ) (w : Option ℕ) → Keeps IsWell (access_ind op r v w)
unfolding access_ind
access_ind-Keeps op r v none = search (keeps_rules, emit32-Keeps)
access_ind-Keeps op r v (some n) = search (keeps_rules, emit32-Keeps)

access_indx-Keeps : (op r v : ℕ) (w : Option ℕ) → Keeps IsWell (access_indx op r v w)
unfolding access_indx
access_indx-Keeps op r v none = search (keeps_rules, emit32-Keeps)
access_indx-Keeps op r v (some n) = search (keeps_rules, emit32-Keeps)

access_indy-Keeps : (op r v : ℕ) (w : Option ℕ) → Keeps IsWell (access_indy op r v w)
unfolding access_indy
access_indy-Keeps op r v none = search (keeps_rules, emit32-Keeps)
access_indy-Keeps op r v (some n) = search (keeps_rules, emit32-Keeps)

pub emit_mem_access-Keeps :
    (op r : ℕ) (mode : AddrMode) (v : ℕ) → Keeps IsWell (emit_mem_access op r mode v)
unfolding emit_mem_access
emit_mem_access-Keeps op r am_imp v = search keeps_rules
emit_mem_access-Keeps op r am_acc v = search keeps_rules
emit_mem_access-Keeps op r am_imm v = search keeps_rules
emit_mem_access-Keeps op r am_dp v = access_dp-Keeps op r v (dp_to_reg v)
emit_mem_access-Keeps op r am_dpx v = search (keeps_rules, emit32-Keeps)
emit_mem_access-Keeps op r am_dpy v = search (keeps_rules, emit32-Keeps)
emit_mem_access-Keeps op r am_abs v =
    search (keeps_rules, emit32-Keeps, emit_load_const-Keeps) depth 12
emit_mem_access-Keeps op r am_absx v = search (keeps_rules, emit32-Keeps, far_access-Keeps)
emit_mem_access-Keeps op r am_absy v = search (keeps_rules, emit32-Keeps, far_access-Keeps)
emit_mem_access-Keeps op r am_ind v = access_ind-Keeps op r v (dp_to_reg v)
emit_mem_access-Keeps op r am_indx v = access_indx-Keeps op r v (dp_to_reg v)
emit_mem_access-Keeps op r am_indy v = access_indy-Keeps op r v (dp_to_reg v)
emit_mem_access-Keeps op r am_label v = search keeps_rules
emit_mem_access-Keeps op r am_reg v = search keeps_rules

alu_operand-Keeps :
    (rr dst src : ℕ) (mode : AddrMode) (v : ℕ) (w : Option ℕ)
    → Keeps IsWell (alu_operand rr dst src mode v w)
unfolding alu_operand
alu_operand-Keeps rr dst src mode v none = search (keeps_rules, emit32-Keeps, emit_mem_access-Keeps)
alu_operand-Keeps rr dst src mode v (some n) = emit32-Keeps _

immediate_alu-Keeps : (rr ri dst src v : ℕ) → Keeps IsWell (emit_alu_mem rr ri dst src am_imm v)
unfolding emit_alu_mem
immediate_alu-Keeps rr ri dst src v =
    search (keeps_rules, emit32-Keeps, emit_load_const-Keeps) depth 12

pub emit_alu_mem-Keeps :
    (rr ri dst src : ℕ) (mode : AddrMode) (v : ℕ) → Keeps IsWell (emit_alu_mem rr ri dst src mode v)
unfolding emit_alu_mem
emit_alu_mem-Keeps rr ri dst src am_imm v = immediate_alu-Keeps rr ri dst src v
emit_alu_mem-Keeps rr ri dst src am_imp v =
    alu_operand-Keeps rr dst src am_imp v (window_reg am_imp v)
emit_alu_mem-Keeps rr ri dst src am_acc v =
    alu_operand-Keeps rr dst src am_acc v (window_reg am_acc v)
emit_alu_mem-Keeps rr ri dst src am_dp v = alu_operand-Keeps rr dst src am_dp v (window_reg am_dp v)
emit_alu_mem-Keeps rr ri dst src am_dpx v =
    alu_operand-Keeps rr dst src am_dpx v (window_reg am_dpx v)
emit_alu_mem-Keeps rr ri dst src am_dpy v =
    alu_operand-Keeps rr dst src am_dpy v (window_reg am_dpy v)
emit_alu_mem-Keeps rr ri dst src am_abs v =
    alu_operand-Keeps rr dst src am_abs v (window_reg am_abs v)
emit_alu_mem-Keeps rr ri dst src am_absx v =
    alu_operand-Keeps rr dst src am_absx v (window_reg am_absx v)
emit_alu_mem-Keeps rr ri dst src am_absy v =
    alu_operand-Keeps rr dst src am_absy v (window_reg am_absy v)
emit_alu_mem-Keeps rr ri dst src am_ind v =
    alu_operand-Keeps rr dst src am_ind v (window_reg am_ind v)
emit_alu_mem-Keeps rr ri dst src am_indx v =
    alu_operand-Keeps rr dst src am_indx v (window_reg am_indx v)
emit_alu_mem-Keeps rr ri dst src am_indy v =
    alu_operand-Keeps rr dst src am_indy v (window_reg am_indy v)
emit_alu_mem-Keeps rr ri dst src am_label v =
    alu_operand-Keeps rr dst src am_label v (window_reg am_label v)
emit_alu_mem-Keeps rr ri dst src am_reg v =
    alu_operand-Keeps rr dst src am_reg v (window_reg am_reg v)
