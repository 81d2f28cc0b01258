-- ===== src/Dis/Match/Access.antt =====
-- `match_traditional`: transfers, constants, loads, stores, and the stack.
use rsd_m.Base.{
  ℕ, Bool, ◌&&◌, List, [], ◌∷◌, ◌++◌, Option, none, bit_and, bit_or, leb, ◌==◌, if◌then◌else◌,
}
use rsd_m.Base.Text.{Text, codes}
use rsd_m.Base.Word.{u32, shl, shr}
use rsd_m.Isa
use rsd_m.Dis.Decode.{Insn}
use rsd_m.Dis.Print.{show_unsigned, show_signed, show_hex, reg_name}
use rsd_m.Dis.Raw.{comma}
use Prim.Native.String.{String}
use rsd_m.Dis.Match.{Matched, one, two, when, with_next, is_gpr, numbered, for_register, ◌or_else◌}

unfoldable pub nop_rule : Insn → Option Matched
nop_rule a =
    when (a.op == Isa.op_add && a.rd == 0 && a.rs1 == 0 && a.rs2 == 0 && a.f == 0)
      (one (codes "NOP"))

abbrev pub named_transfers : List (ℕ × ℕ × String)
named_transfers =
    (Isa.reg_x, Isa.reg_a, "TAX")
    ∷ (Isa.reg_a, Isa.reg_x, "TXA")
    ∷ (Isa.reg_y, Isa.reg_a, "TAY")
    ∷ (Isa.reg_a, Isa.reg_y, "TYA")
    ∷ (Isa.reg_x, Isa.reg_sp, "TSX")
    ∷ (Isa.reg_sp, Isa.reg_x, "TXS")
    ∷ (Isa.reg_b, Isa.reg_a, "TAB")
    ∷ (Isa.reg_a, Isa.reg_b, "TBA")
    ∷ (Isa.reg_d, Isa.reg_a, "TCD")
    ∷ (Isa.reg_a, Isa.reg_d, "TDC")
    ∷ (Isa.reg_sp, Isa.reg_a, "TCS")
    ∷ (Isa.reg_a, Isa.reg_sp, "TSC")
    ∷ (Isa.reg_a, Isa.reg_t, "TTA")
    ∷ (Isa.reg_t, Isa.reg_a, "TAT")
    ∷ (Isa.reg_y, Isa.reg_x, "TXY")
    ∷ (Isa.reg_x, Isa.reg_y, "TYX")
    ∷ []

abbrev pub transfer_name : List (ℕ × ℕ × String) → ℕ → ℕ → Option Matched
transfer_name [] d s = none
transfer_name ((k, j, name) ∷ rest) d s =
    if d == k && s == j then one (codes name) else transfer_name rest d s

unfoldable pub transfer_rule : Insn → Option Matched
transfer_rule a = when (a.op == Isa.op_xfer && a.f == 0) (
    transfer_name named_transfers a.rd a.rs1
    or_else when (a.rd == Isa.reg_a && leb a.rs1 55) (one (numbered (codes "LDA") a.rs1))
    or_else when (a.rs1 == Isa.reg_a && leb a.rd 55) (one (numbered (codes "STA") a.rd))
    or_else one (codes "MOV " ++ (reg_name a.rd ++ (comma ++ reg_name a.rs1))))

abbrev pub load_names : List (ℕ × String)
load_names = (Isa.reg_a, "LDA") ∷ (Isa.reg_x, "LDX") ∷ (Isa.reg_y, "LDY") ∷ []

abbrev pub store_names : List (ℕ × String)
store_names =
    (Isa.reg_a, "STA") ∷ (Isa.reg_x, "STX") ∷ (Isa.reg_y, "STY") ∷ (Isa.reg_zero, "STZ") ∷ []

-- The constant of `LUI` and `ORI`.
unfoldable pub pair_constant : Insn → Insn → ℕ
pair_constant a b = bit_or (u32 (shl a.imm20 12)) (bit_and (shr b.raw 1) 0xfff)

unfoldable pub constant_rule : Insn → Option Insn → Option Matched
unfolding pair_constant
constant_rule a next = when (a.op == Isa.op_lui) (
    with_next next λ b. when (b.op == Isa.op_ori && b.rd == a.rd && b.rs1 == a.rd) (
      for_register load_names a.rd
        λ name. two (codes name ++ (codes " #$" ++ show_hex 8 (pair_constant a b)))))

unfoldable pub small_constant_rule : Insn → Option Matched
small_constant_rule a =
    when (a.op == Isa.op_addi && a.rs1 == Isa.reg_zero && a.f == 0)
      (for_register load_names a.rd λ name. one (codes name ++ (codes " #" ++ show_signed a.imm13)))

-- Never reached: `transfer_rule` has taken every such instruction.
unfoldable pub zero_rule : Insn → Option Matched
zero_rule a =
    when (a.op == Isa.op_xfer && a.rs1 == Isa.reg_zero && a.f == 0)
      (for_register load_names a.rd λ name. one (codes name ++ codes " #0"))

-- `B+$off`, four digits of the sign-extended offset.
abbrev pub base_offset : Insn → Text
base_offset i = codes "B+$" ++ show_hex 4 (bit_and i.off14 0xffff)

abbrev pub base_access : Text → Insn → Text
base_access name a =
    name ++ (b' ' ∷ (reg_name a.rd ++ (codes ", [B + " ++ (show_signed a.off14 ++ codes "]"))))

unfoldable pub base_load_rule : Insn → Option Matched
base_load_rule a = when (a.op == Isa.op_ld && a.rs1 == Isa.reg_b) (
    for_register load_names a.rd (λ name. one (codes name ++ (b' ' ∷ base_offset a)))
    or_else one (base_access (codes "LD") a))

unfoldable pub base_store_rule : Insn → Option Matched
base_store_rule a = when (a.op == Isa.op_st && a.rs1 == Isa.reg_b) (
    for_register store_names a.rd (λ name. one (codes name ++ (b' ' ∷ base_offset a)))
    or_else one (base_access (codes "ST") a))

unfoldable pub indirect_rule : Insn → Option Matched
indirect_rule a =
    when (a.op == Isa.op_ld && a.rd == Isa.reg_a && a.off14 == 0 && is_gpr a.rs1)
      (one (codes "LDA (R" ++ (show_unsigned a.rs1 ++ codes ")")))

abbrev pub push_names : List (ℕ × String)
push_names =
    (Isa.reg_a, "PHA")
    ∷ (Isa.reg_x, "PHX")
    ∷ (Isa.reg_y, "PHY")
    ∷ (Isa.reg_b, "PHB")
    ∷ (Isa.reg_d, "PHD")
    ∷ []

abbrev pub pull_names : List (ℕ × String)
pull_names =
    (Isa.reg_a, "PLA")
    ∷ (Isa.reg_x, "PLX")
    ∷ (Isa.reg_y, "PLY")
    ∷ (Isa.reg_b, "PLB")
    ∷ (Isa.reg_d, "PLD")
    ∷ []

-- `SP` plus or minus 4, with no flags.
abbrev pub moves_sp : ℕ → Insn → Bool
moves_sp op i = i.op == op && i.rd == Isa.reg_sp && i.rs1 == Isa.reg_sp && i.imm13 == 4 && i.f == 0

abbrev pub at_sp : ℕ → Insn → Bool
at_sp op i = i.op == op && i.rs1 == Isa.reg_sp && i.off14 == 0

unfoldable pub push_rule : Insn → Option Insn → Option Matched
push_rule a next = when (moves_sp Isa.op_subi a) (
    with_next next λ b. when (at_sp Isa.op_st b) (
      for_register push_names b.rd (λ name. two (codes name))
      or_else two (codes "PUSH " ++ reg_name b.rd)))

unfoldable pub pull_rule : Insn → Option Insn → Option Matched
pull_rule a next = when (at_sp Isa.op_ld a) (
    with_next next λ b. when (moves_sp Isa.op_addi b) (
      for_register pull_names a.rd (λ name. two (codes name))
      or_else two (codes "PULL " ++ reg_name a.rd)))
