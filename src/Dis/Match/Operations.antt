-- ===== src/Dis/Match/Operations.antt =====
-- `match_traditional`: operations on the accumulator, shifts, indexed access and extensions.
use rsd_m.Base.{ℕ, Bool, ◌&&◌, ◌||◌, List, [], ◌∷◌, ◌++◌, Option, bit_and, leb, ◌==◌, if◌then◌else◌}
use rsd_m.Base.Text.{Text, codes}
use rsd_m.Isa
use rsd_m.Dis.Decode.{Insn}
use rsd_m.Dis.Print.{show_unsigned, show_signed, show_hex, reg_name}
use rsd_m.Dis.Raw.{comma, raw_imm, shift_kind, shift_amount}
use Prim.Native.String.{String}
use rsd_m.Dis.Match.{Matched, one, two, when, with_next, is_gpr, numbered, for_register, ◌or_else◌}
use rsd_m.Dis.Match.Access.{base_offset}

-- `NAME Rn` for a flag-setting operation of the accumulator with a register.
abbrev pub accumulator_rule : ℕ → ℕ → Text → Insn → Option Matched
accumulator_rule op dst name a =
    when (a.op == op && a.rd == dst && a.rs1 == Isa.reg_a && a.f == 1 && is_gpr a.rs2)
      (one (numbered name a.rs2))

unfoldable pub register_rules : Insn → Option Matched
register_rules a =
    accumulator_rule Isa.op_add Isa.reg_a (codes "ADC") a
    or_else accumulator_rule Isa.op_sub Isa.reg_a (codes "SBC") a
    or_else accumulator_rule Isa.op_and Isa.reg_a (codes "AND") a
    or_else accumulator_rule Isa.op_or Isa.reg_a (codes "ORA") a
    or_else accumulator_rule Isa.op_xor Isa.reg_a (codes "EOR") a
    or_else accumulator_rule Isa.op_cmp Isa.reg_zero (codes "CMP") a

-- A register plus or minus 1.
abbrev pub steps_by_one : ℕ → ℕ → Insn → Bool
steps_by_one op r a = a.op == op && a.rd == r && a.rs1 == r && a.imm13 == 1 && a.f == 1

unfoldable pub step_rules : Insn → Option Matched
step_rules a =
    when (steps_by_one Isa.op_addi Isa.reg_a a) (one (codes "INC"))
    or_else when (steps_by_one Isa.op_subi Isa.reg_a a) (one (codes "DEC"))
    or_else when (steps_by_one Isa.op_addi Isa.reg_x a) (one (codes "INX"))
    or_else when (steps_by_one Isa.op_subi Isa.reg_x a) (one (codes "DEX"))
    or_else when (steps_by_one Isa.op_addi Isa.reg_y a) (one (codes "INY"))
    or_else when (steps_by_one Isa.op_subi Isa.reg_y a) (one (codes "DEY"))
    or_else when (steps_by_one Isa.op_addi a.rs1 a && is_gpr a.rd)
        (one (numbered (codes "INC") a.rd))
    or_else when (steps_by_one Isa.op_subi a.rs1 a && is_gpr a.rd)
        (one (numbered (codes "DEC") a.rd))

-- A flag-setting immediate operation.
abbrev pub immediate_form : ℕ → ℕ → ℕ → Insn → Bool
immediate_form op dst src a = a.op == op && a.rd == dst && a.rs1 == src && a.f == 1

abbrev pub signed_immediate : Text → Insn → Option Matched
signed_immediate name a = one (name ++ (codes " #" ++ show_signed a.imm13))

abbrev pub hex_immediate : Text → Insn → Option Matched
hex_immediate name a = one (name ++ (codes " #$" ++ show_hex 1 (bit_and a.imm13 0x1fff)))

unfoldable pub immediate_rules : Insn → Option Matched
immediate_rules a =
    when (immediate_form Isa.op_addi Isa.reg_a Isa.reg_a a) (signed_immediate (codes "ADC") a)
    or_else when (immediate_form Isa.op_subi Isa.reg_a Isa.reg_a a)
        (signed_immediate (codes "SBC") a)
    or_else when (immediate_form Isa.op_andi Isa.reg_a Isa.reg_a a) (hex_immediate (codes "AND") a)
    or_else when (immediate_form Isa.op_ori Isa.reg_a Isa.reg_a a) (hex_immediate (codes "ORA") a)
    or_else when (immediate_form Isa.op_xori Isa.reg_a Isa.reg_a a) (hex_immediate (codes "EOR") a)
    or_else when (immediate_form Isa.op_cmpi Isa.reg_zero Isa.reg_a a)
        (signed_immediate (codes "CMP") a)
    or_else when (immediate_form Isa.op_cmpi Isa.reg_zero Isa.reg_x a)
        (signed_immediate (codes "CPX") a)
    or_else when (immediate_form Isa.op_cmpi Isa.reg_zero Isa.reg_y a)
        (signed_immediate (codes "CPY") a)

-- `SAR` by one has no traditional name.
abbrev pub trad_sh : List (ℕ × String)
trad_sh = (0, "ASL") ∷ (1, "LSR") ∷ (3, "ROL") ∷ (4, "ROR") ∷ []

unfoldable pub shift_rule : Insn → Option Matched
shift_rule a =
    when (a.op == Isa.op_shift_i && a.rd == a.rs1 && a.f == 1 && shift_amount (raw_imm a) == 1) (
      for_register trad_sh (shift_kind (raw_imm a))
        λ name. one (if a.rd == Isa.reg_a then codes name else numbered (codes name) a.rd))

unfoldable pub bit_rules : Insn → Option Matched
bit_rules a =
    when (immediate_form Isa.op_andi Isa.reg_zero Isa.reg_a a) (hex_immediate (codes "BIT") a)
    or_else when (immediate_form Isa.op_and Isa.reg_zero Isa.reg_a a)
        (one (numbered (codes "BIT") a.rs2))

-- `LD A, [T+0]`.
abbrev pub loads_through_t : Insn → Bool
loads_through_t b = b.op == Isa.op_ld && b.rd == Isa.reg_a && b.rs1 == Isa.reg_t && b.off14 == 0

abbrev pub adds_to_t : ℕ → Insn → Bool
adds_to_t index a = a.op == Isa.op_add && a.rd == Isa.reg_t && a.rs2 == index

unfoldable pub indexed_rules : Insn → Option Insn → Option Matched
indexed_rules a next =
    when (adds_to_t Isa.reg_y a) (
      with_next next λ b.
        when (loads_through_t b && leb a.rs1 55)
          (two (codes "LDA (R" ++ (show_unsigned a.rs1 ++ codes "),Y"))))
    or_else when (adds_to_t Isa.reg_x a) (
        with_next next λ b.
          when (loads_through_t b && leb a.rs1 55)
            (two (codes "LDA (R" ++ (show_unsigned a.rs1 ++ codes ",X)"))))

abbrev pub access_name : Bool → Insn → Text
access_name by_x b =
    let load = b.op == Isa.op_ld in
    if by_x && b.rd == Isa.reg_x
    then (if load then codes "LDX" else codes "STX")
    else if by_x && b.rd == Isa.reg_y
    then (if load then codes "LDY" else codes "STY")
    else if load
    then codes "LDA"
    else codes "STA"

-- `B+$off,X` and `B+$off,Y`; behind `,Y` every register is printed as `A`.
abbrev pub base_indexed : Bool → ℕ → Text → Insn → Option Insn → Option Matched
base_indexed by_x index suffix a next = when (adds_to_t index a && a.rs1 == Isa.reg_b) (
    with_next next λ b.
      when ((b.op == Isa.op_ld || b.op == Isa.op_st) && b.rs1 == Isa.reg_t)
        (two (access_name by_x b ++ (b' ' ∷ (base_offset b ++ suffix)))))

abbrev pub is_shift_by : ℕ → ℕ → Insn → Bool
is_shift_by kind amount i = shift_kind (raw_imm i) == kind && shift_amount (raw_imm i) == amount

abbrev pub extension : ℕ → ℕ → Text → Insn → Insn → Option Matched
extension down amount name a b =
    when
      (is_shift_by Isa.sh_shl amount a
        && is_shift_by down amount b
        && b.rs1 == a.rd
        && b.rd == a.rd)
      (two (name ++ (b' ' ∷ (reg_name b.rd ++ (comma ++ reg_name a.rs1)))))

unfoldable pub extension_rules : Insn → Option Insn → Option Matched
extension_rules a next = when (a.op == Isa.op_shift_i) (
    with_next next λ b. when (b.op == Isa.op_shift_i) (
      extension Isa.sh_sar 24 (codes "SEXT8") a b
      or_else extension Isa.sh_sar 16 (codes "SEXT16") a b
      or_else extension Isa.sh_shr 16 (codes "ZEXT16") a b))

unfoldable pub zext8_rule : Insn → Option Matched
zext8_rule a =
    when (a.op == Isa.op_andi && a.imm13 == 0xff && a.f == 1)
      (one (codes "ZEXT8 " ++ (reg_name a.rd ++ (comma ++ reg_name a.rs1))))
