-- ===== src/Dis/Raw.antt =====
-- `dis_raw`: one instruction in the fixed32 notation.
use rsd_m.Base.{
  ℕ, Bool, false, ◌||◌, List, [], ◌∷◌, ◌++◌, bit_and, bit_or, leb, ◌==◌, if◌then◌else◌,
}
use rsd_m.Base.Text.{Text, codes}
use rsd_m.Base.Word.{u32, shl, shr, add32}
use rsd_m.Isa
use rsd_m.Dis.Decode.{Insn}
use rsd_m.Dis.Print.{show_signed, show_hex, reg_name}
use Prim.Native.String.{String}

-- A name at its index.
abbrev pub named : ℕ → List (ℕ × String) → String → String
named k [] other = other
named k ((j, name) ∷ rest) other = if j == k then name else named k rest other

abbrev pub alu_rr : List (ℕ × String)
alu_rr =
    (Isa.op_add, "ADD")
    ∷ (Isa.op_sub, "SUB")
    ∷ (Isa.op_and, "AND")
    ∷ (Isa.op_or, "OR")
    ∷ (Isa.op_xor, "XOR")
    ∷ (Isa.op_slt, "SLT")
    ∷ (Isa.op_sltu, "SLTU")
    ∷ (Isa.op_cmp, "CMP")
    ∷ (Isa.op_mul, "MUL")
    ∷ (Isa.op_div, "DIV")
    ∷ []

abbrev pub alu_ri : List (ℕ × String)
alu_ri =
    (Isa.op_addi, "ADDI")
    ∷ (Isa.op_subi, "SUBI")
    ∷ (Isa.op_andi, "ANDI")
    ∷ (Isa.op_ori, "ORI")
    ∷ (Isa.op_xori, "XORI")
    ∷ (Isa.op_slti, "SLTI")
    ∷ (Isa.op_sltui, "SLTUI")
    ∷ (Isa.op_cmpi, "CMPI")
    ∷ []

abbrev pub sh_names : List (ℕ × String)
sh_names = (0, "SHL") ∷ (1, "SHR") ∷ (2, "SAR") ∷ (3, "ROL") ∷ (4, "ROR") ∷ []

abbrev pub cond_names : List (ℕ × String)
cond_names =
    (0, "EQ")
    ∷ (1, "NE")
    ∷ (2, "CS")
    ∷ (3, "CC")
    ∷ (4, "MI")
    ∷ (5, "PL")
    ∷ (6, "VS")
    ∷ (7, "VC")
    ∷ (8, "AL")
    ∷ []

-- The index has a name in the table.
abbrev pub has_name : ℕ → List (ℕ × String) → Bool
has_name k [] = false
has_name k ((j, name) ∷ rest) = j == k || has_name k rest

abbrev pub comma : Text
comma = codes ", "

abbrev pub flag_suffix : ℕ → Text
flag_suffix f = if f == 0 then [] else codes ", F"

-- `NAME rd, rs1, last`, and `, F` where the flag bit is set.
abbrev pub three_operands : Text → Insn → Text → Text
three_operands name i last =
    name
    ++ (b' '
        ∷ (reg_name i.rd ++ (comma ++ (reg_name i.rs1 ++ (comma ++ (last ++ flag_suffix i.f))))))

-- The 13 bits of an immediate, unsigned, from the raw word.
abbrev pub raw_imm : Insn → ℕ
raw_imm i = bit_and (shr i.raw 1) 0x1fff

abbrev pub shift_kind : ℕ → ℕ
shift_kind imm = bit_and (shr imm 10) 7

abbrev pub shift_amount : ℕ → ℕ
shift_amount imm = bit_and imm 0x1f

-- `NAME rt, [base + off]`.
abbrev pub memory_operand : Text → Insn → Text
memory_operand name i =
    name
    ++ (b' '
        ∷ (reg_name i.rd
            ++ (codes ", ["
                ++ (reg_name i.rs1 ++ (codes " + " ++ (show_signed i.off14 ++ codes "]"))))))

abbrev upper_operand : Text → Insn → Text
upper_operand name i = name ++ (b' ' ∷ (reg_name i.rd ++ (codes ", 0x" ++ show_hex 5 i.imm20)))

-- `NAME $XXXXXXXX`.
abbrev at_address : Text → ℕ → Text
at_address name target = name ++ (codes " $" ++ show_hex 8 target)

unfoldable pub branch_target : ℕ → ℕ → ℕ
branch_target pc off21 = add32 (add32 pc 4) (u32 (shl off21 2))

unfoldable pub jump_target : ℕ → ℕ → ℕ
jump_target pc target26 = bit_or (bit_and pc 0xf000_0000) (u32 (shl target26 2))

branch_name : ℕ → ℕ → Text
branch_name cond link =
    if leb cond Isa.cond_al
    then (if link == 0
        then (if cond == Isa.cond_al then codes "BRA" else b'B' ∷ codes (named cond cond_names ""))
        else codes "BSR")
    else codes "B??"

sys_text : Insn → Text
sys_text i =
    if i.sys_sub == Isa.sys_trap
    then codes "TRAP #" ++ show_signed i.sys_payload
    else if i.sys_sub == Isa.sys_fence
    then codes "FENCE"
    else if i.sys_sub == Isa.sys_fencer
    then codes "FENCER"
    else if i.sys_sub == Isa.sys_fencew
    then codes "FENCEW"
    else if i.sys_sub == Isa.sys_wai
    then codes "WAI"
    else if i.sys_sub == Isa.sys_stp
    then codes "STP"
    else codes "SYS #" ++ (show_signed i.sys_sub ++ (comma ++ show_signed i.sys_payload))

-- Bit 25 of the word tells the two operations apart.
stack_text : Insn → Text
stack_text i =
    let name = if bit_and (shr i.raw 25) 1 == 0 then codes "PUSH" else codes "PULL" in
    name ++ (b' ' ∷ reg_name (bit_and (shr i.raw 19) 0x3f))

unfoldable pub dis_raw : Insn → ℕ → Text
unfolding branch_target jump_target branch_name sys_text stack_text
dis_raw i pc =
    let op = i.op in
    let kind_r = bit_and i.func7 7 in
    let imm = raw_imm i in
    if has_name op alu_rr
    then three_operands (codes (named op alu_rr "")) i (reg_name i.rs2)
    else if op == Isa.op_xfer
    then codes "MOV " ++ (reg_name i.rd ++ (comma ++ (reg_name i.rs1 ++ flag_suffix i.f)))
    else if has_name op alu_ri
    then three_operands (codes (named op alu_ri "")) i (b'#' ∷ show_signed i.imm13)
    else if op == Isa.op_shift_r
    then three_operands (codes (named kind_r sh_names "SH?")) i (reg_name i.rs2)
    else if op == Isa.op_shift_i
    then three_operands (codes (named (shift_kind imm) sh_names "SH?")) i
        (b'#' ∷ show_signed (shift_amount imm))
    else if op == Isa.op_ld
    then memory_operand (codes "LD") i
    else if op == Isa.op_st
    then memory_operand (codes "ST") i
    else if op == Isa.op_lui
    then upper_operand (codes "LUI") i
    else if op == Isa.op_auipc
    then upper_operand (codes "AUIPC") i
    else if op == Isa.op_br
    then at_address (branch_name i.cond i.link) (branch_target pc i.off21)
    else if op == Isa.op_jmp_abs
    then at_address (codes "JMP") (jump_target pc i.target26)
    else if op == Isa.op_jsr_abs
    then at_address (codes "JSR") (jump_target pc i.target26)
    else if op == Isa.op_jmp_reg
    then codes "JMP.REG " ++ reg_name i.rs1
    else if op == Isa.op_jsr_reg
    then codes "JSR.REG " ++ (reg_name i.rd ++ (comma ++ reg_name i.rs1))
    else if op == Isa.op_rts
    then codes "RTS"
    else if op == Isa.op_sys
    then sys_text i
    else if op == Isa.op_stack
    then stack_text i
    else if i.raw == 0
    then codes "NOP"
    else codes ".dword $" ++ show_hex 8 i.raw
