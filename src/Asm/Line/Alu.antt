-- ===== src/Asm/Line/Alu.antt =====
-- The ALU table of `assemble_line`: three-operand forms, immediates, the flagless `X` forms,
-- and the traditional forms of the mnemonics that both notations have.
use rsd_m.Base.{
  ℕ, suc, Bool, true, false, not, ◌&&◌, ◌||◌, List, [], ◌∷◌, ◌++◌, Option, none, some, leb, ltb,
  ◌==◌, if◌then◌else◌,
}
use rsd_m.Base.Lists.{drop}
use rsd_m.Base.Text.{Text, codes, peek, peek1, next, is_alnum, to_upper, str_eq, starts_case}
use rsd_m.Base.Word.{u32}
use rsd_m.Isa.{
  op_add, op_addi, op_sub, op_subi, op_and, op_andi, op_or, op_ori, op_xor, op_xori, op_slt,
  op_slti, op_sltu, op_sltui, op_cmp, op_cmpi, reg_zero, reg_a,
}
use rsd_m.Asm.State.{
  Action, fail, cursor, set_cursor, ◌>>=◌, ◌>>◌, cmp_three_operands, cmpi_unsupported,
}
use rsd_m.Asm.Lexer.{skip_ws, starts_numbered, ends_word, parse_register}
use rsd_m.Asm.Expr.{expression}
use rsd_m.Asm.Code.{emit32}
use rsd_m.Asm.Encode.{enc_r3, enc_i13f}
use rsd_m.Asm.Lower.{emit_alu_mem}
use rsd_m.Asm.Operand.{parse_operand}
use rsd_m.Asm.Line.Base.{◌or_else◌, register_comma}

pub record AluEntry : Type 0 where
  pub mn : Text
  pub rr : ℕ
  pub ri : ℕ
  pub ambig : Bool

abbrev pub alu_tbl : List AluEntry
alu_tbl =
    record { mn = codes "ADD"; rr = op_add; ri = op_addi; ambig = false }
    ∷ record { mn = codes "SUB"; rr = op_sub; ri = op_subi; ambig = false }
    ∷ record { mn = codes "AND"; rr = op_and; ri = op_andi; ambig = true }
    ∷ record { mn = codes "OR"; rr = op_or; ri = op_ori; ambig = true }
    ∷ record { mn = codes "XOR"; rr = op_xor; ri = op_xori; ambig = true }
    ∷ record { mn = codes "SLT"; rr = op_slt; ri = op_slti; ambig = false }
    ∷ record { mn = codes "SLTU"; rr = op_sltu; ri = op_sltui; ambig = false }
    ∷ record { mn = codes "CMP"; rr = op_cmp; ri = op_cmpi; ambig = true }
    ∷ []

abbrev one_letter : ℕ → Text → Bool
one_letter c q = to_upper (peek q) == c && ends_word (peek1 q)

-- `IS_3OP_START`: the operand starts with a register. `SP` and `ZERO` may be followed by `_`.
abbrev pub is_3op_start : Text → Bool
is_3op_start q =
    starts_numbered b'R' q
    || one_letter b'A' q
    || one_letter b'X' q
    || one_letter b'Y' q
    || (starts_case q (codes "SP") && not (is_alnum (peek (drop 2 q))))
    || (starts_case q (codes "ZERO") && not (is_alnum (peek (drop 4 q))))
    || one_letter b'T' q
    || one_letter b'D' q

-- Commas up to the end of the text.
abbrev pub comma_count : Text → ℕ
comma_count [] = 0
comma_count (c ∷ p) =
    let more = comma_count p in
    if c == 0 || c == b';' then 0 else if c == b',' then suc more else more

-- `rd, rs1, rs2`.
unfoldable pub three_registers : ℕ → ℕ → ℕ → Action
three_registers op func7 f = do
  rd ← register_comma
  rs1 ← register_comma
  rs2 ← parse_register
  emit32 (enc_r3 op rd rs1 rs2 func7 f)

-- `rd, rs1, #imm`.
unfoldable pub register_immediate : ℕ → ℕ → Action
register_immediate op f = do
  rd ← register_comma
  rs1 ← register_comma
  imm ← expression
  emit32 (enc_i13f op rd rs1 (u32 imm) f)

-- `CMP lhs, #imm` and `CMP lhs, rhs`, behind the comma.
unfoldable pub compare_with : ℕ → Text → Action
compare_with lhs q =
    if peek q == b'#'
    then (do
      set_cursor (next q)
      imm ← expression
      emit32 (enc_i13f op_cmpi reg_zero lhs (u32 imm) 1))
    else (do set_cursor q; rhs ← parse_register; emit32 (enc_r3 op_cmp reg_zero lhs rhs 0 1))

-- `op operand`, on the accumulator.
unfoldable pub alu_traditional : ℕ → ℕ → ℕ → ℕ → Action
alu_traditional rr ri dst src1 = do op ← parse_operand; emit_alu_mem rr ri dst src1 op.mode op.value

unfoldable pub cmp_line : ℕ → Action
unfolding compare_with alu_traditional
cmp_line commas =
    if leb 2 commas
    then fail cmp_three_operands
    else if commas == 1
    then (do lhs ← register_comma; p ← cursor; compare_with lhs (skip_ws p))
    else alu_traditional op_cmp op_cmpi reg_zero reg_a

-- A mnemonic of the table as it stands.
unfoldable pub alu_line : AluEntry → ℕ → Action
unfolding cmp_line three_registers alu_traditional
alu_line e commas = do
  p ← cursor
  let traditional = e.ambig && (ltb commas 2 || not (is_3op_start (skip_ws p)))
  if str_eq e.mn (codes "CMP")
      then cmp_line commas
      else if traditional
      then alu_traditional e.rr e.ri reg_a reg_a
      else three_registers e.rr 0 1

unfoldable pub alu_entry : AluEntry → Text → ℕ → Option Action
unfolding alu_line three_registers register_immediate
alu_entry e mnem commas =
    if str_eq mnem e.mn
    then some (alu_line e commas)
    else if str_eq mnem (e.mn ++ codes "I")
    then some (if e.ri == op_cmpi then fail cmpi_unsupported else register_immediate e.ri 1)
    else if str_eq mnem (codes "X" ++ e.mn)
    then some (three_registers e.rr 0 0)
    else if str_eq mnem (codes "X" ++ (e.mn ++ codes "I"))
    then some (register_immediate e.ri 0)
    else none

unfoldable pub alu_entries : List AluEntry → Text → ℕ → Option Action
unfolding alu_entry
alu_entries [] mnem commas = none
alu_entries (e ∷ es) mnem commas = alu_entry e mnem commas or_else alu_entries es mnem commas
