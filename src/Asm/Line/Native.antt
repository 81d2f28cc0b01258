-- ===== src/Asm/Line/Native.antt =====
-- The fixed32 notation of `assemble_line` besides the ALU table: moves, multiply and divide,
-- upper immediates, shifts, and loads and stores with brackets.
use rsd_m.Base.{
  ℕ, not, ◌&&◌, ◌||◌, [], ◌∷◌, Option, none, some, bit_and, bit_or, leb, ◌==◌, if◌then◌else◌,
}
use rsd_m.Base.Text.{Text, peek, peek1, next, is_alnum, is_digit, to_upper}
use rsd_m.Base.Word.{u32, shl}
use rsd_m.Isa.{
  op_xfer, op_mul, op_div, op_lui, op_auipc, op_shift_i, op_shift_r, op_ld, op_st, reg_a, reg_t,
  sh_shl, sh_shr, sh_sar, sh_rol, sh_ror,
}
use rsd_m.Asm.State.{Action, pure, cursor, set_cursor, ◌>>=◌, ◌>>◌}
use rsd_m.Asm.Lexer.{skip_ws, skip, at_end, parse_register, reject_flag_operand}
use rsd_m.Asm.Expr.{expression}
use rsd_m.Asm.Code.{emit32}
use rsd_m.Asm.Encode.{enc_r3, enc_i13f, enc_m14, enc_u20}
use rsd_m.Asm.Lower.{AddrMode, emit_mem_access, window_reg}
use rsd_m.Asm.Operand.{parse_operand}
use rsd_m.Asm.Line.Base.{first_entry, when_any, ◌or_else◌, register_comma}

unfoldable pub move_line : Action
move_line = do
  rd ← register_comma
  rs ← parse_register
  reject_flag_operand
  emit32 (enc_r3 op_xfer rd rs 0 0 0)

unfoldable pub muldiv_line : ℕ → Action
muldiv_line op = do
  rd ← register_comma
  rs1 ← register_comma
  rs2 ← parse_register
  reject_flag_operand
  emit32 (enc_r3 op rd rs1 rs2 0 0)

unfoldable pub upper_line : ℕ → Action
upper_line op = do rd ← register_comma; imm ← expression; emit32 (enc_u20 op rd (u32 imm))

-- `(k << 10) | amount`.
abbrev pub shift_imm : ℕ → ℕ → ℕ
shift_imm k amount = bit_or (shl k 10) amount

-- Read, change and write back an operand through `T`; a window register in one instruction.
unfoldable pub change_memory : ℕ → ℕ → AddrMode → ℕ → Option ℕ → Action
change_memory op imm mode value (some rn) = emit32 (enc_i13f op rn rn imm 1)
change_memory op imm mode value none = do
  emit_mem_access op_ld reg_t mode value
  emit32 (enc_i13f op reg_t reg_t imm 1)
  emit_mem_access op_st reg_t mode value

unfoldable pub change_operand : ℕ → ℕ → AddrMode → ℕ → Action
unfolding change_memory window_reg
change_operand op imm mode value = change_memory op imm mode value (window_reg mode value)

-- `rd, rs1, #amount` and `rd, rs1, rs2`.
unfoldable pub shift_last : ℕ → ℕ → ℕ → Text → Action
shift_last k rd rs1 q =
    if peek q == b'#' || peek q == b'$' || is_digit (peek q)
    then (do
      set_cursor q
      sh ← expression
      reject_flag_operand
      emit32 (enc_i13f op_shift_i rd rs1 (shift_imm k (bit_and (u32 sh) 0x1f)) 1))
    else (do
      set_cursor q
      rs2 ← parse_register
      reject_flag_operand
      emit32 (enc_r3 op_shift_r rd rs1 rs2 k 1))

unfoldable pub shift_three : ℕ → Action
unfolding shift_last
shift_three k = do
  rd ← register_comma
  rs1 ← register_comma
  p ← cursor
  shift_last k rd rs1 (skip_ws p)

unfoldable pub shift_operand : ℕ → Action
unfolding change_operand
shift_operand k = do op ← parse_operand; change_operand op_shift_i (shift_imm k 1) op.mode op.value

unfoldable pub shift_line : ℕ → ℕ → Action
unfolding shift_three shift_operand
shift_line commas k = do
  skip
  p ← cursor
  if at_end p || (to_upper (peek p) == b'A' && not (is_alnum (peek1 p)))
      then emit32 (enc_i13f op_shift_i reg_a reg_a (shift_imm k 1) 1)
      else if leb 2 commas
      then shift_three k
      else shift_operand k

-- `[base + off]`, behind the bracket. What follows the offset is skipped if it is `]`.
unfoldable pub bracket_access : ℕ → ℕ → Action
bracket_access op rt = do
  base ← parse_register
  p ← cursor
  let q = skip_ws p
  set_cursor q
  off ← (if peek q == b'+' || peek q == b'-' then expression else pure 0)
  r ← cursor
  let t = skip_ws r
  set_cursor (if peek t == b']' then next t else t)
  emit32 (enc_m14 op rt base (bit_and (u32 off) 0x3fff))

unfoldable pub operand_access : ℕ → ℕ → Action
operand_access op rt = do operand ← parse_operand; emit_mem_access op rt operand.mode operand.value

unfoldable pub access_line : ℕ → Action
unfolding bracket_access operand_access
access_line op = do
  rt ← register_comma
  skip
  p ← cursor
  if peek p == b'[' then (do set_cursor (next p); bracket_access op rt) else operand_access op rt

-- Up to the shifts, in the order of the source; `commas` is `comma_count`.
unfoldable pub native : Text → ℕ → Option Action
unfolding move_line muldiv_line upper_line shift_line access_line
native mnem commas =
    when_any ("MOV" ∷ "XFER" ∷ []) move_line mnem
    or_else first_entry
        (("MUL", muldiv_line op_mul)
          ∷ ("DIV", muldiv_line op_div)
          ∷ ("LUI", upper_line op_lui)
          ∷ ("AUIPC", upper_line op_auipc)
          ∷ ("SHL", shift_line commas sh_shl)
          ∷ ("SHR", shift_line commas sh_shr)
          ∷ ("SAR", shift_line commas sh_sar)
          ∷ ("ROL", shift_line commas sh_rol)
          ∷ ("ROR", shift_line commas sh_ror)
          ∷ ("LSL", shift_line commas sh_shl)
          ∷ ("LSR", shift_line commas sh_shr)
          ∷ ("ASR", shift_line commas sh_sar)
          ∷ [])
        mnem
    or_else when_any ("LD" ∷ "LDW" ∷ []) (access_line op_ld) mnem
    or_else when_any ("ST" ∷ "STW" ∷ []) (access_line op_st) mnem
