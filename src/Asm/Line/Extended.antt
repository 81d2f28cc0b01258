-- ===== src/Asm/Line/Extended.antt =====
-- The last group of `assemble_line`: the mnemonics with a size suffix `.B` or `.W`, and those
-- with the flagless prefix `X`.
use rsd_m.Base.{
  ℕ, ◌-◌, Bool, true, false, ◌&&◌, ◌||◌, not, List, [], ◌∷◌, Option, none, some, bit_and, leb, ◌==◌,
  if◌then◌else◌,
}
use rsd_m.Base.Lists.{length, take, drop}
use rsd_m.Base.Text.{Text, codes, peek, peek1, next, is_alnum, to_upper, str_eq}
use rsd_m.Base.Word.{u32}
use rsd_m.Isa.{
  op_add, op_addi, op_sub, op_subi, op_and, op_andi, op_or, op_ori, op_xor, op_xori, op_cmp,
  op_cmpi, op_ld, op_shift_i, reg_zero, reg_a, reg_t, sh_shl, sh_shr, sh_rol, sh_ror,
}
use rsd_m.Asm.State.{Action, done, cursor, set_cursor, ◌>>=◌, ◌>>◌}
use rsd_m.Asm.Lexer.{skip, at_end}
use rsd_m.Asm.Code.{emit32}
use rsd_m.Asm.Encode.{enc_r3, enc_i13f}
use rsd_m.Asm.Lower.{emit_load_const, emit_mem_access, emit_alu_mem}
use rsd_m.Asm.Operand.{Operand, parse_operand}
use rsd_m.Asm.Line.Base.{◌or_else◌, first_entry, when_any}
use rsd_m.Asm.Line.Native.{shift_imm}
use rsd_m.Asm.Line.Traditional.{is_imm, store_line}

pub data Size : Type 0 where
  byte word full : Size

-- A mnemonic, taken apart.
pub record Sized : Type 0 where
  pub base : Text
  pub size : Size
  pub flagless : Bool

abbrev suffix_size : Text → Size
suffix_size mnem =
    let n = length mnem in
    let tail = drop (n - 2) mnem in
    if leb 3 n && str_eq tail (codes ".B")
    then byte
    else if leb 3 n && str_eq tail (codes ".W")
    then word
    else full

abbrev without_suffix : Size → Text → Text
without_suffix full mnem = mnem
without_suffix _ mnem = take (length mnem - 2) mnem

unfoldable pub take_apart : Text → Sized
take_apart mnem =
    let size = suffix_size mnem in
    let base = without_suffix size mnem in
    let flagless = peek base == b'X' && not (peek1 base == 0) in
    record { base = if flagless then next base else base; size = size; flagless = flagless }

pub data Kind : Type 0 where
  operate load compare : Kind

pub record ExtEntry : Type 0 where
  pub mn : Text
  pub rr : ℕ
  pub ri : ℕ
  pub kind : Kind

abbrev pub ext_alu : List ExtEntry
ext_alu =
    record { mn = codes "ADC"; rr = op_add; ri = op_addi; kind = operate }
    ∷ record { mn = codes "SBC"; rr = op_sub; ri = op_subi; kind = operate }
    ∷ record { mn = codes "AND"; rr = op_and; ri = op_andi; kind = operate }
    ∷ record { mn = codes "ORA"; rr = op_or; ri = op_ori; kind = operate }
    ∷ record { mn = codes "EOR"; rr = op_xor; ri = op_xori; kind = operate }
    ∷ record { mn = codes "CMP"; rr = op_cmp; ri = op_cmpi; kind = compare }
    ∷ record { mn = codes "BIT"; rr = op_and; ri = op_andi; kind = compare }
    ∷ record { mn = codes "LDA"; rr = op_add; ri = op_addi; kind = load }
    ∷ record { mn = codes "LD"; rr = op_add; ri = op_addi; kind = load }
    ∷ []

abbrev f_bit : Bool → ℕ
f_bit flagless = if flagless then 0 else 1

abbrev mask_value : Size → ℕ → ℕ
mask_value byte v = bit_and v 0xff
mask_value word v = bit_and v 0xffff
mask_value full v = v

-- The mask of a result in `A`; the last instruction has the flag bit `f`.
unfoldable pub mask_result : Size → ℕ → Action
mask_result byte f = emit32 (enc_i13f op_andi reg_a reg_a 0xff f)
mask_result word f = do
  emit32 (enc_i13f op_shift_i reg_a reg_a (shift_imm sh_shl 16) 0)
  emit32 (enc_i13f op_shift_i reg_a reg_a (shift_imm sh_shr 16) f)
mask_result full f = done

unfoldable pub ext_load : Size → Operand → Action
unfolding mask_result
ext_load size op =
    if is_imm op.mode
    then emit_load_const reg_a (mask_value size (u32 op.value))
    else (do emit_mem_access op_ld reg_a op.mode op.value; mask_result size 0)

unfoldable pub ext_compare : ExtEntry → Size → ℕ → Operand → Action
ext_compare e size f op =
    if is_imm op.mode
    then emit32 (enc_i13f e.ri reg_zero reg_a (bit_and (mask_value size (u32 op.value)) 0x1fff) f)
    else (do
      emit_mem_access op_ld reg_t op.mode op.value
      emit32 (enc_r3 e.rr reg_zero reg_a reg_t 0 f))

unfoldable pub ext_operate : ExtEntry → Size → ℕ → Operand → Action
unfolding mask_result
ext_operate e size f op = do emit_alu_mem e.rr e.ri reg_a reg_a op.mode op.value; mask_result size f

unfoldable pub ext_action : Kind → ExtEntry → Size → ℕ → Operand → Action
unfolding ext_load ext_compare ext_operate
ext_action load e size f op = ext_load size op
ext_action compare e size f op = ext_compare e size f op
ext_action operate e size f op = ext_operate e size f op

unfoldable pub ext_line : ExtEntry → Sized → Action
unfolding ext_action
ext_line e m = do op ← parse_operand; ext_action e.kind e m.size (f_bit m.flagless) op

unfoldable pub ext_entries : List ExtEntry → Sized → Option Action
unfolding ext_line
ext_entries [] m = none
ext_entries (e ∷ es) m = if str_eq m.base e.mn then some (ext_line e m) else ext_entries es m

-- `INC`, `DEC` and the shifts, always on `A`.
unfoldable pub unary_line : ℕ → ℕ → Bool → Action
unary_line op imm flagless = do
  skip
  p ← cursor
  let on_a = not (at_end p) && to_upper (peek p) == b'A' && not (is_alnum (peek1 p))
  set_cursor (if on_a then next p else p)
  emit32 (enc_i13f op reg_a reg_a imm (f_bit flagless))

unfoldable pub ext_unary : Sized → Option Action
unfolding unary_line
ext_unary m =
    first_entry
      (("INC", unary_line op_addi 1 m.flagless)
        ∷ ("DEC", unary_line op_subi 1 m.flagless)
        ∷ ("ASL", unary_line op_shift_i (shift_imm sh_shl 1) m.flagless)
        ∷ ("LSR", unary_line op_shift_i (shift_imm sh_shr 1) m.flagless)
        ∷ ("ROL", unary_line op_shift_i (shift_imm sh_rol 1) m.flagless)
        ∷ ("ROR", unary_line op_shift_i (shift_imm sh_ror 1) m.flagless)
        ∷ [])
      m.base

unfoldable pub ext_store : Sized → Option Action
ext_store m =
    when_any ("STA" ∷ "ST" ∷ []) (store_line reg_a) m.base
    or_else when_any ("STZ" ∷ []) (store_line reg_zero) m.base

-- The second search of the table, for the prefix without a suffix, is never reached: the first
-- one has taken every such mnemonic.
abbrev is_sized : Size → Bool
is_sized full = false
is_sized _ = true

unfoldable pub extended : Text → Option Action
unfolding take_apart ext_entries ext_unary ext_store
extended mnem =
    let m = take_apart mnem in
    if is_sized m.size || m.flagless
    then ext_entries ext_alu m or_else ext_unary m or_else ext_store m
    else none
