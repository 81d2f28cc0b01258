-- ===== src/Asm/Expr.antt =====
-- `parse_atom` and `parse_expr`. They call each other, so they take fuel; twice the length of
-- the text, and two, is enough. Values are 64-bit patterns.
pub mod Lengths
pub mod Total
use rsd_m.Base.{
  ℕ, zero, suc, ◌+◌, ◌-◌, ◌*◌, ◌^◌, not, ◌&&◌, ◌||◌, Option, none, some, bit_and, bit_or, ◌==◌,
  if◌then◌else◌,
}
use rsd_m.Base.Lists.{length, take}
use rsd_m.Base.Text.{Text, peek, peek1, peek2, next, is_digit}
use rsd_m.Base.Word.{shr, add64, sub64, mul64, minus64, div64}
use rsd_m.Asm.State.{
  Label, Constant, M, err, pure, cursor, set_cursor, ◌>>=◌, ◌>>◌, bad_expression, out_of_fuel,
}
use rsd_m.Asm.Symbols.{find_label, find_constant, add_label}
use rsd_m.Asm.Lexer.{skip_ws, is_name_start, span_name, scan_decimal, scan_hex, scan_binary}

-- The unary operators, by their bytes `- + ~ < > ^ #`.
pub data Prefix : Type 0 where
  negate plus complement low_byte high_byte bank_byte hash : Prefix

-- What `parse_atom` finds at the cursor, in the order of its tests.
pub data Atom : Type 0 where
  prefix : Prefix → Text → Atom
  paren : Text → Atom
  here : Text → Atom
  number : ℕ → Text → Atom
  symbol : Text → Text → Atom
  neither : Atom

abbrev pub number_of : ℕ × Text → Atom
number_of (v, p) = number v p

abbrev pub symbol_of : Text × Text → Atom
symbol_of (n, p) = symbol (take 63 n) p

unfoldable pub classify : Text → Atom
classify p =
    let c = peek p in
    let q = next p in
    if c == b'-'
    then prefix negate q
    else if c == b'+'
    then prefix plus q
    else if c == b'~'
    then prefix complement q
    else if c == b'<'
    then prefix low_byte q
    else if c == b'>'
    then prefix high_byte q
    else if c == b'^'
    then prefix bank_byte q
    else if c == b'#'
    then prefix hash q
    else if c == b'('
    then paren q
    else if c == b'*'
    then here q
    else if c == b'0' && (peek1 p == b'x' || peek1 p == b'X')
    then number_of (scan_hex 0 (next q))
    else if c == b'$'
    then number_of (scan_hex 0 q)
    else if c == b'%'
    then number_of (scan_binary 0 q)
    else if c == b'\'' && peek2 p == b'\''
    then number (peek1 p) (next (next q))
    else if is_digit c
    then number_of (scan_decimal 64 0 p)
    else if is_name_start c
    then symbol_of (span_name p)
    else neither

unfoldable pub apply_prefix : Prefix → ℕ → ℕ
apply_prefix negate v = minus64 v
apply_prefix plus v = v
apply_prefix complement v = 2 ^ 64 - 1 - v
apply_prefix low_byte v = bit_and v 0xff
apply_prefix high_byte v = bit_and (shr v 8) 0xff
apply_prefix bank_byte v = bit_and (shr v 16) 0xff
apply_prefix hash v = v

-- A constant, a defined label, or 0 and an entry for a label to come.
unfoldable pub resolve_label : Text → Option Label → M ℕ
resolve_label n (some l) = if l.defined then pure l.addr else (do entry ← add_label n; pure 0)
resolve_label n none = do entry ← add_label n; pure 0

unfoldable pub resolve_constant : Text → Option Constant → M ℕ
unfolding resolve_label
resolve_constant n (some c) s = pure c.value s
resolve_constant n none s = resolve_label n (find_label s n) s

unfoldable pub resolve_symbol : Text → M ℕ
unfolding resolve_constant
resolve_symbol n s = resolve_constant n (find_constant s n) s

pub data Binary : Type 0 where
  plus minus times divide and or : Binary

unfoldable pub binary_at : Text → Option Binary
binary_at p =
    let c = peek p in
    if c == b'+'
    then some Binary.plus
    else if c == b'-'
    then some minus
    else if c == b'*' && not (peek1 p == b'=')
    then some times
    else if c == b'/'
    then some divide
    else if c == b'&'
    then some and
    else if c == b'|'
    then some or
    else none

-- A division by zero leaves the value as it is.
unfoldable pub apply_binary : Binary → ℕ → ℕ → ℕ
apply_binary Binary.plus v d = add64 v d
apply_binary minus v d = sub64 v d
apply_binary times v d = mul64 v d
apply_binary divide v d = if d == 0 then v else div64 v d
apply_binary and v d = bit_and v d
apply_binary or v d = bit_or v d

-- `if (**pp == ')') (*pp)++`, after `skip_ws`.
abbrev pub skip_close : Text → Text
skip_close p = let q = skip_ws p in if peek q == b')' then next q else q

-- The value of what was found, with the calls of `parse_atom` and `parse_expr`.
unfoldable pub atom_value : M ℕ → M ℕ → Atom → M ℕ
unfolding apply_prefix resolve_symbol
atom_value atom expr (prefix op q) s =
    (do v ← atom; pure (apply_prefix op v)) (record s { text = q })
atom_value atom expr (paren q) s =
    (do v ← expr; p ← cursor; set_cursor (skip_close p); pure v) (record s { text = q })
atom_value atom expr (here q) s = pure s.cur_pc (record s { text = q })
atom_value atom expr (number v q) s = pure v (record s { text = q })
atom_value atom expr (symbol n q) s = resolve_symbol n (record s { text = q })
atom_value atom expr neither s = err bad_expression

-- One more operand and the rest of the loop, or the end of the expression.
unfoldable pub operation_value : M ℕ → (ℕ → M ℕ) → ℕ → Option Binary → M ℕ
unfolding apply_binary
operation_value atom more v none s = pure v (record s { text = skip_ws s.text })
operation_value atom more v (some op) s =
    (do d ← atom; more (apply_binary op v d)) (record s { text = next (skip_ws s.text) })

unfoldable mutual
  unfolding classify binary_at atom_value operation_value

  pub parse_atom : ℕ → M ℕ
  parse_atom zero s = err out_of_fuel
  parse_atom (suc f) s = atom_value (parse_atom f) (parse_expr f) (classify (skip_ws s.text)) s

  pub parse_expr : ℕ → M ℕ
  parse_expr zero s = err out_of_fuel
  parse_expr (suc f) s = (do v ← parse_atom f; parse_operations f v) s

  -- The loop of `parse_expr`.
  pub parse_operations : ℕ → ℕ → M ℕ
  parse_operations zero v s = err out_of_fuel
  parse_operations (suc f) v s =
      operation_value (parse_atom f) (parse_operations f) v (binary_at (skip_ws s.text)) s

-- A call of `parse_expr` from outside.
unfoldable pub expression : M ℕ
unfolding parse_expr
expression s = parse_expr (2 * length s.text + 2) s
