-- ===== src/Asm/Operand.antt =====
-- `parse_operand`: the addressing mode and value that the text of an operand denotes. The field
-- `b_relative` of the source is set and never read, and is left out.
use rsd_m.Base.{
  ℕ, ◌*◌, ◌^◌, Bool, true, false, ◌&&◌, ◌||◌, [], Option, none, some, leb, ltb, ◌==◌, if◌then◌else◌,
}
use rsd_m.Base.Lists.{take}
use rsd_m.Base.Text.{Text, peek, peek1, next, is_space, to_upper}
use rsd_m.Base.Word.{u32, sext32, sle64}
use rsd_m.Asm.State.{Label, Constant, M, pure, cursor, set_cursor, ◌>>=◌, ◌>>◌}
use rsd_m.Asm.Symbols.{find_label, find_constant}
use rsd_m.Asm.Lexer.{skip_ws, is_name_start, span_name, scan_decimal, starts_numbered, ends_word}
use rsd_m.Asm.Expr.{expression}
use rsd_m.Asm.Lower.{
  AddrMode, am_imp, am_acc, am_imm, am_dp, am_dpx, am_dpy, am_abs, am_absx, am_absy, am_ind,
  am_indx, am_indy, am_label,
}

pub record Operand : Type 0 where
  pub mode : AddrMode
  pub value : ℕ
  pub label : Text
  pub has_label : Bool

abbrev pub plain : AddrMode → ℕ → Operand
plain m v = record { mode = m; value = v; label = []; has_label = false }

-- `rnum * 4` as an `int`, widened.
abbrev window_address : ℕ → ℕ
window_address n = sext32 (u32 (n * 4))

-- `if (*p==c) p++`.
abbrev skip_byte : ℕ → Text → Text
skip_byte c p = if peek p == c then next p else p

-- Inside brackets: a register `Rn` followed by the bracket, a comma or a space, or an expression.
unfoldable pub bracket_value : ℕ → M ℕ
bracket_value close = do
  p ← cursor
  let (n, rest) = scan_decimal 32 0 (next p)
  let c = peek rest
  if starts_numbered b'R' p && (c == close || c == b',' || is_space c)
      then (do set_cursor rest; pure (window_address n))
      else expression

-- Behind the expression of `(expr`: the mode, and the text left.
abbrev stack_relative : Text → AddrMode × Text
stack_relative p =
    let q = skip_ws (skip_byte b')' (skip_ws p)) in
    if peek q == b',' && to_upper (peek1 q) == b'Y' then (am_indy, next (next q)) else (am_ind, q)

unfoldable pub indirect_mode : Text → AddrMode × Text
indirect_mode p =
    let q = skip_ws p in
    if peek q == b','
    then (let r = skip_ws (next q) in
        if to_upper (peek r) == b'X'
        then (am_indx, skip_byte b')' (skip_ws (next r)))
        else if to_upper (peek r) == b'S'
        then stack_relative (next r)
        else (am_imp, r))
    else if peek q == b')'
    then (let r = skip_ws (next q) in
        if peek r == b','
        then (let t = skip_ws (next r) in
            if to_upper (peek t) == b'Y' then (am_indy, next t) else (am_imp, t))
        else (am_ind, r))
    else (am_imp, q)

-- Behind the expression of `[expr`.
unfoldable pub long_mode : Text → AddrMode × Text
long_mode p =
    let q = skip_ws (skip_byte b']' (skip_ws p)) in
    if peek q == b',' && to_upper (peek1 q) == b'Y' then (am_indy, next (next q)) else (am_ind, q)

unfoldable pub with_mode : ℕ → AddrMode × Text → M Operand
with_mode v (m, p) = do set_cursor p; pure (plain m v)

-- `(expr)`, `(expr,X)`, `(expr),Y` and the stack-relative forms; the cursor is behind `(`.
unfoldable pub indirect_operand : M Operand
unfolding bracket_value indirect_mode with_mode
indirect_operand = do
  p ← cursor
  set_cursor (skip_ws p)
  v ← bracket_value b')'
  q ← cursor
  with_mode v (indirect_mode q)

-- `[expr]` and `[expr],Y`; the cursor is behind `[`.
unfoldable pub long_operand : M Operand
unfolding bracket_value long_mode with_mode
long_operand = do
  p ← cursor
  set_cursor (skip_ws p)
  v ← bracket_value b']'
  q ← cursor
  with_mode v (long_mode q)

unfoldable pub immediate_operand : M Operand
immediate_operand = do v ← expression; pure (plain am_imm v)

-- Behind `B+expr`: the index, if any.
abbrev base_mode : Text → AddrMode × Text
base_mode p =
    let q = skip_ws p in
    let r = skip_ws (next q) in
    if peek q == b','
    then (if to_upper (peek r) == b'X'
        then (am_absx, next r)
        else if to_upper (peek r) == b'Y'
        then (am_absy, next r)
        else (am_abs, r))
    else (am_abs, q)

unfoldable pub base_operand : M Operand
unfolding with_mode
base_operand = do v ← expression; p ← cursor; with_mode v (base_mode p)

-- `Rn`, a window register as a direct page address, with an index or none.
abbrev register_mode : Text → AddrMode × Text
register_mode p =
    let q = skip_ws p in
    let r = skip_ws (next q) in
    if peek q == b','
    then (if to_upper (peek r) == b'X'
        then (am_dpx, next r)
        else if to_upper (peek r) == b'Y'
        then (am_dpy, next r)
        else (am_dp, q))
    else (am_dp, q)

-- A symbol and its index.
abbrev symbol_mode : Text → AddrMode × Text
symbol_mode p =
    let q = skip_ws p in
    let r = skip_ws (next q) in
    if peek q == b','
    then (if to_upper (peek r) == b'X'
        then (am_absx, next r)
        else if to_upper (peek r) == b'Y'
        then (am_absy, next r)
        else (am_label, q))
    else (am_label, q)

label_value : Option Label → ℕ
label_value (some l) = if l.defined then l.addr else 0
label_value none = 0

symbol_value : AddrMode → Text → Option Constant → Option Label → Operand
unfolding label_value
symbol_value m n (some c) l = record { mode = m; value = c.value; label = n; has_label = false }
symbol_value m n none l = record { mode = m; value = label_value l; label = n; has_label = true }

unfoldable pub symbol_operand : M Operand
unfolding symbol_value
symbol_operand s =
    let (name, rest) = span_name s.text in
    let n = take 63 name in
    let (m, p) = symbol_mode rest in
    pure (symbol_value m n (find_constant s n) (find_label s n)) (record s { text = p })

-- A number: direct page up to 255, absolute above; `,S` is taken for direct page.
abbrev numeric_mode : ℕ → Text → AddrMode × Text
numeric_mode v p =
    let q = skip_ws p in
    let r = skip_ws (next q) in
    let small = sle64 v 0xff in
    if peek q == b','
    then (if to_upper (peek r) == b'X'
        then (if small then am_dpx else am_absx, next r)
        else if to_upper (peek r) == b'Y'
        then (if small then am_dpy else am_absy, next r)
        else if to_upper (peek r) == b'S'
        then (am_dp, next r)
        else (if small then am_dp else am_abs, q))
    else (if small then am_dp else am_abs, q)

unfoldable pub numeric_operand : M Operand
unfolding with_mode
numeric_operand = do v ← expression; p ← cursor; with_mode v (numeric_mode v p)

-- `A` alone: nothing but spaces up to the end, a comment or a comma.
abbrev is_accumulator : Text → Bool
is_accumulator p =
    let c = peek (skip_ws (next p)) in
    to_upper (peek p) == b'A' && ends_word (peek1 p) && (c == 0 || c == b';' || c == b',')

unfoldable pub operand_at : Text → M Operand
unfolding indirect_operand long_operand immediate_operand base_operand symbol_operand
    numeric_operand with_mode
operand_at p =
    let (n, rest) = scan_decimal 32 0 (next p) in
    if peek p == 0 || peek p == b';'
    then (do set_cursor p; pure (plain am_imp 0))
    else if is_accumulator p
    then (do set_cursor (next p); pure (plain am_acc 0))
    else if peek p == b'#'
    then (do set_cursor (next p); immediate_operand)
    else if peek p == b'('
    then (do set_cursor (next p); indirect_operand)
    else if peek p == b'['
    then (do set_cursor (next p); long_operand)
    else if to_upper (peek p) == b'B' && peek1 p == b'+'
    then (do set_cursor (next (next p)); base_operand)
    else if starts_numbered b'R' p && (ltb n 64 || leb (2 ^ 31) n)
    then with_mode (window_address n) (register_mode rest)
    else if is_name_start (peek p)
    then (do set_cursor p; symbol_operand)
    else (do set_cursor p; numeric_operand)

unfoldable pub parse_operand : M Operand
unfolding operand_at
parse_operand = do p ← cursor; operand_at (skip_ws p)
