-- ===== src/Asm/Lexer.antt =====
-- Scanning a line: `skip_ws`, `at_end`, names, digits, `parse_register`, `expect_comma` and
-- `reject_flag_operand`.
use rsd_m.Base.{
  ℕ, ◌+◌, ◌-◌, ◌*◌, ◌%◌, ◌^◌, Bool, true, false, not, ◌&&◌, ◌||◌, List, [], ◌∷◌, Option, none, some,
  ltb, ◌==◌, if◌then◌else◌,
}
use rsd_m.Base.Lists.{length, drop}
use rsd_m.Base.Text.{
  Text, codes, peek, peek1, next, is_space, is_digit, is_xdigit, is_alpha, is_alnum, to_upper,
  to_lower, starts_case,
}
use rsd_m.Base.Word.{u64}
use rsd_m.Isa.{reg_zero, reg_a, reg_x, reg_y, reg_sp, reg_d, reg_b, reg_vbr, reg_t}
use rsd_m.Asm.State.{
  M, Action, pure, fail, cursor, set_cursor, ◌>>=◌, ◌>>◌, expected_register, register_range,
  fp_register_range, expected_comma, flag_operand,
}

abbrev pub skip_ws : Text → Text
skip_ws [] = []
skip_ws (c ∷ p) = if is_space c then skip_ws p else c ∷ p

abbrev pub at_end : Text → Bool
at_end p = peek (skip_ws p) == 0 || peek (skip_ws p) == b';'

-- `skip_ws(pp)`.
abbrev pub skip : Action
skip = do p ← cursor; set_cursor (skip_ws p)

-- The bytes of a symbol.
abbrev pub is_name_start : ℕ → Bool
is_name_start c = is_alpha c || c == b'_' || c == b'.'

abbrev pub is_name_byte : ℕ → Bool
is_name_byte c = is_alnum c || c == b'_' || c == b'.'

abbrev pub span_name : Text → Text × Text
span_name [] = ([], [])
span_name (c ∷ p) =
    let (n, rest) = span_name p in if is_name_byte c then (c ∷ n, rest) else ([], c ∷ p)

-- `while (isdigit(*p)) { v = v*10 + (*p-'0'); p++; }` on a `w`-bit `v`.
abbrev pub scan_decimal : ℕ → ℕ → Text → ℕ × Text
scan_decimal w v [] = (v, [])
scan_decimal w v (c ∷ p) =
    let more = scan_decimal w ((v * 10 + (c - b'0')) % 2 ^ w) p in
    if is_digit c then more else (v, c ∷ p)

abbrev pub hex_digit : ℕ → ℕ
hex_digit c = if is_digit c then c - b'0' else to_lower c - b'a' + 10

abbrev pub scan_hex : ℕ → Text → ℕ × Text
scan_hex v [] = (v, [])
scan_hex v (c ∷ p) =
    let more = scan_hex (u64 (v * 16 + hex_digit c)) p in if is_xdigit c then more else (v, c ∷ p)

abbrev pub scan_binary : ℕ → Text → ℕ × Text
scan_binary v [] = (v, [])
scan_binary v (c ∷ p) =
    let more = scan_binary (u64 (v * 2 + (c - b'0'))) p in
    if c == b'0' || c == b'1' then more else (v, c ∷ p)

-- A letter, then a digit: `R0`, `F7`.
abbrev pub starts_numbered : ℕ → Text → Bool
starts_numbered letter p = to_upper (peek p) == letter && is_digit (peek1 p)

-- `n > limit` on a signed `int`.
abbrev above : ℕ → ℕ → Bool
above limit n = ltb n (2 ^ 31) && ltb limit n

abbrev pub reg_aliases : List (Text × ℕ)
reg_aliases =
    (codes "ZERO", reg_zero)
    ∷ (codes "A", reg_a)
    ∷ (codes "X", reg_x)
    ∷ (codes "Y", reg_y)
    ∷ (codes "SP", reg_sp)
    ∷ (codes "D", reg_d)
    ∷ (codes "B", reg_b)
    ∷ (codes "VBR", reg_vbr)
    ∷ (codes "T", reg_t)
    ∷ []

-- A word of its own: no letter, digit or `_` follows.
abbrev pub ends_word : ℕ → Bool
ends_word c = not (is_alnum c) && not (c == b'_')

abbrev pub match_alias : List (Text × ℕ) → Text → Option (ℕ × Text)
match_alias [] p = none
match_alias ((n, r) ∷ rest) p =
    let after = drop (length n) p in
    if starts_case p n && ends_word (peek after) then some (r, after) else match_alias rest p

-- A number in range moves the cursor behind it.
unfoldable pub register_in_range : Bool → ℕ → Text → M ℕ
register_in_range is_fp n p =
    if is_fp
    then (if above 15 n then fail fp_register_range else (do set_cursor p; pure n))
    else if above 63 n
    then fail register_range
    else (do set_cursor p; pure n)

unfoldable pub register_alias : Option (ℕ × Text) → M ℕ
register_alias none = fail expected_register
register_alias (some (r, p)) = do set_cursor p; pure r

unfoldable pub register_at : Text → M ℕ
unfolding register_in_range register_alias
register_at p =
    if starts_numbered b'R' p
    then (let (n, rest) = scan_decimal 32 0 (next p) in register_in_range false n rest)
    else if starts_numbered b'F' p
    then (let (n, rest) = scan_decimal 32 0 (next p) in register_in_range true n rest)
    else register_alias (match_alias reg_aliases p)

unfoldable pub parse_register : M ℕ
unfolding register_at
parse_register = do p ← cursor; register_at (skip_ws p)

unfoldable pub expect_comma : Action
expect_comma = do
  p ← cursor
  let q = skip_ws p
  if peek q == b',' then set_cursor (next q) else fail expected_comma

unfoldable pub reject_flag_operand : Action
reject_flag_operand = do
  p ← cursor
  let q = skip_ws p
  let t = skip_ws (next q)
  if peek q == b',' && to_upper (peek t) == b'F' && ends_word (peek1 t)
      then fail flag_operand
      else set_cursor q
