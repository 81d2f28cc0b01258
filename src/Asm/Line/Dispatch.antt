-- ===== src/Asm/Line/Dispatch.antt =====
-- The frame of `assemble_line` around its handlers.
use rsd_m.Base.{ℕ, ◌&&◌, [], ◌∷◌, Option, none, some, map, ◌==◌, if◌then◌else◌}
use rsd_m.Base.Lists.{take, drop}
use rsd_m.Base.Text.{Text, codes, peek, peek1, next, to_upper, starts_case}
use rsd_m.Asm.State.{Action, done, fail, set_cursor, ◌>>=◌, ◌>>◌, unknown_instruction}
use rsd_m.Asm.Symbols.{define_label, define_constant}
use rsd_m.Asm.Lexer.{skip_ws, is_name_start, span_name}
use rsd_m.Asm.Expr.{expression}
use rsd_m.Asm.Line.Base.{when_any, emit_nop, ◌or_else◌}
use rsd_m.Asm.Line.Directives.{set_origin, directive}
use rsd_m.Asm.Line.Alu.{comma_count, alu_tbl, alu_entries}
use rsd_m.Asm.Line.Native.{native}
use rsd_m.Asm.Line.Jumps.{branches, jumps, long_jumps}
use rsd_m.Asm.Line.Traditional.{traditional}
use rsd_m.Asm.Line.Simple.{simple}
use rsd_m.Asm.Line.System.{system}
use rsd_m.Asm.Line.Extended.{extended}

-- A C string: the bytes before the first 0.
abbrev pub c_string : Text → Text
c_string [] = []
c_string (c ∷ p) = let rest = c_string p in if c == 0 then [] else c ∷ rest

-- `*semi = '\0'` at the first `;`; what stands behind it stays in the buffer.
abbrev pub cut_comment : Text → Text
cut_comment [] = []
cut_comment (c ∷ p) = let rest = cut_comment p in if c == b';' then 0 ∷ p else c ∷ rest

abbrev pub line_buffer : Text → Text
line_buffer orig = cut_comment (take 1023 (c_string orig))

-- The handlers in the order of the source.
unfoldable pub handler : Text → ℕ → Option Action
unfolding alu_entries
handler mnem commas =
    directive mnem
    or_else when_any ("NOP" ∷ []) emit_nop mnem
    or_else alu_entries alu_tbl mnem commas
    or_else native mnem commas
    or_else branches mnem
    or_else jumps mnem
    or_else traditional mnem
    or_else simple mnem
    or_else system mnem
    or_else long_jumps mnem
    or_else extended mnem

unfoldable pub run_handler : Option Action → Action
run_handler (some act) = act
run_handler none = fail unknown_instruction

-- From the mnemonic on.
unfoldable pub instruction : Text → Action
unfolding run_handler handler
instruction p =
    let (word, rest) = span_name p in
    let mnem = take 31 (map to_upper word) in
    (do set_cursor rest; run_handler (handler mnem (comma_count rest)))

-- Behind the label: `*=`, the end of the line, or an instruction.
unfoldable pub statement : Text → Action
unfolding instruction set_origin
statement line =
    let p = skip_ws line in
    if peek p == b'*' && peek1 p == b'='
    then (do set_cursor (next (next p)); set_origin)
    else if peek p == 0
    then done
    else instruction p

-- The text behind `=`, `EQU` or `.EQU`. Only the first letters of the word are looked at.
abbrev pub behind_equ : Text → Option Text
behind_equ t =
    if peek t == b'='
    then some (next t)
    else if starts_case t (codes "EQU")
    then some (drop 3 t)
    else if starts_case t (codes ".EQU")
    then some (drop 4 t)
    else none

unfoldable pub equ_or_statement : Text → Text → Option Text → Action
unfolding statement define_constant
equ_or_statement name p (some t) = do set_cursor t; v ← expression; define_constant name v
equ_or_statement name p none = statement p

-- A line that begins with a symbol: a label, a constant, or an instruction.
unfoldable pub named_line : Text → Action
unfolding equ_or_statement statement define_label
named_line p =
    let (word, rest) = span_name p in
    if peek rest == b':'
    then (do define_label (take 63 word); statement (next rest))
    else equ_or_statement (take 63 word) p (behind_equ (skip_ws rest))

unfoldable pub assemble_line : Text → Action
unfolding named_line statement
assemble_line orig =
    let p = skip_ws (line_buffer orig) in
    if peek p == 0 then done else if is_name_start (peek p) then named_line p else statement p
