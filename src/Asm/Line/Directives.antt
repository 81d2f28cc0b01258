-- ===== src/Asm/Line/Directives.antt =====
-- The directives of `assemble_line`: origin, data, space, alignment, and those that do nothing.
use rsd_m.Base.{
  ℕ, zero, suc, ◌+◌, ◌%◌, true, false, not, ◌&&◌, ◌||◌, List, [], ◌∷◌, Option, bit_and, ◌==◌,
  if◌then◌else◌,
}
use rsd_m.Base.Lists.{length}
use rsd_m.Base.Text.{Text, peek, next}
use rsd_m.Base.Word.{u8, u32, shr, is_neg64}
use rsd_m.Asm.State.{Action, ok, err, done, cursor, set_cursor, modify, ◌>>=◌, ◌>>◌, out_of_fuel}
use rsd_m.Asm.Code.{emit8, emit32}
use rsd_m.Asm.Lexer.{skip_ws, skip}
use rsd_m.Asm.Expr.{expression}
use rsd_m.Asm.Line.Base.{when_any, ◌or_else◌}

-- `.ORG expr` and `*= expr`.
unfoldable pub set_origin : Action
set_origin = do v ← expression; modify (λ s. record s { cur_pc = u32 v })

-- `emit8` takes a `uint8_t`.
unfoldable pub emit_bytes : List ℕ → Action
emit_bytes [] s = done s
emit_bytes (b ∷ bs) s = elim (emit8 (u8 b) s) [ err e ↦ err e | ok (u, s') ↦ emit_bytes bs s' ]

abbrev unescape : ℕ → ℕ
unescape c =
    if c == b'n'
    then 10
    else if c == b'r'
    then 13
    else if c == b't'
    then 9
    else if c == b'0'
    then 0
    else c

-- The bytes of a string, behind its opening quote, and the text from its closing quote on.
unfoldable pub string_bytes : Text → List ℕ × Text
string_bytes [] = ([], [])
string_bytes (c ∷ []) = if c == 0 || c == b'"' then ([], c ∷ []) else (c ∷ [], [])
string_bytes (c ∷ d ∷ p) = elim (c == b'\\' && not (d == 0)) [
  | true ↦ let (bs, rest) = string_bytes p in (unescape d ∷ bs, rest)
  | false ↦ elim (c == 0 || c == b'"') [
    | true ↦ ([], c ∷ d ∷ p)
    | false ↦ let (bs, rest) = string_bytes (d ∷ p) in (c ∷ bs, rest)
  ]
]

unfoldable pub string_item : List ℕ × Text → Action
unfolding emit_bytes
string_item (bs, rest) = do
  emit_bytes bs
  set_cursor (if peek rest == b'"' then next rest else rest)

-- One item of `.BYTE`: a string, or an expression.
unfoldable pub byte_item : Action
unfolding string_bytes string_item
byte_item = do
  p ← cursor
  let q = skip_ws p
  if peek q == b'"' then string_item (string_bytes (next q)) else (do v ← expression; emit8 (u8 v))

unfoldable pub word_item : Action
word_item = do v ← expression; emit8 (bit_and (u32 v) 0xff); emit8 (bit_and (shr (u32 v) 8) 0xff)

unfoldable pub long_item : Action
long_item = do
  v ← expression
  emit8 (bit_and (u32 v) 0xff)
  emit8 (bit_and (shr (u32 v) 8) 0xff)
  emit8 (bit_and (shr (u32 v) 16) 0xff)

unfoldable pub dword_item : Action
dword_item = do v ← expression; emit32 (u32 v)

-- `do { item } while (*p==',' && p++)`. Each round eats a comma, so the text's length is fuel.
unfoldable pub items : ℕ → Action → Action
items zero item s = err out_of_fuel
items (suc f) item s = elim ((do item; skip) s) [
  | err e ↦ err e
  | ok (u, s') ↦ elim (peek s'.text == b',') [
    | true ↦ items f item (record s' { text = next s'.text })
    | false ↦ done s'
  ]
]

unfoldable pub item_list : Action → Action
unfolding items
item_list item s = items (length s.text + 1) item s

-- `for (i = 0; i < n; i++) emit8(0)`.
unfoldable pub emit_zeros : ℕ → Action
emit_zeros zero s = done s
emit_zeros (suc n) s = elim (emit8 0 s) [ err e ↦ err e | ok (u, s') ↦ emit_zeros n s' ]

unfoldable pub reserve : Action
unfolding emit_zeros
reserve = do n ← expression; emit_zeros (if is_neg64 n then 0 else n)

-- `while (cur_pc % a) emit8(0)`, on fuel.
unfoldable pub align_to : ℕ → ℕ → Action
align_to zero a s = err out_of_fuel
align_to (suc f) a s = elim (s.cur_pc % a == 0) [
  | true ↦ done s
  | false ↦ elim (emit8 0 s) [ err e ↦ err e | ok (u, s') ↦ align_to f a s' ]
]

-- The padding is below `a`, so `a` rounds are enough.
unfoldable pub align : Action
unfolding align_to
align = do a ← expression; if is_neg64 a || a == 0 then done else align_to a a

-- The directives in the order of the source. The last three groups do nothing.
unfoldable pub directive : Text → Option Action
unfolding set_origin byte_item word_item long_item dword_item item_list reserve align
directive mnem =
    when_any (".ORG" ∷ "ORG" ∷ []) set_origin mnem
    or_else when_any (".BYTE" ∷ ".DB" ∷ "DB" ∷ ".DCB" ∷ []) (item_list byte_item) mnem
    or_else when_any (".WORD" ∷ ".DW" ∷ "DW" ∷ ".DCW" ∷ []) (item_list word_item) mnem
    or_else when_any (".LONG" ∷ ".DL" ∷ ".DCL" ∷ []) (item_list long_item) mnem
    or_else when_any (".DWORD" ∷ ".DD" ∷ ".DCD" ∷ []) (item_list dword_item) mnem
    or_else when_any (".DS" ∷ ".RES" ∷ ".SPACE" ∷ "DS" ∷ []) reserve mnem
    or_else when_any (".ALIGN" ∷ "ALIGN" ∷ []) align mnem
    or_else when_any (".EQU" ∷ "EQU" ∷ []) done mnem
    or_else when_any (".END" ∷ "END" ∷ []) done mnem
    or_else when_any
        (".TEXT" ∷ ".CODE" ∷ ".DATA" ∷ ".BSS" ∷ ".RODATA" ∷ ".SECTION" ∷ "SECTION" ∷ []) done mnem
    or_else when_any
        (".M8" ∷ ".M16" ∷ ".M32" ∷ ".A8" ∷ ".A16" ∷ ".A32" ∷ ".X8" ∷ ".X16" ∷ ".X32" ∷ ".I8"
          ∷ ".I16" ∷ ".I32" ∷ [])
        done mnem
