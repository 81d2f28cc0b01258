-- ===== src/Dis/HexIn.antt =====
-- `read_hex` and `read32_at`: the RSD hex format back to bytes.
use rsd_m.Base.{
  ℕ, zero, suc, ◌+◌, ◌-◌, ◌*◌, Bool, true, false, ◌&&◌, ◌||◌, not, List, [], ◌∷◌, Option, none,
  some, bit_and, bit_or, ltb, leb, ◌==◌, if◌then◌else◌,
}
use rsd_m.Base.Lists.{length}
use rsd_m.Base.Text.{Text, peek, peek1, next, is_digit, is_space, is_xdigit, to_lower}
use rsd_m.Base.Word.{u32, add32, minus32, shl, shr}

abbrev pub max_code : ℕ
max_code = 512 * 1024

pub record Image : Type 0 where
  pub code : ℕ → ℕ
  pub max_phy : ℕ

abbrev pub digit_value : ℕ → ℕ
digit_value c = if is_digit c then c - b'0' else to_lower c - b'a' + 10

-- The digits of `%08X`, at most `width` characters.
unfoldable pub scan_digits : ℕ → ℕ → Text → ℕ × Text
scan_digits zero v p = (v, p)
scan_digits (suc w) v [] = (v, [])
scan_digits (suc w) v (c ∷ p) = elim (is_xdigit c) [
  | true ↦ scan_digits w (u32 (v * 16 + digit_value c)) p
  | false ↦ (v, c ∷ p)
]

abbrev pub scan_space : Text → Text
scan_space [] = []
scan_space (c ∷ p) = if is_space c then scan_space p else c ∷ p

-- Behind sign and prefix: at least one digit.
unfoldable pub digits_or_fail : Bool → ℕ → Text → Option (ℕ × Text)
unfolding scan_digits
digits_or_fail negative width p =
    let (v, rest) = scan_digits width 0 p in
    if is_xdigit (peek p) && not (width == 0)
    then some (if negative then minus32 v else v, rest)
    else none

unfoldable pub unsigned_field : Bool → ℕ → Text → Option (ℕ × Text)
unfolding digits_or_fail
unsigned_field negative width p =
    if peek p == b'0' && (peek1 p == b'x' || peek1 p == b'X')
    then digits_or_fail negative (width - 2) (next (next p))
    else digits_or_fail negative width p

-- One `%08X` of `sscanf`: white space, a sign, `0x`, and digits, eight characters at most.
unfoldable pub scan_field : Text → Option (ℕ × Text)
unfolding unsigned_field
scan_field text =
    let p = scan_space text in
    if peek p == b'-'
    then unsigned_field true 7 (next p)
    else if peek p == b'+'
    then unsigned_field false 7 (next p)
    else unsigned_field false 8 p

infixl 5 ◌>>=◌
abbrev ◌>>=◌ {ℓ κ} : {A : Type ℓ} {B : Type κ} → Option A → (A → Option B) → Option B
none >>= f = none
some a >>= f = f a

-- The four words of a line, that of the lowest address first.
pub record Words : Type 0 where
  pub w0 : ℕ
  pub w1 : ℕ
  pub w2 : ℕ
  pub w3 : ℕ

unfoldable pub scan_line : Text → Option Words
unfolding scan_field
scan_line line = do
  (a, p) ← scan_field line
  (b, q) ← scan_field p
  (c, r) ← scan_field q
  (d, rest) ← scan_field r
  some (record { w0 = d; w1 = c; w2 = b; w3 = a })

abbrev pub put8 : (ℕ → ℕ) → ℕ → ℕ → ℕ → ℕ
put8 code p b q = if p == q then b else code q

unfoldable pub put32 : (ℕ → ℕ) → ℕ → ℕ → ℕ → ℕ
put32 code p w =
    let c0 = put8 code p (bit_and (shr w 0) 0xff) in
    let c1 = put8 c0 (p + 1) (bit_and (shr w 8) 0xff) in
    let c2 = put8 c1 (p + 2) (bit_and (shr w 16) 0xff) in put8 c2 (p + 3) (bit_and (shr w 24) 0xff)

-- A word at a place that fits; the last word that is not filler marks the end.
unfoldable pub put_word : Image → ℕ → ℕ → Image
unfolding put32
put_word m a w =
    if ltb (add32 a 3) max_code && ltb a max_code
    then record {
      code = put32 m.code a w;
      max_phy = if not (w == 0xcdcd_cdcd) && ltb m.max_phy (a + 4) then a + 4 else m.max_phy;
    }
    else m

unfoldable pub put_words : Image → ℕ → Option Words → Image
unfolding put_word
put_words m addr none = m
put_words m addr (some ws) =
    put_word (put_word (put_word (put_word m addr ws.w0) (add32 addr 4) ws.w1) (add32 addr 8) ws.w2)
      (add32 addr 12) ws.w3

abbrev pub is_newline : ℕ → Bool
is_newline c = c == b'\n' || c == b'\r'

abbrev pub trim_cons : ℕ → Text → Text
trim_cons c [] = if is_newline c then [] else c ∷ []
trim_cons c (d ∷ p) = c ∷ d ∷ p

-- Newlines and carriage returns off the end.
abbrev pub trim : Text → Text
trim [] = []
trim (c ∷ p) = trim_cons c (trim p)

-- One round of the loop: a line that is short or unreadable is passed over.
unfoldable pub read_line : Image → ℕ → Text → Image
unfolding put_words scan_line
read_line m addr line =
    let text = trim line in if ltb (length text) 32 then m else put_words m addr (scan_line text)

unfoldable pub read_lines : Image → ℕ → List Text → Image
unfolding read_line
read_lines m addr [] = m
read_lines m addr (line ∷ lines) = read_lines (read_line m addr line) (add32 addr 16) lines

abbrev pub blank : Image
blank = record { code = λ a. 0xcd; max_phy = 0 }

-- The lines as `fgets` gives them, cut at a byte 0.
unfoldable pub read_hex : List Text → Image
unfolding read_lines
read_hex lines = read_lines blank 0 lines

unfoldable pub read32_at : Image → ℕ → ℕ
read32_at m phy =
    if leb max_code (add32 phy 3)
    then 0xcdcd_cdcd
    else bit_or
        (bit_or (bit_or (m.code phy) (shl (m.code (phy + 1)) 8)) (shl (m.code (phy + 2)) 16))
        (shl (m.code (phy + 3)) 24)
