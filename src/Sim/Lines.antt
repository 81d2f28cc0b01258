-- ===== src/Sim/Lines.antt =====
-- The lines of a hex file, as `loadHexFile` takes them apart.
use mathlib.Core.List.{append-nil, append_assoc}
use rsd_m.RoundTrip.HexFile.{IsBytes, read32-bound}
use rsd_m.Board.Loaded.{file_text, plain_char}
use rsd_m.Sim.Load.{word_text, split_lines}
use rsd_m.RoundTrip.Hex.{digit-not_space, digit-plain, and-false}
use rsd_m.Board.Filled.{hex_number-hex_digits}
use rsd_m.Asm.Code.{read32}
use rsd_m.Board.{strtoul16, hex_number, saturate}
use rsd_m.Base.Text.{Text}
use rsd_m.Asm.Program.{hex_char, hex_digits, hex_line, hex_lines}
use rsd_m.Base.{
  ℕ, zero, suc, ◌+◌, ◌*◌, ◌/◌, ◌%◌, ◌^◌, ◌<◌, ◌==◌, ◌≡◌, refl, List, [], ◌∷◌, ◌++◌, some, arith,
  ◌∙◌, inl, inr, sym, ap,
}

-- A line without its newline.
abbrev pub line_text : (ℕ → ℕ) → ℕ → Text
line_text code a =
    hex_digits 8 (read32 code (a + 12))
    ++ (hex_digits 8 (read32 code (a + 8))
        ++ (hex_digits 8 (read32 code (a + 4)) ++ hex_digits 8 (read32 code a)))

-- A number that starts with two plain digits has no sign and no prefix.
plain_number :
    (d e : ℕ) (p : Text)
    → d < 16
    → e < 16
    → strtoul16 (hex_char d ∷ hex_char e ∷ p)
      ≡ saturate (hex_number 0 (hex_char d ∷ hex_char e ∷ p))
unfolding strtoul16
plain_number d e p hd he = rw (
  digit-not_space d hd,
  digit-plain d hd b'-' (inr (inr (inl refl))),
  digit-plain d hd b'+' (inr (inr (inr refl))),
  digit-plain e he b'x' (inl refl),
  digit-plain e he b'X' (inr (inl refl)),
  and-false (hex_char d == b'0'),
)

saturate-small : (w : ℕ) → w < 2 ^ 32 → saturate w ≡ w
saturate-small w h = ground arith

-- Eight digits with nothing behind them.
strtoul16-hex_digits : (w : ℕ) → w < 2 ^ 32 → strtoul16 (hex_digits 8 w) ≡ w
unfolding hex_digits
strtoul16-hex_digits w h =
    let d = w / 16 ^ 7 % 16 in
    let e = w / 16 ^ 6 % 16 in
    let hd : d < 16 = omega arith in
    let he : e < 16 = omega arith in
    let whole : 0 * 16 ^ 8 + w % 16 ^ 8 ≡ w = omega arith in
    plain_number d e (hex_digits 6 w) hd he
    ∙ ap saturate (hex_number-hex_digits 8 0 w [] refl ∙ whole)
    ∙ saturate-small w h

-- The words of a line, as the loop cuts them out.
pub word_texts :
    (code : ℕ → ℕ) (a : ℕ)
    → IsBytes code
    → (word_text (line_text code a) 24 ≡ some (read32 code a))
      × (word_text (line_text code a) 16 ≡ some (read32 code (a + 4)))
      × (word_text (line_text code a) 8 ≡ some (read32 code (a + 8)))
      × (word_text (line_text code a) 0 ≡ some (read32 code (a + 12)))
unfolding word_text hex_digits
word_texts code a h = (
  ap some (strtoul16-hex_digits (read32 code a) (read32-bound code h a)),
  ap some (strtoul16-hex_digits (read32 code (a + 4)) (read32-bound code h (a + 4))),
  ap some (strtoul16-hex_digits (read32 code (a + 8)) (read32-bound code h (a + 8))),
  ap some (strtoul16-hex_digits (read32 code (a + 12)) (read32-bound code h (a + 12))),
)

abbrev pub line_texts : ℕ → (ℕ → ℕ) → ℕ → List Text
line_texts zero code a = []
line_texts (suc n) code a = line_text code a ∷ line_texts n code (a + 16)

split-plain :
    (n w : ℕ) (got p : Text)
    → split_lines got (hex_digits n w ++ p) ≡ split_lines (got ++ hex_digits n w) p
unfolding split_lines hex_digits
split-plain zero w got p = ap (λ t. split_lines t p) (sym (append-nil got))
split-plain (suc n) w got p =
    let d = w / 16 ^ n % 16 in
    rw (split_lines, plain_char d (omega arith), split-plain n w (got ++ (hex_char d ∷ [])) p)
      (ap (λ t. split_lines t p) (append_assoc got (hex_char d ∷ []) (hex_digits n w)))

split-newline : (got p : Text) → split_lines got (b'\n' ∷ p) ≡ got ∷ split_lines [] p
unfolding split_lines
split-newline got p = refl

split-hex_line :
    (code : ℕ → ℕ) (a : ℕ) (p : Text)
    → split_lines [] (hex_line code a ++ p) ≡ line_text code a ∷ split_lines [] p
unfolding hex_line
split-hex_line code a p =
    let w3 = read32 code (a + 12) in
    let w2 = read32 code (a + 8) in
    let w1 = read32 code (a + 4) in
    let w0 = read32 code a in
    let d3 = hex_digits 8 w3 in
    let d2 = hex_digits 8 w2 in
    let d1 = hex_digits 8 w1 in
    let d0 = hex_digits 8 w0 in
    split-plain 8 w3 [] (d2 ++ (d1 ++ (d0 ++ (b'\n' ∷ p))))
    ∙ split-plain 8 w2 d3 (d1 ++ (d0 ++ (b'\n' ∷ p)))
    ∙ split-plain 8 w1 (d3 ++ d2) (d0 ++ (b'\n' ∷ p))
    ∙ split-plain 8 w0 ((d3 ++ d2) ++ d1) (b'\n' ∷ p)
    ∙ split-newline (((d3 ++ d2) ++ d1) ++ d0) p

pub split-hex_lines :
    (n : ℕ) (code : ℕ → ℕ) (a : ℕ)
    → split_lines [] (file_text (hex_lines n code a)) ≡ line_texts n code a
unfolding hex_lines split_lines
split-hex_lines zero code a = refl
split-hex_lines (suc n) code a =
    split-hex_line code a (file_text (hex_lines n code (a + 16)))
    ∙ ap (λ ls. line_text code a ∷ ls) (split-hex_lines n code (a + 16))
