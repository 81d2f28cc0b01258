-- ===== src/RoundTrip/HexLines.antt =====
-- One line of the hex file: `read_hex` reads the four words that `write_hex` printed.
use rsd_m.Base.{
  ℕ, zero, suc, ◌+◌, ◌/◌, ◌%◌, ◌^◌, ◌≤◌, ◌<◌, ◌≡◌, refl, ap, ◌∙◌, false, Option, some, [], ◌∷◌,
  ◌++◌, arith, ltb,
}
use rsd_m.Base.Lists.{length, length-append}
use rsd_m.Base.Text.{Text}
use rsd_m.Asm.Code.{read32}
use rsd_m.Asm.Program.{hex_char, hex_digits, hex_line}
use rsd_m.Dis.HexIn.{Image, Words, scan_line, trim, trim_cons, is_newline, put_words, read_line}
use rsd_m.RoundTrip.Hex.{scan_field-hex_digits}

not_newline : (d : ℕ) → d < 16 → is_newline (hex_char d) ≡ false
not_newline d h = ground arith

trim_cons-plain : (c : ℕ) (p : Text) → is_newline c ≡ false → trim_cons c p ≡ c ∷ p
trim_cons-plain c [] h = rw h
trim_cons-plain c (d ∷ p) h = refl

trim-hex_digits : (n w : ℕ) (p : Text) → trim (hex_digits n w ++ p) ≡ hex_digits n w ++ trim p
unfolding hex_digits
trim-hex_digits zero w p = refl
trim-hex_digits (suc n) w p =
    let d = w / 16 ^ n % 16 in
    trim_cons-plain (hex_char d) (trim (hex_digits n w ++ p)) (not_newline d (omega arith))
    ∙ ap (λ t. hex_char d ∷ t) (trim-hex_digits n w p)

length-hex_digits : (n w : ℕ) → length (hex_digits n w) ≡ n
unfolding hex_digits
length-hex_digits zero w = refl
length-hex_digits (suc n) w = ap suc (length-hex_digits n w)

-- Four words, one after the other.
four : ℕ → ℕ → ℕ → ℕ → Text → Text
four a b c d rest =
    hex_digits 8 a ++ (hex_digits 8 b ++ (hex_digits 8 c ++ (hex_digits 8 d ++ rest)))

trim-four : (a b c d : ℕ) (p : Text) → trim (four a b c d p) ≡ four a b c d (trim p)
unfolding four
trim-four a b c d p = rw (
  trim-hex_digits 8 a (hex_digits 8 b ++ (hex_digits 8 c ++ (hex_digits 8 d ++ p))),
  trim-hex_digits 8 b (hex_digits 8 c ++ (hex_digits 8 d ++ p)),
  trim-hex_digits 8 c (hex_digits 8 d ++ p),
  trim-hex_digits 8 d p,
)

length-four : (a b c d : ℕ) (p : Text) → length (four a b c d p) ≡ 32 + length p
unfolding four
length-four a b c d p = omega (
  arith,
  length-append (hex_digits 8 a) (hex_digits 8 b ++ (hex_digits 8 c ++ (hex_digits 8 d ++ p))),
  length-append (hex_digits 8 b) (hex_digits 8 c ++ (hex_digits 8 d ++ p)),
  length-append (hex_digits 8 c) (hex_digits 8 d ++ p),
  length-append (hex_digits 8 d) p,
  length-hex_digits 8 a,
  length-hex_digits 8 b,
  length-hex_digits 8 c,
  length-hex_digits 8 d,
)

scan_line-four :
    (a b c d : ℕ) (p : Text)
    → a < 2 ^ 32
    → b < 2 ^ 32
    → c < 2 ^ 32
    → d < 2 ^ 32
    → scan_line (four a b c d p) ≡ some (record { w0 = d; w1 = c; w2 = b; w3 = a })
unfolding four scan_line
scan_line-four a b c d p ha hb hc hd = rw (
  scan_field-hex_digits a (hex_digits 8 b ++ (hex_digits 8 c ++ (hex_digits 8 d ++ p))) ha,
  scan_field-hex_digits b (hex_digits 8 c ++ (hex_digits 8 d ++ p)) hb,
  scan_field-hex_digits c (hex_digits 8 d ++ p) hc,
  scan_field-hex_digits d p hd,
)

-- The words of a line of the file.
abbrev pub line_words : (ℕ → ℕ) → ℕ → Words
line_words code a = record {
  w0 = read32 code a;
  w1 = read32 code (a + 4);
  w2 = read32 code (a + 8);
  w3 = read32 code (a + 12);
}

read_line-text :
    (m : Image) (a : ℕ) (line text : Text) (r : Option Words)
    → trim line ≡ text
    → 32 ≤ length text
    → scan_line text ≡ r
    → read_line m a line ≡ put_words m a r
unfolding read_line
read_line-text m a line text r ht hl hr =
    let enough : ltb (length text) 32 ≡ false = ground arith in rw (ht, enough, hr)

hex_line-four :
    (code : ℕ → ℕ) (a : ℕ)
    → hex_line code a
      ≡ four
          (read32 code (a + 12))
          (read32 code (a + 8))
          (read32 code (a + 4))
          (read32 code a)
          (b'\n' ∷ [])
unfolding hex_line four
hex_line-four code a = refl

-- A printed line puts its four words at its address.
pub read_line-hex_line :
    (m : Image) (a : ℕ) (code : ℕ → ℕ)
    → ((q : ℕ) → read32 code q < 2 ^ 32)
    → read_line m a (hex_line code a) ≡ put_words m a (some (line_words code a))
read_line-hex_line m a code h =
    let w3 = read32 code (a + 12) in
    let w2 = read32 code (a + 8) in
    let w1 = read32 code (a + 4) in
    let w0 = read32 code a in
    rw (hex_line-four code a) (
      read_line-text m a (four w3 w2 w1 w0 (b'\n' ∷ [])) (four w3 w2 w1 w0 [])
        (some (line_words code a)) (trim-four w3 w2 w1 w0 (b'\n' ∷ []))
        (omega (arith, length-four w3 w2 w1 w0 []))
        (scan_line-four w3 w2 w1 w0 [] (h (a + 12)) (h (a + 8)) (h (a + 4)) (h a)))
