-- ===== src/Board/Loaded.antt =====
-- The text of a hex file, and what the loader's reading loop does with its first line.
use rsd_m.Base.Lists.{length}
use rsd_m.Asm.Code.{read32}
use rsd_m.Base.Text.{Text}
use rsd_m.Asm.Program.{hex_line, hex_digits, hex_lines}
use rsd_m.Board.Loader.{read_chunk, load_lines, overrun, line_size}
use rsd_m.Dis.Print.{hex_char}
use rsd_m.Base.{
  ℕ, zero, suc, ◌+◌, ◌/◌, ◌%◌, ◌^◌, ◌<◌, ◌==◌, ◌≡◌, refl, true, false, List, [], ◌∷◌, ◌++◌, arith,
  ◌≤◌, leb, le→leb,
}

-- The text of a file of these lines.
abbrev pub file_text : List Text → Text
file_text [] = []
file_text (l ∷ ls) = l ++ file_text ls

pub plain_char : (d : ℕ) → d < 16 → (hex_char d == b'\n') ≡ false
plain_char d h = ground arith

read_chunk-digits :
    (n room w : ℕ) (p got rest : Text)
    → read_chunk room p ≡ (got, rest)
    → read_chunk (n + room) (hex_digits n w ++ p) ≡ (hex_digits n w ++ got, rest)
unfolding read_chunk hex_digits
read_chunk-digits zero room w p got rest h = let e : 0 + room ≡ room = omega arith in rw e h
read_chunk-digits (suc n) room w p got rest h =
    let e : suc n + room ≡ suc (n + room) = omega arith in
    let d = w / 16 ^ n % 16 in
    rw (e, read_chunk, plain_char d (omega arith), read_chunk-digits n room w p got rest h)

read_chunk-end : (p : Text) → read_chunk 2 (b'\n' ∷ p) ≡ (b'\n' ∷ [], p)
unfolding read_chunk
read_chunk-end p = refl

read_chunk-hex_line :
    (code : ℕ → ℕ) (a : ℕ) (p : Text) → read_chunk 34 (hex_line code a ++ p) ≡ (hex_line code a, p)
unfolding hex_line
read_chunk-hex_line code a p =
    let w3 = read32 code (a + 12) in
    let w2 = read32 code (a + 8) in
    let w1 = read32 code (a + 4) in
    let w0 = read32 code a in
    let e : (hex_line code a ++ p)
        ≡ hex_digits 8 w3
          ++ (hex_digits 8 w2 ++ (hex_digits 8 w1 ++ (hex_digits 8 w0 ++ (b'\n' ∷ p)))) =
      refl in
    rw e (
      read_chunk-digits 8 26 w3 _ _ p (
        read_chunk-digits 8 18 w2 _ _ p
          (read_chunk-digits 8 10 w1 _ _ p (read_chunk-digits 8 2 w0 _ _ p (read_chunk-end p)))))

length-hex_line : (code : ℕ → ℕ) (a : ℕ) → length (hex_line code a) ≡ 33
unfolding hex_line
length-hex_line code a = refl

-- A line that is read with 32 characters or more ends the reading loop behind the array.
round_overruns :
    (n i : ℕ) (got rest : Text) (line prog : ℕ → ℕ)
    → 32 ≤ length got
    → read_chunk 34 (got ++ rest) ≡ (got, rest)
    → load_lines (suc n) i (got ++ rest) line prog ≡ overrun
unfolding load_lines
round_overruns n i [] rest line prog h e = absurd (omega (arith, h))
round_overruns n i (c ∷ p) rest line prog h e =
    let long : leb line_size (length (c ∷ p)) ≡ true = le→leb 32 (length (c ∷ p)) h in rw (e, long)

-- The first line of a hex file is such a line.
pub load_lines-overrun :
    (n i a : ℕ) (code line prog : ℕ → ℕ)
    → load_lines (suc n) i (file_text (hex_lines (suc n) code a)) line prog ≡ overrun
unfolding hex_lines
load_lines-overrun n i a code line prog =
    let rest = file_text (hex_lines n code (a + 16)) in
    round_overruns n i (hex_line code a) rest line prog (omega (arith, length-hex_line code a))
      (read_chunk-hex_line code a rest)
