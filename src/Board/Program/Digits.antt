-- ===== src/Board/Program/Digits.antt =====
-- The text of `programinit`: every line has 32 hexadecimal digits.
use Prim.Native.String.{String}
use rsd_m.Board.Program.{
  Piece, zeros, lines, literal, line_at, nth, text_at, program_at, zeros_line,
}
use rsd_m.Base.Lists.{length}
use rsd_m.Base.Text.{Text, codes, is_xdigit}
use rsd_m.Base.{
  ℕ, zero, suc, ◌+◌, ◌-◌, ◌/◌, ◌%◌, ◌<◌, ◌≡◌, refl, inl, inr, Bool, true, false, ◌&&◌, List, [],
  ◌∷◌, arith, ltb, ltb→lt, ◌==◌, Bool-cases,
}

all_hex : Text → Bool
all_hex [] = true
all_hex (c ∷ p) = is_xdigit c && all_hex p

-- A line of 32 hexadecimal digits.
is_line : String → Bool
unfolding all_hex
is_line s = (length (codes s) == 32) && all_hex (codes s)

all_lines : List String → Bool
unfolding is_line
all_lines [] = true
all_lines (s ∷ ss) = is_line s && all_lines ss

pieces_ok : List Piece → Bool
unfolding all_lines
pieces_ok [] = true
pieces_ok (zeros k ∷ ps) = pieces_ok ps
pieces_ok (lines ss ∷ ps) = all_lines ss && pieces_ok ps

count : List Piece → ℕ
count [] = 0
count (zeros k ∷ ps) = k + count ps
count (lines ss ∷ ps) = length ss + count ps

literal_ok : (pieces_ok literal ≡ true) × (count literal ≡ 4096)
unfolding pieces_ok count
literal_ok = (refl, refl)

and-true : (a b : Bool) → (a && b) ≡ true → (a ≡ true) × (b ≡ true)
and-true true b h = (refl, h)
and-true false b h = absurd (cc h)

nth-is_line :
    (ss : List String) (n : ℕ) → all_lines ss ≡ true → n < length ss → is_line (nth ss n) ≡ true
unfolding all_lines
nth-is_line [] n h l = absurd (omega (arith, l))
nth-is_line (s ∷ ss) zero h l = (and-true (is_line s) (all_lines ss) h).0
nth-is_line (s ∷ ss) (suc n) h l =
    nth-is_line ss n (and-true (is_line s) (all_lines ss) h).1 (omega (arith, l))

zero_line : is_line zeros_line ≡ true
unfolding is_line
zero_line = refl

line_at-is_line :
    (ps : List Piece) (n : ℕ) → pieces_ok ps ≡ true → n < count ps → is_line (line_at ps n) ≡ true
unfolding line_at pieces_ok count
line_at-is_line [] n h l = absurd (omega (arith, l))
line_at-is_line (zeros k ∷ ps) n h l = elim (Bool-cases (ltb n k)) [
  | inl e ↦ rw (e, line_at) zero_line
  | inr e ↦ rw (e, line_at) (line_at-is_line ps (n - k) h (ground (arith, e, l)))
]
line_at-is_line (lines ss ∷ ps) n h l =
    let (here, there) = and-true (all_lines ss) (pieces_ok ps) h in
    elim (Bool-cases (ltb n (length ss))) [
      | inl e ↦ rw (e, line_at) (nth-is_line ss n here (ltb→lt n (length ss) e))
      | inr e ↦ rw (e, line_at) (line_at-is_line ps (n - length ss) there (ground (arith, e, l)))
    ]

text_at-is_xdigit :
    (p : Text) (i : ℕ) → all_hex p ≡ true → i < length p → is_xdigit (text_at p i) ≡ true
unfolding all_hex text_at
text_at-is_xdigit [] i h l = absurd (omega (arith, l))
text_at-is_xdigit (c ∷ p) zero h l = (and-true (is_xdigit c) (all_hex p) h).0
text_at-is_xdigit (c ∷ p) (suc i) h l =
    text_at-is_xdigit p i (and-true (is_xdigit c) (all_hex p) h).1 (omega (arith, l))

is_32 : (n : ℕ) → (n == 32) ≡ true → n ≡ 32
is_32 n h = ground (arith, h)

-- Every character that is sent is a digit.
pub program_at-is_xdigit : (q : ℕ) → q < 131072 → is_xdigit (program_at q) ≡ true
unfolding program_at is_line
program_at-is_xdigit q l =
    let s = line_at literal (q / 32) in
    let in_range : q / 32 < count literal = rw literal_ok.1 (omega (arith, l)) in
    let ok = line_at-is_line literal (q / 32) literal_ok.0 in_range in
    let (size, hex) = and-true (length (codes s) == 32) (all_hex (codes s)) ok in
    let long : length (codes s) ≡ 32 = is_32 (length (codes s)) size in
    text_at-is_xdigit (codes s) (q % 32) hex (omega (arith, long))
