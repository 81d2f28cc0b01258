-- ===== src/Board/Program.antt =====
-- `programinit` of `run_simple.c`: the program that the bare-metal runner sends, a string literal
-- in 4,096 pieces of 32 hexadecimal digits.
pub mod Start
pub mod Rest
pub mod Digits
use Prim.Native.String.{String}
use rsd_m.Base.{ℕ, zero, suc, ◌-◌, ◌/◌, ◌%◌, List, [], ◌∷◌, ltb, if◌then◌else◌}
use rsd_m.Base.Lists.{length}
use rsd_m.Base.Text.{Text, codes}
use rsd_m.Board.Program.Start.{code_lines}
use rsd_m.Board.Program.Rest.{more_code, data_lines}

abbrev pub zeros_line : String
zeros_line = "00000000000000000000000000000000"

-- The literal: this many lines of zeros, or these lines.
pub data Piece : Type 0 where
  zeros : ℕ → Piece
  lines : List String → Piece

abbrev pub literal : List Piece
literal = zeros 256 ∷ lines code_lines ∷ lines more_code ∷ lines data_lines ∷ zeros 3536 ∷ []

abbrev pub nth : List String → ℕ → String
nth [] n = ""
nth (s ∷ ss) zero = s
nth (s ∷ ss) (suc n) = nth ss n

-- A line of the literal; the terminating zero stands behind the last.
unfoldable pub line_at : List Piece → ℕ → String
line_at [] n = ""
line_at (zeros k ∷ ps) n = let rest = line_at ps (n - k) in if ltb n k then zeros_line else rest
line_at (lines ss ∷ ps) n =
    let rest = line_at ps (n - length ss) in if ltb n (length ss) then nth ss n else rest

-- The byte at an index of a text.
unfoldable pub text_at : Text → ℕ → ℕ
text_at [] i = 0
text_at (c ∷ p) zero = c
text_at (c ∷ p) (suc i) = text_at p i

-- `prog[q]`.
unfoldable pub program_at : ℕ → ℕ
unfolding line_at text_at
program_at q = text_at (codes (line_at literal (q / 32))) (q % 32)
