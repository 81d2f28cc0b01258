-- ===== src/Dis/Print.antt =====
-- The conversions of `printf` that the disassembler uses, and `reg_name`.
use rsd_m.Base.{
  ℕ, zero, suc, ◌+◌, ◌-◌, ◌/◌, ◌%◌, ◌^◌, true, false, [], ◌∷◌, ◌++◌, ltb, ◌==◌, if◌then◌else◌,
}
use rsd_m.Base.Text.{Text, codes}
use rsd_m.Isa.{reg_a, reg_x, reg_y, reg_sp, reg_d, reg_b, reg_vbr}

-- `%u` of a number below `10 ^ fuel`.
unfoldable pub decimal_digits : ℕ → ℕ → Text
decimal_digits zero n = []
decimal_digits (suc f) n = elim (ltb n 10) [
  | true ↦ (b'0' + n) ∷ []
  | false ↦ decimal_digits f (n / 10) ++ ((b'0' + n % 10) ∷ [])
]

unfoldable pub show_unsigned : ℕ → Text
unfolding decimal_digits
show_unsigned n = decimal_digits 10 n

-- `%d` of a signed 32-bit pattern.
unfoldable pub show_signed : ℕ → Text
unfolding show_unsigned
show_signed v = if ltb v (2 ^ 31) then show_unsigned v else b'-' ∷ show_unsigned (2 ^ 32 - v)

abbrev pub hex_char : ℕ → ℕ
hex_char d = if ltb d 10 then b'0' + d else b'A' + (d - 10)

-- The `n` lowest hexadecimal digits.
unfoldable pub hex_fixed : ℕ → ℕ → Text
hex_fixed zero w = []
hex_fixed (suc n) w = hex_char (w / 16 ^ n % 16) ∷ hex_fixed n w

-- How many digits `%X` prints, at most `n`.
abbrev pub hex_width : ℕ → ℕ → ℕ
hex_width zero w = 1
hex_width (suc n) w = elim (ltb w (16 ^ suc n)) [ true ↦ hex_width n w | false ↦ suc (suc n) ]

-- `%0nX`.
unfoldable pub show_hex : ℕ → ℕ → Text
unfolding hex_fixed
show_hex n w = let k = hex_width 7 w in hex_fixed (if ltb k n then n else k) w

-- The pool of buffers holds four names; no line prints more than three.
unfoldable pub reg_name : ℕ → Text
unfolding show_unsigned
reg_name r =
    if r == 0
    then codes "R0"
    else if r == reg_a
    then codes "A"
    else if r == reg_x
    then codes "X"
    else if r == reg_y
    then codes "Y"
    else if r == reg_sp
    then codes "SP"
    else if r == reg_d
    then codes "D"
    else if r == reg_b
    then codes "B"
    else if r == reg_vbr
    then codes "VBR"
    else if r == 63
    then codes "T"
    else b'R' ∷ show_unsigned r
