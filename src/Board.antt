-- ===== src/Board.antt =====
-- The two programs that put a hex file into the memory of a board: what they share. `strtoul` is
-- the C library's, for base 16 and a 32-bit `unsigned long`.
pub mod Transfer
pub mod Loader
pub mod Program
pub mod Runner
pub mod Watch
pub mod Rounds
pub mod Sent
pub mod Filled
pub mod Loaded
pub mod Image
pub mod Literal
pub mod Polls
mod Tests
use rsd_m.Dis.HexIn.{scan_space, digit_value}
use rsd_m.Base.Text.{Text, peek, is_xdigit, peek1, next, peek2}
use rsd_m.Base.Word.{minus32}
use rsd_m.Base.{
  ℕ, zero, suc, ◌+◌, ◌-◌, ◌*◌, ◌/◌, ◌%◌, ◌^◌, ◌≤◌, ◌<◌, ◌≡◌, refl, sym, ap, ◌∙◌, ◌≢◌, ◌↔◌, ◌⊎◌, inl,
  inr, Bool, true, false, not, ◌&&◌, ◌||◌, Option, none, some, List, [], ◌∷◌, ◌++◌, arith, ltb, leb,
  ◌==◌, if◌then◌else◌, leb→le, leb→gt, ltb→lt, lt→ltb, gt→leb, le→leb, ==_iff, Bool-cases, bit_and,
  bit_or,
}

-- Digits up to the first other character, without a bound.
unfoldable pub hex_number : ℕ → Text → ℕ
hex_number v [] = v
hex_number v (c ∷ p) = elim (is_xdigit c) [
  | true ↦ hex_number (v * 16 + digit_value c) p
  | false ↦ v
]

-- `ULONG_MAX` for a number that does not fit.
abbrev pub saturate : ℕ → ℕ
saturate v = if ltb v (2 ^ 32) then v else 2 ^ 32 - 1

abbrev pub negated : ℕ → ℕ
negated v = if ltb v (2 ^ 32) then minus32 v else 2 ^ 32 - 1

-- Behind the sign: `0x` counts only where a digit follows it.
unfoldable pub magnitude : Text → ℕ
unfolding hex_number
magnitude p =
    if peek p == b'0' && (peek1 p == b'x' || peek1 p == b'X') && is_xdigit (peek2 p)
    then hex_number 0 (next (next p))
    else hex_number 0 p

unfoldable pub strtoul16 : Text → ℕ
unfolding magnitude
strtoul16 text =
    let p = scan_space text in
    if peek p == b'-'
    then negated (magnitude (next p))
    else if peek p == b'+'
    then saturate (magnitude (next p))
    else saturate (magnitude p)

-- An array, as a function of the index; one element set.
abbrev pub put : (ℕ → ℕ) → ℕ → ℕ → ℕ → ℕ
put a i v q = if i == q then v else a q
