-- ===== src/Board/Literal.antt =====
-- What the bare-metal program leaves in memory: the words that its literal spells.
use native.Mathlib.Nat.{pow-suc}
use mathlib.Core.Path.{subst}
use rsd_m.Board.{strtoul16, hex_number}
use rsd_m.Board.Filled.{hex_number_stop}
use rsd_m.Board.Loader.{cleared}
use rsd_m.Board.Program.Digits.{program_at-is_xdigit}
use rsd_m.Board.Program.{program_at}
use rsd_m.Board.Rounds.{word_of}
use rsd_m.Board.Runner.{send_program}
use rsd_m.Board.Sent.{sent, transfer-words}
use rsd_m.Board.Transfer.{Sending}
use rsd_m.Dis.Args.{AllHex, hex_value, digit_of, digit_of-bound}
use rsd_m.Dis.HexIn.{digit_value}
use rsd_m.Base.Lists.{length}
use rsd_m.Base.Text.{Text, is_xdigit, peek}
use rsd_m.Base.{
  ℕ, suc, ◌+◌, ◌-◌, ◌*◌, ◌/◌, ◌%◌, ◌^◌, ◌≤◌, ◌<◌, ◌≡◌, refl, ap, ◌∙◌, true, false, [], ◌∷◌, ◌++◌,
  some, arith, ltb,
}

digit_value-digit_of : (c : ℕ) → is_xdigit c ≡ true → digit_value c ≡ digit_of c
unfolding digit_of
digit_value-digit_of c h = ground (arith, h)

hex_number-hex_value :
    (v : ℕ) (p rest : Text)
    → AllHex p
    → is_xdigit (peek rest) ≡ false
    → hex_number v (p ++ rest) ≡ v * 16 ^ length p + hex_value p
unfolding hex_number hex_value
hex_number-hex_value v [] rest h k =
    let one : v ≡ v * 1 + 0 = omega arith in hex_number_stop v rest k ∙ one
hex_number-hex_value v (c ∷ p) rest h k =
    let P = 16 ^ length p in
    let power : 16 ^ suc (length p) ≡ 16 * P = omega (arith, pow-suc 16 (length p)) in
    let value : (v * 16 + digit_of c) * P + hex_value p
        ≡ v * 16 ^ suc (length p) + (digit_of c * P + hex_value p) =
      rw power (grind arith) in
    rw (h.0, hex_number, digit_value-digit_of c h.0)
      (hex_number-hex_value (v * 16 + digit_of c) p rest h.1 k ∙ value)

hex_value-bound : (p : Text) → AllHex p → hex_value p < 16 ^ length p
unfolding hex_value
hex_value-bound [] h = omega arith
hex_value-bound (c ∷ p) h =
    let P = 16 ^ length p in
    let power : 16 ^ suc (length p) ≡ 16 * P = omega (arith, pow-suc 16 (length p)) in
    let low = hex_value-bound p h.1 in
    let d = digit_of-bound c h.0 in rw power (grind (arith, low, d))

strtoul16-hex_value :
    (c : ℕ) (p rest : Text)
    → AllHex (c ∷ p)
    → length p ≡ 7
    → is_xdigit (peek rest) ≡ false
    → strtoul16 (b'0' ∷ b'x' ∷ c ∷ (p ++ rest)) ≡ hex_value (c ∷ p)
unfolding strtoul16
strtoul16-hex_value c p rest h n k =
    let number : hex_number 0 (c ∷ (p ++ rest)) ≡ hex_value (c ∷ p) =
      hex_number-hex_value 0 (c ∷ p) rest h k ∙ omega arith in
    let bound : hex_value (c ∷ p) < 16 ^ 8 =
      subst (λ k. hex_value (c ∷ p) < 16 ^ k) (ap suc n) (hex_value-bound (c ∷ p) h) in
    let small : ltb (hex_value (c ∷ p)) (2 ^ 32) ≡ true = ground (arith, bound) in
    rw (h.0, number, small)

-- The eight characters of the literal from a place on.
abbrev pub digits_at : ℕ → Text
digits_at j =
    program_at j
    ∷ program_at (j + 1)
    ∷ program_at (j + 2)
    ∷ program_at (j + 3)
    ∷ program_at (j + 4)
    ∷ program_at (j + 5)
    ∷ program_at (j + 6)
    ∷ program_at (j + 7)
    ∷ []

word_of-digits_at :
    (beyond : Text) (j : ℕ)
    → is_xdigit (peek beyond) ≡ false
    → j + 7 < 131072
    → word_of program_at beyond j ≡ hex_value (digits_at j)
unfolding word_of
word_of-digits_at beyond j k l =
    let d = program_at-is_xdigit in
    strtoul16-hex_value (program_at j) _ beyond
      (
        d j (omega (arith, l)),
        (
          d (j + 1) (omega (arith, l)),
          (
            d (j + 2) (omega (arith, l)),
            (
              d (j + 3) (omega (arith, l)),
              (
                d (j + 4) (omega (arith, l)),
                (
                  d (j + 5) (omega (arith, l)),
                  (d (j + 6) (omega (arith, l)), (d (j + 7) (omega (arith, l)), tt)),
                ),
              ),
            ),
          ),
        ),
      )
      refl k

cleared_low : (mem : ℕ → ℕ) (n q : ℕ) → q < n → cleared n mem q ≡ 0
cleared_low mem n q h = ground (arith, h)

cleared_high : (mem : ℕ → ℕ) (n q : ℕ) → n ≤ q → cleared n mem q ≡ mem q
cleared_high mem n q h = ground (arith, h)

-- The bare-metal program's transfer ends, and then the first 16,384 words of memory are the numbers
-- that the digits of its literal spell, those of a line of the literal in reverse order, the words
-- up to 65,536 are zero, and the others are as before; where no hexadecimal digit stands behind the
-- array `val`.
pub send_program-literal :
    (beyond : Text) (garbage mem : ℕ → ℕ)
    → is_xdigit (peek beyond) ≡ false
    → (s : Sending) × (send_program beyond garbage mem ≡ some s)
      × ((q : ℕ) → q < 16384 → s.mem q ≡ hex_value (digits_at (32 * (q / 4) + 8 * (3 - q % 4))))
      × ((q : ℕ) → 16384 ≤ q → q < 65536 → s.mem q ≡ 0)
      × ((q : ℕ) → 65536 ≤ q → s.mem q ≡ mem q)
unfolding send_program sent
send_program-literal beyond garbage mem h =
    let (s, runs, t) = transfer-words program_at beyond 4096 garbage (cleared 65536 mem) in
    (
      s,
      runs,
      λ q l.
          t.words q (omega (arith, l))
          ∙ word_of-digits_at beyond (32 * (q / 4) + 8 * (3 - q % 4)) h (omega (arith, l)),
      λ q l k. t.others q (omega (arith, l)) ∙ cleared_low mem 65536 q k,
      λ q l. t.others q (omega (arith, l)) ∙ cleared_high mem 65536 q l,
    )
