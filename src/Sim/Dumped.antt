-- ===== src/Sim/Dumped.antt =====
-- What the dumpers write, read back.
use rsd_m.RoundTrip.Hex.{digits-step}
use rsd_m.Board.Filled.{hex_number_stop}
use rsd_m.Dis.HexIn.{digit_value}
use rsd_m.Sim.Dump.{check_all, hex_lower, lower_digits, check_signal, hex_word, Serial}
use rsd_m.Board.{strtoul16, hex_number}
use rsd_m.Base.Text.{Text, is_xdigit, peek}
use rsd_m.Base.Word.{u8}
use mathlib.Core.List.{append-nil, append_assoc}
use native.Mathlib.Nat.{pow-suc, one-le-pow}
use rsd_m.Base.{
  ℕ, zero, suc, ◌+◌, ◌*◌, ◌/◌, ◌%◌, ◌^◌, ◌<◌, ◌==◌, ◌&&◌, ◌≡◌, true, false, Bool, not, List, [],
  ◌∷◌, ◌++◌, arith, ltb, ◌∙◌, if◌then◌else◌, inl, inr, Bool-cases, sym, ap, lt→ltb,
}

-- The bytes that were written and are not 0.
unfoldable pub sent_bytes : List (Bool × ℕ) → Text
sent_bytes [] = []
sent_bytes ((we, byte) ∷ rest) =
    let more = sent_bytes rest in if we && not (u8 byte == 0) then u8 byte ∷ more else more

written :
    (we : Bool) (byte : ℕ) (is_open : Bool)
    → (we && not (u8 byte == 0)) ≡ true
    → is_open ≡ true
    → (we && not (u8 byte == 0) && is_open) ≡ true
written we byte is_open e h = rw (e, h)

unwritten :
    (we : Bool) (byte : ℕ) (is_open : Bool)
    → (we && not (u8 byte == 0)) ≡ false
    → (we && not (u8 byte == 0) && is_open) ≡ false
unwritten we byte is_open e = rw e

-- An open file gets the bytes that the core writes to its serial port, in order and without the
-- zeros, behind what it holds.
pub check_all-file :
    (signals : List (Bool × ℕ)) (s : Serial)
    → s.is_open ≡ true
    → (check_all signals s).file ≡ s.file ++ sent_bytes signals
unfolding check_all check_signal sent_bytes
check_all-file [] s h = sym (append-nil s.file)
check_all-file ((we, byte) ∷ rest) s h = elim (Bool-cases (we && not (u8 byte == 0))) [
  | inl e ↦
      let step : (check_signal we byte s).file ≡ s.file ++ (u8 byte ∷ []) =
        rw (written we byte s.is_open e h) in
      check_all-file rest (check_signal we byte s) h
      ∙ ap (λ p. p ++ sent_bytes rest) step
      ∙ (rw (sent_bytes, e) (append_assoc s.file (u8 byte ∷ []) (sent_bytes rest)))
  | inr e ↦
      let step : (check_signal we byte s).file ≡ s.file = rw (unwritten we byte s.is_open e) in
      check_all-file rest (check_signal we byte s) h
      ∙ ap (λ p. p ++ sent_bytes rest) step
      ∙ (rw (sent_bytes, e))
]

lower-is_xdigit : (d : ℕ) → d < 16 → is_xdigit (hex_lower d) ≡ true
lower-is_xdigit d h = ground arith

lower-value : (d : ℕ) → d < 16 → digit_value (hex_lower d) ≡ d
lower-value d h = ground arith

hex_number-lower_digits :
    (n v w : ℕ) (rest : Text)
    → is_xdigit (peek rest) ≡ false
    → hex_number v (lower_digits n w ++ rest) ≡ v * 16 ^ n + w % 16 ^ n
unfolding hex_number lower_digits
hex_number-lower_digits zero v w rest h =
    let one : v * 1 + w % 1 ≡ v = omega arith in rw one (hex_number_stop v rest h)
hex_number-lower_digits (suc n) v w rest h =
    let P = 16 ^ n in
    let d = w / P % 16 in
    let hd : d < 16 = omega arith in
    let pos : 0 < P = one-le-pow n 16 (omega arith) in
    let power : 16 ^ suc n ≡ 16 * P = omega (arith, pow-suc 16 n) in
    let value : v * 16 ^ suc n + w % 16 ^ suc n ≡ (v * 16 + d) * P + w % P =
      rw (power, digits-step P w pos) (grind arith) in
    rw (hex_number, lower-is_xdigit d hd, lower-value d hd, value)
      (hex_number-lower_digits n (v * 16 + d) w rest h)

-- A register in the dump, read as C reads a hexadecimal number, is its value, whatever stands
-- behind it that is no digit.
pub strtoul16-hex_word :
    (w : ℕ) (rest : Text)
    → w < 2 ^ 32
    → is_xdigit (peek rest) ≡ false
    → strtoul16 (hex_word w ++ rest) ≡ w
unfolding strtoul16 hex_word lower_digits
strtoul16-hex_word w rest hw h =
    let whole : 0 * 16 ^ 8 + w % 16 ^ 8 ≡ w = omega arith in
    let number : hex_number 0 (lower_digits 8 w ++ rest) ≡ w =
      hex_number-lower_digits 8 0 w rest h ∙ whole in
    let digit = lower-is_xdigit (w / 16 ^ 7 % 16) (omega arith) in
    let small : ltb w (2 ^ 32) ≡ true = lt→ltb w (2 ^ 32) hw in rw (digit, number, small)
