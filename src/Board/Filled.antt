-- ===== src/Board/Filled.antt =====
-- The digits that `%08X` prints, read as a number.
use rsd_m.Asm.Program.{hex_digits}
use rsd_m.Base.Text.{Text, is_xdigit, peek}
use rsd_m.Board.{hex_number}
use rsd_m.RoundTrip.Hex.{digit-is_xdigit, digit-value, digits-step}
use native.Mathlib.Nat.{pow-suc, one-le-pow}
use rsd_m.Base.{ℕ, zero, suc, ◌+◌, ◌*◌, ◌/◌, ◌%◌, ◌^◌, ◌<◌, ◌≡◌, refl, false, [], ◌∷◌, ◌++◌, arith}

pub hex_number_stop : (v : ℕ) (p : Text) → is_xdigit (peek p) ≡ false → hex_number v p ≡ v
unfolding hex_number
hex_number_stop v [] h = refl
hex_number_stop v (c ∷ p) h = rw (h, hex_number)

pub hex_number-hex_digits :
    (n v w : ℕ) (rest : Text)
    → is_xdigit (peek rest) ≡ false
    → hex_number v (hex_digits n w ++ rest) ≡ v * 16 ^ n + w % 16 ^ n
unfolding hex_number hex_digits
hex_number-hex_digits zero v w rest h =
    let one : v * 1 + w % 1 ≡ v = omega arith in rw one (hex_number_stop v rest h)
hex_number-hex_digits (suc n) v w rest h =
    let P = 16 ^ n in
    let d = w / P % 16 in
    let hd : d < 16 = omega arith in
    let pos : 0 < P = one-le-pow n 16 (omega arith) in
    let power : 16 ^ suc n ≡ 16 * P = omega (arith, pow-suc 16 n) in
    let value : v * 16 ^ suc n + w % 16 ^ suc n ≡ (v * 16 + d) * P + w % P =
      rw (power, digits-step P w pos) (grind arith) in
    rw (hex_number, digit-is_xdigit d hd, digit-value d hd, value)
      (hex_number-hex_digits n (v * 16 + d) w rest h)
