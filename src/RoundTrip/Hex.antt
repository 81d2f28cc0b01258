-- ===== src/RoundTrip/Hex.antt =====
-- `read_hex` reads what `write_hex` wrote.
use mathlib.Core.Path.{subst}
use rsd_m.Base.{
  ℕ, zero, suc, ◌+◌, ◌*◌, ◌/◌, ◌%◌, ◌^◌, ◌≤◌, ◌<◌, ◌≡◌, ◌⊎◌, arith, true, false, ap, sym, ◌++◌,
  ◌==◌, refl, ◌∙◌, inl, inr, Bool, ◌&&◌, some, ◌∷◌,
}
use native.Mathlib.Nat.{pow-suc, div-div-eq-div-mul, div-add-mod, one-le-pow}
use rsd_m.Base.Word.{u32}
use rsd_m.Base.Text.{Text, is_space, is_xdigit, peek}
use rsd_m.Asm.Program.{hex_char, hex_digits}
use rsd_m.Dis.HexIn.{digit_value, scan_digits, digits_or_fail, scan_field}

module _ (d : ℕ) (h : d < 16) where
  pub digit-is_xdigit : is_xdigit (hex_char d) ≡ true
  digit-is_xdigit = ground arith

  pub digit-value : digit_value (hex_char d) ≡ d
  digit-value = ground arith

  pub digit-not_space : is_space (hex_char d) ≡ false
  digit-not_space = ground arith

  pub digit-plain :
      (c : ℕ) → (c ≡ b'x') ⊎ (c ≡ b'X') ⊎ (c ≡ b'-') ⊎ (c ≡ b'+') → (hex_char d == c) ≡ false
  digit-plain c k = ground arith

-- One digit more.
pub digits-step : (P w : ℕ) → 0 < P → w % (16 * P) ≡ w / P % 16 * P + w % P
digits-step P w h =
    let quotient : w / (P * 16) ≡ w / P / 16 = sym (div-div-eq-div-mul w P 16) in
    let swap : 16 * P ≡ P * 16 = omega arith in
    let inner : w / P ≡ 16 * (w / P / 16) + w / P % 16 = omega arith in
    let scaled : P * (w / P) ≡ P * (16 * (w / P / 16) + w / P % 16) = ap (λ (t : ℕ). P * t) inner in
    rw swap (grind (arith, quotient, scaled, div-add-mod w P, div-add-mod w (P * 16)))

-- The digits go back to the word they stand for, behind `v`.
scan_digits-hex_digits :
    (n v w : ℕ) (rest : Text)
    → v * 16 ^ n + w % 16 ^ n < 2 ^ 32
    → scan_digits n v (hex_digits n w ++ rest) ≡ (v * 16 ^ n + w % 16 ^ n, rest)
unfolding scan_digits hex_digits
scan_digits-hex_digits zero v w rest h = let one : v * 1 + w % 1 ≡ v = omega arith in rw one
scan_digits-hex_digits (suc n) v w rest h =
    let P = 16 ^ n in
    let d = w / P % 16 in
    let hd : d < 16 = omega arith in
    let pos : 0 < P = one-le-pow n 16 (omega arith) in
    let power : 16 ^ suc n ≡ 16 * P = omega (arith, pow-suc 16 n) in
    let value : v * 16 ^ suc n + w % 16 ^ suc n ≡ (v * 16 + d) * P + w % P =
      rw (power, digits-step P w pos) (grind arith) in
    let below : v * 16 + d ≤ (v * 16 + d) * P = grind arith in
    let fits : u32 (v * 16 + d) ≡ v * 16 + d = omega (arith, below, value) in
    rw (scan_digits, digit-is_xdigit d hd, digit-value d hd, fits, value)
      (scan_digits-hex_digits n (v * 16 + d) w rest (omega (arith, value)))

pub and-false : (b : Bool) → (b && false) ≡ false
and-false true = refl
and-false false = refl

digits-run :
    (p r : Text) (v : ℕ)
    → is_xdigit (peek p) ≡ true
    → scan_digits 8 0 p ≡ (v, r)
    → digits_or_fail false 8 p ≡ some (v, r)
unfolding digits_or_fail
digits-run p r v h run = rw (h, run)

-- A number that starts with two plain digits has no sign and no prefix.
plain-field :
    (d e : ℕ) (p : Text)
    → d < 16
    → e < 16
    → scan_field (hex_char d ∷ hex_char e ∷ p)
      ≡ digits_or_fail false 8 (hex_char d ∷ hex_char e ∷ p)
unfolding scan_field
plain-field d e p hd he = rw (
  digit-not_space d hd,
  digit-plain d hd b'-' (inr (inr (inl refl))),
  digit-plain d hd b'+' (inr (inr (inr refl))),
  digit-plain e he b'x' (inl refl),
  digit-plain e he b'X' (inr (inl refl)),
  and-false (hex_char d == b'0'),
)

-- A word printed with eight digits reads back, whatever follows it.
pub scan_field-hex_digits :
    (w : ℕ) (rest : Text) → w < 2 ^ 32 → scan_field (hex_digits 8 w ++ rest) ≡ some (w, rest)
unfolding hex_digits
scan_field-hex_digits w rest h =
    let d = w / 16 ^ 7 % 16 in
    let e = w / 16 ^ 6 % 16 in
    let hd : d < 16 = omega arith in
    let he : e < 16 = omega arith in
    let whole : 0 * 16 ^ 8 + w % 16 ^ 8 ≡ w = omega arith in
    let run : scan_digits 8 0 (hex_digits 8 w ++ rest) ≡ (w, rest) =
      subst (λ v. scan_digits 8 0 (hex_digits 8 w ++ rest) ≡ (v, rest)) whole
        (scan_digits-hex_digits 8 0 w rest (omega arith)) in
    plain-field d e (hex_digits 6 w ++ rest) hd he
    ∙ digits-run (hex_digits 8 w ++ rest) rest w (digit-is_xdigit d hd) run
