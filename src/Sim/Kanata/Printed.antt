-- ===== src/Sim/Kanata/Printed.antt =====
-- What the numbers and the comments of the log are made of: no byte below the space.
use rsd_m.Sim.Kanata.{show_lower}
use rsd_m.Sim.Dump.{lower_digits, hex_lower, bin2str, binary_digits}
use rsd_m.Dis.Print.{show_signed, show_unsigned, decimal_digits, hex_width}
use rsd_m.Base.Text.{Text}
use rsd_m.Base.{
  ℕ, zero, suc, ◌+◌, ◌-◌, ◌/◌, ◌%◌, ◌^◌, ◌<◌, ◌≡◌, refl, inl, inr, Bool, true, false, not, ◌&&◌, [],
  ◌∷◌, ◌++◌, arith, ltb, leb, ◌==◌, if◌then◌else◌, Bool-cases,
}

-- A text with no tab and no newline.
abbrev pub plain : Text → Bool
plain [] = true
plain (x ∷ t) = leb 32 x && plain t

-- A text without a byte.
abbrev pub lacks : ℕ → Text → Bool
lacks c [] = true
lacks c (x ∷ t) = not (x == c) && lacks c t

pub plain-append : (s t : Text) → plain (s ++ t) ≡ (plain s && plain t)
plain-append [] t = refl
plain-append (x ∷ s) t = elim (Bool-cases (leb 32 x)) [
  | inl e ↦ rw e (plain-append s t)
  | inr e ↦ rw e refl
]

pub lacks-append : (c : ℕ) (s t : Text) → lacks c (s ++ t) ≡ (lacks c s && lacks c t)
lacks-append c [] t = refl
lacks-append c (x ∷ s) t = elim (Bool-cases (x == c)) [
  | inl e ↦ rw e refl
  | inr e ↦ rw e (lacks-append c s t)
]

pub plain-lacks : (c : ℕ) (t : Text) → c < 32 → plain t ≡ true → lacks c t ≡ true
plain-lacks c [] h e = refl
plain-lacks c (x ∷ t) h e = elim (Bool-cases (leb 32 x)) [
  | inl f ↦ let other : (x == c) ≡ false = ground arith in rw other (plain-lacks c t h (rw f at e))
  | inr f ↦ absurd (cc (rw f at e))
]

pub plain-if :
    (b : Bool) (s t : Text) → plain s ≡ true → plain t ≡ true → plain (if b then s else t) ≡ true
plain-if true s t h k = h
plain-if false s t h k = k

plain-decimal_digits : (f n : ℕ) → plain (decimal_digits f n) ≡ true
unfolding decimal_digits
plain-decimal_digits zero n = refl
plain-decimal_digits (suc f) n = elim (Bool-cases (ltb n 10)) [
  | inl e ↦
      let small : leb 32 (b'0' + n) ≡ true = ground arith in rw (decimal_digits, e, small) refl
  | inr e ↦
      let small : leb 32 (b'0' + n % 10) ≡ true = ground arith in
      rw (decimal_digits, e, plain-append, plain-decimal_digits f (n / 10), small) refl
]

pub plain-show_signed : (v : ℕ) → plain (show_signed v) ≡ true
unfolding show_signed show_unsigned
plain-show_signed v = elim (Bool-cases (ltb v (2 ^ 31))) [
  | inl e ↦ rw (show_signed, e) (plain-decimal_digits 10 v)
  | inr e ↦ rw (show_signed, e) (plain-decimal_digits 10 (2 ^ 32 - v))
]

plain-hex_lower : (d : ℕ) → leb 32 (hex_lower d) ≡ true
plain-hex_lower d = ground arith

pub plain-lower_digits : (n w : ℕ) → plain (lower_digits n w) ≡ true
unfolding lower_digits
plain-lower_digits zero w = refl
plain-lower_digits (suc n) w = rw (plain-hex_lower (w / 16 ^ n % 16)) (plain-lower_digits n w)

pub plain-show_lower : (w : ℕ) → plain (show_lower w) ≡ true
unfolding show_lower
plain-show_lower w = plain-lower_digits (hex_width 7 w) w

plain-binary_digits : (n b : ℕ) (start : Bool) → plain (binary_digits n b start).0 ≡ true
unfolding binary_digits
plain-binary_digits zero b start = refl
plain-binary_digits (suc n) b start = elim (Bool-cases (b / 2 ^ n % 2 == 1)) [
  | inl e ↦ elim (Bool-cases start) [
    | inl f ↦ rw (e, f, binary_digits) (plain-binary_digits n b true)
    | inr f ↦ rw (e, f, binary_digits) (plain-binary_digits n b true)
  ]
  | inr e ↦ elim (Bool-cases start) [
    | inl f ↦ rw (e, f, binary_digits) (plain-binary_digits n b true)
    | inr f ↦ rw (e, f, binary_digits) (plain-binary_digits n b false)
  ]
]

pub plain-bin2str : (b n : ℕ) (z : Bool) → plain (bin2str b n z) ≡ true
unfolding bin2str
plain-bin2str b n z =
    plain-if (binary_digits n b z).1 (binary_digits n b z).0 (b'0' ∷ []) (plain-binary_digits n b z)
      refl
