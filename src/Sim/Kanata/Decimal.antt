-- ===== src/Sim/Kanata/Decimal.antt =====
-- The numbers of the log, read back.
use native.Mathlib.Nat.{pow-suc}
use rsd_m.Sim.Kanata.Printed.{lacks, lacks-append}
use rsd_m.Dis.Print.{decimal_digits, show_signed, show_unsigned}
use rsd_m.Sim.Kanata.Reader.{decimal_value, signed_value}
use rsd_m.Base.Text.{Text}
use rsd_m.Base.{
  ℕ, zero, suc, ◌+◌, ◌-◌, ◌*◌, ◌/◌, ◌%◌, ◌^◌, ◌<◌, ◌≡◌, refl, ◌∙◌, inl, inr, true, false, [], ◌∷◌,
  ◌++◌, arith, ltb, ◌==◌, Bool-cases,
}

decimal_value-append :
    (v d : ℕ) (t : Text) → decimal_value v (t ++ (d ∷ [])) ≡ decimal_value v t * 10 + (d - b'0')
unfolding decimal_value
decimal_value-append v d [] = refl
decimal_value-append v d (c ∷ t) = decimal_value-append (v * 10 + (c - b'0')) d t

decimal_value-digits : (f n : ℕ) → n < 10 ^ f → decimal_value 0 (decimal_digits f n) ≡ n
unfolding decimal_digits decimal_value
decimal_value-digits zero n h = omega arith
decimal_value-digits (suc f) n h = elim (Bool-cases (ltb n 10)) [
  | inl e ↦ rw (decimal_digits, e) (omega arith)
  | inr e ↦
      let power : 10 ^ suc f ≡ 10 * 10 ^ f = omega (arith, pow-suc 10 f) in
      let ih = decimal_value-digits f (n / 10) (omega (arith, h, power)) in
      let back : n / 10 * 10 + (b'0' + n % 10 - b'0') ≡ n = omega arith in
      rw (decimal_digits, e, decimal_value-append 0 (b'0' + n % 10) (decimal_digits f (n / 10)), ih)
        back
]

lacks-digits : (f n : ℕ) → lacks b'-' (decimal_digits f n) ≡ true
unfolding decimal_digits
lacks-digits zero n = refl
lacks-digits (suc f) n = elim (Bool-cases (ltb n 10)) [
  | inl e ↦
      let other : (b'0' + n == b'-') ≡ false = ground arith in rw (decimal_digits, e, other) refl
  | inr e ↦
      let other : (b'0' + n % 10 == b'-') ≡ false = ground arith in
      rw (decimal_digits, e, lacks-append, lacks-digits f (n / 10), other) refl
]

unsigned-value : (t : Text) → lacks b'-' t ≡ true → signed_value t ≡ decimal_value 0 t
unfolding signed_value decimal_value
unsigned-value [] h = refl
unsigned-value (c ∷ t) h = elim (Bool-cases (c == b'-')) [
  | inl e ↦ absurd (cc (rw e at h))
  | inr e ↦ rw e refl
]

-- What `%d` prints of a 32-bit pattern is read back as the pattern.
pub signed_value-show_signed : (v : ℕ) → v < 2 ^ 32 → signed_value (show_signed v) ≡ v
unfolding show_signed show_unsigned
signed_value-show_signed v h = elim (Bool-cases (ltb v (2 ^ 31))) [
  | inl e ↦
      rw (show_signed, e)
        (unsigned-value (decimal_digits 10 v) (lacks-digits 10 v)
          ∙ decimal_value-digits 10 v (omega arith))
  | inr e ↦
      let digits = decimal_value-digits 10 (2 ^ 32 - v) (omega arith) in
      let back : (2 ^ 32 - (2 ^ 32 - v)) % 2 ^ 32 ≡ v = ground arith in
      rw (show_signed, e) (unfold signed_value in rw digits back)
]
