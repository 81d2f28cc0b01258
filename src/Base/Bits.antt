-- ===== src/Base/Bits.antt =====
-- `&` with a low mask and `|` of disjoint fields, as arithmetic.
use Prim.Native.Nat.{
  ℕ, zero, suc, ◌+◌, ◌-◌, ◌*◌, ◌/◌, ◌%◌, ◌^◌, ◌≤◌, ◌<◌, bit_and, bit_or, min, max, digits,
  bit_and-bitwise, bit_or-bitwise,
}
use mathlib.Core.Path.{◌≡◌, refl, ap}
use native.Mathlib.Nat.{div-div-eq-div-mul, div-one, pow-suc, one-le-pow}
use native.Mathlib.Omega.{arith}

-- Two counts of digits that are both large enough give one result.
module _ (lone : ℕ → ℕ) (both : ℕ → ℕ → ℕ) where
  digits-irrelevant :
      (f g a b : ℕ) → a ≤ f → a ≤ g → digits lone both f a b ≡ digits lone both g a b
  digits-irrelevant zero zero zero b h k = refl
  digits-irrelevant zero (suc g) zero b h k = refl
  digits-irrelevant (suc f) zero zero b h k = refl
  digits-irrelevant (suc f) (suc g) zero b h k = refl
  digits-irrelevant (suc f) (suc g) (suc a) b h k =
      let low = both (suc a % 2) (b % 2) in
      let ih = digits-irrelevant f g (suc a / 2) (b / 2) (omega arith) (omega arith) in
      ap (λ (t : ℕ). t * 2 + low) ih
  digits-irrelevant zero g (suc a) b h k = absurd (omega arith)
  digits-irrelevant (suc f) zero (suc a) b h k = absurd (omega arith)

or_halves : (a b : ℕ) → bit_or a b ≡ bit_or (a / 2) (b / 2) * 2 + max (a % 2) (b % 2)
or_halves zero b = rw (bit_or-bitwise 0 b, bit_or-bitwise (0 / 2) (b / 2)) (omega arith)
or_halves (suc a) b =
    let ih =
      digits-irrelevant (λ y. y) max a (suc a / 2) (suc a / 2) (b / 2) (omega arith)
        (omega arith) in
    omega (arith, bit_or-bitwise (suc a) b, bit_or-bitwise (suc a / 2) (b / 2), ih)

and_halves : (a b : ℕ) → bit_and a b ≡ bit_and (a / 2) (b / 2) * 2 + min (a % 2) (b % 2)
and_halves zero b = rw (bit_and-bitwise 0 b, bit_and-bitwise (0 / 2) (b / 2)) (omega arith)
and_halves (suc a) b =
    let ih =
      digits-irrelevant (λ y. 0) min a (suc a / 2) (suc a / 2) (b / 2) (omega arith)
        (omega arith) in
    omega (arith, bit_and-bitwise (suc a) b, bit_and-bitwise (suc a / 2) (b / 2), ih)

and-zero_below : (f a : ℕ) → a ≤ f → bit_and a 0 ≡ 0
and-zero_below f zero h = bit_and-bitwise 0 0
and-zero_below zero (suc a) h = absurd (omega arith)
and-zero_below (suc f) (suc a) h =
    omega (arith, and_halves (suc a) 0, and-zero_below f (suc a / 2) (omega arith))

or-zero_below : (f a : ℕ) → a ≤ f → bit_or a 0 ≡ a
or-zero_below f zero h = bit_or-bitwise 0 0
or-zero_below zero (suc a) h = absurd (omega arith)
or-zero_below (suc f) (suc a) h =
    omega (arith, or_halves (suc a) 0, or-zero_below f (suc a / 2) (omega arith))

-- Doubling a modulus adds a low binary digit to the remainder.
mod-double : (m n : ℕ) → 0 < m → n % (2 * m) ≡ n / 2 % m * 2 + n % 2
mod-double m n h = grind arith

-- `a & (2^k - 1)` keeps the low `k` bits.
pub and_low : (k a : ℕ) → bit_and a (2 ^ k - 1) ≡ a % 2 ^ k
and_low zero a = omega (arith, and-zero_below a a (omega arith))
and_low (suc k) a =
    let double : 2 ^ suc k ≡ 2 * 2 ^ k = omega (arith, pow-suc 2 k) in
    let pos : 0 < 2 ^ k = one-le-pow k 2 (omega arith) in
    rw (double, mod-double (2 ^ k) a pos, ← and_low k (a / 2), and_halves a (2 * 2 ^ k - 1))
      (let half : (2 * 2 ^ k - 1) / 2 ≡ 2 ^ k - 1 = omega arith in
        let odd : (2 * 2 ^ k - 1) % 2 ≡ 1 = omega arith in rw (half, odd) (omega arith))

-- `(q << k) | r` is a sum where `r` fits in `k` bits.
pub or_high : (k q r : ℕ) → r < 2 ^ k → bit_or (q * 2 ^ k) r ≡ q * 2 ^ k + r
or_high zero q r h =
    let same : q * 2 ^ 0 ≡ q = omega arith in
    let none_left : r ≡ 0 = omega arith in
    rw (same, none_left) (omega (arith, or-zero_below q q (omega arith)))
or_high (suc k) q r h =
    let shift : q * 2 ^ suc k ≡ 2 * (q * 2 ^ k) =
      omega (arith, ap (λ (t : ℕ). q * t) (pow-suc 2 k)) in
    rw (shift, or_halves (2 * (q * 2 ^ k)) r)
      (let half : 2 * (q * 2 ^ k) / 2 ≡ q * 2 ^ k = omega arith in
        rw (half, or_high k q (r / 2) (omega (arith, pow-suc 2 k))) (omega arith))

-- `a | b` is a sum where `b` lies below the lowest digit of `a`.
pub or_add : (k a b : ℕ) → a % 2 ^ k ≡ 0 → b < 2 ^ k → bit_or a b ≡ a + b
or_add k a b h l =
    let multiple : a ≡ a / 2 ^ k * 2 ^ k = grind arith in rw multiple (or_high k (a / 2 ^ k) b l)

-- The same, with the low field first.
or_low : (k q r : ℕ) → r < 2 ^ k → bit_or r (q * 2 ^ k) ≡ r + q * 2 ^ k
or_low zero q r h =
    let same : q * 2 ^ 0 ≡ q = omega arith in
    let none_left : r ≡ 0 = omega arith in rw (same, none_left) (omega (arith, bit_or-bitwise 0 q))
or_low (suc k) q r h =
    let shift : q * 2 ^ suc k ≡ 2 * (q * 2 ^ k) =
      omega (arith, ap (λ (t : ℕ). q * t) (pow-suc 2 k)) in
    rw (shift, or_halves r (2 * (q * 2 ^ k)))
      (let half : 2 * (q * 2 ^ k) / 2 ≡ q * 2 ^ k = omega arith in
        rw (half, or_low k q (r / 2) (omega (arith, pow-suc 2 k))) (omega arith))

pub or_add_low : (k a q : ℕ) → a < 2 ^ k → bit_or a (q * 2 ^ k) ≡ a + q * 2 ^ k
or_add_low k a q h = or_low k q a h

-- Four bytes, the lowest first.
pub or_bytes :
    (a b c d : ℕ)
    → a < 256
    → b < 256
    → c < 256
    → bit_or (bit_or (bit_or a (b * 2 ^ 8)) (c * 2 ^ 16)) (d * 2 ^ 24)
      ≡ a + b * 2 ^ 8 + c * 2 ^ 16 + d * 2 ^ 24
or_bytes a b c d ha hb hc =
    rw (or_add_low 8 a b ha, or_add_low 16 (a + b * 2 ^ 8) c (omega arith))
      (or_add_low 24 (a + b * 2 ^ 8 + c * 2 ^ 16) d (omega arith))

-- A mask of `m` bits above the lowest `k`.
pub and_high : (k m a : ℕ) → bit_and a ((2 ^ m - 1) * 2 ^ k) ≡ a / 2 ^ k % 2 ^ m * 2 ^ k
and_high zero m a =
    let same : (2 ^ m - 1) * 2 ^ 0 ≡ 2 ^ m - 1 = omega arith in
    let whole : a / 2 ^ 0 ≡ a = div-one a in rw (same, and_low m a, whole) (omega arith)
and_high (suc k) m a =
    let shift : (2 ^ m - 1) * 2 ^ suc k ≡ 2 * ((2 ^ m - 1) * 2 ^ k) =
      omega (arith, ap (λ (t : ℕ). (2 ^ m - 1) * t) (pow-suc 2 k)) in
    let half : 2 * ((2 ^ m - 1) * 2 ^ k) / 2 ≡ (2 ^ m - 1) * 2 ^ k = omega arith in
    let even : 2 * ((2 ^ m - 1) * 2 ^ k) % 2 ≡ 0 = omega arith in
    let power : 2 ^ suc k ≡ 2 * 2 ^ k = omega (arith, pow-suc 2 k) in
    rw
      (
        shift,
        and_halves a (2 * ((2 ^ m - 1) * 2 ^ k)),
        half,
        even,
        and_high k m (a / 2),
        power,
        div-div-eq-div-mul a 2 (2 ^ k),
      )
      (grind arith)
