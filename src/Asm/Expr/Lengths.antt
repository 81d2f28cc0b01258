-- ===== src/Asm/Expr/Lengths.antt =====
-- The scanner of the expression parser takes bytes off the text.
use rsd_m.Base.Word.{u64}
use rsd_m.Base.{
  ℕ, suc, ◌+◌, ◌-◌, ◌*◌, ◌%◌, ◌^◌, ◌≤◌, ◌<◌, ◌≡◌, refl, Bool, true, false, ◌||◌, [], ◌∷◌, arith,
  ◌==◌, if◌then◌else◌,
}
use rsd_m.Base.Lists.{length}
use rsd_m.Base.Text.{Text, peek1, next, is_digit, is_xdigit}
use rsd_m.Asm.Lexer.{
  skip_ws, span_name, is_name_start, is_name_byte, scan_decimal, scan_hex, scan_binary, hex_digit,
}
use rsd_m.Asm.Expr.{
  Atom, prefix, paren, here, number, symbol, neither, number_of, symbol_of, classify,
}

-- The text behind the number or name is no longer than the text before.
pub skip_ws-length : (p : Text) → length (skip_ws p) ≤ length p
skip_ws-length [] = omega arith
skip_ws-length (c ∷ p) = ground (arith, skip_ws-length p)

pub next-length : (p : Text) → length (next p) ≤ length p
next-length [] = omega arith
next-length (c ∷ p) = omega arith

scan_decimal-length : (w v : ℕ) (p : Text) → length (scan_decimal w v p).1 ≤ length p
scan_decimal-length w v [] = omega arith
scan_decimal-length w v (c ∷ p) =
    ground (arith, scan_decimal-length w ((v * 10 + (c - b'0')) % 2 ^ w) p)

choose-length :
    (b : Bool) (r s : ℕ × Text) (n : ℕ)
    → length r.1 ≤ n
    → length s.1 ≤ n
    → length (if b then r else s).1 ≤ n
choose-length true r s n h k = h
choose-length false r s n h k = k

scan_hex-length : (v : ℕ) (p : Text) → length (scan_hex v p).1 ≤ length p
scan_hex-length v [] = omega arith
scan_hex-length v (c ∷ p) =
    choose-length (is_xdigit c) _ (v, c ∷ p) (suc (length p))
      (omega (arith, scan_hex-length (u64 (v * 16 + hex_digit c)) p)) (omega arith)

scan_binary-length : (v : ℕ) (p : Text) → length (scan_binary v p).1 ≤ length p
scan_binary-length v [] = omega arith
scan_binary-length v (c ∷ p) =
    choose-length (c == b'0' || c == b'1') _ (v, c ∷ p) (suc (length p))
      (omega (arith, scan_binary-length (u64 (v * 2 + (c - b'0'))) p)) (omega arith)

span_name-length : (p : Text) → length (span_name p).1 ≤ length p
span_name-length [] = omega arith
span_name-length (c ∷ p) = ground (arith, span_name-length p)

-- What is found leaves less than `n` bytes.
abbrev pub Smaller : ℕ → Atom → Type 0
Smaller n (prefix op q) = length q < n
Smaller n (paren q) = length q < n
Smaller n (here q) = length q < n
Smaller n (number v q) = length q < n
Smaller n (symbol s q) = length q < n
Smaller n neither = 0 ≤ n

pub record Small (n : ℕ) (a : Atom) : Type 0 where
  pub smaller : Smaller n a

if-Small :
    {n : ℕ} {x y : Atom} (b : Bool)
    → (b ≡ true → Small n x)
    → Small n y
    → Small n (if b then x else y)
if-Small true h k = h refl
if-Small false h k = k

number_of-Small : {n : ℕ} (r : ℕ × Text) → length r.1 < n → Small n (number_of r)
number_of-Small (v, p) h = record { smaller = h }

symbol_of-Small : {n : ℕ} (r : Text × Text) → length r.1 < n → Small n (symbol_of r)
symbol_of-Small (v, p) h = record { smaller = h }

-- A name that starts at `c` takes it.
span_name-first :
    (c : ℕ) (p : Text) → is_name_start c ≡ true → length (span_name (c ∷ p)).1 ≤ length p
span_name-first c p h =
    let taken : is_name_byte c ≡ true = ground arith in rw taken (span_name-length p)

decimal-first :
    (c : ℕ) (p : Text) → is_digit c ≡ true → length (scan_decimal 64 0 (c ∷ p)).1 < length (c ∷ p)
decimal-first c p h =
    rw h (omega (arith, scan_decimal-length 64 ((0 * 10 + (c - b'0')) % 2 ^ 64) p))

pub classify-Small : (p : Text) → Small (length p) (classify p)
unfolding classify
classify-Small [] = record { smaller = omega arith }
classify-Small (c ∷ p) =
    let one = next-length p in
    let two = next-length (next p) in
    if-Small (c == b'-') (λ e. record { smaller = omega arith })
      (if-Small (c == b'+') (λ e. record { smaller = omega arith })
        (if-Small (c == b'~') (λ e. record { smaller = omega arith })
          (if-Small (c == b'<') (λ e. record { smaller = omega arith })
            (if-Small (c == b'>') (λ e. record { smaller = omega arith })
              (if-Small (c == b'^') (λ e. record { smaller = omega arith })
                (if-Small (c == b'#') (λ e. record { smaller = omega arith })
                  (if-Small (c == b'(') (λ e. record { smaller = omega arith })
                    (if-Small (c == b'*') (λ e. record { smaller = omega arith })
                      (if-Small _
                        (λ e.
                          number_of-Small (scan_hex 0 (next p))
                            (omega (arith, one, scan_hex-length 0 (next p))))
                        (if-Small (c == b'$')
                          (λ e. number_of-Small (scan_hex 0 p) (omega (arith, scan_hex-length 0 p)))
                          (if-Small (c == b'%')
                            (λ e.
                              number_of-Small (scan_binary 0 p)
                                (omega (arith, scan_binary-length 0 p)))
                            (if-Small {x = number (peek1 (c ∷ p)) (next (next p))} _
                              (λ e. record { smaller = omega (arith, one, two) })
                              (if-Small (is_digit c)
                                (λ e.
                                  number_of-Small (scan_decimal 64 0 (c ∷ p)) (decimal-first c p e))
                                (if-Small (is_name_start c)
                                  (λ e.
                                    symbol_of-Small (span_name (c ∷ p))
                                      (omega (arith, span_name-first c p e)))
                                  (record { smaller = omega arith })))))))))))))))
