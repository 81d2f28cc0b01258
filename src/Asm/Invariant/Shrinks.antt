-- ===== src/Asm/Invariant/Shrinks.antt =====
-- The items of a data directive take text off the line and add none, so that the list of them
-- ends.
use rsd_m.Asm.Line.Directives.{
  emit_bytes, string_bytes, string_item, byte_item, word_item, long_item, dword_item,
}
use rsd_m.Asm.Lexer.{skip, skip_ws}
use rsd_m.Asm.Code.{emit8, emit32, max_code_bytes, log_to_phy}
use rsd_m.Asm.Expr.Lengths.{skip_ws-length, next-length}
use rsd_m.Asm.Expr.{expression}
use rsd_m.Asm.Expr.Total.{Ends, expression-Ends}
use rsd_m.Asm.Keeps.{Leaves, AfterOr, Any, Keeps-then, Keeps-bind, keeps_rules}
use rsd_m.Asm.State.{State, Result, ok, err, set_cursor}
use rsd_m.Base.Word.{u8, add32}
use rsd_m.Base.Text.{Text, peek, next}
use rsd_m.Base.Lists.{length}
use rsd_m.Base.{
  ℕ, suc, ◌≤◌, inl, inr, not, ◌&&◌, ◌||◌, List, [], ◌∷◌, arith, leb, ◌==◌, if◌then◌else◌,
  Bool-cases,
}

-- The cursor has at most `n` bytes of the line before it.
abbrev pub Within : ℕ → State → Type 0
Within n s = length s.text ≤ n

set_cursor-Within : (n : ℕ) (p : Text) → length p ≤ n → Leaves (Within n) (set_cursor p)
set_cursor-Within n p h = record { at = λ s k. h }

shorter-After : (n : ℕ) (r : Result (ℕ × State)) → Ends (suc n) r → AfterOr Any (Within n) r
shorter-After n (ok (v, t)) h = omega (arith, h)
shorter-After n (err e) h = tt

Ends-above : (m n : ℕ) (r : Result (ℕ × State)) → m ≤ n → Ends m r → Ends n r
Ends-above m n (ok (v, t)) h k = omega (arith, h, k)
Ends-above m n (err e) h k = k

expression-Within : (n : ℕ) → Leaves (Within n) expression
expression-Within n = record {
  at = λ s h.
      shorter-After n (expression s)
        (Ends-above (length s.text) (suc n) (expression s) (omega (arith, h)) (expression-Ends s));
}

emit8-Within : (n b : ℕ) → Leaves (Within n) (emit8 b)
unfolding emit8
emit8-Within n b = record {
  at = λ s h. elim (Bool-cases (leb max_code_bytes (log_to_phy s.cur_pc))) [
    | inl full ↦ rw full tt
    | inr room ↦ rw room h
  ];
}

emit32-Within : (n w : ℕ) → Leaves (Within n) (emit32 w)
unfolding emit32
emit32-Within n w = record {
  at = λ s h. elim (Bool-cases (leb max_code_bytes (add32 (log_to_phy s.cur_pc) 3))) [
    | inl full ↦ rw full tt
    | inr room ↦ elim (Bool-cases (leb max_code_bytes (log_to_phy s.cur_pc))) [
      | inl outside ↦ rw (room, outside) tt
      | inr inside ↦ rw (room, inside) h
    ]
  ];
}

pub skip-Within : (n : ℕ) → Leaves (Within n) skip
skip-Within n = record { at = λ s h. omega (arith, h, skip_ws-length s.text) }

emit_bytes-Within : (n : ℕ) (bs : List ℕ) → Leaves (Within n) (emit_bytes bs)
unfolding emit_bytes
emit_bytes-Within n [] = record { at = λ s h. h }
emit_bytes-Within n (b ∷ bs) = record {
  at =
      (Keeps-then (emit8 (u8 b)) (emit_bytes bs) (emit8-Within n (u8 b))
        (emit_bytes-Within n bs)).at;
}

string_bytes-length : (p : Text) → length (string_bytes p).1 ≤ length p
unfolding string_bytes
string_bytes-length [] = omega arith
string_bytes-length (c ∷ []) = elim (Bool-cases (c == 0 || c == b'"')) [
  | inl e ↦ rw e (omega arith)
  | inr e ↦ rw e (omega arith)
]
string_bytes-length (c ∷ d ∷ p) = elim (Bool-cases (c == b'\\' && not (d == 0))) [
  | inl e ↦ rw (e, string_bytes) (omega (arith, string_bytes-length p))
  | inr e ↦ elim (Bool-cases (c == 0 || c == b'"')) [
    | inl f ↦ rw (e, f, string_bytes) (omega arith)
    | inr f ↦ rw (e, f, string_bytes) (omega (arith, string_bytes-length (d ∷ p)))
  ]
]

closed-length : (p : Text) → length (if peek p == b'"' then next p else p) ≤ length p
closed-length p = elim (Bool-cases (peek p == b'"')) [
  | inl e ↦ rw e (next-length p)
  | inr e ↦ rw e (omega arith)
]

string_item-Within :
    (n : ℕ) (r : List ℕ × Text) → length r.1 ≤ n → Leaves (Within n) (string_item r)
unfolding string_item
string_item-Within n (bs, rest) h =
    Keeps-then (emit_bytes bs) (set_cursor (if peek rest == b'"' then next rest else rest))
      (emit_bytes-Within n bs)
      (set_cursor-Within n (if peek rest == b'"' then next rest else rest)
        (omega (arith, closed-length rest, h)))

pub byte_item-Within : (n : ℕ) → Leaves (Within n) byte_item
unfolding byte_item
byte_item-Within n = record {
  at = λ s h.
      let q = skip_ws s.text in
      elim (Bool-cases (peek q == b'"')) [
        | inl e ↦ rw e (
            (string_item-Within n (string_bytes (next q)) (
                omega (
                  arith,
                  string_bytes-length (next q),
                  next-length q,
                  skip_ws-length s.text,
                  h,
                ))).at
              s h)
        | inr e ↦ rw e (
            (Keeps-bind expression (λ v. emit8 (u8 v)) (expression-Within n)
                (λ v. emit8-Within n (u8 v))).at
              s h)
      ];
}

pub word_item-Within : (n : ℕ) → Leaves (Within n) word_item
unfolding word_item
word_item-Within n = search (keeps_rules, expression-Within, emit8-Within) depth 12

pub long_item-Within : (n : ℕ) → Leaves (Within n) long_item
unfolding long_item
long_item-Within n = search (keeps_rules, expression-Within, emit8-Within) depth 12

pub dword_item-Within : (n : ℕ) → Leaves (Within n) dword_item
unfolding dword_item
dword_item-Within n = search (keeps_rules, expression-Within, emit32-Within) depth 12
