-- ===== src/Asm/Expr/Total.antt =====
-- The expression parser always ends: the fuel that `expression` gives is enough.
use rsd_m.Asm.Expr.Lengths.{Small, skip_ws-length, next-length, classify-Small}
use rsd_m.Asm.Symbols.Lookup.{add_label-found, add_label-fresh, add_label-full}
use rsd_m.Base.{
  ℕ, zero, suc, ◌+◌, ◌*◌, ◌≤◌, ◌<◌, ◌≡◌, refl, ◌≢◌, ◌⊎◌, inl, inr, Option, none, some, [], ◌∷◌,
  arith, leb, Bool-cases, Option-cases,
}
use rsd_m.Base.Lists.{length}
use rsd_m.Base.Text.{Text, next}
use rsd_m.Asm.State.{
  State, Label, Constant, Result, ok, err, M, out_of_fuel, bad_expression, too_many_labels, pure,
  ◌>>=◌,
}
use rsd_m.Asm.Symbols.{find_label, find_constant, add_label, max_labels}
use rsd_m.Asm.Lexer.{skip_ws}
use rsd_m.Asm.Expr.{
  Atom, prefix, paren, here, number, symbol, neither, classify, resolve_label, resolve_constant,
  resolve_symbol, Binary, binary_at, skip_close, parse_atom, parse_expr, parse_operations,
  expression, apply_prefix, apply_binary, atom_value, operation_value,
}

-- The parser ends: it does not run out of fuel, and a value leaves less than `n` bytes.
abbrev pub Ends : ℕ → Result (ℕ × State) → Type 0
Ends n (ok (v, t)) = length t.text < n
Ends n (err e) = e ≢ out_of_fuel

Ends-bind :
    (n k : ℕ) (r : Result (ℕ × State)) (f : ℕ → M ℕ)
    → Ends n r
    → ((v : ℕ) (t : State) → length t.text < n → Ends k (f v t))
    → Ends k (elim r [ err e ↦ err e | ok (a, s') ↦ f a s' ])
Ends-bind n k (ok (v, t)) f h g = g v t h
Ends-bind n k (err e) f h g = h

-- The errors of the parser are not the fuel's.
too_many-not_fuel : too_many_labels ≢ out_of_fuel
too_many-not_fuel e = cc

bad-not_fuel : bad_expression ≢ out_of_fuel
bad-not_fuel e = cc

-- A label or a constant leaves the text alone.
add_label-Ends :
    (n : ℕ) (name : Text) (s : State)
    → length s.text < n
    → Ends n ((do entry ← add_label name; pure 0) s)
add_label-Ends n name s h = elim (Option-cases (find_label s name)) [
  | inr (l, e) ↦ rw (◌>>=◌, add_label-found name s l e) h
  | inl e ↦ elim (Bool-cases (leb max_labels (length s.labels))) [
    | inl full ↦ rw (◌>>=◌, add_label-full name s e full) too_many-not_fuel
    | inr room ↦ rw (◌>>=◌, add_label-fresh name s e room) h
  ]
]

resolve_label-Ends :
    (n : ℕ) (name : Text) (o : Option Label) (s : State)
    → length s.text < n
    → Ends n (resolve_label name o s)
unfolding resolve_label
resolve_label-Ends n name none s h = add_label-Ends n name s h
resolve_label-Ends n name (some l) s h = elim (Bool-cases l.defined) [
  | inl yes_defined ↦ rw yes_defined h
  | inr later ↦ rw later (add_label-Ends n name s h)
]

resolve_constant-Ends :
    (n : ℕ) (name : Text) (o : Option Constant) (s : State)
    → length s.text < n
    → Ends n (resolve_constant name o s)
unfolding resolve_constant
resolve_constant-Ends n name none s h = resolve_label-Ends n name (find_label s name) s h
resolve_constant-Ends n name (some c) s h = h

resolve_symbol-Ends :
    (n : ℕ) (name : Text) (s : State) → length s.text < n → Ends n (resolve_symbol name s)
unfolding resolve_symbol
resolve_symbol-Ends n name s h = resolve_constant-Ends n name (find_constant s name) s h

skip_close-length : (p : Text) → length (skip_close p) ≤ length p
skip_close-length p = ground (arith, skip_ws-length p, next-length (skip_ws p))

-- An operator is a byte of the text.
binary_at-cases : (p : Text) → (binary_at p ≡ none) ⊎ (length (next p) < length p)
unfolding binary_at
binary_at-cases [] = inl refl
binary_at-cases (c ∷ p) = inr (omega arith)

Ends-more : (m n : ℕ) (r : Result (ℕ × State)) → m ≤ n → Ends m r → Ends n r
Ends-more m n (ok (v, t)) h k = omega (arith, h, k)
Ends-more m n (err e) h k = k

Small-more : (m n : ℕ) (a : Atom) → m ≤ n → Small m a → Small n a
Small-more m n (prefix op q) h k = record { smaller = omega (arith, k.smaller) }
Small-more m n (paren q) h k = record { smaller = omega (arith, k.smaller) }
Small-more m n (here q) h k = record { smaller = omega (arith, k.smaller) }
Small-more m n (number v q) h k = record { smaller = omega (arith, k.smaller) }
Small-more m n (symbol x q) h k = record { smaller = omega (arith, k.smaller) }
Small-more m n neither h k = record { smaller = omega arith }

-- A parser that ends on less than `n` bytes.
EndsBelow : ℕ → M ℕ → Type 0
EndsBelow n m = (s : State) → length s.text < n → Ends (length s.text) (m s)

atom_value-Ends :
    (n : ℕ) (atom expr : M ℕ) (a : Atom) (s : State)
    → EndsBelow n atom
    → EndsBelow n expr
    → Small n a
    → Ends n (atom_value atom expr a s)
unfolding atom_value EndsBelow
atom_value-Ends n atom expr (prefix op q) s ha he l =
    let t = record s { text = q } in
    Ends-bind n n (atom t) (λ v. pure (apply_prefix op v))
      (Ends-more (length q) n (atom t) (omega (arith, l.smaller)) (ha t l.smaller)) (λ v u h. h)
atom_value-Ends n atom expr (paren q) s ha he l =
    let t = record s { text = q } in
    Ends-bind n n (expr t) (λ v u. ok (v, record u { text = skip_close u.text }))
      (Ends-more (length q) n (expr t) (omega (arith, l.smaller)) (he t l.smaller))
      (λ v u h. omega (arith, h, skip_close-length u.text))
atom_value-Ends n atom expr (here q) s ha he l = l.smaller
atom_value-Ends n atom expr (number v q) s ha he l = l.smaller
atom_value-Ends n atom expr (symbol m q) s ha he l =
    resolve_symbol-Ends n m (record s { text = q }) l.smaller
atom_value-Ends n atom expr neither s ha he l = bad-not_fuel

operation_value-Ends :
    (n v : ℕ) (atom : M ℕ) (more : ℕ → M ℕ) (o : Option Binary) (s : State)
    → length s.text < n
    → (o ≡ none) ⊎ (length (next (skip_ws s.text)) < length s.text)
    → EndsBelow (length s.text) atom
    → ((d : ℕ) (t : State) → length t.text < length s.text → Ends (length s.text) (more d t))
    → Ends n (operation_value atom more v o s)
unfolding operation_value EndsBelow
operation_value-Ends n v atom more none s l h ha hm = omega (arith, l, skip_ws-length s.text)
operation_value-Ends n v atom more (some op) s l (inl e) ha hm = absurd cc
operation_value-Ends n v atom more (some op) s l (inr h) ha hm =
    let t = record s { text = next (skip_ws s.text) } in
    Ends-bind (length s.text) n (atom t) (λ d. more (apply_binary op v d))
      (Ends-more (length t.text) (length s.text) (atom t) (omega (arith, h)) (ha t h))
      (λ d u k.
        Ends-more (length s.text) n (more (apply_binary op v d) u) (omega (arith, l))
          (hm (apply_binary op v d) u k))

-- An operator's byte is taken off the text.
shorter :
    (s : State)
    → (binary_at (skip_ws s.text) ≡ none) ⊎ (length (next (skip_ws s.text)) < length s.text)
shorter s = elim (binary_at-cases (skip_ws s.text)) [
  | inl e ↦ inl e
  | inr h ↦ inr (omega (arith, h, skip_ws-length s.text))
]

mutual
  unfolding parse_atom EndsBelow

  atom-Ends :
      (f : ℕ) (s : State) → 2 * length s.text + 1 ≤ f → Ends (length s.text) (parse_atom f s)
  atom-Ends zero s h = absurd (omega (arith, h))
  atom-Ends (suc f) s h =
      atom_value-Ends (length s.text) (parse_atom f) (parse_expr f) (classify (skip_ws s.text)) s
        (λ t l. atom-Ends f t (omega (arith, h, l))) (λ t l. expr-Ends f t (omega (arith, h, l)))
        (Small-more (length (skip_ws s.text)) (length s.text) (classify (skip_ws s.text))
          (skip_ws-length s.text) (classify-Small (skip_ws s.text)))

  expr-Ends :
      (f : ℕ) (s : State) → 2 * length s.text + 2 ≤ f → Ends (length s.text) (parse_expr f s)
  expr-Ends zero s h = absurd (omega (arith, h))
  expr-Ends (suc f) s h =
      Ends-bind (length s.text) (length s.text) (parse_atom f s) (parse_operations f)
        (atom-Ends f s (omega (arith, h)))
        (λ v t l. operations-Ends f v (length s.text) t (omega (arith, h, l)) l)

  operations-Ends :
      (f v n : ℕ) (s : State)
      → 2 * length s.text + 1 ≤ f
      → length s.text < n
      → Ends n (parse_operations f v s)
  operations-Ends zero v n s h k = absurd (omega (arith, h))
  operations-Ends (suc f) v n s h k =
      operation_value-Ends n v (parse_atom f) (parse_operations f) (binary_at (skip_ws s.text)) s k
        (shorter s) (λ t l. atom-Ends f t (omega (arith, h, l)))
        (λ d t l. operations-Ends f d (length s.text) t (omega (arith, h, l)) l)

pub expression-Ends : (s : State) → Ends (length s.text) (expression s)
unfolding expression
expression-Ends s = expr-Ends (2 * length s.text + 2) s (omega arith)
