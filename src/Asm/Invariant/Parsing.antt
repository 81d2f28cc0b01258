-- ===== src/Asm/Invariant/Parsing.antt =====
-- The parsers keep the invariant: they move the cursor, and may enter a label.
use rsd_m.Asm.Expr.Total.{Ends, expression-Ends}
use rsd_m.Asm.Line.Base.{register_comma}
use rsd_m.Asm.Invariant.Tables.{add_label-Keeps}
use rsd_m.Asm.Invariant.{IsWell}
use rsd_m.Asm.Keeps.{
  Keeps, Keeps-pure, Keeps-bind, keeps_rules, Keeps-cursor, Keeps-then, Leaves, Keeps-Leaves, After,
  AfterOr, Any, Stops,
}
use rsd_m.Asm.Expr.{
  Atom, Binary, classify, binary_at, atom_value, operation_value, parse_atom, parse_expr,
  parse_operations, expression, resolve_symbol, resolve_label, resolve_constant, apply_prefix,
  apply_binary, paren, skip_close, here, number, symbol, neither,
}
use rsd_m.Asm.Lexer.{
  skip, parse_register, expect_comma, skip_ws, reject_flag_operand, register_at, register_in_range,
  register_alias,
}
use rsd_m.Asm.Symbols.{find_label, find_constant, add_label}
use rsd_m.Asm.State.{
  State, M, Label, set_cursor, pure, ◌>>=◌, ◌>>◌, cursor, Result, ok, err, Failure, out_of_fuel,
}
use rsd_m.Base.Text.{Text, next}
use rsd_m.Base.Lists.{length}
use rsd_m.Base.{ℕ, zero, suc, ◌+◌, ◌*◌, inl, inr, Bool, Option, none, some, Option-cases, ◌≢◌, refl}

pub retext-IsWell : (p : Text) (s : State) → IsWell s → IsWell (record s { text = p })
retext-IsWell p s h = record {
  bytes = h.bytes;
  top = h.top;
  pc = h.pc;
  labels = h.labels;
  constants = h.constants;
  fixups = h.fixups;
  filler = h.filler;
  places = h.places;
  addresses = h.addresses;
}

pub set_cursor-Keeps : (p : Text) → Keeps IsWell (set_cursor p)
set_cursor-Keeps p = record { at = λ s h. retext-IsWell p s h }

-- An action that starts at another place of the text.
pub moved-Leaves :
    {A : Type 0} (m : M A) (p : State → Text)
    → Leaves IsWell m
    → Leaves IsWell (λ s. m (record s { text = p s }))
moved-Leaves m p k = record { at = λ s h. k.at (record s { text = p s }) (retext-IsWell (p s) s h) }

add_label-Leaves : (n : Text) → Leaves IsWell (add_label n)
add_label-Leaves n = Keeps-Leaves (add_label n) (add_label-Keeps n)

resolve_label-Leaves : (n : Text) (l : Option Label) → Leaves IsWell (resolve_label n l)
unfolding resolve_label
resolve_label-Leaves n (some l) = search (keeps_rules, add_label-Leaves)
resolve_label-Leaves n none = search (keeps_rules, add_label-Leaves)

resolve_symbol-Leaves : (n : Text) → Leaves IsWell (resolve_symbol n)
unfolding resolve_symbol resolve_constant
resolve_symbol-Leaves n = record {
  at = λ s h. elim (Option-cases (find_constant s n)) [
    | inl e ↦ rw e ((resolve_label-Leaves n (find_label s n)).at s h)
    | inr (c, e) ↦ rw e h
  ];
}

atom_value-Leaves :
    (atom expr : M ℕ) (a : Atom)
    → Leaves IsWell atom
    → Leaves IsWell expr
    → Leaves IsWell (atom_value atom expr a)
unfolding atom_value
atom_value-Leaves atom expr (Atom.prefix op q) h k =
    moved-Leaves (do v ← atom; pure (apply_prefix op v)) (λ s. q) (search (keeps_rules, h))
atom_value-Leaves atom expr (paren q) h k =
    moved-Leaves (do v ← expr; p ← cursor; set_cursor (skip_close p); pure v) (λ s. q)
      (Keeps-bind expr (λ v. do p ← cursor; set_cursor (skip_close p); pure v) k
        (λ v.
          Keeps-bind cursor (λ p. do set_cursor (skip_close p); pure v) Keeps-cursor
            (λ p.
              Keeps-then (set_cursor (skip_close p)) (pure v)
                (Keeps-Leaves (set_cursor (skip_close p)) (set_cursor-Keeps (skip_close p)))
                (Keeps-pure v))))
atom_value-Leaves atom expr (here q) h k = record { at = λ s w. retext-IsWell q s w }
atom_value-Leaves atom expr (number v q) h k = record { at = λ s w. retext-IsWell q s w }
atom_value-Leaves atom expr (symbol n q) h k =
    moved-Leaves (resolve_symbol n) (λ s. q) (resolve_symbol-Leaves n)
atom_value-Leaves atom expr neither h k = record { at = λ s w. tt }

operation_value-Leaves :
    (atom : M ℕ) (more : ℕ → M ℕ) (v : ℕ) (op : Option Binary)
    → Leaves IsWell atom
    → ((w : ℕ) → Leaves IsWell (more w))
    → Leaves IsWell (operation_value atom more v op)
unfolding operation_value
operation_value-Leaves atom more v none h k = record {
  at = λ s w. retext-IsWell (skip_ws s.text) s w;
}
operation_value-Leaves atom more v (some op) h k =
    moved-Leaves (do d ← atom; more (apply_binary op v d)) (λ s. next (skip_ws s.text))
      (search (keeps_rules, h, k))

mutual
  unfolding parse_atom parse_expr parse_operations

  parse_atom-Leaves : (f : ℕ) → Leaves IsWell (parse_atom f)
  parse_atom-Leaves zero = record { at = λ s h. tt }
  parse_atom-Leaves (suc f) = record {
    at = λ s h.
        (atom_value-Leaves (parse_atom f) (parse_expr f) (classify (skip_ws s.text))
            (parse_atom-Leaves f) (parse_expr-Leaves f)).at
          s h;
  }

  parse_expr-Leaves : (f : ℕ) → Leaves IsWell (parse_expr f)
  parse_expr-Leaves zero = record { at = λ s h. tt }
  parse_expr-Leaves (suc f) = record {
    at =
        (Keeps-bind (parse_atom f) (parse_operations f) (parse_atom-Leaves f)
          (parse_operations-Leaves f)).at;
  }

  parse_operations-Leaves : (f v : ℕ) → Leaves IsWell (parse_operations f v)
  parse_operations-Leaves zero v = record { at = λ s h. tt }
  parse_operations-Leaves (suc f) v = record {
    at = λ s h.
        (operation_value-Leaves (parse_atom f) (parse_operations f) v (binary_at (skip_ws s.text))
            (parse_atom-Leaves f) (parse_operations-Leaves f)).at
          s h;
  }

reported_error : (e : Failure) → e ≢ out_of_fuel → Stops e
reported_error out_of_fuel h = h refl
reported_error _ h = tt

-- The fuel of `expression` is enough, so that its errors are the program's.
with-Ends : (n : ℕ) (r : Result (ℕ × State)) → AfterOr Any IsWell r → Ends n r → After IsWell r
with-Ends n (ok (v, t)) h k = h
with-Ends n (err e) h k = reported_error e k

pub expression-Keeps : Keeps IsWell expression
unfolding expression
expression-Keeps = record {
  at = λ s h.
      with-Ends (length s.text) (expression s) ((parse_expr-Leaves (2 * length s.text + 2)).at s h)
        (expression-Ends s);
}

pub skip-Keeps : Keeps IsWell skip
skip-Keeps = search (keeps_rules, set_cursor-Keeps)

register_in_range-Keeps : (fp : Bool) (n : ℕ) (p : Text) → Keeps IsWell (register_in_range fp n p)
unfolding register_in_range
register_in_range-Keeps fp n p = search (keeps_rules, set_cursor-Keeps) depth 12

register_alias-Keeps : (r : Option (ℕ × Text)) → Keeps IsWell (register_alias r)
unfolding register_alias
register_alias-Keeps none = search keeps_rules
register_alias-Keeps (some (r, p)) = search (keeps_rules, set_cursor-Keeps)

register_at-Keeps : (p : Text) → Keeps IsWell (register_at p)
unfolding register_at
register_at-Keeps p = search (keeps_rules, register_in_range-Keeps, register_alias-Keeps)

pub parse_register-Keeps : Keeps IsWell parse_register
unfolding parse_register
parse_register-Keeps = search (keeps_rules, register_at-Keeps)

pub expect_comma-Keeps : Keeps IsWell expect_comma
unfolding expect_comma
expect_comma-Keeps = search (keeps_rules, set_cursor-Keeps)

pub reject_flag_operand-Keeps : Keeps IsWell reject_flag_operand
unfolding reject_flag_operand
reject_flag_operand-Keeps = search (keeps_rules, set_cursor-Keeps)

pub register_comma-Keeps : Keeps IsWell register_comma
unfolding register_comma
register_comma-Keeps = search (keeps_rules, parse_register-Keeps, expect_comma-Keeps)
