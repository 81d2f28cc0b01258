-- ===== src/Asm/Invariant/Operands.antt =====
-- `parse_operand` keeps the invariant.
use rsd_m.Asm.Invariant.Parsing.{retext-IsWell, set_cursor-Keeps, expression-Keeps}
use rsd_m.Asm.Lower.{AddrMode}
use rsd_m.Asm.Invariant.{IsWell}
use rsd_m.Asm.Keeps.{Keeps, keeps_rules}
use rsd_m.Base.Text.{Text}
use rsd_m.Asm.Operand.{
  parse_operand, immediate_operand, operand_at, symbol_operand, indirect_operand, numeric_operand,
  long_operand, with_mode, base_operand, bracket_value,
}
use rsd_m.Base.{ℕ}

with_mode-Keeps : (v : ℕ) (r : AddrMode × Text) → Keeps IsWell (with_mode v r)
unfolding with_mode
with_mode-Keeps v (m, p) = search (keeps_rules, set_cursor-Keeps)

bracket_value-Keeps : (close : ℕ) → Keeps IsWell (bracket_value close)
unfolding bracket_value
bracket_value-Keeps close = search (keeps_rules, set_cursor-Keeps, expression-Keeps) depth 12

indirect_operand-Keeps : Keeps IsWell indirect_operand
unfolding indirect_operand
indirect_operand-Keeps =
    search (keeps_rules, set_cursor-Keeps, bracket_value-Keeps, with_mode-Keeps) depth 12

long_operand-Keeps : Keeps IsWell long_operand
unfolding long_operand
long_operand-Keeps =
    search (keeps_rules, set_cursor-Keeps, bracket_value-Keeps, with_mode-Keeps) depth 12

immediate_operand-Keeps : Keeps IsWell immediate_operand
unfolding immediate_operand
immediate_operand-Keeps = search (keeps_rules, expression-Keeps)

base_operand-Keeps : Keeps IsWell base_operand
unfolding base_operand
base_operand-Keeps = search (keeps_rules, expression-Keeps, with_mode-Keeps)

symbol_operand-Keeps : Keeps IsWell symbol_operand
unfolding symbol_operand
symbol_operand-Keeps = record { at = λ s h. retext-IsWell _ s h }

numeric_operand-Keeps : Keeps IsWell numeric_operand
unfolding numeric_operand
numeric_operand-Keeps = search (keeps_rules, expression-Keeps, with_mode-Keeps)

operand_at-Keeps : (p : Text) → Keeps IsWell (operand_at p)
unfolding operand_at
operand_at-Keeps p =
    search
      (
        keeps_rules, set_cursor-Keeps, with_mode-Keeps, indirect_operand-Keeps, long_operand-Keeps,
        immediate_operand-Keeps, base_operand-Keeps, symbol_operand-Keeps, numeric_operand-Keeps,
      )
      depth 30

pub parse_operand-Keeps : Keeps IsWell parse_operand
unfolding parse_operand
parse_operand-Keeps = search (keeps_rules, operand_at-Keeps)
