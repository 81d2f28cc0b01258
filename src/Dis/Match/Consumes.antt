-- ===== src/Dis/Match/Consumes.antt =====
-- How many instructions a rule of `match_traditional` takes: never more than there are.
use rsd_m.Base.{
  ℕ, ◌≤◌, ◌≡◌, refl, ◌&&◌, Bool, true, false, List, [], ◌∷◌, Option, none, some, arith, ◌==◌,
  if◌then◌else◌,
}
use rsd_m.Base.Text.{Text, codes}
use rsd_m.Isa
use rsd_m.Dis.Decode.{Insn}
use rsd_m.Dis.Match.{Matched, one, two, when, with_next, for_register, ◌or_else◌}
use rsd_m.Dis.Match.Access.{
  nop_rule, transfer_name, transfer_rule, constant_rule, small_constant_rule, zero_rule,
  base_load_rule, base_store_rule, indirect_rule, push_rule, pull_rule,
}
use rsd_m.Dis.Match.Operations.{
  register_rules, step_rules, immediate_rules, shift_rule, bit_rules, indexed_rules, base_indexed,
  extension_rules, zext8_rule,
}
use rsd_m.Dis.Match.Rules.{rules, match_traditional, or_raw}
use Prim.Native.String.{String}

-- The instructions at hand.
abbrev pub window : Option Insn → ℕ
window none = 1
window (some b) = 2

-- A match takes at least one instruction, and no more than there are.
pub record Fits (next : Option Insn) (r : Option Matched) : Type 0 where
  pub bounds : (m : Matched) → r ≡ some m → (1 ≤ m.consumed) × (m.consumed ≤ window next)

module _ {next : Option Insn} where
  none-Fits : Fits next none
  none-Fits = record { bounds = λ m e. cc }

  one-Fits : (t : Text) → Fits next (one t)
  one-Fits t = record { bounds = λ m e. ground arith }

  when-Fits : (b : Bool) {r : Option Matched} → Fits next r → Fits next (when b r)
  when-Fits true h = h
  when-Fits false h = none-Fits

  or-Fits : {r s : Option Matched} → Fits next r → Fits next s → Fits next (r or_else s)
  or-Fits {r = none} h k = k
  or-Fits {r = some m} h k = h

  if-Fits :
      (b : Bool) {r s : Option Matched} → Fits next r → Fits next s → Fits next (if b then r else s)
  if-Fits true h k = h
  if-Fits false h k = k

  register-Fits :
      (table : List (ℕ × String)) (r : ℕ) {f : String → Option Matched}
      → ((name : String) → Fits next (f name))
      → Fits next (for_register table r f)
  register-Fits [] r h = none-Fits
  register-Fits ((k, name) ∷ rest) r h = if-Fits (k == r) (h name) (register-Fits rest r h)

  transfer_name-Fits :
      (table : List (ℕ × ℕ × String)) (d s : ℕ) → Fits next (transfer_name table d s)
  transfer_name-Fits [] d s = none-Fits
  transfer_name-Fits ((k, j, name) ∷ rest) d s =
      if-Fits (d == k && s == j) (one-Fits (codes name)) (transfer_name-Fits rest d s)

two-Fits : (b : Insn) (t : Text) → Fits (some b) (two t)
two-Fits b t = record { bounds = λ m e. ground arith }

next-Fits :
    (next : Option Insn) {f : Insn → Option Matched}
    → ((b : Insn) → Fits (some b) (f b))
    → Fits next (with_next next f)
next-Fits none h = none-Fits
next-Fits (some b) h = h b

ruleset fits = (
  when-Fits, or-Fits, one-Fits, two-Fits, next-Fits, register-Fits, transfer_name-Fits, none-Fits,
)

nop_rule-Fits : {next : Option Insn} (a : Insn) → Fits next (nop_rule a)
unfolding nop_rule
nop_rule-Fits a = search fits depth 9

transfer_rule-Fits : {next : Option Insn} (a : Insn) → Fits next (transfer_rule a)
unfolding transfer_rule
transfer_rule-Fits a = search fits depth 9

constant_rule-Fits : (next : Option Insn) (a : Insn) → Fits next (constant_rule a next)
unfolding constant_rule
constant_rule-Fits next a = search fits depth 9

small_constant_rule-Fits : {next : Option Insn} (a : Insn) → Fits next (small_constant_rule a)
unfolding small_constant_rule
small_constant_rule-Fits a = search fits depth 9

zero_rule-Fits : {next : Option Insn} (a : Insn) → Fits next (zero_rule a)
unfolding zero_rule
zero_rule-Fits a = search fits depth 9

base_load_rule-Fits : {next : Option Insn} (a : Insn) → Fits next (base_load_rule a)
unfolding base_load_rule
base_load_rule-Fits a = search fits depth 9

base_store_rule-Fits : {next : Option Insn} (a : Insn) → Fits next (base_store_rule a)
unfolding base_store_rule
base_store_rule-Fits a = search fits depth 9

indirect_rule-Fits : {next : Option Insn} (a : Insn) → Fits next (indirect_rule a)
unfolding indirect_rule
indirect_rule-Fits a = search fits depth 9

push_rule-Fits : (next : Option Insn) (a : Insn) → Fits next (push_rule a next)
unfolding push_rule
push_rule-Fits next a = search fits depth 9

pull_rule-Fits : (next : Option Insn) (a : Insn) → Fits next (pull_rule a next)
unfolding pull_rule
pull_rule-Fits next a = search fits depth 9

register_rules-Fits : {next : Option Insn} (a : Insn) → Fits next (register_rules a)
unfolding register_rules
register_rules-Fits a = search fits depth 14

step_rules-Fits : {next : Option Insn} (a : Insn) → Fits next (step_rules a)
unfolding step_rules
step_rules-Fits a = search fits depth 14

immediate_rules-Fits : {next : Option Insn} (a : Insn) → Fits next (immediate_rules a)
unfolding immediate_rules
immediate_rules-Fits a = search fits depth 14

shift_rule-Fits : {next : Option Insn} (a : Insn) → Fits next (shift_rule a)
unfolding shift_rule
shift_rule-Fits a = search fits depth 9

bit_rules-Fits : {next : Option Insn} (a : Insn) → Fits next (bit_rules a)
unfolding bit_rules
bit_rules-Fits a = search fits depth 9

indexed_rules-Fits : (next : Option Insn) (a : Insn) → Fits next (indexed_rules a next)
unfolding indexed_rules
indexed_rules-Fits next a = search fits depth 9

extension_rules-Fits : (next : Option Insn) (a : Insn) → Fits next (extension_rules a next)
unfolding extension_rules
extension_rules-Fits next a = search fits depth 9

zext8_rule-Fits : {next : Option Insn} (a : Insn) → Fits next (zext8_rule a)
unfolding zext8_rule
zext8_rule-Fits a = search fits depth 9

base_indexed-Fits :
    (next : Option Insn) (by_x : Bool) (index : ℕ) (suffix : Text) (a : Insn)
    → Fits next (base_indexed by_x index suffix a next)
base_indexed-Fits next by_x index suffix a = search fits depth 9

rules-Fits : (a : Insn) (next : Option Insn) → Fits next (rules a next)
unfolding rules
rules-Fits a next = or-Fits (nop_rule-Fits a) (
    or-Fits (transfer_rule-Fits a) (
      or-Fits (constant_rule-Fits next a) (
        or-Fits (small_constant_rule-Fits a) (
          or-Fits (zero_rule-Fits a) (
            or-Fits (base_load_rule-Fits a) (
              or-Fits (base_store_rule-Fits a) (
                or-Fits (indirect_rule-Fits a) (
                  or-Fits (push_rule-Fits next a) (
                    or-Fits (pull_rule-Fits next a) (
                      or-Fits (register_rules-Fits a) (
                        or-Fits (step_rules-Fits a) (
                          or-Fits (immediate_rules-Fits a) (
                            or-Fits (shift_rule-Fits a) (
                              or-Fits (bit_rules-Fits a) (
                                or-Fits (indexed_rules-Fits next a) (
                                  or-Fits (base_indexed-Fits next true Isa.reg_x (codes ",X") a) (
                                    or-Fits (base_indexed-Fits next false Isa.reg_y (codes ",Y") a)
                                      (or-Fits (extension_rules-Fits next a)
                                        (zext8_rule-Fits a)))))))))))))))))))

or_raw-bounds :
    (r : Option Matched) {next : Option Insn} (a : Insn) (pc : ℕ)
    → Fits next r
    → (1 ≤ (or_raw r a pc).consumed) × ((or_raw r a pc).consumed ≤ window next)
unfolding or_raw
or_raw-bounds (some m) a pc h = h.bounds m refl
or_raw-bounds none {next = none} a pc h = omega arith
or_raw-bounds none {next = some b} a pc h = omega arith

-- `match_traditional` takes one instruction or two, and two only where a second one is at hand.
pub match_traditional-window :
    (a : Insn) (next : Option Insn) (pc : ℕ)
    → (1 ≤ (match_traditional a next pc).consumed)
      × ((match_traditional a next pc).consumed ≤ window next)
unfolding match_traditional
match_traditional-window a next pc = or_raw-bounds (rules a next) a pc (rules-Fits a next)
