-- ===== src/Dis/Match/Rules.antt =====
-- `match_traditional`: its rules in order, and the fall back.
use rsd_m.Base.{ℕ, true, false, Option, none, some}
use rsd_m.Base.Text.{codes}
use rsd_m.Isa
use rsd_m.Dis.Decode.{Insn}
use rsd_m.Dis.Raw.{dis_raw}
use rsd_m.Dis.Match.{Matched, ◌or_else◌}
use rsd_m.Dis.Match.Access.{
  nop_rule, transfer_rule, constant_rule, small_constant_rule, zero_rule, base_load_rule,
  base_store_rule, indirect_rule, push_rule, pull_rule,
}
use rsd_m.Dis.Match.Operations.{
  register_rules, step_rules, immediate_rules, shift_rule, bit_rules, indexed_rules, base_indexed,
  extension_rules, zext8_rule,
}

-- The rules up to the fall back to `dis_raw`.
unfoldable pub rules : Insn → Option Insn → Option Matched
unfolding nop_rule transfer_rule constant_rule small_constant_rule zero_rule base_load_rule
    base_store_rule indirect_rule push_rule pull_rule register_rules step_rules immediate_rules
    shift_rule bit_rules indexed_rules extension_rules zext8_rule
rules a next =
    nop_rule a
    or_else transfer_rule a
    or_else constant_rule a next
    or_else small_constant_rule a
    or_else zero_rule a
    or_else base_load_rule a
    or_else base_store_rule a
    or_else indirect_rule a
    or_else push_rule a next
    or_else pull_rule a next
    or_else register_rules a
    or_else step_rules a
    or_else immediate_rules a
    or_else shift_rule a
    or_else bit_rules a
    or_else indexed_rules a next
    or_else base_indexed true Isa.reg_x (codes ",X") a next
    or_else base_indexed false Isa.reg_y (codes ",Y") a next
    or_else extension_rules a next
    or_else zext8_rule a

unfoldable pub or_raw : Option Matched → Insn → ℕ → Matched
or_raw (some m) a pc = m
or_raw none a pc = record { consumed = 1; out = dis_raw a pc }

unfoldable pub match_traditional : Insn → Option Insn → ℕ → Matched
unfolding rules or_raw
match_traditional a next pc = or_raw (rules a next) a pc
