-- ===== src/Dis/Match.antt =====
-- `match_traditional`: one or two instructions back to the traditional notation. `b` is the next
-- instruction, where `count >= 2`. The rules stand in the order of the source.
pub mod Access
pub mod Operations
pub mod Rules
pub mod Consumes
use rsd_m.Base.{
  ℕ, Bool, true, false, ◌&&◌, ◌||◌, List, [], ◌∷◌, ◌++◌, Option, none, some, bit_and, bit_or, leb,
  ltb, ◌==◌, if◌then◌else◌,
}
use rsd_m.Base.Text.{Text, codes}
use rsd_m.Base.Word.{u32, shl, shr}
use rsd_m.Isa
use rsd_m.Dis.Decode.{Insn}
use rsd_m.Dis.Print.{show_unsigned, show_signed, show_hex, reg_name}
use rsd_m.Dis.Raw.{comma, raw_imm, shift_kind, shift_amount, dis_raw}
use Prim.Native.String.{String}

-- How many instructions were read, and what to print.
pub record Matched : Type 0 where
  pub consumed : ℕ
  pub out : Text

abbrev pub one : Text → Option Matched
one t = some (record { consumed = 1; out = t })

abbrev pub two : Text → Option Matched
two t = some (record { consumed = 2; out = t })

abbrev pub when : Bool → Option Matched → Option Matched
when true m = m
when false m = none

infixr 5 ◌or_else◌
abbrev pub ◌or_else◌ : Option Matched → Option Matched → Option Matched
some m or_else other = some m
none or_else other = other

abbrev pub with_next : Option Insn → (Insn → Option Matched) → Option Matched
with_next none f = none
with_next (some b) f = f b

-- R1 to R55, which have no other name.
abbrev pub is_gpr : ℕ → Bool
is_gpr r = ltb 0 r && leb r 55

abbrev pub numbered : Text → ℕ → Text
numbered name r = name ++ (codes " R" ++ show_unsigned r)

-- The name that a table gives to a register.
abbrev pub for_register : List (ℕ × String) → ℕ → (String → Option Matched) → Option Matched
for_register [] r f = none
for_register ((k, name) ∷ rest) r f = if k == r then f name else for_register rest r f
