-- ===== src/Asm/Invariant.antt =====
-- What holds of the assembler's state between any two lines.
pub mod Stores
pub mod Tables
pub mod Parsing
pub mod Operands
pub mod Lowering
pub mod Offers
pub mod Jumps
pub mod Shrinks
pub mod Directives
pub mod Native
pub mod Traditional
pub mod System
pub mod Run
pub mod Program
pub mod Finish
mod Tests
use rsd_m.Base.{
  ℕ, zero, suc, ◌+◌, ◌-◌, ◌*◌, ◌/◌, ◌%◌, ◌^◌, ◌≤◌, ◌<◌, ◌≡◌, refl, sym, ap, ◌∙◌, ◌≢◌, ◌↔◌, ◌⊎◌, inl,
  inr, Bool, true, false, not, ◌&&◌, ◌||◌, Option, none, some, List, [], ◌∷◌, ◌++◌, arith, ltb, leb,
  ◌==◌, if◌then◌else◌, leb→le, leb→gt, ltb→lt, lt→ltb, gt→leb, le→leb, ==_iff, Bool-cases, bit_and,
  bit_or,
}
use rsd_m.Base.Lists.{length}
use rsd_m.Asm.State.{State, Label, Fixup}
use rsd_m.Asm.Symbols.{max_labels}
use rsd_m.Asm.Code.{max_code_bytes}
use rsd_m.Asm.Branch.{max_fixups}

-- The place of every fixup has room below `top` for the word that will be patched in.
abbrev pub InBuffer : ℕ → List Fixup → Type 0
InBuffer top [] = Unit
InBuffer top (fx ∷ fxs) = (fx.code_offset + 4 ≤ top) × InBuffer top fxs

pub InBuffer-mono : (a b : ℕ) (fs : List Fixup) → a ≤ b → InBuffer a fs → InBuffer b fs
InBuffer-mono a b [] h k = tt
InBuffer-mono a b (fx ∷ fs) h k = (omega (arith, h, k.0), InBuffer-mono a b fs h k.1)

-- Every label's address is a 32-bit number.
abbrev pub Addresses : List Label → Type 0
Addresses [] = Unit
Addresses (l ∷ ls) = (l.addr < 2 ^ 32) × Addresses ls

-- The buffer holds bytes, its end is within it, with the filler behind it and the place of every
-- fixup before it, the program counter has 32 bits, and no table is fuller than the source's array.
pub record IsWell (s : State) : Type 0 where
  pub bytes : (q : ℕ) → s.code q < 256
  pub top : s.max_phy ≤ max_code_bytes
  pub pc : s.cur_pc < 2 ^ 32
  pub labels : length s.labels ≤ max_labels
  pub constants : length s.constants ≤ max_labels
  pub fixups : length s.fixups ≤ max_fixups
  pub filler : (q : ℕ) → s.max_phy ≤ q → s.code q ≡ 0xcd
  pub places : InBuffer s.max_phy s.fixups
  pub addresses : Addresses s.labels
