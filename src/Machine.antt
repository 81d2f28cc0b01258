-- ===== src/Machine.antt =====
-- What the instructions that the assembler lowers to do, as the core's decoder has it
-- (Processor/Src/Decoder/Decoder.sv): R0 reads 0, ADDI and LD extend the sign of their immediate,
-- ORI extends with zeros, and LUI shifts by 12. Flags are left out.
pub mod Steps
pub mod Constants
pub mod Absolute
mod Tests
use rsd_m.Base.{
  ℕ, zero, suc, ◌+◌, ◌-◌, ◌*◌, ◌/◌, ◌%◌, ◌^◌, ◌≤◌, ◌<◌, ◌≡◌, refl, sym, ap, ◌∙◌, ◌≢◌, ◌↔◌, ◌⊎◌, inl,
  inr, Bool, true, false, not, ◌&&◌, ◌||◌, Option, none, some, List, [], ◌∷◌, ◌++◌, arith, ltb, leb,
  ◌==◌, if◌then◌else◌, leb→le, leb→gt, ltb→lt, lt→ltb, gt→leb, le→leb, ==_iff, Bool-cases, bit_and,
  bit_or,
}
use rsd_m.Asm.Code.{emit32}
use rsd_m.Asm.State.{Action, done, ◌>>◌}
use rsd_m.Base.Word.{add32, shl}
use rsd_m.Isa.{op_add, op_addi, op_ori, op_lui, op_ld, op_xfer}
use rsd_m.Dis.Decode.{Insn, decode}

pub record Machine : Type 0 where
  pub regs : ℕ → ℕ
  pub mem : ℕ → ℕ

abbrev pub reg : Machine → ℕ → ℕ
reg m r = if r == 0 then 0 else m.regs r

abbrev pub set_reg : ℕ → ℕ → Machine → Machine
set_reg rd v m = record m { regs = λ r. if r == rd then v else m.regs r }

unfoldable pub exec : Insn → Machine → Machine
exec i m =
    if i.op == op_addi
    then set_reg i.rd (add32 (reg m i.rs1) i.imm13) m
    else if i.op == op_ori
    then set_reg i.rd (bit_or (reg m i.rs1) (i.imm13 % 2 ^ 13)) m
    else if i.op == op_lui
    then set_reg i.rd (shl i.imm20 12) m
    else if i.op == op_add
    then set_reg i.rd (add32 (reg m i.rs1) (reg m i.rs2)) m
    else if i.op == op_ld
    then set_reg i.rd (m.mem (add32 (reg m i.rs1) i.off14)) m
    else if i.op == op_xfer
    then set_reg i.rd (reg m i.rs1) m
    else m

-- The words of a list, one after the other.
unfoldable pub exec_words : List ℕ → Machine → Machine
unfolding exec
exec_words [] m = m
exec_words (w ∷ ws) m = exec_words ws (exec (decode w) m)

unfoldable pub emit_words : List ℕ → Action
emit_words [] = done
emit_words (w ∷ ws) = emit32 w >> emit_words ws
