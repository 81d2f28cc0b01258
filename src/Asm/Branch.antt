-- ===== src/Asm/Branch.antt =====
-- References to labels: `emit_branch`, and the jump to a label that `JMP`, `JSR`, `JML` and
-- `JSL` share. A label not yet defined leaves a fixup and a word 0.
use rsd_m.Base.{ℕ, [], ◌∷◌, ◌++◌, Option, none, some, bit_and, leb, ◌==◌, if◌then◌else◌}
use rsd_m.Base.Lists.{length, take}
use rsd_m.Base.Text.{Text}
use rsd_m.Base.Word.{u32, shr, asr32, sub32}
use rsd_m.Asm.State.{
  Label, Fixup, FixupType, fix_b21, fix_j26, Action, done, fail, gets, ◌>>=◌, ◌>>◌, too_many_fixups,
  branch_unaligned,
}
use rsd_m.Asm.Symbols.{find_label, add_label}
use rsd_m.Asm.Code.{log_to_phy, emit32}
use rsd_m.Asm.Encode.{enc_b21, enc_j26}
use rsd_m.Asm.Operand.{Operand, parse_operand}

abbrev pub max_fixups : ℕ
max_fixups = 4096

-- `if (nfixups >= MAX_FIXUPS) error(...); fixups[nfixups++] = ...`, at the current place.
unfoldable pub add_fixup : FixupType → Text → ℕ → ℕ → ℕ → Action
unfolding log_to_phy
add_fixup kind label cond link opcode s =
    if leb max_fixups (length s.fixups)
    then fail too_many_fixups s
    else let fx : Fixup = record {
      code_offset = log_to_phy s.cur_pc;
      pc = s.cur_pc;
      label = take 63 label;
      kind = kind;
      line_num = s.line_num;
      cond = cond;
      link = link;
      opcode = opcode;
    } in
      done (record s { fixups = s.fixups ++ (fx ∷ []) })

-- `(int32_t)(addr - pc - 4)`.
abbrev pub displacement : ℕ → ℕ → ℕ
displacement addr pc = sub32 (sub32 addr pc) 4

abbrev pub branch_word : ℕ → ℕ → ℕ → ℕ
branch_word cond link disp = enc_b21 cond link (asr32 disp 2)

abbrev pub jump_word : ℕ → ℕ → ℕ
jump_word opcode addr = enc_j26 opcode (bit_and (shr addr 2) 0x3ffffff)

unfoldable pub branch_later : ℕ → ℕ → Text → Action
unfolding add_fixup
branch_later cond link label = do l ← add_label label; add_fixup fix_b21 label cond link 0; emit32 0

unfoldable pub branch_to : ℕ → ℕ → Text → Option Label → Action
unfolding branch_later
branch_to cond link label none s = branch_later cond link label s
branch_to cond link label (some l) s =
    let disp = displacement l.addr s.cur_pc in
    if l.defined
    then (if bit_and disp 3 == 0
        then emit32 (branch_word cond link disp) s
        else fail branch_unaligned s)
    else branch_later cond link label s

unfoldable pub emit_branch : ℕ → ℕ → Action
unfolding branch_to
emit_branch cond link = do
  op ← parse_operand
  found ← gets (λ s. find_label s op.label)
  pc ← gets (λ s. s.cur_pc)
  if op.has_label
      then branch_to cond link op.label found
      else emit32 (branch_word cond link (displacement (u32 op.value) pc))

unfoldable pub jump_later : ℕ → Text → Action
unfolding add_fixup
jump_later opcode label = do l ← add_label label; add_fixup fix_j26 label 0 0 opcode; emit32 0

unfoldable pub jump_to : ℕ → Text → Option Label → Action
unfolding jump_later
jump_to opcode label none = jump_later opcode label
jump_to opcode label (some l) =
    if l.defined then emit32 (jump_word opcode l.addr) else jump_later opcode label

-- The operand is a label, or a target address.
unfoldable pub jump_operand : ℕ → Operand → Action
unfolding jump_to
jump_operand opcode op = do
  found ← gets (λ s. find_label s op.label)
  if op.has_label then jump_to opcode op.label found else emit32 (jump_word opcode (u32 op.value))
