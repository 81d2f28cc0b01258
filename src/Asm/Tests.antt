-- ===== src/Asm/Tests.antt =====
-- Runs of the assembler's functions, and its theorems on concrete states.
use rsd_m.Dis.Decode.{decode}
use rsd_m.Dis.Raw.{branch_target, jump_target}
use rsd_m.Base.Lists.{length}
use rsd_m.Asm.Symbols.Lookup.{Defines, define_label-outcomes}
use rsd_m.Asm.Encode.{enc_u20, enc_i13f, enc_r3, enc_b21, enc_m14}
use rsd_m.Asm.Line.Extended.{extended}
use rsd_m.Asm.Line.System.{system}
use rsd_m.Asm.Line.Alu.{alu_entries}
use rsd_m.Asm.Line.Simple.{simple, push_line}
use rsd_m.Asm.Lexer.{parse_register, expect_comma}
use rsd_m.Asm.Line.Base.{register_comma}
use rsd_m.Asm.Lower.{emit_load_const}
use rsd_m.Asm.Expr.{expression}
use rsd_m.Asm.Operand.{parse_operand}
use rsd_m.Asm.Line.Traditional.{traditional, load_line, store_line}
use rsd_m.Asm.Line.Jumps.{branches, jumps}
use rsd_m.Asm.Line.Native.{native, move_line}
use rsd_m.Asm.Line.Directives.{directive}
use rsd_m.Asm.Line.Dispatch.{assemble_line}
use rsd_m.Base.{ℕ, ◌+◌, ◌^◌, ◌≤◌, ◌<◌, ◌≡◌, refl, ◌⊎◌, true, some, List, [], ◌∷◌, arith, none, ◌++◌}
use rsd_m.Base.Text.{Text, codes}
use rsd_m.Base.Word.{add32}
use rsd_m.Isa.{op_jmp_abs, op_br}
use rsd_m.Asm.State.{
  State, Label, Fixup, initial, Result, ok, err, code_overflow, memory_fault, ◌>>◌, duplicate_label,
  too_many_labels,
}
use rsd_m.Asm.Code.{read32, emit32, log_to_phy, max_code_bytes, patch32}
use rsd_m.Asm.Code.Emission.{Stored, patched, emit32-outcomes}
use rsd_m.Asm.Symbols.{find_label, find_constant, define_label, max_labels, add_label}
use rsd_m.Asm.Branch.{branch_to, jump_to, emit_branch, branch_later, jump_later}
use rsd_m.Asm.Fixups.{resolve_fixup, resolve_fixups}
use rsd_m.Asm.Fixups.Reaches.{resolve-branch, resolve-jump}
use rsd_m.Asm.Program.{assemble_lines}

abbrev words : Result (Unit {0} × State) → List ℕ
words (ok (v, s)) =
    read32 s.code 0x1000
    ∷ read32 s.code 0x1004
    ∷ read32 s.code 0x1008
    ∷ read32 s.code 0x100c
    ∷ read32 s.code 0x1010
    ∷ s.cur_pc
    ∷ s.max_phy
    ∷ []
words _ = []

abbrev program : List Text
program =
    codes "start: LDA #$12345\n"
    ∷ codes "  xadd r1, R2, r3 ; c\n"
    ∷ codes "BEQ end\n"
    ∷ codes "end: PHA"
    ∷ []

-- A constant in two words, an operation, a branch to a later label, and a push in two words.
program_run :
    words ((assemble_lines program >> resolve_fixups) initial)
    ≡ 0x7b80_0012 ∷ 0x1f8e_068a ∷ 0x0010_8300 ∷ 0x9400_0000 ∷ 0x0fbe_c008 ∷ 0x1018 ∷ 0x1018 ∷ []
unfolding assemble_lines resolve_fixups read32 assemble_line directive native branches jumps
    traditional load_line parse_operand expression emit_load_const emit32 register_comma
    parse_register expect_comma emit_branch find_constant simple alu_entries system extended
    push_line store_line move_line patch32 enc_u20 enc_i13f enc_r3 enc_b21 enc_m14
program_run = refl

emit32-outcomes_example :
    let p = log_to_phy initial.cur_pc in
    ((p + 4 ≤ max_code_bytes)
      × ((t : State) × (emit32 0x8001 initial ≡ ok (tt, t))
          × Stored p 0x8001 initial t
          × (t.cur_pc ≡ add32 initial.cur_pc 4)
          × (p + 4 ≤ t.max_phy)))
    ⊎ ((max_code_bytes < p + 4) × (p + 3 < 2 ^ 32) × (emit32 0x8001 initial ≡ err code_overflow))
    ⊎ ((2 ^ 32 ≤ p + 3) × (emit32 0x8001 initial ≡ err memory_fault))
emit32-outcomes_example = emit32-outcomes 0x8001 initial (omega arith) (omega arith)

-- A label further on, and the references to it.
abbrev label_end : Label
label_end = record { name = codes "end"; addr = 0x1010; defined = true }

abbrev labelled : State
labelled = record initial { labels = label_end ∷ [] }

found : find_label labelled (codes "END") ≡ some label_end
unfolding find_label
found = refl

-- `BNE END` and `JMP END` at 0x1000, and the state in which `END` stands at 0x1010.
abbrev after : Result (Unit {0} × State) → State
after (ok (u, s)) = s
after (err e) = initial

resolve-branch_example :
    (fx : Fixup) × (w : ℕ) × ((after (branch_later 1 0 (codes "END") initial)).fixups
      ≡ [] ++ (fx ∷ []))
    × (resolve_fixup fx labelled ≡ ok (tt, patched (log_to_phy 0x1000) w labelled))
    × (branch_to 1 0 (codes "END") (some label_end) initial ≡ emit32 w initial)
    × ((decode w).op ≡ op_br)
    × ((decode w).cond ≡ 1)
    × ((decode w).link ≡ 0)
    × (branch_target 0x1000 (decode w).off21 ≡ 0x1010)
unfolding branch_later emit32 add_label
resolve-branch_example =
    resolve-branch 1 0 (codes "END") initial (after (branch_later 1 0 (codes "END") initial))
      labelled label_end (omega arith) (omega arith) (omega arith) (omega arith) refl (omega arith)
      refl found refl

resolve-jump_example :
    (fx : Fixup) × (w : ℕ) × ((after (jump_later op_jmp_abs (codes "END") initial)).fixups
      ≡ [] ++ (fx ∷ []))
    × (resolve_fixup fx labelled ≡ ok (tt, patched (log_to_phy 0x1000) w labelled))
    × (jump_to op_jmp_abs (codes "END") (some label_end) initial ≡ emit32 w initial)
    × ((decode w).op ≡ op_jmp_abs)
    × (jump_target 0x1000 (decode w).target26 ≡ 0x1010)
unfolding jump_later emit32 add_label
resolve-jump_example =
    resolve-jump op_jmp_abs (codes "END") initial
      (after (jump_later op_jmp_abs (codes "END") initial)) labelled label_end (omega arith)
      (omega arith) (omega arith) refl refl refl found refl

-- `loop:` in a table that holds `end`.
define_label-outcomes_example :
    ((l : Label) × (find_label labelled (codes "loop") ≡ some l)
      × (l.defined ≡ true)
      × (define_label (codes "loop") labelled ≡ err duplicate_label))
    ⊎ ((find_label labelled (codes "loop") ≡ none)
        × (max_labels ≤ length labelled.labels)
        × (define_label (codes "loop") labelled ≡ err too_many_labels))
    ⊎ ((t : State) × (define_label (codes "loop") labelled ≡ ok (tt, t))
        × Defines (codes "loop") labelled t)
define_label-outcomes_example = define_label-outcomes (codes "loop") labelled (omega arith)

-- `(2+end)*4`
abbrev at_expression : State
at_expression = record labelled { text = codes "(2+end)*4" }
