-- ===== src/Asm/Invariant/Tests.antt =====
-- The invariant on concrete programs.
use rsd_m.Asm.Symbols.{find_constant}
use rsd_m.Asm.Operand.{parse_operand}
use rsd_m.Asm.Branch.{emit_branch}
use rsd_m.Asm.Line.Jumps.{branches}
use rsd_m.Asm.Line.Native.{native}
use rsd_m.Asm.Expr.{expression}
use rsd_m.Asm.Code.{emit32, patch32}
use rsd_m.Asm.Line.Base.{emit_nop}
use rsd_m.Asm.Line.Directives.{directive}
use rsd_m.Asm.Fixups.{resolve_fixups}
use rsd_m.Dis.HexIn.{read_hex}
use rsd_m.Asm.Invariant.{IsWell}
use rsd_m.Base.Text.{Text, codes}
use rsd_m.Asm.Program.{assemble, assemble_lines, fgets_from, write_hex}
use rsd_m.Asm.Line.Dispatch.{assemble_line}
use rsd_m.Asm.Invariant.Run.{initial-IsWell}
use rsd_m.Asm.Invariant.Program.{assemble-read_hex, resolve_fixups_inside, assemble_line-IsWell}
use rsd_m.Asm.State.{ok, err, memory_fault, State, Result, initial}
use rsd_m.Base.{◌≡◌, ◌≢◌, refl, []}

abbrev state_of : {A : Type 0} → Result (A × State) → State
state_of (ok (a, s)) = s
state_of (err e) = initial

-- A word of data behind a label.
abbrev data_line : Text
data_line = codes "L: .DWORD $12345678"

abbrev data_state : State
unfolding assemble_line
data_state = state_of (assemble_line data_line initial)

assemble_line-IsWell_example : IsWell data_state
unfolding assemble_line directive expression emit32
assemble_line-IsWell_example = assemble_line-IsWell data_line initial data_state initial-IsWell refl

-- A branch to a label that comes later.
abbrev forward : Text
forward = codes "BRA L\nNOP\nL: NOP\n"

abbrev forward_lines : State
unfolding assemble_lines fgets_from assemble_line
forward_lines = state_of (assemble_lines (fgets_from [] 1023 forward) initial)

resolve_fixups_inside_example : resolve_fixups forward_lines ≢ err memory_fault
unfolding assemble_lines fgets_from assemble_line directive native branches emit_branch
    parse_operand find_constant emit32 emit_nop
resolve_fixups_inside_example = resolve_fixups_inside forward forward_lines refl

abbrev forward_state : State
unfolding assemble
forward_state = state_of (assemble forward)

assemble-read_hex_example :
    (read_hex (write_hex forward_state)).code 0x1004 ≡ forward_state.code 0x1004
unfolding assemble assemble_line directive native branches emit_branch parse_operand find_constant
    emit32 emit_nop resolve_fixups patch32
assemble-read_hex_example =
    assemble-read_hex forward (write_hex forward_state) forward_state 0x1004 refl

-- A list of data, padding, and an expression that is not one.
abbrev broken : Text
broken = codes ".BYTE 1, 2, \"x\"\n.ALIGN 8\nLDA #)\n"
