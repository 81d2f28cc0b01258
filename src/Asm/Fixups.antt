-- ===== src/Asm/Fixups.antt =====
-- `resolve_fixups`: every forward reference gets its word, now that its label has an address.
pub mod Later
pub mod Reaches
use rsd_m.Base.{ℕ, List, [], ◌∷◌, Option, none, some, bit_and, ◌==◌, if◌then◌else◌}
use rsd_m.Asm.State.{
  Label, Fixup, FixupType, fix_b21, fix_j26, Action, ok, err, done, fail, undefined_label,
  branch_unaligned,
}
use rsd_m.Asm.Symbols.{find_label}
use rsd_m.Asm.Code.{patch32}
use rsd_m.Asm.Branch.{displacement, branch_word, jump_word}

unfoldable pub patch_fixup : FixupType → Fixup → ℕ → Action
patch_fixup fix_b21 fx addr =
    let disp = displacement addr fx.pc in
    if bit_and disp 3 == 0
    then patch32 fx.code_offset (branch_word fx.cond fx.link disp)
    else fail branch_unaligned
patch_fixup fix_j26 fx addr = patch32 fx.code_offset (jump_word fx.opcode addr)

unfoldable pub resolve_to : Fixup → Option Label → Action
unfolding patch_fixup
resolve_to fx none = fail undefined_label
resolve_to fx (some l) = if l.defined then patch_fixup fx.kind fx l.addr else fail undefined_label

unfoldable pub resolve_fixup : Fixup → Action
unfolding resolve_to
resolve_fixup fx s = resolve_to fx (find_label s fx.label) s

unfoldable pub resolve_list : List Fixup → Action
unfolding resolve_fixup
resolve_list [] s = done s
resolve_list (fx ∷ fxs) s = elim (resolve_fixup fx s) [
  | err e ↦ err e
  | ok (u, s') ↦ resolve_list fxs s'
]

unfoldable pub resolve_fixups : Action
unfolding resolve_list
resolve_fixups s = resolve_list s.fixups s
