-- ===== src/Asm/Invariant/Program.antt =====
-- What the invariant gives for a run: `assemble_line` on any line, the places that
-- `resolve_fixups` writes to, and the output file as the disassembler reads it.
use mathlib.Core.Path.{subst}
use rsd_m.RoundTrip.HexFile.{read_hex-write_hex}
use rsd_m.Asm.Code.Emission.{patch32_ok}
use rsd_m.Asm.Symbols.{find_label}
use rsd_m.Asm.Branch.{displacement, branch_word, jump_word}
use rsd_m.Dis.HexIn.{read_hex}
use rsd_m.Asm.Invariant.Run.{
  assemble_line-Keeps, assemble-After, assemble_lines-Keeps, initial-IsWell,
}
use rsd_m.Asm.Code.{max_code_bytes}
use rsd_m.Asm.Line.Dispatch.{assemble_line}
use rsd_m.Asm.Keeps.{After}
use rsd_m.Base.Text.{Text}
use rsd_m.Asm.Program.{assemble, write_hex, hex_end, assemble_lines, fgets_from, hex_lines}
use rsd_m.Asm.Fixups.{patch_fixup, resolve_list, resolve_to, resolve_fixup, resolve_fixups}
use rsd_m.Asm.Invariant.{IsWell, InBuffer, InBuffer-mono}
use rsd_m.Asm.State.{
  State, fix_b21, fix_j26, ok, err, memory_fault, Result, Fixup, FixupType, Label, initial, gets,
  ◌>>◌,
}
use rsd_m.Base.{
  refl, ℕ, ◌+◌, ◌==◌, ◌≡◌, ◌≢◌, ◌≤◌, none, some, Option, List, [], ◌∷◌, Bool-cases, inl, inr,
  bit_and, ap, ◌/◌, leb, leb→le, leb→gt, sym, ◌∙◌, arith,
}

After-value :
    {A : Type 0} (P : State → Type 0) (r : Result (A × State)) (a : A) (t : State)
    → After P r
    → r ≡ ok (a, t)
    → P t
After-value P r a t h e = subst (λ q. After P q) e h

-- A line that is assembled leaves the state well-formed if it was before: bytes in the buffer,
-- its end within it, with the filler behind it and every fixup's place before it, a 32-bit program
-- counter, and no table over its limit.
pub assemble_line-IsWell :
    (line : Text) (s t : State) → IsWell s → assemble_line line s ≡ ok (tt, t) → IsWell t
assemble_line-IsWell line s t h e =
    After-value IsWell (assemble_line line s) tt t ((assemble_line-Keeps line).at s h) e

-- No access outside the buffer.
abbrev Inside : Result (Unit {0} × State) → Type 0
Inside r = r ≢ err memory_fault

patch_fixup-Inside :
    (k : FixupType) (fx : Fixup) (addr : ℕ) (s : State)
    → fx.code_offset + 4 ≤ max_code_bytes
    → Inside (patch_fixup k fx addr s)
unfolding patch_fixup
patch_fixup-Inside fix_b21 fx addr s h =
    elim (Bool-cases (bit_and (displacement addr fx.pc) 3 == 0)) [
      | inl e ↦
          rw
            (
              e,
              patch_fixup,
              patch32_ok fx.code_offset (branch_word fx.cond fx.link (displacement addr fx.pc)) s h,
            )
            (λ q. cc)
      | inr e ↦ rw (e, patch_fixup) (λ q. cc)
    ]
patch_fixup-Inside fix_j26 fx addr s h =
    rw (patch32_ok fx.code_offset (jump_word fx.opcode addr) s h) (λ q. cc)

resolve_to-Inside :
    (fx : Fixup) (l : Option Label) (s : State)
    → fx.code_offset + 4 ≤ max_code_bytes
    → Inside (resolve_to fx l s)
unfolding resolve_to
resolve_to-Inside fx none s h = λ q. cc
resolve_to-Inside fx (some l) s h = elim (Bool-cases l.defined) [
  | inl e ↦ rw (e, resolve_to) (patch_fixup-Inside fx.kind fx l.addr s h)
  | inr e ↦ rw (e, resolve_to) (λ q. cc)
]

resolve_fixup-Inside :
    (fx : Fixup) (s : State) → fx.code_offset + 4 ≤ max_code_bytes → Inside (resolve_fixup fx s)
unfolding resolve_fixup
resolve_fixup-Inside fx s h = resolve_to-Inside fx (find_label s fx.label) s h

then-Inside :
    (r : Result (Unit {0} × State)) (k : State → Result (Unit {0} × State))
    → Inside r
    → ((t : State) → Inside (k t))
    → Inside (elim r [ err e ↦ err e | ok (u, t) ↦ k t ])
then-Inside (ok (u, t)) k h n = n t
then-Inside (err e) k h n = λ q. h (ap (λ r. r) (cc))

resolve_list-Inside :
    (fxs : List Fixup) (s : State) → InBuffer max_code_bytes fxs → Inside (resolve_list fxs s)
unfolding resolve_list
resolve_list-Inside [] s h = λ q. cc
resolve_list-Inside (fx ∷ fxs) s h =
    then-Inside (resolve_fixup fx s) (resolve_list fxs) (resolve_fixup-Inside fx s h.0)
      (λ t. resolve_list-Inside fxs t h.1)

-- For every input whose lines are assembled, resolving the fixups does not write outside the code
-- buffer: the patches, which the source does not check, stay within it.
pub resolve_fixups_inside :
    (input : Text) (s : State)
    → assemble_lines (fgets_from [] 1023 input) initial ≡ ok (tt, s)
    → resolve_fixups s ≢ err memory_fault
unfolding resolve_fixups
resolve_fixups_inside input s e =
    let w =
      After-value IsWell (assemble_lines (fgets_from [] 1023 input) initial) tt s
        ((assemble_lines-Keeps (fgets_from [] 1023 input)).at initial initial-IsWell) e in
    resolve_list-Inside s.fixups s (InBuffer-mono s.max_phy max_code_bytes s.fixups w.top w.places)

abbrev Wrote : Result (List Text × State) → Type 0
Wrote (ok (lines, s)) = lines ≡ write_hex s
Wrote (err e) = Unit

then-Wrote :
    (r : Result (Unit {0} × State)) (k : State → Result (List Text × State))
    → ((t : State) → Wrote (k t))
    → Wrote (elim r [ err e ↦ err e | ok (u, t) ↦ k t ])
then-Wrote (ok (u, t)) k n = n t
then-Wrote (err e) k n = tt

assemble-Wrote : (input : Text) → Wrote (assemble input)
unfolding assemble
assemble-Wrote input =
    then-Wrote (assemble_lines (fgets_from [] 1023 input) initial)
      (do resolve_fixups; gets write_hex)
      (λ t. then-Wrote (resolve_fixups t) (gets write_hex) (λ u. refl))

pub assembled-IsWell :
    (input : Text) (lines : List Text) (s : State) → assemble input ≡ ok (lines, s) → IsWell s
assembled-IsWell input lines s e =
    After-value IsWell (assemble input) lines s (assemble-After input) e

pub assembled_lines :
    (input : Text) (lines : List Text) (s : State)
    → assemble input ≡ ok (lines, s)
    → lines ≡ hex_lines (hex_end s.max_phy / 16) s.code 0
unfolding write_hex
assembled_lines input lines s e = subst Wrote e (assemble-Wrote input)

-- Where the assembler succeeds, the disassembler reads its output file back as exactly the
-- assembler's code buffer, at every address: no byte that was stored is behind the end of the file.
pub assemble-read_hex :
    (input : Text) (lines : List Text) (s : State) (q : ℕ)
    → assemble input ≡ ok (lines, s)
    → (read_hex lines).code q ≡ s.code q
assemble-read_hex input lines s q e =
    let w = assembled-IsWell input lines s e in
    let (low, same, behind) = read_hex-write_hex s w.bytes w.top in
    let text : lines ≡ write_hex s = subst Wrote e (assemble-Wrote input) in
    ap (λ ls. (read_hex ls).code q) text ∙ elim (Bool-cases (leb (hex_end s.max_phy) q)) [
      | inl out ↦
          let l = leb→le (hex_end s.max_phy) q out in
          behind q l ∙ sym (w.filler q (omega (arith, low, l)))
      | inr in_file ↦ same q (leb→gt (hex_end s.max_phy) q in_file)
    ]
