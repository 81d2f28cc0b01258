-- ===== src/Asm/Invariant/Run.antt =====
-- The invariant from the first line of the input to the output file.
use rsd_m.Asm.Branch.{displacement, branch_word, jump_word}
use rsd_m.Asm.Invariant.System.{system-Offers, extended-Offers}
use rsd_m.Asm.Invariant.Jumps.{branches-Offers, jumps-Offers, long_jumps-Offers}
use rsd_m.Asm.Invariant.Native.{alu_entries-Offers, native-Offers}
use rsd_m.Asm.Invariant.Traditional.{emit_nop-Keeps, traditional-Offers, simple-Offers}
use rsd_m.Asm.Invariant.Directives.{directive-Offers, set_origin-Keeps}
use rsd_m.Asm.Invariant.Stores.{patch32-After}
use rsd_m.Asm.Invariant.Parsing.{set_cursor-Keeps, expression-Keeps}
use rsd_m.Asm.Invariant.Tables.{define_label-Keeps, define_constant-Keeps}
use rsd_m.Asm.Symbols.{find_label}
use rsd_m.Asm.Invariant.Offers.{Offers, offers_rules}
use rsd_m.Base.Text.{Text}
use rsd_m.Asm.Keeps.{Keeps, After, After-bind, keeps_rules, Keeps-then, Keeps-fail, Keeps-gets}
use rsd_m.Asm.Invariant.{IsWell, InBuffer}
use rsd_m.Asm.Fixups.{resolve_fixups, resolve_list, resolve_fixup, resolve_to, patch_fixup}
use rsd_m.Asm.Program.{assemble, assemble_lines, chomp, fgets_from, write_hex}
use rsd_m.Asm.Line.Dispatch.{
  equ_or_statement, named_line, assemble_line, run_handler, instruction, handler, statement,
  c_string,
}
use rsd_m.Asm.State.{
  ◌>>◌, State, Action, fix_b21, fix_j26, Fixup, initial, FixupType, Label, gets,
  unknown_instruction, Result, ok, err,
}
use rsd_m.Base.{
  ℕ, ◌+◌, none, some, Option, List, [], ◌∷◌, arith, refl, Bool-cases, inl, inr, ◌==◌, bit_and,
}

handler-Offers : (mnem : Text) (commas : ℕ) → Offers (handler mnem commas)
unfolding handler
handler-Offers mnem commas =
    search
      (
        offers_rules, directive-Offers, emit_nop-Keeps, alu_entries-Offers, native-Offers,
        branches-Offers, jumps-Offers, traditional-Offers, simple-Offers, system-Offers,
        long_jumps-Offers, extended-Offers,
      )
      depth 30 fits 3000

run_handler-Keeps : (o : Option Action) → Offers o → Keeps IsWell (run_handler o)
unfolding run_handler
run_handler-Keeps none h = Keeps-fail unknown_instruction tt
run_handler-Keeps (some act) h = h.each

instruction-Keeps : (p : Text) → Keeps IsWell (instruction p)
unfolding instruction
instruction-Keeps p = search (keeps_rules, set_cursor-Keeps, run_handler-Keeps, handler-Offers)

statement-Keeps : (p : Text) → Keeps IsWell (statement p)
unfolding statement
statement-Keeps p =
    search (keeps_rules, set_cursor-Keeps, set_origin-Keeps, instruction-Keeps) depth 12

equ_or_statement-Keeps :
    (name p : Text) (t : Option Text) → Keeps IsWell (equ_or_statement name p t)
unfolding equ_or_statement
equ_or_statement-Keeps name p none = statement-Keeps p
equ_or_statement-Keeps name p (some t) =
    search (keeps_rules, set_cursor-Keeps, expression-Keeps, define_constant-Keeps)

named_line-Keeps : (p : Text) → Keeps IsWell (named_line p)
unfolding named_line
named_line-Keeps p =
    search (keeps_rules, define_label-Keeps, statement-Keeps, equ_or_statement-Keeps) depth 12

-- No line of assembler source breaks the invariant.
pub assemble_line-Keeps : (line : Text) → Keeps IsWell (assemble_line line)
unfolding assemble_line
assemble_line-Keeps line = search (keeps_rules, named_line-Keeps, statement-Keeps) depth 12

numbered-IsWell : (n : ℕ) (s : State) → IsWell s → IsWell (record s { line_num = n })
numbered-IsWell n s h = record {
  bytes = h.bytes;
  top = h.top;
  pc = h.pc;
  labels = h.labels;
  constants = h.constants;
  fixups = h.fixups;
  filler = h.filler;
  places = h.places;
  addresses = h.addresses;
}

pub assemble_lines-Keeps : (ls : List Text) → Keeps IsWell (assemble_lines ls)
unfolding assemble_lines
assemble_lines-Keeps [] = record { at = λ s h. h }
assemble_lines-Keeps (l ∷ ls) = record {
  at = λ s h.
      let t : State = record s { line_num = s.line_num + 1 } in
      After-bind (assemble_line (chomp (c_string l)) t) (λ u. assemble_lines ls)
        ((assemble_line-Keeps (chomp (c_string l))).at t (numbered-IsWell (s.line_num + 1) s h))
        (λ u. (assemble_lines-Keeps ls).at);
}

-- The state is well-formed, and the places of these fixups are before the buffer's end.
abbrev Fits : List Fixup → State → Type 0
Fits fxs s = IsWell s × InBuffer s.max_phy fxs

patch_fixup-After :
    (k : FixupType) (fx : Fixup) (fxs : List Fixup) (addr : ℕ) (s : State)
    → Fits (fx ∷ fxs) s
    → After (Fits fxs) (patch_fixup k fx addr s)
unfolding patch_fixup
patch_fixup-After fix_b21 fx fxs addr s (h, k) =
    let disp = displacement addr fx.pc in
    elim (Bool-cases (bit_and disp 3 == 0)) [
      | inl e ↦
          rw (e, patch_fixup)
            (patch32-After fx.code_offset (branch_word fx.cond fx.link disp) s (Fits fxs) h k.0
              (λ w. (w, k.1)))
      | inr e ↦ rw (e, patch_fixup) tt
    ]
patch_fixup-After fix_j26 fx fxs addr s (h, k) =
    patch32-After fx.code_offset (jump_word fx.opcode addr) s (Fits fxs) h k.0 (λ w. (w, k.1))

resolve_to-After :
    (fx : Fixup) (fxs : List Fixup) (l : Option Label) (s : State)
    → Fits (fx ∷ fxs) s
    → After (Fits fxs) (resolve_to fx l s)
unfolding resolve_to
resolve_to-After fx fxs none s h = tt
resolve_to-After fx fxs (some l) s h = elim (Bool-cases l.defined) [
  | inl e ↦ rw (e, resolve_to) (patch_fixup-After fx.kind fx fxs l.addr s h)
  | inr e ↦ rw (e, resolve_to) tt
]

then-After :
    (P Q : State → Type 0) (r : Result (Unit {0} × State)) (k : Action)
    → After P r
    → ((t : State) → P t → After Q (k t))
    → After Q (elim r [ err e ↦ err e | ok (u, t) ↦ k t ])
then-After P Q (ok (u, t)) k h n = n t h
then-After P Q (err e) k h n = h

resolve_list-After : (fxs : List Fixup) (s : State) → Fits fxs s → After IsWell (resolve_list fxs s)
unfolding resolve_list resolve_fixup
resolve_list-After [] s h = h.0
resolve_list-After (fx ∷ fxs) s h =
    then-After (Fits fxs) IsWell (resolve_fixup fx s) (resolve_list fxs)
      (resolve_to-After fx fxs (find_label s fx.label) s h) (resolve_list-After fxs)

resolve_fixups-Keeps : Keeps IsWell resolve_fixups
unfolding resolve_fixups
resolve_fixups-Keeps = record { at = λ s h. resolve_list-After s.fixups s (h, h.places) }

pub initial-IsWell : IsWell initial
initial-IsWell = record {
  bytes = λ q. omega arith;
  top = omega arith;
  pc = omega arith;
  labels = omega arith;
  constants = omega arith;
  fixups = omega arith;
  filler = λ q l. refl;
  places = tt;
  addresses = tt;
}

-- Whatever the input, where the assembler gets to its output file the invariant holds.
pub assemble-After : (input : Text) → After (λ s. IsWell s) (assemble input)
unfolding assemble
assemble-After input =
    (Keeps-then (assemble_lines (fgets_from [] 1023 input)) (do resolve_fixups; gets write_hex)
        (assemble_lines-Keeps (fgets_from [] 1023 input))
        (Keeps-then resolve_fixups (gets write_hex) resolve_fixups-Keeps (Keeps-gets write_hex))).at
      initial initial-IsWell
