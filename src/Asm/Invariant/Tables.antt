-- ===== src/Asm/Invariant/Tables.antt =====
-- Labels, constants and fixups: the tables keep within their limits.
use rsd_m.Asm.Code.Emission.{emitted}
use rsd_m.Asm.Branch.{add_fixup, max_fixups}
use rsd_m.Asm.Invariant.Stores.{emitted-IsWell, emit32-After}
use rsd_m.Base.{
  ℕ, suc, ◌+◌, ◌^◌, ◌≤◌, ◌<◌, ◌≡◌, refl, ap, inl, inr, false, List, [], ◌∷◌, ◌++◌, arith, leb,
  leb→gt, Bool-cases, Option-cases, true,
}
use rsd_m.Base.Lists.{length, length-append, take}
use rsd_m.Base.Text.{Text, str_case_eq}
use rsd_m.Asm.State.{State, Label, Constant, Fixup, FixupType, ◌>>◌, too_many_fixups, err, ok}
use rsd_m.Asm.Symbols.{
  max_labels, find_label, add_label, define_in, define_label, update_constant, define_constant,
}
use rsd_m.Asm.Symbols.Lookup.{add_label-found, add_label-full, add_label-fresh, fresh_label}
use rsd_m.Asm.Code.{log_to_phy, emit32}
use rsd_m.Asm.Keeps.{Keeps, After-bind, After, After-err, After-ok}
use rsd_m.Asm.Invariant.{IsWell, InBuffer, Addresses}

Addresses-append :
    (ls : List Label) (l : Label) → Addresses ls → l.addr < 2 ^ 32 → Addresses (ls ++ (l ∷ []))
Addresses-append [] l h k = (k, tt)
Addresses-append (m ∷ ls) l h k = (h.0, Addresses-append ls l h.1 k)

InBuffer-append :
    (top : ℕ) (fs : List Fixup) (f : Fixup)
    → InBuffer top fs
    → f.code_offset + 4 ≤ top
    → InBuffer top (fs ++ (f ∷ []))
InBuffer-append top [] f h k = (k, tt)
InBuffer-append top (g ∷ fs) f h k = (h.0, InBuffer-append top fs f h.1 k)

-- A step on the label table alone.
relabelled-IsWell :
    (s : State) (ls : List Label)
    → IsWell s
    → length ls ≤ max_labels
    → Addresses ls
    → IsWell (record s { labels = ls })
relabelled-IsWell s ls h hl ha = record {
  bytes = h.bytes;
  top = h.top;
  pc = h.pc;
  labels = hl;
  constants = h.constants;
  fixups = h.fixups;
  filler = h.filler;
  places = h.places;
  addresses = ha;
}

fresh-IsWell :
    (n : Text) (s : State)
    → IsWell s
    → leb max_labels (length s.labels) ≡ false
    → IsWell (record s { labels = s.labels ++ (fresh_label n ∷ []) })
fresh-IsWell n s h room =
    relabelled-IsWell s (s.labels ++ (fresh_label n ∷ [])) h
      (omega (
        arith,
        length-append s.labels (fresh_label n ∷ []),
        leb→gt max_labels (length s.labels) room,
      ))
      (Addresses-append s.labels (fresh_label n) h.addresses (omega arith))

pub add_label-Keeps : (n : Text) → Keeps IsWell (add_label n)
add_label-Keeps n = record {
  at = λ s h. elim (Option-cases (find_label s n)) [
    | inr (l, e) ↦ rw (add_label-found n s l e) h
    | inl e ↦ elim (Bool-cases (leb max_labels (length s.labels))) [
      | inl full ↦ rw (add_label-full n s e full) tt
      | inr room ↦ rw (add_label-fresh n s e room) (fresh-IsWell n s h room)
    ]
  ];
}

length-define_in : (ls : List Label) (n : Text) (a : ℕ) → length (define_in ls n a) ≡ length ls
unfolding define_in
length-define_in [] n a = refl
length-define_in (l ∷ ls) n a = elim (Bool-cases (str_case_eq l.name n)) [
  | inl e ↦ rw e
  | inr e ↦ rw e (ap suc (length-define_in ls n a))
]

define_in-Addresses :
    (ls : List Label) (n : Text) (a : ℕ) → Addresses ls → a < 2 ^ 32 → Addresses (define_in ls n a)
unfolding define_in
define_in-Addresses [] n a h k = tt
define_in-Addresses (l ∷ ls) n a h k = elim (Bool-cases (str_case_eq l.name n)) [
  | inl e ↦ rw e (k, h.1)
  | inr e ↦ rw e (h.0, define_in-Addresses ls n a h.1 k)
]

set_label-IsWell :
    (n : Text) (s : State) → IsWell s → IsWell (record s { labels = define_in s.labels n s.cur_pc })
set_label-IsWell n s h =
    relabelled-IsWell s (define_in s.labels n s.cur_pc) h
      (omega (arith, length-define_in s.labels n s.cur_pc, h.labels))
      (define_in-Addresses s.labels n s.cur_pc h.addresses h.pc)

pub define_label-Keeps : (n : Text) → Keeps IsWell (define_label n)
unfolding define_label
define_label-Keeps n = record {
  at = λ s h. After-bind (add_label n s) _ ((add_label-Keeps n).at s h) (λ l t k.
      elim (Bool-cases l.defined) [ inl e ↦ rw e tt | inr e ↦ rw e (set_label-IsWell l.name t k) ]);
}

length-update_constant :
    (cs : List Constant) (n : Text) (v : ℕ) → length (update_constant cs n v) ≤ suc (length cs)
unfolding update_constant
length-update_constant [] n v = omega arith
length-update_constant (c ∷ cs) n v = elim (Bool-cases (str_case_eq c.name n)) [
  | inl e ↦ rw e (omega arith)
  | inr e ↦ rw e (omega (arith, length-update_constant cs n v))
]

set_constant-IsWell :
    (n : Text) (v : ℕ) (s : State)
    → IsWell s
    → length s.constants < max_labels
    → IsWell (record s { constants = update_constant s.constants n v })
set_constant-IsWell n v s h room = record {
  bytes = h.bytes;
  top = h.top;
  pc = h.pc;
  labels = h.labels;
  constants = omega (arith, length-update_constant s.constants n v);
  fixups = h.fixups;
  filler = h.filler;
  places = h.places;
  addresses = h.addresses;
}

pub define_constant-Keeps : (n : Text) (v : ℕ) → Keeps IsWell (define_constant n v)
unfolding define_constant
define_constant-Keeps n v = record {
  at = λ s h. elim (Bool-cases (leb max_labels (length s.constants))) [
    | inl full ↦ rw full tt
    | inr room ↦ rw room (set_constant-IsWell n v s h (leb→gt max_labels (length s.constants) room))
  ];
}

room_for_fixup-IsWell :
    (fx : Fixup) (s : State)
    → IsWell s
    → length s.fixups < max_fixups
    → fx.code_offset ≡ log_to_phy s.cur_pc
    → After IsWell (emit32 0 (record s { fixups = s.fixups ++ (fx ∷ []) }))
room_for_fixup-IsWell fx s h room at =
    let t : State = record s { fixups = s.fixups ++ (fx ∷ []) } in
    emit32-After 0 t IsWell h.pc (λ fits.
      let e = emitted-IsWell 0 s h fits in
      record {
        bytes = e.bytes;
        top = e.top;
        pc = e.pc;
        labels = h.labels;
        constants = h.constants;
        fixups = omega (arith, length-append s.fixups (fx ∷ []));
        filler = e.filler;
        places =
            InBuffer-append (emitted 0 s).max_phy s.fixups fx e.places (ground (arith, at, fits));
        addresses = h.addresses;
      })

add_fixup_full :
    (kind : FixupType) (label : Text) (cond link opcode : ℕ) (s : State)
    → leb max_fixups (length s.fixups) ≡ true
    → add_fixup kind label cond link opcode s ≡ err too_many_fixups
unfolding add_fixup
add_fixup_full kind label cond link opcode s e = rw e

-- The fixup of a reference at the current place.
abbrev pub fixup_here : FixupType → Text → ℕ → ℕ → ℕ → State → Fixup
fixup_here kind label cond link opcode s = record {
  code_offset = log_to_phy s.cur_pc;
  pc = s.cur_pc;
  label = take 63 label;
  kind = kind;
  line_num = s.line_num;
  cond = cond;
  link = link;
  opcode = opcode;
}

add_fixup_room :
    (kind : FixupType) (label : Text) (cond link opcode : ℕ) (s : State)
    → leb max_fixups (length s.fixups) ≡ false
    → add_fixup kind label cond link opcode s
      ≡ ok (tt, record s { fixups = s.fixups ++ (fixup_here kind label cond link opcode s ∷ []) })
unfolding add_fixup
add_fixup_room kind label cond link opcode s e = rw e

-- A fixup and the word 0 at its place, which are only together in the invariant.
pub fixup_word-Keeps :
    (kind : FixupType) (label : Text) (cond link opcode : ℕ)
    → Keeps IsWell (add_fixup kind label cond link opcode >> emit32 0)
fixup_word-Keeps kind label cond link opcode = record {
  at = λ s h. elim (Bool-cases (leb max_fixups (length s.fixups))) [
    | inl full ↦
        After-err IsWell (add_fixup kind label cond link opcode) (emit32 0) s too_many_fixups
          (add_fixup_full kind label cond link opcode s full) tt
    | inr room ↦
        After-ok IsWell (add_fixup kind label cond link opcode) (emit32 0) s _
          (add_fixup_room kind label cond link opcode s room)
          (room_for_fixup-IsWell (fixup_here kind label cond link opcode s) s h
            (leb→gt max_fixups (length s.fixups) room) refl)
  ];
}
