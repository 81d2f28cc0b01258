-- ===== src/Asm/Fixups/Later.antt =====
-- What a reference to a label that has no address yet leaves behind: its fixup, and a word 0.
use mathlib.Core.Path.{subst}
use rsd_m.Asm.Branch.{max_fixups, add_fixup, branch_later, jump_later}
use rsd_m.Asm.Code.{max_code_bytes, log_to_phy, emit32}
use rsd_m.Asm.Invariant.Stores.{emit32-After}
use rsd_m.Asm.Invariant.Tables.{fixup_here}
use rsd_m.Asm.Keeps.{AfterOr, Any, After-Any}
use rsd_m.Asm.State.{State, Label, Fixup, FixupType, fix_b21, fix_j26, M, Result, ok, err}
use rsd_m.Asm.Symbols.Lookup.{add_label-found, add_label-full, add_label-fresh}
use rsd_m.Asm.Symbols.{max_labels, find_label, add_label}
use rsd_m.Base.Lists.{length}
use rsd_m.Base.Text.{Text}
use rsd_m.Base.{
  ℕ, ◌+◌, ◌^◌, ◌≤◌, ◌<◌, ◌≡◌, refl, ap, ◌∙◌, [], ◌∷◌, ◌++◌, Option, some, none, inl, inr, leb,
  Bool-cases,
}

-- A step that keeps the fixups and the place.
abbrev Same : State → State → Type 0
Same s t = (t.fixups ≡ s.fixups) × (t.cur_pc ≡ s.cur_pc) × (t.line_num ≡ s.line_num)

-- The fixup is the last one, and there is room for the word at its place.
abbrev pub Leaves : Fixup → State → State → Type 0
Leaves fx s t = (t.fixups ≡ s.fixups ++ (fx ∷ [])) × (log_to_phy s.cur_pc + 4 ≤ max_code_bytes)

module _ {A B : Type 0} (P Q : State → Type 0) where
  bind-Any :
      (r : Result (A × State)) (f : A → M B)
      → AfterOr Any P r
      → ((a : A) (t : State) → P t → AfterOr Any Q (f a t))
      → AfterOr Any Q (elim r [ err e ↦ err e | ok (a, s') ↦ f a s' ])
  bind-Any (ok (a, t)) f h k = k a t h
  bind-Any (err e) f h k = tt

add_label-Same : (n : Text) (s : State) → AfterOr Any (Same s) (add_label n s)
add_label-Same n s = cases (find_label s n) refl
  where
    cases : (found : Option Label) → find_label s n ≡ found → AfterOr Any (Same s) (add_label n s)
    cases (some l) e = rw (add_label-found n s l e) (refl, refl, refl)
    cases none e = elim (Bool-cases (leb max_labels (length s.labels))) [
      | inl full ↦ rw (add_label-full n s e full) tt
      | inr room ↦ rw (add_label-fresh n s e room) (refl, refl, refl)
    ]

add_fixup-After :
    (kind : FixupType) (label : Text) (cond link opcode : ℕ) (s : State)
    → AfterOr Any
        (λ t.
          (t.fixups ≡ s.fixups ++ (fixup_here kind label cond link opcode s ∷ []))
          × (t.cur_pc ≡ s.cur_pc))
        (add_fixup kind label cond link opcode s)
unfolding add_fixup
add_fixup-After kind label cond link opcode s =
    elim (Bool-cases (leb max_fixups (length s.fixups))) [
      | inl full ↦ rw full tt
      | inr room ↦ rw room (refl, refl)
    ]

fixup_here-Same :
    (kind : FixupType) (label : Text) (cond link opcode : ℕ) (s t : State)
    → Same s t
    → fixup_here kind label cond link opcode t ≡ fixup_here kind label cond link opcode s
fixup_here-Same kind label cond link opcode s t (f, p, l) = rw (p, l)

-- The fixup and the word 0, behind a label that is found or added.
later-Leaves :
    (kind : FixupType) (label : Text) (cond link opcode : ℕ) (s : State)
    → s.cur_pc < 2 ^ 32
    → AfterOr Any (Leaves (fixup_here kind label cond link opcode s) s) (elim (add_label label s) [
      | err e ↦ err e
      | ok (l, s1) ↦ elim (add_fixup kind label cond link opcode s1) [
        | err e ↦ err e
        | ok (u, s2) ↦ emit32 0 s2
      ]
    ])
later-Leaves kind label cond link opcode s h =
    let fx = fixup_here kind label cond link opcode s in
    bind-Any (Same s) (Leaves fx s) (add_label label s)
      (λ l s1. elim (add_fixup kind label cond link opcode s1) [
        | err e ↦ err e
        | ok (u, s2) ↦ emit32 0 s2
      ])
      (add_label-Same label s)
      (λ l s1 same.
        bind-Any
          (λ t.
            (t.fixups ≡ s1.fixups ++ (fixup_here kind label cond link opcode s1 ∷ []))
            × (t.cur_pc ≡ s1.cur_pc))
          (Leaves fx s) (add_fixup kind label cond link opcode s1) (λ u s2. emit32 0 s2)
          (add_fixup-After kind label cond link opcode s1)
          (λ u s2 (fixups, place).
            let at : s2.cur_pc ≡ s.cur_pc = place ∙ same.1 in
            let last : s2.fixups ≡ s.fixups ++ (fx ∷ []) =
              fixups
              ∙ ap (λ k. k ++ (fixup_here kind label cond link opcode s1 ∷ [])) same.0
              ∙ ap (λ k. s.fixups ++ (k ∷ []))
                  (fixup_here-Same kind label cond link opcode s s1 same) in
            After-Any (Leaves fx s) (emit32 0 s2) (
              emit32-After 0 s2 (Leaves fx s) (rw at h)
                (λ fits. (last, subst (λ k. log_to_phy k + 4 ≤ max_code_bytes) at fits)))))

value_of :
    (P : State → Type 0) (r : Result (Unit {0} × State)) (t : State)
    → AfterOr Any P r
    → r ≡ ok (tt, t)
    → P t
value_of P r t h e = subst (λ q. AfterOr Any P q) e h

pub branch_later-Leaves :
    (cond link : ℕ) (label : Text) (s t : State)
    → s.cur_pc < 2 ^ 32
    → branch_later cond link label s ≡ ok (tt, t)
    → Leaves (fixup_here fix_b21 label cond link 0 s) s t
unfolding branch_later
branch_later-Leaves cond link label s t h e =
    value_of (Leaves (fixup_here fix_b21 label cond link 0 s) s) (branch_later cond link label s) t
      (later-Leaves fix_b21 label cond link 0 s h) e

pub jump_later-Leaves :
    (opcode : ℕ) (label : Text) (s t : State)
    → s.cur_pc < 2 ^ 32
    → jump_later opcode label s ≡ ok (tt, t)
    → Leaves (fixup_here fix_j26 label 0 0 opcode s) s t
unfolding jump_later
jump_later-Leaves opcode label s t h e =
    value_of (Leaves (fixup_here fix_j26 label 0 0 opcode s) s) (jump_later opcode label s) t
      (later-Leaves fix_j26 label 0 0 opcode s h) e
