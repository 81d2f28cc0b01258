-- ===== src/Asm/Fixups/Reaches.antt =====
-- A reference to a label that is defined later: what is emitted, what is patched in, and where
-- the disassembler says it leads.
use rsd_m.Isa.{op_br}
use rsd_m.Asm.Invariant.Tables.{fixup_here}
use rsd_m.Asm.Fixups.Later.{branch_later-Leaves, jump_later-Leaves}
use rsd_m.RoundTrip.Formats.{IsSigned}
use rsd_m.RoundTrip.Targets.{branch_target-branch_word, jump_target-jump_word}
use rsd_m.Dis.Decode.{decode}
use rsd_m.Dis.Raw.{branch_target, jump_target}
use rsd_m.Base.Lists.{take}
use rsd_m.Base.Text.{Text}
use rsd_m.Base.{
  ℕ, ◌+◌, ◌%◌, ◌≤◌, ◌≡◌, arith, true, ap, ◌∙◌, some, bit_and, ◌==◌, ◌<◌, ◌^◌, ◌/◌, refl, ◌++◌, [],
  ◌∷◌,
}
use rsd_m.Base.Bits.{and_low}
use rsd_m.Asm.State.{State, Label, Fixup, fix_b21, fix_j26, ok}
use rsd_m.Asm.Code.{max_code_bytes, emit32, log_to_phy}
use rsd_m.Asm.Code.Emission.{patched, patch32_ok}
use rsd_m.Asm.Symbols.{find_label}
use rsd_m.Asm.Branch.{
  displacement, branch_word, jump_word, branch_to, jump_to, branch_later, jump_later,
}
use rsd_m.Asm.Fixups.{patch_fixup, resolve_fixup}

-- The low two bits of a displacement that is a multiple of 4.
aligned : (d : ℕ) → d % 4 ≡ 0 → (bit_and d 3 == 0) ≡ true
aligned d h = ground (arith, and_low 2 d, h)

-- With an address for the label, the fixup of a branch patches in the word of that branch.
patch-branch :
    (fx : Fixup) (t : State) (l : Label)
    → fx.kind ≡ fix_b21
    → find_label t fx.label ≡ some l
    → l.defined ≡ true
    → displacement l.addr fx.pc % 4 ≡ 0
    → fx.code_offset + 4 ≤ max_code_bytes
    → let w = branch_word fx.cond fx.link (displacement l.addr fx.pc) in
      resolve_fixup fx t ≡ ok (tt, patched fx.code_offset w t)
unfolding resolve_fixup
patch-branch fx t l hk hf hd ha ho =
    let w = branch_word fx.cond fx.link (displacement l.addr fx.pc) in
    let a = aligned (displacement l.addr fx.pc) ha in
    rw (hf, hd) (ap (λ k. patch_fixup k fx l.addr t) hk ∙ (rw a (patch32_ok fx.code_offset w t ho)))

patch-jump :
    (fx : Fixup) (t : State) (l : Label)
    → fx.kind ≡ fix_j26
    → find_label t fx.label ≡ some l
    → l.defined ≡ true
    → fx.code_offset + 4 ≤ max_code_bytes
    → resolve_fixup fx t ≡ ok (tt, patched fx.code_offset (jump_word fx.opcode l.addr) t)
unfolding resolve_fixup
patch-jump fx t l hk hf hd ho =
    rw (hf, hd)
      (ap (λ k. patch_fixup k fx l.addr t) hk
        ∙ patch32_ok fx.code_offset (jump_word fx.opcode l.addr) t ho)

emit-branch :
    (cond link : ℕ) (name : Text) (s : State) (l : Label)
    → l.defined ≡ true
    → displacement l.addr s.cur_pc % 4 ≡ 0
    → branch_to cond link name (some l) s
      ≡ emit32 (branch_word cond link (displacement l.addr s.cur_pc)) s
unfolding branch_to
emit-branch cond link name s l hd ha = rw (hd, aligned (displacement l.addr s.cur_pc) ha)

emit-jump :
    (opcode : ℕ) (name : Text) (s : State) (l : Label)
    → l.defined ≡ true
    → jump_to opcode name (some l) s ≡ emit32 (jump_word opcode l.addr) s
unfolding jump_to
emit-jump opcode name s l hd = rw hd

-- A branch to a label that is not defined yet leaves one more fixup. Resolved in any later state in
-- which the label of that name, cut to 63 bytes, is defined, it patches the place of the branch with
-- a word that the disassembler reads, at the address of the branch, as a branch with the same
-- condition and link bit to the label's address; and that is the word that is emitted where the
-- label is already defined. For a displacement that is aligned and in the 23-bit range.
pub resolve-branch :
    (cond link : ℕ) (name : Text) (s s' t : State) (l : Label)
    → cond < 16
    → link < 2
    → s.cur_pc < 2 ^ 32
    → l.addr < 2 ^ 32
    → displacement l.addr s.cur_pc % 4 ≡ 0
    → IsSigned 23 (displacement l.addr s.cur_pc)
    → branch_later cond link name s ≡ ok (tt, s')
    → find_label t (take 63 name) ≡ some l
    → l.defined ≡ true
    → (fx : Fixup) × (w : ℕ) × (s'.fixups ≡ s.fixups ++ (fx ∷ []))
      × (resolve_fixup fx t ≡ ok (tt, patched (log_to_phy s.cur_pc) w t))
      × (branch_to cond link name (some l) s ≡ emit32 w s)
      × ((decode w).op ≡ op_br)
      × ((decode w).cond ≡ cond)
      × ((decode w).link ≡ link)
      × (branch_target s.cur_pc (decode w).off21 ≡ l.addr)
resolve-branch cond link name s s' t l hc hl hp ha h4 hr later hf hd =
    let fx = fixup_here fix_b21 name cond link 0 s in
    let (added, room) = branch_later-Leaves cond link name s s' hp later in
    let w = branch_word cond link (displacement l.addr s.cur_pc) in
    let (b1, b2, b3, b4) = branch_target-branch_word cond link l.addr s.cur_pc hc hl ha hp h4 hr in
    (
      fx,
      w,
      added,
      patch-branch fx t l refl hf hd h4 room,
      emit-branch cond link name s l hd h4,
      b1,
      b2,
      b3,
      b4,
    )

-- A jump to a label that is not defined yet likewise: its fixup patches the place of the jump with
-- a word that decodes to the same opcode and, at the address of the jump, to the label's address,
-- and that is the word that is emitted where the label is already defined. For a label at a multiple
-- of 4 in the same 256 MB.
pub resolve-jump :
    (opcode : ℕ) (name : Text) (s s' t : State) (l : Label)
    → opcode < 64
    → s.cur_pc < 2 ^ 32
    → l.addr < 2 ^ 32
    → l.addr % 4 ≡ 0
    → s.cur_pc / 2 ^ 28 ≡ l.addr / 2 ^ 28
    → jump_later opcode name s ≡ ok (tt, s')
    → find_label t (take 63 name) ≡ some l
    → l.defined ≡ true
    → (fx : Fixup) × (w : ℕ) × (s'.fixups ≡ s.fixups ++ (fx ∷ []))
      × (resolve_fixup fx t ≡ ok (tt, patched (log_to_phy s.cur_pc) w t))
      × (jump_to opcode name (some l) s ≡ emit32 w s)
      × ((decode w).op ≡ opcode)
      × (jump_target s.cur_pc (decode w).target26 ≡ l.addr)
resolve-jump opcode name s s' t l ho hp ha h4 hr later hf hd =
    let fx = fixup_here fix_j26 name 0 0 opcode s in
    let (added, room) = jump_later-Leaves opcode name s s' hp later in
    let (j1, j2) = jump_target-jump_word opcode l.addr s.cur_pc ho ha hp h4 hr in
    (
      fx,
      jump_word opcode l.addr,
      added,
      patch-jump fx t l refl hf hd room,
      emit-jump opcode name s l hd,
      j1,
      j2,
    )
