-- ===== src/Machine/Absolute.antt =====
-- `emit_mem_access` of a load with an absolute address, near or far.
use mathlib.Core.Path.{subst}
use rsd_m.Base.{
  ℕ, ◌^◌, ◌<◌, ◌≡◌, refl, sym, ap, ◌∙◌, ◌≢◌, inl, inr, true, false, List, [], ◌∷◌, ◌++◌, arith,
  Bool-cases, bit_and,
}
use rsd_m.Base.Word.{add32, u32}
use rsd_m.Base.Bits.{and_low}
use rsd_m.Isa.{op_add, op_ld, reg_b, reg_t}
use rsd_m.Asm.State.{State, Action, Result, ok, err, ◌>>◌}
use rsd_m.Asm.Code.{emit32}
use rsd_m.Asm.Encode.{enc_r3, enc_m14}
use rsd_m.Asm.Lower.{am_abs, fits_off14, off14_of, emit_load_const, emit_mem_access}
use rsd_m.Dis.Decode.{decode}
use rsd_m.RoundTrip.Fields.{enc_m14_sum}
use rsd_m.RoundTrip.Formats.{IsSigned}
use rsd_m.Machine.{Machine, reg, set_reg, exec, exec_words, emit_words}
use rsd_m.Machine.Steps.{add_step, ld_step}
use rsd_m.Machine.Constants.{
  Loaded, set_reg-Loaded, emit_words-one, emit_words-cons, emit_load_const-Loaded,
}

exec_words-append :
    (vs ws : List ℕ) (m : Machine) → exec_words (vs ++ ws) m ≡ exec_words ws (exec_words vs m)
unfolding exec_words
exec_words-append [] ws m = refl
exec_words-append (v ∷ vs) ws m = exec_words-append vs ws (exec (decode v) m)

abbrev chain : Result (Unit {0} × State) → Action → Result (Unit {0} × State)
chain r k = elim r [ err e ↦ err e | ok (a, t) ↦ k t ]

assoc-words :
    (r : Result (Unit {0} × State)) (j k l : Action)
    → ((t : State) → (j >> k) t ≡ l t)
    → chain (chain r j) k ≡ chain r l
assoc-words (ok (u, s)) j k l h = h s
assoc-words (err e) j k l h = refl

emit_words-after :
    (vs ws : List ℕ) (k : Action) (s : State)
    → ((t : State) → k t ≡ emit_words ws t)
    → (emit_words vs >> k) s ≡ emit_words (vs ++ ws) s
unfolding emit_words
emit_words-after [] ws k s h = h s
emit_words-after (v ∷ vs) ws k s h =
    assoc-words (emit32 v s) (emit_words vs) k (emit_words (vs ++ ws))
      (λ t. emit_words-after vs ws k t h)

near-IsSigned : (v : ℕ) → v < 2 ^ 32 → fits_off14 v ≡ true → IsSigned 14 v
near-IsSigned v h e = ground arith

-- The encoder masks the offset, masked before or not.
masked : (op rt base v : ℕ) → enc_m14 op rt base (bit_and v 0x3fff) ≡ enc_m14 op rt base v
masked op rt base v =
    rw (enc_m14_sum op rt base (bit_and v 0x3fff), enc_m14_sum op rt base v, and_low 14 v)
      (omega arith)

-- The load is done: the register holds the word at `a`, and besides it only T has changed.
abbrev pub LoadedFrom : ℕ → ℕ → Machine → Machine → Type 0
LoadedFrom rt a m n =
    (reg n rt ≡ m.mem a) × ((r : ℕ) → r ≢ rt → r ≢ reg_t → reg n r ≡ reg m r) × (n.mem ≡ m.mem)

near_words : ℕ → ℕ → List ℕ
near_words rt imm = enc_m14 op_ld rt reg_b (off14_of imm) ∷ []

near-LoadedFrom :
    (rt imm : ℕ) (m : Machine)
    → 0 < rt
    → rt < 64
    → fits_off14 (u32 imm) ≡ true
    → LoadedFrom rt (add32 (reg m reg_b) (u32 imm)) m (exec_words (near_words rt imm) m)
unfolding near_words exec_words
near-LoadedFrom rt imm m h0 hd e =
    let word = masked op_ld rt reg_b (u32 imm) in
    let step =
      ld_step rt reg_b (u32 imm) m hd (omega arith) (near-IsSigned (u32 imm) (omega arith) e) in
    let v = m.mem (add32 (reg m reg_b) (u32 imm)) in
    let (a, b, c) = set_reg-Loaded rt v m h0 in
    let runs : exec (decode (enc_m14 op_ld rt reg_b (off14_of imm))) m ≡ set_reg rt v m =
      ap (λ w. exec (decode w) m) word ∙ step in
    subst (λ n. LoadedFrom rt (add32 (reg m reg_b) (u32 imm)) m n) (sym runs) (a, λ r d t. b r d, c)

-- The address in T: the base added to it, and the load.
far_words : ℕ → List ℕ
far_words rt = enc_r3 op_add reg_t reg_b reg_t 0 0 ∷ enc_m14 op_ld rt reg_t 0 ∷ []

far-LoadedFrom :
    (rt a : ℕ) (m k : Machine)
    → 0 < rt
    → rt < 64
    → Loaded reg_t a m k
    → LoadedFrom rt (add32 (reg m reg_b) a) m (exec_words (far_words rt) k)
unfolding far_words exec_words
far-LoadedFrom rt a m k h0 hd (t, others, memory) =
    let sum = add32 (reg k reg_b) (reg k reg_t) in
    let k1 = set_reg reg_t sum k in
    let add = add_step reg_t reg_b reg_t k (omega arith) (omega arith) (omega arith) in
    let load = ld_step rt reg_t 0 k1 hd (omega arith) (inl (omega arith)) in
    let v = k1.mem (add32 (reg k1 reg_t) 0) in
    let (t1, others1, memory1) = set_reg-Loaded reg_t sum k (omega arith) in
    let (d2, others2, memory2) = set_reg-Loaded rt v k1 h0 in
    let runs = ap (exec (decode (enc_m14 op_ld rt reg_t 0))) add ∙ load in
    let base : reg k reg_b ≡ reg m reg_b = others reg_b (λ e. omega (arith, e)) in
    let total : sum ≡ add32 (reg m reg_b) a = rw (base, t) refl in
    let place : add32 (reg k1 reg_t) 0 ≡ add32 (reg m reg_b) a =
      ap (λ x. add32 x 0) (t1 ∙ total) ∙ (omega arith) in
    let value = d2 ∙ ap k.mem place ∙ ap (λ f. f (add32 (reg m reg_b) a)) memory in
    subst (λ n. LoadedFrom rt (add32 (reg m reg_b) a) m n) (sym runs)
      (value, λ r d u. others2 r d ∙ others1 r u ∙ others r u, memory2 ∙ memory1 ∙ memory)

near-emits :
    (rt imm : ℕ)
    → fits_off14 (u32 imm) ≡ true
    → (s : State) → emit_mem_access op_ld rt am_abs imm s ≡ emit_words (near_words rt imm) s
unfolding emit_mem_access near_words
near-emits rt imm e s = rw e (sym (emit_words-one (enc_m14 op_ld rt reg_b (off14_of imm)) s))

far-emits :
    (rt imm : ℕ) (ws : List ℕ)
    → fits_off14 (u32 imm) ≡ false
    → ((s : State) → emit_load_const reg_t (u32 imm) s ≡ emit_words ws s)
    → (s : State) → emit_mem_access op_ld rt am_abs imm s ≡ emit_words (ws ++ far_words rt) s
unfolding emit_mem_access far_words
far-emits rt imm ws e emits s =
    let add = enc_r3 op_add reg_t reg_b reg_t 0 0 in
    let load = enc_m14 op_ld rt reg_t 0 in
    let k : Action = emit32 add >> emit32 load in
    let tail : (t : State) → k t ≡ emit_words (add ∷ load ∷ []) t =
      λ t. emit_words-cons add (emit32 load) (load ∷ []) t (λ u. sym (emit_words-one load u)) in
    rw e (ap (λ r. chain r k) (emits s) ∙ emit_words-after ws (add ∷ load ∷ []) k s tail)

-- A load with an absolute address. Whether the offset from the base register fits the
-- instruction or not, there are words that `emit_mem_access` emits, in every state of the
-- assembler, and that load the word at base plus address into the register when a machine
-- executes them; besides that register only T may change.
pub emit_mem_access-LoadedFrom :
    (rt imm : ℕ)
    → 0 < rt
    → rt < 64
    → (ws : List ℕ) × ((s : State) → emit_mem_access op_ld rt am_abs imm s ≡ emit_words ws s)
      × ((m : Machine) → LoadedFrom rt (add32 (reg m reg_b) (u32 imm)) m (exec_words ws m))
emit_mem_access-LoadedFrom rt imm h0 hr = elim (Bool-cases (fits_off14 (u32 imm))) [
  | inl e ↦ (near_words rt imm, near-emits rt imm e, λ m. near-LoadedFrom rt imm m h0 hr e)
  | inr e ↦
      let (ws, emits, loads) =
        emit_load_const-Loaded reg_t (u32 imm) (omega arith) (omega arith) (omega arith) in
      (
        ws ++ far_words rt,
        far-emits rt imm ws e emits,
        λ m.
            subst (λ n. LoadedFrom rt (add32 (reg m reg_b) (u32 imm)) m n)
              (sym (exec_words-append ws (far_words rt) m))
              (far-LoadedFrom rt (u32 imm) m (exec_words ws m) h0 hr (loads m)),
      )
]
