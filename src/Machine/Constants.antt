-- ===== src/Machine/Constants.antt =====
-- `emit_load_const` emits words that load the constant.
use mathlib.Core.Path.{subst}
use rsd_m.Dis.Decode.{decode}
use rsd_m.Base.{
  ℕ, ◌/◌, ◌%◌, ◌^◌, ◌<◌, ◌≡◌, refl, sym, ap, ◌∙◌, ◌≢◌, inl, inr, true, List, [], ◌∷◌, arith, ◌==◌,
  if◌then◌else◌, ==_iff, Bool-cases, bit_and, bit_or,
}
use rsd_m.Base.Word.{add32, shl, shr}
use rsd_m.Base.Bits.{and_low, or_high}
use rsd_m.Isa.{op_addi, op_ori, op_lui, reg_zero}
use rsd_m.Asm.State.{State, Action, Result, ok, err, done, ◌>>◌}
use rsd_m.Asm.Code.{emit32}
use rsd_m.Asm.Encode.{enc_i13f, enc_u20}
use rsd_m.Asm.Lower.{fits_imm13, emit_load_const}
use rsd_m.RoundTrip.Formats.{IsSigned}
use rsd_m.Machine.{Machine, reg, set_reg, exec, exec_words, emit_words}
use rsd_m.Machine.Steps.{addi_step, ori_step, lui_step}

done-right : (r : Result (Unit {0} × State)) → elim r [ err e ↦ err e | ok (a, s') ↦ done s' ] ≡ r
done-right (ok (u, s)) = refl
done-right (err e) = refl

pub emit_words-one : (w : ℕ) (s : State) → emit_words (w ∷ []) s ≡ emit32 w s
unfolding emit_words
emit_words-one w s = done-right (emit32 w s)

after-word :
    (r : Result (Unit {0} × State)) (k j : Action)
    → ((s : State) → k s ≡ j s)
    → elim r [ err e ↦ err e | ok (a, s') ↦ k s' ] ≡ elim r [ err e ↦ err e | ok (a, s') ↦ j s' ]
after-word (ok (u, s)) k j h = h s
after-word (err e) k j h = refl

-- A word, then an action that emits words.
pub emit_words-cons :
    (w : ℕ) (k : Action) (ws : List ℕ) (s : State)
    → ((t : State) → k t ≡ emit_words ws t)
    → (emit32 w >> k) s ≡ emit_words (w ∷ ws) s
unfolding emit_words
emit_words-cons w k ws s h = after-word (emit32 w s) k (emit_words ws) h

-- The words that load `val`.
pub load_words : ℕ → ℕ → List ℕ
load_words rd val =
    if fits_imm13 val
    then enc_i13f op_addi rd reg_zero val 0 ∷ []
    else enc_u20 op_lui rd (shr val 12)
      ∷ (if bit_and val 0xfff == 0 then [] else enc_i13f op_ori rd rd (bit_and val 0xfff) 0 ∷ [])

pub emit_load_const-load_words :
    (rd val : ℕ) (s : State) → emit_load_const rd val s ≡ emit_words (load_words rd val) s
unfolding emit_load_const load_words emit_words
emit_load_const-load_words rd val s = elim (Bool-cases (fits_imm13 val)) [
  | inl e ↦ rw e (sym (emit_words-one (enc_i13f op_addi rd reg_zero val 0) s))
  | inr e ↦ elim (Bool-cases (bit_and val 0xfff == 0)) [
    | inl z ↦ rw (e, z) (emit_words-cons (enc_u20 op_lui rd (shr val 12)) done [] s (λ t. refl))
    | inr z ↦
        rw (e, z)
          (emit_words-cons (enc_u20 op_lui rd (shr val 12))
            (emit32 (enc_i13f op_ori rd rd (bit_and val 0xfff) 0))
            (enc_i13f op_ori rd rd (bit_and val 0xfff) 0 ∷ []) s
            (λ t. sym (emit_words-one (enc_i13f op_ori rd rd (bit_and val 0xfff) 0) t)))
  ]
]

fits-IsSigned : (v : ℕ) → v < 2 ^ 32 → fits_imm13 v ≡ true → IsSigned 13 v
fits-IsSigned v h e = ground arith

-- A machine with `v` in the register `rd`, and otherwise that of before.
abbrev pub Loaded : ℕ → ℕ → Machine → Machine → Type 0
Loaded rd v m n = (reg n rd ≡ v) × ((r : ℕ) → r ≢ rd → reg n r ≡ reg m r) × (n.mem ≡ m.mem)

pub set_reg-Loaded : (rd v : ℕ) (m : Machine) → 0 < rd → Loaded rd v m (set_reg rd v m)
set_reg-Loaded rd v m h = (ground arith, λ r d. ground arith, refl)

-- The high part and the low part make the value.
parts : (val : ℕ) → bit_or (shl (shr val 12) 12) (bit_and val 0xfff) ≡ val
parts val =
    rw (and_low 12 val) (or_high 12 (val / 2 ^ 12) (val % 2 ^ 12) (omega arith) ∙ (omega arith))

exec_words-one : (w : ℕ) (m : Machine) → exec_words (w ∷ []) m ≡ exec (decode w) m
unfolding exec_words
exec_words-one w m = refl

exec_words-two :
    (v w : ℕ) (m : Machine) → exec_words (v ∷ w ∷ []) m ≡ exec (decode w) (exec (decode v) m)
unfolding exec_words
exec_words-two v w m = refl

Loaded-by : (rd v : ℕ) (m n k : Machine) → n ≡ k → Loaded rd v m k → Loaded rd v m n
Loaded-by rd v m n k e h = subst (λ x. Loaded rd v m x) (sym e) h

Loaded-as : (rd v w : ℕ) (m n : Machine) → v ≡ w → Loaded rd v m n → Loaded rd w m n
Loaded-as rd v w m n e h = subst (λ x. Loaded rd x m n) e h

Loaded-after : (rd v w : ℕ) (m n k : Machine) → Loaded rd w m n → Loaded rd v n k → Loaded rd v m k
Loaded-after rd v w m n k (a, b, c) (d, e, f) = (d, λ r h. e r h ∙ b r h, f ∙ c)

-- A value with no low part.
round : (val : ℕ) → (bit_and val 0xfff == 0) ≡ true → shl (shr val 12) 12 ≡ val
round val z =
    let low : bit_and val 0xfff ≡ 0 = (==_iff (bit_and val 0xfff) 0).0 z in
    omega (arith, low, and_low 12 val)

-- The two words.
pair-Loaded :
    (rd val : ℕ) (m : Machine)
    → 0 < rd
    → rd < 64
    → val < 2 ^ 32
    → Loaded rd val m (
        exec_words
          (enc_u20 op_lui rd (shr val 12) ∷ enc_i13f op_ori rd rd (bit_and val 0xfff) 0 ∷ [])
          m)
pair-Loaded rd val m h0 hr hv =
    let low : bit_and val 0xfff < 4096 = omega (arith, and_low 12 val) in
    let hi = shl (shr val 12) 12 in
    let k = set_reg rd hi m in
    let first = set_reg-Loaded rd hi m h0 in
    let w = enc_i13f op_ori rd rd (bit_and val 0xfff) 0 in
    let runs : exec_words (enc_u20 op_lui rd (shr val 12) ∷ w ∷ []) m
        ≡ set_reg rd (bit_or (reg k rd) (bit_and val 0xfff)) k =
      exec_words-two (enc_u20 op_lui rd (shr val 12)) w m
      ∙ ap (exec (decode w)) (lui_step rd (shr val 12) m hr (omega (arith, hv)))
      ∙ ori_step rd rd (bit_and val 0xfff) 0 k hr hr low (omega arith) in
    let value : bit_or (reg k rd) (bit_and val 0xfff) ≡ val =
      ap (λ x. bit_or x (bit_and val 0xfff)) first.0 ∙ parts val in
    Loaded-by rd val m _ (set_reg rd (bit_or (reg k rd) (bit_and val 0xfff)) k) runs (
      Loaded-after rd val hi m k _ first (
        Loaded-as rd (bit_or (reg k rd) (bit_and val 0xfff)) val k _ value
          (set_reg-Loaded rd _ k h0)))

pub load_words-Loaded :
    (rd val : ℕ) (m : Machine)
    → 0 < rd
    → rd < 64
    → val < 2 ^ 32
    → Loaded rd val m (exec_words (load_words rd val) m)
unfolding load_words
load_words-Loaded rd val m h0 hr hv = elim (Bool-cases (fits_imm13 val)) [
  | inl e ↦ rw e (
      Loaded-by rd val m _ (set_reg rd (add32 0 val) m)
        (exec_words-one (enc_i13f op_addi rd reg_zero val 0) m
          ∙ addi_step rd reg_zero val 0 m hr (omega arith) (fits-IsSigned val hv e) (omega arith))
        (Loaded-as rd (add32 0 val) val m _ (omega (arith, hv))
          (set_reg-Loaded rd (add32 0 val) m h0)))
  | inr e ↦ elim (Bool-cases (bit_and val 0xfff == 0)) [
    | inl z ↦
        rw (e, z)
          (Loaded-by rd val m _ (set_reg rd (shl (shr val 12) 12) m)
            (exec_words-one (enc_u20 op_lui rd (shr val 12)) m
              ∙ lui_step rd (shr val 12) m hr (omega (arith, hv)))
            (Loaded-as rd (shl (shr val 12) 12) val m _ (round val z)
              (set_reg-Loaded rd (shl (shr val 12) 12) m h0)))
    | inr z ↦ rw (e, z) (pair-Loaded rd val m h0 hr hv)
  ]
]

-- Constants load. For a register other than R0 there are words that `emit_load_const` emits,
-- in every state of the assembler, and that leave the constant in the register, and all other
-- registers and the memory as they were, when a machine executes them.
pub emit_load_const-Loaded :
    (rd val : ℕ)
    → 0 < rd
    → rd < 64
    → val < 2 ^ 32
    → (ws : List ℕ) × ((s : State) → emit_load_const rd val s ≡ emit_words ws s)
      × ((m : Machine) → Loaded rd val m (exec_words ws m))
emit_load_const-Loaded rd val h0 hr hv =
    (load_words rd val, emit_load_const-load_words rd val, λ m. load_words-Loaded rd val m h0 hr hv)
