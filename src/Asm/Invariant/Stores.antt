-- ===== src/Asm/Invariant/Stores.antt =====
-- Stores into the code buffer keep the invariant.
use rsd_m.Asm.Code.Memory.{store32_frame}
use rsd_m.Base.{
  ℕ, ◌+◌, ◌/◌, ◌^◌, ◌≤◌, ◌<◌, ◌≡◌, inl, inr, true, false, arith, ltb, leb, if◌then◌else◌, leb→le,
  leb→gt, Bool-cases, bit_and, refl, ◌∙◌, ◌==◌,
}
use rsd_m.Base.Word.{add32}
use rsd_m.Base.Bits.{and_low}
use rsd_m.Asm.State.{State, ok, err, code_overflow, Action}
use rsd_m.Asm.Code.{max_code_bytes, log_to_phy, store8, store32, emit32, emit8, patch32}
use rsd_m.Asm.Code.Emission.{
  emitted, emit32_ok, emit32_full, emit32_wrapped, log_to_phy-bound, patched, patch32_ok,
}
use rsd_m.Asm.Keeps.{After, Keeps}
use rsd_m.Asm.Invariant.{IsWell, InBuffer-mono}

store32-bound : (code : ℕ → ℕ) (p w q : ℕ) → ((r : ℕ) → code r < 256) → store32 code p w q < 256
unfolding store32
store32-bound code p w q h = ground (
  arith,
  h q,
  and_low 8 (w / 2 ^ 0),
  and_low 8 (w / 2 ^ 8),
  and_low 8 (w / 2 ^ 16),
  and_low 8 (w / 2 ^ 24),
)

pub emitted-IsWell :
    (w : ℕ) (s : State) → IsWell s → log_to_phy s.cur_pc + 4 ≤ max_code_bytes → IsWell (emitted w s)
emitted-IsWell w s h fits = record {
  bytes = λ q. store32-bound s.code (log_to_phy s.cur_pc) w q h.bytes;
  top = ground arith;
  pc = omega arith;
  labels = h.labels;
  constants = h.constants;
  fixups = h.fixups;
  filler = λ q k.
      store32_frame s.code (log_to_phy s.cur_pc) w q (inr (ground (arith, fits, k)))
      ∙ h.filler q (ground (arith, fits, k));
  places = InBuffer-mono s.max_phy (emitted w s).max_phy s.fixups (ground (arith, fits)) h.places;
  addresses = h.addresses;
}

-- Where `emit32` succeeds, its word fits the buffer.
pub emit32-After :
    (w : ℕ) (s : State) (P : State → Type 0)
    → s.cur_pc < 2 ^ 32
    → (log_to_phy s.cur_pc + 4 ≤ max_code_bytes → P (emitted w s))
    → After P (emit32 w s)
emit32-After w s P hp k =
    let p = log_to_phy s.cur_pc in
    let hb = log_to_phy-bound s.cur_pc hp in
    elim (Bool-cases (leb (p + 4) max_code_bytes)) [
      | inl small ↦
          (let fits = leb→le (p + 4) max_code_bytes small in rw (emit32_ok w s fits) (k fits))
      | inr large ↦
          let over = leb→gt (p + 4) max_code_bytes large in
          elim (Bool-cases (leb (2 ^ 32) (p + 3))) [
            | inl wraps ↦ rw (emit32_wrapped w s (leb→le (2 ^ 32) (p + 3) wraps) hb) tt
            | inr stays ↦ rw (emit32_full w s over (leb→gt (2 ^ 32) (p + 3) stays)) tt
          ]
    ]

pub emit32-Keeps : (w : ℕ) → Keeps IsWell (emit32 w)
emit32-Keeps w = record { at = λ s h. emit32-After w s IsWell h.pc (emitted-IsWell w s h) }

byte-bound :
    (code : ℕ → ℕ) (p b q : ℕ) → b < 256 → ((r : ℕ) → code r < 256) → store8 code p b q < 256
byte-bound code p b q hb h = ground (arith, h q)

abbrev emitted_byte : ℕ → State → State
emitted_byte b s =
    let p = log_to_phy s.cur_pc in
    record s {
      code = store8 s.code p b;
      max_phy = if ltb s.max_phy (add32 p 1) then add32 p 1 else s.max_phy;
      cur_pc = add32 s.cur_pc 1;
    }

emit8_ok :
    (b : ℕ) (s : State)
    → leb max_code_bytes (log_to_phy s.cur_pc) ≡ false
    → emit8 b s ≡ ok (tt, emitted_byte b s)
unfolding emit8
emit8_ok b s h = rw h

emit8_full :
    (b : ℕ) (s : State)
    → leb max_code_bytes (log_to_phy s.cur_pc) ≡ true
    → emit8 b s ≡ err code_overflow
unfolding emit8
emit8_full b s h = rw h

emitted_byte-IsWell :
    (b : ℕ) (s : State)
    → b < 256
    → IsWell s
    → log_to_phy s.cur_pc < max_code_bytes
    → IsWell (emitted_byte b s)
emitted_byte-IsWell b s hb h fits = record {
  bytes = λ q. byte-bound s.code (log_to_phy s.cur_pc) b q hb h.bytes;
  top = ground arith;
  pc = omega arith;
  labels = h.labels;
  constants = h.constants;
  fixups = h.fixups;
  filler = λ q k.
      let other : (log_to_phy s.cur_pc == q) ≡ false = ground (arith, fits, k) in
      rw other (h.filler q (ground (arith, fits, k)));
  places =
      InBuffer-mono s.max_phy (emitted_byte b s).max_phy s.fixups (ground (arith, fits)) h.places;
  addresses = h.addresses;
}

pub emit8-Keeps : (b : ℕ) → b < 256 → Keeps IsWell (emit8 b)
emit8-Keeps b hb = record {
  at = λ s h. elim (Bool-cases (leb max_code_bytes (log_to_phy s.cur_pc))) [
    | inl full ↦ rw (emit8_full b s full) tt
    | inr room ↦
        rw (emit8_ok b s room)
          (emitted_byte-IsWell b s hb h (leb→gt max_code_bytes (log_to_phy s.cur_pc) room))
  ];
}

-- What follows a byte starts at the next address.
pub emit8-bind :
    (b : ℕ) (s : State) (f : Unit {0} → Action)
    → b < 256
    → IsWell s
    → ((t : State) → IsWell t → t.cur_pc ≡ add32 s.cur_pc 1 → After IsWell (f tt t))
    → After IsWell (elim (emit8 b s) [ err e ↦ err e | ok (u, s') ↦ f u s' ])
emit8-bind b s f hb h k = elim (Bool-cases (leb max_code_bytes (log_to_phy s.cur_pc))) [
  | inl full ↦ rw (emit8_full b s full) tt
  | inr room ↦ rw (emit8_ok b s room) (
      k (emitted_byte b s)
        (emitted_byte-IsWell b s hb h (leb→gt max_code_bytes (log_to_phy s.cur_pc) room)) refl)
]

-- A byte cut out of a word.
pub emit_low-Keeps : (v : ℕ) → Keeps IsWell (emit8 (bit_and v 0xff))
emit_low-Keeps v = emit8-Keeps (bit_and v 0xff) (omega (arith, and_low 8 v))

-- A store over code that is there.
patched-IsWell : (p w : ℕ) (s : State) → IsWell s → p + 4 ≤ s.max_phy → IsWell (patched p w s)
patched-IsWell p w s h l = record {
  bytes = λ q. store32-bound s.code p w q h.bytes;
  top = h.top;
  pc = h.pc;
  labels = h.labels;
  constants = h.constants;
  fixups = h.fixups;
  filler = λ q k. store32_frame s.code p w q (inr (omega (arith, l, k))) ∙ h.filler q k;
  places = h.places;
  addresses = h.addresses;
}

pub patch32-After :
    (p w : ℕ) (s : State) (P : State → Type 0)
    → IsWell s
    → p + 4 ≤ s.max_phy
    → (IsWell (patched p w s) → P (patched p w s))
    → After P (patch32 p w s)
patch32-After p w s P h l k =
    rw (patch32_ok p w s (omega (arith, l, h.top))) (k (patched-IsWell p w s h l))
