-- ===== src/Asm/Code/Emission.antt =====
-- What `emit32`, `emit8` and `patch32` do on each of their outcomes.
use rsd_m.Base.{
  ℕ, ◌+◌, ◌^◌, ◌≤◌, ◌<◌, ◌≡◌, ◌⊎◌, inl, inr, arith, refl, ltb, leb, leb→le, leb→gt, gt→leb, le→leb,
  lt→ltb, Bool-cases, true, false, if◌then◌else◌,
}
use rsd_m.Base.Word.{add32}
use rsd_m.Asm.State.{State, ok, err, code_overflow, memory_fault}
use rsd_m.Asm.Code.Memory.{store32_frame, read32-store32}
use rsd_m.Asm.Code.{max_code_bytes, log_to_phy, store32, emit32, patch32, read32}

-- The word went to `p`: it reads back from there, and the rest of the buffer is as before.
abbrev pub Stored : ℕ → ℕ → State → State → Type 0
Stored p w s t = (read32 t.code p ≡ w) × ((q : ℕ) → (q < p) ⊎ (p + 4 ≤ q) → t.code q ≡ s.code q)

abbrev pub emitted : ℕ → State → State
emitted w s =
    let p = log_to_phy s.cur_pc in
    record s {
      code = store32 s.code p w;
      max_phy = if ltb s.max_phy (add32 p 4) then add32 p 4 else s.max_phy;
      cur_pc = add32 s.cur_pc 4;
    }

pub log_to_phy-bound : (a : ℕ) → a < 2 ^ 32 → log_to_phy a < 2 ^ 32
unfolding log_to_phy
log_to_phy-bound a h = ground arith

-- A place with room for the word: the emission succeeds.
pub emit32_ok :
    (w : ℕ) (s : State)
    → log_to_phy s.cur_pc + 4 ≤ max_code_bytes
    → emit32 w s ≡ ok (tt, emitted w s)
unfolding emit32
emit32_ok w s h =
    let p = log_to_phy s.cur_pc in
    let room : leb max_code_bytes (add32 p 3) ≡ false =
      gt→leb max_code_bytes (add32 p 3) (omega (arith, h)) in
    let inside : leb max_code_bytes p ≡ false = gt→leb max_code_bytes p (omega (arith, h)) in
    rw (room, inside)

-- No room: the error.
pub emit32_full :
    (w : ℕ) (s : State)
    → max_code_bytes < log_to_phy s.cur_pc + 4
    → log_to_phy s.cur_pc + 3 < 2 ^ 32
    → emit32 w s ≡ err code_overflow
unfolding emit32
emit32_full w s h k =
    let p = log_to_phy s.cur_pc in
    let full : leb max_code_bytes (add32 p 3) ≡ true =
      le→leb max_code_bytes (add32 p 3) (omega (arith, h, k)) in
    rw full

-- The sum wraps: the check passes, and the store is outside the buffer.
pub emit32_wrapped :
    (w : ℕ) (s : State)
    → 2 ^ 32 ≤ log_to_phy s.cur_pc + 3
    → log_to_phy s.cur_pc < 2 ^ 32
    → emit32 w s ≡ err memory_fault
unfolding emit32
emit32_wrapped w s h k =
    let p = log_to_phy s.cur_pc in
    let room : leb max_code_bytes (add32 p 3) ≡ false =
      gt→leb max_code_bytes (add32 p 3) (omega (arith, h, k)) in
    let outside : leb max_code_bytes p ≡ true = le→leb max_code_bytes p (omega (arith, h, k)) in
    rw (room, outside)

-- On a word and an address of 32 bits `emit32` does one of three things. Where the four bytes
-- fit the buffer, the word reads back from the physical address, every other byte is kept, the
-- program counter moves on by 4, and `max_phy` reaches the word's end. Where they do not, it is a
-- code overflow; but where the check's own sum wraps around, the check passes and the store
-- is outside the buffer.
pub emit32-outcomes :
    (w : ℕ) (s : State)
    → w < 2 ^ 32
    → s.cur_pc < 2 ^ 32
    → let p = log_to_phy s.cur_pc in
      ((p + 4 ≤ max_code_bytes)
        × ((t : State) × (emit32 w s ≡ ok (tt, t))
            × Stored p w s t
            × (t.cur_pc ≡ add32 s.cur_pc 4)
            × (p + 4 ≤ t.max_phy)))
      ⊎ ((max_code_bytes < p + 4) × (p + 3 < 2 ^ 32) × (emit32 w s ≡ err code_overflow))
      ⊎ ((2 ^ 32 ≤ p + 3) × (emit32 w s ≡ err memory_fault))
emit32-outcomes w s hw hs =
    let p = log_to_phy s.cur_pc in
    let hp = log_to_phy-bound s.cur_pc hs in
    elim (Bool-cases (leb (p + 4) max_code_bytes)) [
      | inl small ↦
          let fits = leb→le (p + 4) max_code_bytes small in
          inl (
            fits,
            (
              emitted w s,
              emit32_ok w s fits,
              (read32-store32 s.code p w hw, store32_frame s.code p w),
              refl,
              ground arith,
            ),
          )
      | inr large ↦
          let over = leb→gt (p + 4) max_code_bytes large in
          elim (Bool-cases (leb (2 ^ 32) (p + 3))) [
            | inl wraps ↦
                let h = leb→le (2 ^ 32) (p + 3) wraps in inr (inr (h, emit32_wrapped w s h hp))
            | inr stays ↦
                let h = leb→gt (2 ^ 32) (p + 3) stays in inr (inl (over, h, emit32_full w s over h))
          ]
    ]

-- The state after a patch.
abbrev pub patched : ℕ → ℕ → State → State
patched p w s = record s { code = store32 s.code p w }

pub patch32_ok :
    (p w : ℕ) (s : State) → p + 4 ≤ max_code_bytes → patch32 p w s ≡ ok (tt, patched p w s)
unfolding patch32
patch32_ok p w s h =
    let inside : ltb (p + 3) max_code_bytes ≡ true =
      lt→ltb (p + 3) max_code_bytes (omega (arith, h)) in
    rw inside
