-- ===== src/Asm/Code/Memory.antt =====
-- What the code buffer holds after a store: the word that was written, and all else as before.
use rsd_m.Base.{ℕ, ◌+◌, ◌/◌, ◌%◌, ◌^◌, ◌≤◌, ◌<◌, ◌≡◌, ◌⊎◌, arith}
use rsd_m.Base.Bits.{and_low, or_bytes}
use rsd_m.Asm.Code.{store32, read32}

-- A store leaves every byte outside its four alone.
pub store32_frame : (code : ℕ → ℕ) (p w q : ℕ) → (q < p) ⊎ (p + 4 ≤ q) → store32 code p w q ≡ code q
unfolding store32
store32_frame code p w q h = ground arith

-- The bytes of a stored word.
pub byte_at :
    (code : ℕ → ℕ) (p w : ℕ)
    → (store32 code p w p ≡ w % 256)
      × (store32 code p w (p + 1) ≡ w / 2 ^ 8 % 256)
      × (store32 code p w (p + 2) ≡ w / 2 ^ 16 % 256)
      × (store32 code p w (p + 3) ≡ w / 2 ^ 24 % 256)
unfolding store32
byte_at code p w = (
  ground (arith, and_low 8 (w / 2 ^ 0)),
  ground (arith, and_low 8 (w / 2 ^ 8)),
  ground (arith, and_low 8 (w / 2 ^ 16)),
  ground (arith, and_low 8 (w / 2 ^ 24)),
)

-- A word of 32 bits, stored, reads back.
pub read32-store32 : (code : ℕ → ℕ) (p w : ℕ) → w < 2 ^ 32 → read32 (store32 code p w) p ≡ w
unfolding read32
read32-store32 code p w h =
    let (b0, b1, b2, b3) = byte_at code p w in
    rw
      (
        b0,
        b1,
        b2,
        b3,
        or_bytes (w % 256) (w / 2 ^ 8 % 256) (w / 2 ^ 16 % 256) (w / 2 ^ 24 % 256) (omega arith)
            (omega arith) (omega arith),
      )
      (omega arith)

-- A word that a store does not meet reads as before.
pub read32-store32_frame :
    (code : ℕ → ℕ) (p w q : ℕ)
    → (q + 4 ≤ p) ⊎ (p + 4 ≤ q)
    → read32 (store32 code p w) q ≡ read32 code q
unfolding read32
read32-store32_frame code p w q h = rw (
  store32_frame code p w q (ground arith),
  store32_frame code p w (q + 1) (ground arith),
  store32_frame code p w (q + 2) (ground arith),
  store32_frame code p w (q + 3) (ground arith),
)
