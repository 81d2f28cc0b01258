-- ===== src/Base/Word.antt =====
-- Fixed-width integers as bit patterns: a `w`-bit value, signed or not, is a number below `2 ^ w`.
-- Signed arithmetic wraps (as every supported compiler does), and signed order compares with
-- the sign bit flipped.
use Prim.Native.Nat.{ℕ, ◌+◌, ◌-◌, ◌*◌, ◌/◌, ◌%◌, ◌^◌}
use mathlib.Core.Bool.{Bool}
use rsd_m.Base.Tests.{ltb, leb, if◌then◌else◌}

abbrev pub u8 : ℕ → ℕ
u8 v = v % 2 ^ 8

abbrev pub u32 : ℕ → ℕ
u32 v = v % 2 ^ 32

abbrev pub u64 : ℕ → ℕ
u64 v = v % 2 ^ 64

abbrev pub shl : ℕ → ℕ → ℕ
shl v k = v * 2 ^ k

abbrev pub shr : ℕ → ℕ → ℕ
shr v k = v / 2 ^ k

abbrev pub add32 : ℕ → ℕ → ℕ
add32 a b = (a + b) % 2 ^ 32

abbrev pub sub32 : ℕ → ℕ → ℕ
sub32 a b = (a + (2 ^ 32 - b % 2 ^ 32)) % 2 ^ 32

abbrev pub add64 : ℕ → ℕ → ℕ
add64 a b = (a + b) % 2 ^ 64

abbrev pub mul64 : ℕ → ℕ → ℕ
mul64 a b = (a * b) % 2 ^ 64

abbrev pub sub64 : ℕ → ℕ → ℕ
sub64 a b = (a + (2 ^ 64 - b % 2 ^ 64)) % 2 ^ 64

-- The pattern of `-n`.
abbrev pub minus32 : ℕ → ℕ
minus32 n = (2 ^ 32 - n % 2 ^ 32) % 2 ^ 32

abbrev pub minus64 : ℕ → ℕ
minus64 n = (2 ^ 64 - n % 2 ^ 64) % 2 ^ 64

abbrev pub is_neg64 : ℕ → Bool
is_neg64 v = leb (2 ^ 63) v

-- `a <= b` on signed patterns.
abbrev pub sle32 : ℕ → ℕ → Bool
sle32 a b = leb ((a + 2 ^ 31) % 2 ^ 32) ((b + 2 ^ 31) % 2 ^ 32)

abbrev pub sle64 : ℕ → ℕ → Bool
sle64 a b = leb ((a + 2 ^ 63) % 2 ^ 64) ((b + 2 ^ 63) % 2 ^ 64)

-- Widening a signed 32-bit pattern to 64 bits.
abbrev pub sext32 : ℕ → ℕ
sext32 v = if ltb v (2 ^ 31) then v else v + (2 ^ 64 - 2 ^ 32)

-- `v >> k` on a signed 32-bit pattern.
abbrev pub asr32 : ℕ → ℕ → ℕ
asr32 v k = if ltb v (2 ^ 31) then v / 2 ^ k else 2 ^ 32 - 1 - (2 ^ 32 - 1 - v) / 2 ^ k

abbrev pub magnitude64 : ℕ → ℕ
magnitude64 v = if is_neg64 v then 2 ^ 64 - v else v

-- Signed division, which rounds towards zero.
abbrev pub div64 : ℕ → ℕ → ℕ
div64 a b =
    let q = magnitude64 a / magnitude64 b in
    if is_neg64 a
    then (if is_neg64 b then q % 2 ^ 64 else minus64 q)
    else if is_neg64 b
    then minus64 q
    else q
