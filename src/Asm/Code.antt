-- ===== src/Asm/Code.antt =====
-- The code buffer: `log_to_phy`, `emit32`, `emit8`, `patch32` and `read32`.
pub mod Memory
pub mod Emission
use rsd_m.Base.{ℕ, ◌+◌, ◌*◌, ◌&&◌, bit_and, bit_or, ltb, leb, ◌==◌, if◌then◌else◌}
use rsd_m.Base.Word.{shl, shr, add32, sub32}
use rsd_m.Asm.State.{Action, done, fail, code_overflow, memory_fault}

abbrev pub max_code_bytes : ℕ
max_code_bytes = 512 * 1024

abbrev pub ram_base_log : ℕ
ram_base_log = 0x8000_0000

abbrev pub ram_base_phy : ℕ
ram_base_phy = 0x0001_0000

unfoldable pub log_to_phy : ℕ → ℕ
log_to_phy la =
    if leb ram_base_log la && ltb la (ram_base_log + 0x40000)
    then add32 ram_base_phy (sub32 la ram_base_log)
    else la

-- `code[p] = b`.
abbrev pub store8 : (ℕ → ℕ) → ℕ → ℕ → ℕ → ℕ
store8 code p b q = if p == q then b else code q

-- The four stores of a word, lowest byte first.
unfoldable pub store32 : (ℕ → ℕ) → ℕ → ℕ → ℕ → ℕ
store32 code p w =
    let c0 = store8 code p (bit_and (shr w 0) 0xff) in
    let c1 = store8 c0 (p + 1) (bit_and (shr w 8) 0xff) in
    let c2 = store8 c1 (p + 2) (bit_and (shr w 16) 0xff) in
    store8 c2 (p + 3) (bit_and (shr w 24) 0xff)

-- `p + 3` is a 32-bit sum: just below 2^32 it wraps and passes the check, and the store faults.
unfoldable pub emit32 : ℕ → Action
unfolding log_to_phy store32
emit32 w s =
    let p = log_to_phy s.cur_pc in
    if leb max_code_bytes (add32 p 3)
    then fail code_overflow s
    else if leb max_code_bytes p
    then fail memory_fault s
    else done (record s {
      code = store32 s.code p w;
      max_phy = if ltb s.max_phy (add32 p 4) then add32 p 4 else s.max_phy;
      cur_pc = add32 s.cur_pc 4;
    })

unfoldable pub emit8 : ℕ → Action
unfolding log_to_phy
emit8 b s =
    let p = log_to_phy s.cur_pc in
    if leb max_code_bytes p
    then fail code_overflow s
    else done (record s {
      code = store8 s.code p b;
      max_phy = if ltb s.max_phy (add32 p 1) then add32 p 1 else s.max_phy;
      cur_pc = add32 s.cur_pc 1;
    })

unfoldable pub patch32 : ℕ → ℕ → Action
unfolding store32
patch32 p w s =
    if ltb (p + 3) max_code_bytes
    then done (record s { code = store32 s.code p w })
    else fail memory_fault s

unfoldable pub read32 : (ℕ → ℕ) → ℕ → ℕ
read32 code p =
    bit_or (bit_or (bit_or (code p) (shl (code (p + 1)) 8)) (shl (code (p + 2)) 16))
      (shl (code (p + 3)) 24)
