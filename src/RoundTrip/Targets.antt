-- ===== src/RoundTrip/Targets.antt =====
-- Branches and jumps lead where they were meant to: the target that the disassembler computes
-- from the word is the label's address.
use rsd_m.Base.{ℕ, ◌*◌, ◌/◌, ◌%◌, ◌^◌, ◌<◌, ◌≡◌, arith, bit_and}
use rsd_m.Base.Word.{asr32, shl, shr, u32}
use rsd_m.Base.Bits.{and_low, and_high, or_high}
use rsd_m.Isa.{op_br}
use rsd_m.Asm.Branch.{displacement, branch_word, jump_word}
use rsd_m.Dis.Decode.{decode}
use rsd_m.Dis.Raw.{branch_target, jump_target}
use rsd_m.RoundTrip.Formats.{IsSigned, decode-enc_b21, decode_jumps}

-- A displacement in range keeps its sign in the 21-bit field.
shifted-IsSigned : (d : ℕ) → IsSigned 23 d → IsSigned 21 (asr32 d 2)
shifted-IsSigned d h = ground arith

-- A branch to `addr` assembled at `pc`, with the displacement aligned and in the 23-bit range,
-- decodes to its condition and link bit, and the target computed from it is `addr`.
pub branch_target-branch_word :
    (cond link addr pc : ℕ)
    → cond < 16
    → link < 2
    → addr < 2 ^ 32
    → pc < 2 ^ 32
    → displacement addr pc % 4 ≡ 0
    → IsSigned 23 (displacement addr pc)
    → let i = decode (branch_word cond link (displacement addr pc)) in
      (i.op ≡ op_br) × (i.cond ≡ cond) × (i.link ≡ link) × (branch_target pc i.off21 ≡ addr)
unfolding branch_target
branch_target-branch_word cond link addr pc hc hl ha hp h4 hr =
    let d = displacement addr pc in
    let (b1, b2, b3, b4) = decode-enc_b21 cond link (asr32 d 2) hc hl (shifted-IsSigned d hr) in
    (b1, b2, b3, rw b4 (ground arith))

-- A jump to `addr`, a multiple of 4, assembled within the same 256 MB as the jump, decodes to its
-- opcode, and the target computed from it is `addr`.
pub jump_target-jump_word :
    (opcode addr pc : ℕ)
    → opcode < 64
    → addr < 2 ^ 32
    → pc < 2 ^ 32
    → addr % 4 ≡ 0
    → pc / 2 ^ 28 ≡ addr / 2 ^ 28
    → let i = decode (jump_word opcode addr) in (i.op ≡ opcode) × (jump_target pc i.target26 ≡ addr)
unfolding jump_target
jump_target-jump_word opcode addr pc ho ha hp h4 hr =
    let t = bit_and (shr addr 2) 0x3ffffff in
    let low : t ≡ addr / 4 % 2 ^ 26 = and_low 26 (addr / 4) in
    let (j1, j2, j3, j4, j5) =
      decode_jumps opcode 0 0 t ho (omega arith) (omega arith) (omega arith) in
    let region : bit_and pc 0xf000_0000 ≡ pc / 2 ^ 28 % 2 ^ 4 * 2 ^ 28 = and_high 28 4 pc in
    (
      j1,
      rw (j2, region, or_high 28 (pc / 2 ^ 28 % 2 ^ 4) (u32 (shl t 2)) (omega arith)) (omega arith),
    )
