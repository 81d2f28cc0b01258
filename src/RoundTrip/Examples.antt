-- ===== src/RoundTrip/Examples.antt =====
-- The agreement of assembler and disassembler, on concrete words and a concrete buffer.
use rsd_m.Base.{ℕ, ◌%◌, ◌^◌, ◌≤◌, ◌<◌, ◌≡◌, refl, inr, arith, ◌==◌, if◌then◌else◌}
use rsd_m.Isa.{op_br, op_sys, op_add, op_addi, op_ld, op_lui, op_jmp_abs}
use rsd_m.Asm.State.{State, initial}
use rsd_m.Asm.Encode.{enc_r3, enc_i13f, enc_m14, enc_u20, enc_b21, enc_j26, enc_jr, enc_sys}
use rsd_m.Asm.Branch.{displacement, branch_word, jump_word}
use rsd_m.Asm.Program.{hex_end, write_hex}
use rsd_m.Dis.Decode.{decode}
use rsd_m.Dis.Raw.{branch_target, jump_target}
use rsd_m.Dis.HexIn.{read_hex}
use rsd_m.RoundTrip.Formats.{
  decode-enc_r3, decode-enc_i13f, decode-enc_m14, decode-enc_u20, decode-enc_b21, decode_jumps,
  decode-enc_sys,
}
use rsd_m.RoundTrip.Targets.{branch_target-branch_word, jump_target-jump_word}
use rsd_m.RoundTrip.HexFile.{IsBytes, read_hex-write_hex}

-- A buffer with two bytes of code at 0x1000.
abbrev small : State
small = record initial {
  code = λ q. if q == 0x1000 then 0x12 else if q == 0x1001 then 0x34 else 0xcd;
  max_phy = 0x1002;
}

small-IsBytes : IsBytes small.code
small-IsBytes q = ground arith

read_hex-write_hex_example :
    (small.max_phy ≤ hex_end small.max_phy)
    × ((q : ℕ) → q < hex_end small.max_phy → (read_hex (write_hex small)).code q ≡ small.code q)
    × ((q : ℕ) → hex_end small.max_phy ≤ q → (read_hex (write_hex small)).code q ≡ 0xcd)
read_hex-write_hex_example = read_hex-write_hex small small-IsBytes (omega arith)

-- Eight bytes back.
branch_target-branch_word_example :
    let i = decode (branch_word 1 0 (displacement 0x1000 0x1008)) in
    (i.op ≡ op_br) × (i.cond ≡ 1) × (i.link ≡ 0) × (branch_target 0x1008 i.off21 ≡ 0x1000)
branch_target-branch_word_example =
    branch_target-branch_word 1 0 0x1000 0x1008 (omega arith) (omega arith) (omega arith)
      (omega arith) refl (inr (omega arith, omega arith))

jump_target-jump_word_example :
    let i = decode (jump_word op_jmp_abs 0x8000_0040) in
    (i.op ≡ op_jmp_abs) × (jump_target 0x8000_1000 i.target26 ≡ 0x8000_0040)
jump_target-jump_word_example =
    jump_target-jump_word op_jmp_abs 0x8000_0040 0x8000_1000 (omega arith) (omega arith)
      (omega arith) refl refl

-- ADD R1, A, X
decode-enc_r3_example :
    let i = decode (enc_r3 op_add 1 56 57 0 1) in
    (i.op ≡ op_add) × (i.rd ≡ 1) × (i.rs1 ≡ 56) × (i.rs2 ≡ 57) × (i.func7 ≡ 0) × (i.f ≡ 1)
decode-enc_r3_example =
    decode-enc_r3 op_add 1 56 57 0 1 (omega arith) (omega arith) (omega arith) (omega arith)
      (omega arith) (omega arith)

-- ADDI A, A, #-1
decode-enc_i13f_example :
    let i = decode (enc_i13f op_addi 56 56 0xffff_ffff 1) in
    (i.op ≡ op_addi) × (i.rd ≡ 56) × (i.rs1 ≡ 56) × (i.imm13 ≡ 0xffff_ffff) × (i.f ≡ 1)
decode-enc_i13f_example =
    decode-enc_i13f op_addi 56 56 0xffff_ffff 1 (omega arith) (omega arith) (omega arith)
      (inr (omega arith, omega arith)) (omega arith)

-- LD A, [B-4]
decode-enc_m14_example :
    let i = decode (enc_m14 op_ld 56 61 0xffff_fffc) in
    (i.op ≡ op_ld) × (i.rd ≡ 56) × (i.rs1 ≡ 61) × (i.off14 ≡ 0xffff_fffc)
decode-enc_m14_example =
    decode-enc_m14 op_ld 56 61 0xffff_fffc (omega arith) (omega arith) (omega arith)
      (inr (omega arith, omega arith))

decode-enc_u20_example :
    let i = decode (enc_u20 op_lui 63 0x12345) in
    (i.op ≡ op_lui) × (i.rd ≡ 63) × (i.imm20 ≡ 0x12345)
decode-enc_u20_example = decode-enc_u20 op_lui 63 0x12345 (omega arith) (omega arith) (omega arith)

decode-enc_b21_example :
    let i = decode (enc_b21 8 1 0xffff_fffd) in
    (i.op ≡ op_br) × (i.cond ≡ 8) × (i.link ≡ 1) × (i.off21 ≡ 0xffff_fffd)
decode-enc_b21_example =
    decode-enc_b21 8 1 0xffff_fffd (omega arith) (omega arith) (inr (omega arith, omega arith))

decode_jumps_example :
    let i = decode (enc_j26 op_jmp_abs 0x400) in
    let j = decode (enc_jr op_jmp_abs 0 63) in
    (i.op ≡ op_jmp_abs) × (i.target26 ≡ 0x400) × (j.op ≡ op_jmp_abs) × (j.rd ≡ 0) × (j.rs1 ≡ 63)
decode_jumps_example =
    decode_jumps op_jmp_abs 0 63 0x400 (omega arith) (omega arith) (omega arith) (omega arith)

decode-enc_sys_example :
    let i = decode (enc_sys 0 0x20005) in
    (i.op ≡ op_sys) × (i.sys_sub ≡ 0) × (i.sys_payload ≡ 0x20005 % 2 ^ 17)
decode-enc_sys_example = decode-enc_sys 0 0x20005 (omega arith)
