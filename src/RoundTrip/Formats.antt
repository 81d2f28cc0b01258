-- ===== src/RoundTrip/Formats.antt =====
-- `decode` undoes each encoder on fields that fit, and recovers signed immediates.
use rsd_m.Base.{ℕ, ◌-◌, ◌%◌, ◌^◌, ◌≤◌, ◌<◌, ◌≡◌, ◌⊎◌, arith}
use rsd_m.RoundTrip.Fields.{
  enc_r3_sum, enc_i13f_sum, enc_m14_sum, enc_u20_sum, enc_b21_sum, enc_j26_sum, enc_jr_sum,
  enc_sys_sum, decode-op, decode-rd, decode-rs1, decode-rs2, decode-func7, decode-f, decode-imm13,
  decode-off14, decode-imm20, decode-target26, decode-cond, decode-link, decode-off21,
  decode-sys_sub, decode-sys_payload,
}
use rsd_m.Asm.Encode.{enc_r3, enc_i13f, enc_m14, enc_u20, enc_b21, enc_j26, enc_jr, enc_sys}
use rsd_m.Isa.{op_br, op_sys}
use rsd_m.Dis.Decode.{decode}

-- A 32-bit pattern whose signed value fits in `w` bits.
abbrev pub IsSigned : ℕ → ℕ → Type 0
IsSigned w v = (v < 2 ^ (w - 1)) ⊎ ((2 ^ 32 - 2 ^ (w - 1) ≤ v) × (v < 2 ^ 32))

-- A word in the register format, decoded, gives its six fields back.
pub decode-enc_r3 :
    (op rd rs1 rs2 func7 f : ℕ)
    → op < 64
    → rd < 64
    → rs1 < 64
    → rs2 < 64
    → func7 < 128
    → f < 2
    → let i = decode (enc_r3 op rd rs1 rs2 func7 f) in
      (i.op ≡ op) × (i.rd ≡ rd) × (i.rs1 ≡ rs1) × (i.rs2 ≡ rs2) × (i.func7 ≡ func7) × (i.f ≡ f)
decode-enc_r3 op rd rs1 rs2 func7 f ho hd h1 h2 h7 hf =
    let w = enc_r3 op rd rs1 rs2 func7 f in
    let sum = enc_r3_sum op rd rs1 rs2 func7 f in
    (
      omega (arith, sum, decode-op w),
      omega (arith, sum, decode-rd w),
      omega (arith, sum, decode-rs1 w),
      omega (arith, sum, decode-rs2 w),
      omega (arith, sum, decode-func7 w),
      omega (arith, sum, decode-f w),
    )

-- A word in the immediate format, decoded, gives its fields back, the immediate with its sign.
pub decode-enc_i13f :
    (op rd rs1 imm f : ℕ)
    → op < 64
    → rd < 64
    → rs1 < 64
    → IsSigned 13 imm
    → f < 2
    → let i = decode (enc_i13f op rd rs1 imm f) in
      (i.op ≡ op) × (i.rd ≡ rd) × (i.rs1 ≡ rs1) × (i.imm13 ≡ imm) × (i.f ≡ f)
decode-enc_i13f op rd rs1 imm f ho hd h1 hi hf =
    let w = enc_i13f op rd rs1 imm f in
    let sum = enc_i13f_sum op rd rs1 imm f in
    (
      omega (arith, sum, decode-op w),
      omega (arith, sum, decode-rd w),
      omega (arith, sum, decode-rs1 w),
      ground (arith, sum, decode-imm13 w),
      omega (arith, sum, decode-f w),
    )

-- A load or store word, decoded, gives its fields back, the offset with its sign.
pub decode-enc_m14 :
    (op rt base off : ℕ)
    → op < 64
    → rt < 64
    → base < 64
    → IsSigned 14 off
    → let i = decode (enc_m14 op rt base off) in
      (i.op ≡ op) × (i.rd ≡ rt) × (i.rs1 ≡ base) × (i.off14 ≡ off)
decode-enc_m14 op rt base off ho ht hb hf =
    let w = enc_m14 op rt base off in
    let sum = enc_m14_sum op rt base off in
    (
      omega (arith, sum, decode-op w),
      omega (arith, sum, decode-rd w),
      omega (arith, sum, decode-rs1 w),
      ground (arith, sum, decode-off14 w),
    )

-- A word in the upper-immediate format, decoded, gives its fields back.
pub decode-enc_u20 :
    (op rd imm : ℕ)
    → op < 64
    → rd < 64
    → imm < 2 ^ 20
    → let i = decode (enc_u20 op rd imm) in (i.op ≡ op) × (i.rd ≡ rd) × (i.imm20 ≡ imm)
decode-enc_u20 op rd imm ho hd hi =
    let w = enc_u20 op rd imm in
    let sum = enc_u20_sum op rd imm in
    (
      omega (arith, sum, decode-op w),
      omega (arith, sum, decode-rd w),
      omega (arith, sum, decode-imm20 w),
    )

-- A branch word, decoded, gives its condition, link bit and signed word displacement back.
pub decode-enc_b21 :
    (cond link off : ℕ)
    → cond < 16
    → link < 2
    → IsSigned 21 off
    → let i = decode (enc_b21 cond link off) in
      (i.op ≡ op_br) × (i.cond ≡ cond) × (i.link ≡ link) × (i.off21 ≡ off)
decode-enc_b21 cond link off hc hl ho =
    let w = enc_b21 cond link off in
    let sum = enc_b21_sum cond link off in
    (
      omega (arith, sum, decode-op w),
      omega (arith, sum, decode-cond w),
      omega (arith, sum, decode-link w),
      ground (arith, sum, decode-off21 w),
    )

-- A jump word, decoded, gives its opcode and 26-bit target back; the register-jump format gives
-- its registers back.
pub decode_jumps :
    (op rd rs1 target : ℕ)
    → op < 64
    → rd < 64
    → rs1 < 64
    → target < 2 ^ 26
    → let i = decode (enc_j26 op target) in
      let j = decode (enc_jr op rd rs1) in
      (i.op ≡ op) × (i.target26 ≡ target) × (j.op ≡ op) × (j.rd ≡ rd) × (j.rs1 ≡ rs1)
decode_jumps op rd rs1 target ho hd h1 ht =
    let v = enc_j26 op target in
    let w = enc_jr op rd rs1 in
    let short = enc_j26_sum op target in
    let sum = enc_jr_sum op rd rs1 in
    (
      omega (arith, short, decode-op v),
      omega (arith, short, decode-target26 v),
      omega (arith, sum, decode-op w),
      omega (arith, sum, decode-rd w),
      omega (arith, sum, decode-rs1 w),
    )

-- A system word, decoded, gives its sub-opcode back and the payload's low 17 bits.
pub decode-enc_sys :
    (sub payload : ℕ)
    → sub < 8
    → let i = decode (enc_sys sub payload) in
      (i.op ≡ op_sys) × (i.sys_sub ≡ sub) × (i.sys_payload ≡ payload % 2 ^ 17)
decode-enc_sys sub payload hs =
    let w = enc_sys sub payload in
    let sum = enc_sys_sum sub payload in
    (
      omega (arith, sum, decode-op w),
      omega (arith, sum, decode-sys_sub w),
      omega (arith, sum, decode-sys_payload w),
    )
