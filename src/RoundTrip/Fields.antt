-- ===== src/RoundTrip/Fields.antt =====
-- The encoders and the decoder as arithmetic on fields.
use rsd_m.Base.{
  ℕ, ◌+◌, ◌-◌, ◌*◌, ◌/◌, ◌%◌, ◌^◌, ◌<◌, bit_and, bit_or, ◌≡◌, ◌∙◌, arith, ltb, if◌then◌else◌,
}
use rsd_m.Base.Bits.{and_low, or_add}
use rsd_m.Base.Word.{u32, asr32}
use rsd_m.Asm.Encode.{enc_r3, enc_i13f, enc_m14, enc_u20, enc_b21, enc_j26, enc_jr, enc_sys}
use rsd_m.Isa.{op_br, op_sys}
use rsd_m.Dis.Decode.{decode}

-- Opcode and register fields, as they stand in every format that has them.
abbrev two_fields : ℕ → ℕ → ℕ
two_fields a b = a % 64 * 2 ^ 26 + b % 64 * 2 ^ 20

abbrev three_fields : ℕ → ℕ → ℕ → ℕ
three_fields a b c = two_fields a b + c % 64 * 2 ^ 14

and_6 : (a : ℕ) → bit_and a 0x3f ≡ a % 64
and_6 a = and_low 6 a

and_7 : (a : ℕ) → bit_and a 0x7f ≡ a % 128
and_7 a = and_low 7 a

and_1 : (a : ℕ) → bit_and a 1 ≡ a % 2
and_1 a = and_low 1 a

and_3 : (a : ℕ) → bit_and a 0x7 ≡ a % 8
and_3 a = and_low 3 a

and_4 : (a : ℕ) → bit_and a 0xf ≡ a % 16
and_4 a = and_low 4 a

and_13 : (a : ℕ) → bit_and a 0x1fff ≡ a % 8192
and_13 a = and_low 13 a

and_14 : (a : ℕ) → bit_and a 0x3fff ≡ a % 16384
and_14 a = and_low 14 a

and_17 : (a : ℕ) → bit_and a 0x1ffff ≡ a % 2 ^ 17
and_17 a = and_low 17 a

and_20 : (a : ℕ) → bit_and a 0xfffff ≡ a % 2 ^ 20
and_20 a = and_low 20 a

and_21 : (a : ℕ) → bit_and a 0x1fffff ≡ a % 2 ^ 21
and_21 a = and_low 21 a

and_26 : (a : ℕ) → bit_and a 0x3ffffff ≡ a % 2 ^ 26
and_26 a = and_low 26 a

or_two : (a b : ℕ) → bit_or (a % 64 * 2 ^ 26) (b % 64 * 2 ^ 20) ≡ two_fields a b
or_two a b = or_add 26 (a % 64 * 2 ^ 26) (b % 64 * 2 ^ 20) (omega arith) (omega arith)

or_three :
    (a b c : ℕ)
    → bit_or (bit_or (a % 64 * 2 ^ 26) (b % 64 * 2 ^ 20)) (c % 64 * 2 ^ 14) ≡ three_fields a b c
or_three a b c =
    rw (or_two a b) (or_add 20 (two_fields a b) (c % 64 * 2 ^ 14) (omega arith) (omega arith))

pub enc_r3_sum :
    (op rd rs1 rs2 func7 f : ℕ)
    → enc_r3 op rd rs1 rs2 func7 f
      ≡ three_fields op rd rs1 + rs2 % 64 * 2 ^ 8 + func7 % 128 * 2 + f % 2
unfolding enc_r3
enc_r3_sum op rd rs1 rs2 func7 f =
    let regs = three_fields op rd rs1 in
    let four = regs + rs2 % 64 * 2 ^ 8 in
    rw
      (
        and_6 op,
        and_6 rd,
        and_6 rs1,
        and_6 rs2,
        and_7 func7,
        and_1 f,
        or_three op rd rs1,
        or_add 14 regs (rs2 % 64 * 2 ^ 8) (omega arith) (omega arith),
        or_add 8 four (func7 % 128 * 2) (omega arith) (omega arith),
      )
      (or_add 1 (four + func7 % 128 * 2) (f % 2) (omega arith) (omega arith))

pub enc_i13f_sum :
    (op rd rs1 imm13 f : ℕ)
    → enc_i13f op rd rs1 imm13 f ≡ three_fields op rd rs1 + imm13 % 8192 * 2 + f % 2
unfolding enc_i13f
enc_i13f_sum op rd rs1 imm13 f =
    let regs = three_fields op rd rs1 in
    rw
      (
        and_6 op,
        and_6 rd,
        and_6 rs1,
        and_13 imm13,
        and_1 f,
        or_three op rd rs1,
        or_add 14 regs (imm13 % 8192 * 2) (omega arith) (omega arith),
      )
      (or_add 1 (regs + imm13 % 8192 * 2) (f % 2) (omega arith) (omega arith))

pub enc_m14_sum :
    (op rt base off14 : ℕ) → enc_m14 op rt base off14 ≡ three_fields op rt base + off14 % 16384
unfolding enc_m14
enc_m14_sum op rt base off14 =
    rw (and_6 op, and_6 rt, and_6 base, and_14 off14, or_three op rt base)
      (or_add 14 (three_fields op rt base) (off14 % 16384) (omega arith) (omega arith))

pub enc_u20_sum : (op rd imm20 : ℕ) → enc_u20 op rd imm20 ≡ two_fields op rd + imm20 % 2 ^ 20
unfolding enc_u20
enc_u20_sum op rd imm20 =
    rw (and_6 op, and_6 rd, and_20 imm20, or_two op rd)
      (or_add 20 (two_fields op rd) (imm20 % 2 ^ 20) (omega arith) (omega arith))

pub enc_b21_sum :
    (cond link off21 : ℕ)
    → enc_b21 cond link off21
      ≡ op_br * 2 ^ 26 + cond % 16 * 2 ^ 22 + link % 2 * 2 ^ 21 + off21 % 2 ^ 21
unfolding enc_b21
enc_b21_sum cond link off21 =
    let top = op_br * 2 ^ 26 in
    let tested = top + cond % 16 * 2 ^ 22 in
    rw
      (
        and_4 cond,
        and_1 link,
        and_21 off21,
        or_add 26 top (cond % 16 * 2 ^ 22) (omega arith) (omega arith),
        or_add 22 tested (link % 2 * 2 ^ 21) (omega arith) (omega arith),
      )
      (or_add 21 (tested + link % 2 * 2 ^ 21) (off21 % 2 ^ 21) (omega arith) (omega arith))

pub enc_j26_sum : (op t26 : ℕ) → enc_j26 op t26 ≡ op % 64 * 2 ^ 26 + t26 % 2 ^ 26
unfolding enc_j26
enc_j26_sum op t26 =
    rw (and_6 op, and_26 t26)
      (or_add 26 (op % 64 * 2 ^ 26) (t26 % 2 ^ 26) (omega arith) (omega arith))

pub enc_jr_sum : (op rd rs1 : ℕ) → enc_jr op rd rs1 ≡ three_fields op rd rs1
unfolding enc_jr
enc_jr_sum op rd rs1 = rw (and_6 op, and_6 rd, and_6 rs1) (or_three op rd rs1)

pub enc_sys_sum :
    (sub payload : ℕ) → enc_sys sub payload ≡ op_sys * 2 ^ 26 + payload % 2 ^ 17 * 8 + sub % 8
unfolding enc_sys
enc_sys_sum sub payload =
    let low = payload % 2 ^ 17 * 8 in
    let cut : payload * 2 ^ 3 % 2 ^ 32 % 2 ^ 20 ≡ low = omega arith in
    let small : (low + sub % 8) % 2 ^ 20 ≡ low + sub % 8 = omega arith in
    rw
      (
        and_20 (payload * 2 ^ 3 % 2 ^ 32),
        cut,
        and_3 sub,
        or_add 3 low (sub % 8) (omega arith) (omega arith),
        and_20 (low + sub % 8),
        small,
      )
      (or_add 26 (op_sys * 2 ^ 26) (low + sub % 8) (omega arith) (omega arith) ∙ omega arith)

-- Sign extension of a `w`-bit field to 32 bits.
abbrev pub sext : ℕ → ℕ → ℕ
sext w m = if ltb m (2 ^ (w - 1)) then m else m + 2 ^ 32 - 2 ^ w

sext_13 : (m : ℕ) → m < 2 ^ 13 → asr32 (u32 (m * 2 ^ 19)) 19 ≡ sext 13 m
sext_13 m h = ground arith

sext_14 : (m : ℕ) → m < 2 ^ 14 → asr32 (u32 (m * 2 ^ 18)) 18 ≡ sext 14 m
sext_14 m h = ground arith

sext_21 : (m : ℕ) → m < 2 ^ 21 → asr32 (u32 (m * 2 ^ 11)) 11 ≡ sext 21 m
sext_21 m h = ground arith

-- Every field of a decoded word, as arithmetic on the word.
module _ (w : ℕ) where
  pub decode-op : (decode w).op ≡ w / 2 ^ 26 % 64
  unfolding decode
  decode-op = and_6 (w / 2 ^ 26)

  pub decode-rd : (decode w).rd ≡ w / 2 ^ 20 % 64
  unfolding decode
  decode-rd = and_6 (w / 2 ^ 20)

  pub decode-rs1 : (decode w).rs1 ≡ w / 2 ^ 14 % 64
  unfolding decode
  decode-rs1 = and_6 (w / 2 ^ 14)

  pub decode-rs2 : (decode w).rs2 ≡ w / 2 ^ 8 % 64
  unfolding decode
  decode-rs2 = and_6 (w / 2 ^ 8)

  pub decode-func7 : (decode w).func7 ≡ w / 2 % 128
  unfolding decode
  decode-func7 = and_7 (w / 2 ^ 1)

  pub decode-f : (decode w).f ≡ w % 2
  unfolding decode
  decode-f = and_1 w

  pub decode-imm13 : (decode w).imm13 ≡ sext 13 (w / 2 % 8192)
  unfolding decode
  decode-imm13 = rw (and_13 (w / 2 ^ 1)) (sext_13 (w / 2 % 8192) (omega arith))

  pub decode-off14 : (decode w).off14 ≡ sext 14 (w % 16384)
  unfolding decode
  decode-off14 = rw (and_14 w) (sext_14 (w % 16384) (omega arith))

  pub decode-imm20 : (decode w).imm20 ≡ w % 2 ^ 20
  unfolding decode
  decode-imm20 = and_20 w

  pub decode-target26 : (decode w).target26 ≡ w % 2 ^ 26
  unfolding decode
  decode-target26 = and_26 w

  pub decode-cond : (decode w).cond ≡ w / 2 ^ 22 % 16
  unfolding decode
  decode-cond = and_4 (w / 2 ^ 22)

  pub decode-link : (decode w).link ≡ w / 2 ^ 21 % 2
  unfolding decode
  decode-link = and_1 (w / 2 ^ 21)

  pub decode-off21 : (decode w).off21 ≡ sext 21 (w % 2 ^ 21)
  unfolding decode
  decode-off21 = rw (and_21 w) (sext_21 (w % 2 ^ 21) (omega arith))

  pub decode-sys_sub : (decode w).sys_sub ≡ w % 8
  unfolding decode
  decode-sys_sub = and_3 w

  pub decode-sys_payload : (decode w).sys_payload ≡ w / 8 % 2 ^ 17
  unfolding decode
  decode-sys_payload = and_17 (w / 2 ^ 3)
