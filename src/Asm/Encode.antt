-- ===== src/Asm/Encode.antt =====
-- The encoders of `m65f32asm.c`, one for each instruction format. An `int` or `uint32_t`
-- argument is its 32-bit pattern; every field is masked, as in the source.
use rsd_m.Base.{ℕ, bit_and, bit_or}
use rsd_m.Base.Word.{shl, u32}
use rsd_m.Isa.{op_br, op_sys}

infixl 45 ◌|||◌
abbrev ◌|||◌ : ℕ → ℕ → ℕ
a ||| b = bit_or a b

unfoldable pub enc_r3 : ℕ → ℕ → ℕ → ℕ → ℕ → ℕ → ℕ
enc_r3 op rd rs1 rs2 func7 f =
    shl (bit_and op 0x3f) 26
    ||| shl (bit_and rd 0x3f) 20
    ||| shl (bit_and rs1 0x3f) 14
    ||| shl (bit_and rs2 0x3f) 8
    ||| shl (bit_and func7 0x7f) 1
    ||| bit_and f 1

unfoldable pub enc_i13f : ℕ → ℕ → ℕ → ℕ → ℕ → ℕ
enc_i13f op rd rs1 imm13 f =
    shl (bit_and op 0x3f) 26
    ||| shl (bit_and rd 0x3f) 20
    ||| shl (bit_and rs1 0x3f) 14
    ||| shl (bit_and imm13 0x1fff) 1
    ||| bit_and f 1

unfoldable pub enc_m14 : ℕ → ℕ → ℕ → ℕ → ℕ
enc_m14 op rt base off14 =
    shl (bit_and op 0x3f) 26
    ||| shl (bit_and rt 0x3f) 20
    ||| shl (bit_and base 0x3f) 14
    ||| bit_and off14 0x3fff

unfoldable pub enc_u20 : ℕ → ℕ → ℕ → ℕ
enc_u20 op rd imm20 =
    shl (bit_and op 0x3f) 26 ||| shl (bit_and rd 0x3f) 20 ||| bit_and imm20 0xfffff

unfoldable pub enc_b21 : ℕ → ℕ → ℕ → ℕ
enc_b21 cond link off21 =
    shl (bit_and op_br 0x3f) 26
    ||| shl (bit_and cond 0xf) 22
    ||| shl (bit_and link 1) 21
    ||| bit_and off21 0x1fffff

unfoldable pub enc_j26 : ℕ → ℕ → ℕ
enc_j26 op t26 = shl (bit_and op 0x3f) 26 ||| bit_and t26 0x3ffffff

unfoldable pub enc_jr : ℕ → ℕ → ℕ → ℕ
enc_jr op rd rs1 =
    shl (bit_and op 0x3f) 26 ||| shl (bit_and rd 0x3f) 20 ||| shl (bit_and rs1 0x3f) 14

-- The payload is shifted as a `uint32_t`.
unfoldable pub enc_sys : ℕ → ℕ → ℕ
enc_sys sub payload =
    let imm20 = bit_and (u32 (shl payload 3)) 0xfffff ||| bit_and sub 0x7 in
    shl (bit_and op_sys 0x3f) 26 ||| bit_and imm20 0xfffff
