-- ===== src/Dis/Decode.antt =====
-- `decode` of `m65f32dis.c`. Signed fields are 32-bit patterns, sign-extended by a shift up and
-- an arithmetic shift down, as in the source.
use rsd_m.Base.{ℕ, bit_and}
use rsd_m.Base.Word.{shl, shr, u32, asr32}

pub record Insn : Type 0 where
  pub raw : ℕ
  pub op : ℕ
  pub rd : ℕ
  pub rs1 : ℕ
  pub rs2 : ℕ
  pub func7 : ℕ
  pub f : ℕ
  pub imm13 : ℕ
  pub off14 : ℕ
  pub imm20 : ℕ
  pub target26 : ℕ
  pub cond : ℕ
  pub link : ℕ
  pub off21 : ℕ
  pub sys_sub : ℕ
  pub sys_payload : ℕ

unfoldable pub decode : ℕ → Insn
decode w = record {
  raw = w;
  op = bit_and (shr w 26) 0x3f;
  rd = bit_and (shr w 20) 0x3f;
  rs1 = bit_and (shr w 14) 0x3f;
  rs2 = bit_and (shr w 8) 0x3f;
  func7 = bit_and (shr w 1) 0x7f;
  f = bit_and w 1;
  imm13 = asr32 (u32 (shl (bit_and (shr w 1) 0x1fff) 19)) 19;
  off14 = asr32 (u32 (shl (bit_and w 0x3fff) 18)) 18;
  imm20 = bit_and w 0xfffff;
  target26 = bit_and w 0x3ffffff;
  cond = bit_and (shr w 22) 0xf;
  link = bit_and (shr w 21) 1;
  off21 = asr32 (u32 (shl (bit_and w 0x1fffff) 11)) 11;
  sys_sub = bit_and w 0x7;
  sys_payload = bit_and (shr w 3) 0x1ffff;
}
