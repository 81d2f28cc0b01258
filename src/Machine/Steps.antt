-- ===== src/Machine/Steps.antt =====
-- One instruction word, executed.
use rsd_m.Base.{ℕ, ◌%◌, ◌^◌, ◌<◌, ◌≡◌, inl, arith, bit_or}
use rsd_m.Asm.Encode.{enc_r3, enc_i13f, enc_m14, enc_u20}
use rsd_m.Base.Word.{add32, shl}
use rsd_m.Isa.{op_add, op_addi, op_ori, op_lui, op_ld}
use rsd_m.Dis.Decode.{decode}
use rsd_m.RoundTrip.Formats.{
  IsSigned, decode-enc_r3, decode-enc_i13f, decode-enc_m14, decode-enc_u20,
}
use rsd_m.Machine.{Machine, reg, set_reg, exec}

pub addi_step :
    (rd rs imm f : ℕ) (m : Machine)
    → rd < 64
    → rs < 64
    → IsSigned 13 imm
    → f < 2
    → exec (decode (enc_i13f op_addi rd rs imm f)) m ≡ set_reg rd (add32 (reg m rs) imm) m
unfolding exec
addi_step rd rs imm f m hd hs hi hf =
    let (e1, e2, e3, e4, e5) = decode-enc_i13f op_addi rd rs imm f (omega arith) hd hs hi hf in
    rw (e1, e2, e3, e4)

pub ori_step :
    (rd rs imm f : ℕ) (m : Machine)
    → rd < 64
    → rs < 64
    → imm < 4096
    → f < 2
    → exec (decode (enc_i13f op_ori rd rs imm f)) m ≡ set_reg rd (bit_or (reg m rs) imm) m
unfolding exec
ori_step rd rs imm f m hd hs hi hf =
    let (e1, e2, e3, e4, e5) =
      decode-enc_i13f op_ori rd rs imm f (omega arith) hd hs (inl (omega arith)) hf in
    let low : imm % 2 ^ 13 ≡ imm = omega arith in rw (e1, e2, e3, e4, low)

pub lui_step :
    (rd imm : ℕ) (m : Machine)
    → rd < 64
    → imm < 2 ^ 20
    → exec (decode (enc_u20 op_lui rd imm)) m ≡ set_reg rd (shl imm 12) m
unfolding exec
lui_step rd imm m hd hi =
    let (e1, e2, e3) = decode-enc_u20 op_lui rd imm (omega arith) hd hi in rw (e1, e2, e3)

pub add_step :
    (rd rs1 rs2 : ℕ) (m : Machine)
    → rd < 64
    → rs1 < 64
    → rs2 < 64
    → exec (decode (enc_r3 op_add rd rs1 rs2 0 0)) m ≡ set_reg rd (add32 (reg m rs1) (reg m rs2)) m
unfolding exec
add_step rd rs1 rs2 m hd h1 h2 =
    let (e1, e2, e3, e4, e5, e6) =
      decode-enc_r3 op_add rd rs1 rs2 0 0 (omega arith) hd h1 h2 (omega arith) (omega arith) in
    rw (e1, e2, e3, e4)

pub ld_step :
    (rt base off : ℕ) (m : Machine)
    → rt < 64
    → base < 64
    → IsSigned 14 off
    → exec (decode (enc_m14 op_ld rt base off)) m ≡ set_reg rt (m.mem (add32 (reg m base) off)) m
unfolding exec
ld_step rt base off m ht hb ho =
    let (e1, e2, e3, e4) = decode-enc_m14 op_ld rt base off (omega arith) ht hb ho in
    rw (e1, e2, e3, e4)
