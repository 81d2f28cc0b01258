-- ===== src/Asm/Lower.antt =====
-- Lowering an operation with an addressing mode to fixed32 instructions: `emit_load_const`,
-- `dp_to_reg`, `emit_mem_access` and `emit_alu_mem`. A 64-bit operand value is its pattern.
use rsd_m.Base.{ℕ, Bool, ◌&&◌, Option, none, some, bit_and, ◌==◌, if◌then◌else◌}
use rsd_m.Base.Word.{u32, shr, minus32, sle32, sle64}
use rsd_m.Isa.{
  op_addi, op_lui, op_ori, op_ld, op_xfer, op_add, reg_zero, reg_t, reg_d, reg_b, reg_x, reg_y,
}
use rsd_m.Asm.State.{Action, done, fail, ◌>>◌, unsupported_load_store}
use rsd_m.Asm.Code.{emit32}
use rsd_m.Asm.Encode.{enc_r3, enc_i13f, enc_m14, enc_u20}

pub data AddrMode : Type 0 where
  am_imp am_acc am_imm am_dp am_dpx am_dpy am_abs am_absx am_absy : AddrMode
  am_ind am_indx am_indy am_label am_reg : AddrMode

-- The range of a signed 13-bit immediate, and of a signed 14-bit offset.
abbrev pub fits_imm13 : ℕ → Bool
fits_imm13 v = sle32 (minus32 4096) v && sle32 v 4095

abbrev pub fits_off14 : ℕ → Bool
fits_off14 v = sle32 (minus32 8192) v && sle32 v 8191

unfoldable pub emit_load_const : ℕ → ℕ → Action
emit_load_const rd val = if fits_imm13 val then emit32 (enc_i13f op_addi rd reg_zero val 0) else do
  emit32 (enc_u20 op_lui rd (shr val 12))
  if bit_and val 0xfff == 0 then done else emit32 (enc_i13f op_ori rd rd (bit_and val 0xfff) 0)

-- `none` is the -1 of the source.
unfoldable pub dp_to_reg : ℕ → Option ℕ
dp_to_reg dp_addr =
    if sle64 0 dp_addr && sle64 dp_addr 252 && bit_and dp_addr 3 == 0
    then some (shr dp_addr 2)
    else none

abbrev pub off14_of : ℕ → ℕ
off14_of imm_val = bit_and (u32 imm_val) 0x3fff

-- Register `data_reg` at `base + imm_val`, where `T` already holds `base` plus an index.
unfoldable pub far_access : ℕ → ℕ → ℕ → ℕ → Action
unfolding emit_load_const
far_access ldst_op data_reg imm_val index =
    if fits_off14 (u32 imm_val)
    then emit32 (enc_m14 ldst_op data_reg reg_t (off14_of imm_val))
    else do
      emit_load_const reg_t (u32 imm_val)
      emit32 (enc_r3 op_add reg_t reg_t index 0 0)
      emit32 (enc_r3 op_add reg_t reg_b reg_t 0 0)
      emit32 (enc_m14 ldst_op data_reg reg_t 0)

-- The cases whose operand may be a register of the window.
unfoldable pub access_dp : ℕ → ℕ → ℕ → Option ℕ → Action
access_dp ldst_op data_reg imm_val (some rn) =
    if ldst_op == op_ld
    then emit32 (enc_r3 op_xfer data_reg rn 0 0 0)
    else emit32 (enc_r3 op_xfer rn data_reg 0 0 0)
access_dp ldst_op data_reg imm_val none = emit32 (enc_m14 ldst_op data_reg reg_d (off14_of imm_val))

unfoldable pub access_ind : ℕ → ℕ → ℕ → Option ℕ → Action
access_ind ldst_op data_reg imm_val (some rn) = emit32 (enc_m14 ldst_op data_reg rn 0)
access_ind ldst_op data_reg imm_val none = do
  emit32 (enc_m14 op_ld reg_t reg_d (off14_of imm_val))
  emit32 (enc_m14 ldst_op data_reg reg_t 0)

unfoldable pub access_indx : ℕ → ℕ → ℕ → Option ℕ → Action
access_indx ldst_op data_reg imm_val (some rn) = do
  emit32 (enc_r3 op_add reg_t rn reg_x 0 0)
  emit32 (enc_m14 ldst_op data_reg reg_t 0)
access_indx ldst_op data_reg imm_val none = do
  emit32 (enc_r3 op_add reg_t reg_d reg_x 0 0)
  emit32 (enc_m14 op_ld reg_t reg_t (off14_of imm_val))
  emit32 (enc_m14 ldst_op data_reg reg_t 0)

unfoldable pub access_indy : ℕ → ℕ → ℕ → Option ℕ → Action
access_indy ldst_op data_reg imm_val (some rn) = do
  emit32 (enc_r3 op_add reg_t rn reg_y 0 0)
  emit32 (enc_m14 ldst_op data_reg reg_t 0)
access_indy ldst_op data_reg imm_val none = do
  emit32 (enc_m14 op_ld reg_t reg_d (off14_of imm_val))
  emit32 (enc_r3 op_add reg_t reg_t reg_y 0 0)
  emit32 (enc_m14 ldst_op data_reg reg_t 0)

unfoldable pub emit_mem_access : ℕ → ℕ → AddrMode → ℕ → Action
unfolding emit_load_const dp_to_reg far_access access_dp access_ind access_indx access_indy
emit_mem_access ldst_op data_reg am_dp imm_val =
    access_dp ldst_op data_reg imm_val (dp_to_reg imm_val)
emit_mem_access ldst_op data_reg am_dpx imm_val = do
  emit32 (enc_r3 op_add reg_t reg_d reg_x 0 0)
  emit32 (enc_m14 ldst_op data_reg reg_t (off14_of imm_val))
emit_mem_access ldst_op data_reg am_dpy imm_val = do
  emit32 (enc_r3 op_add reg_t reg_d reg_y 0 0)
  emit32 (enc_m14 ldst_op data_reg reg_t (off14_of imm_val))
emit_mem_access ldst_op data_reg am_abs imm_val =
    if fits_off14 (u32 imm_val)
    then emit32 (enc_m14 ldst_op data_reg reg_b (off14_of imm_val))
    else do
      emit_load_const reg_t (u32 imm_val)
      emit32 (enc_r3 op_add reg_t reg_b reg_t 0 0)
      emit32 (enc_m14 ldst_op data_reg reg_t 0)
emit_mem_access ldst_op data_reg am_absx imm_val = do
  emit32 (enc_r3 op_add reg_t reg_b reg_x 0 0)
  far_access ldst_op data_reg imm_val reg_x
emit_mem_access ldst_op data_reg am_absy imm_val = do
  emit32 (enc_r3 op_add reg_t reg_b reg_y 0 0)
  far_access ldst_op data_reg imm_val reg_y
emit_mem_access ldst_op data_reg am_ind imm_val =
    access_ind ldst_op data_reg imm_val (dp_to_reg imm_val)
emit_mem_access ldst_op data_reg am_indx imm_val =
    access_indx ldst_op data_reg imm_val (dp_to_reg imm_val)
emit_mem_access ldst_op data_reg am_indy imm_val =
    access_indy ldst_op data_reg imm_val (dp_to_reg imm_val)
emit_mem_access ldst_op data_reg _ imm_val = fail unsupported_load_store

-- A register of the window, where the mode is direct page.
unfoldable pub window_reg : AddrMode → ℕ → Option ℕ
unfolding dp_to_reg
window_reg am_dp imm_val = dp_to_reg imm_val
window_reg _ imm_val = none

unfoldable pub alu_operand : ℕ → ℕ → ℕ → AddrMode → ℕ → Option ℕ → Action
unfolding emit_mem_access
alu_operand alu_rr dst src1 am imm_val (some rn) = emit32 (enc_r3 alu_rr dst src1 rn 0 1)
alu_operand alu_rr dst src1 am imm_val none = do
  emit_mem_access op_ld reg_t am imm_val
  emit32 (enc_r3 alu_rr dst src1 reg_t 0 1)

unfoldable pub emit_alu_mem : ℕ → ℕ → ℕ → ℕ → AddrMode → ℕ → Action
unfolding emit_load_const window_reg alu_operand
emit_alu_mem alu_rr alu_ri dst src1 am_imm imm_val =
    if fits_imm13 (u32 imm_val)
    then emit32 (enc_i13f alu_ri dst src1 (bit_and (u32 imm_val) 0x1fff) 1)
    else do emit_load_const reg_t (u32 imm_val); emit32 (enc_r3 alu_rr dst src1 reg_t 0 1)
emit_alu_mem alu_rr alu_ri dst src1 am imm_val =
    alu_operand alu_rr dst src1 am imm_val (window_reg am imm_val)
