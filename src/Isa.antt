-- ===== src/Isa.antt =====
-- The opcodes, registers, branch conditions, shift kinds and system sub-opcodes that
-- `Processor/Tools/Asm/m65f32asm.c` and `m65f32dis.c` both enumerate, with the same values.
use rsd_m.Base.{ℕ}

abbrev pub op_add : ℕ
op_add = 0x00

abbrev pub op_addi : ℕ
op_addi = 0x01

abbrev pub op_sub : ℕ
op_sub = 0x02

abbrev pub op_subi : ℕ
op_subi = 0x03

abbrev pub op_and : ℕ
op_and = 0x04

abbrev pub op_andi : ℕ
op_andi = 0x05

abbrev pub op_or : ℕ
op_or = 0x06

abbrev pub op_ori : ℕ
op_ori = 0x07

abbrev pub op_xor : ℕ
op_xor = 0x08

abbrev pub op_xori : ℕ
op_xori = 0x09

abbrev pub op_slt : ℕ
op_slt = 0x0a

abbrev pub op_slti : ℕ
op_slti = 0x0b

abbrev pub op_sltu : ℕ
op_sltu = 0x0c

abbrev pub op_sltui : ℕ
op_sltui = 0x0d

abbrev pub op_cmp : ℕ
op_cmp = 0x0e

abbrev pub op_cmpi : ℕ
op_cmpi = 0x0f

abbrev pub op_shift_r : ℕ
op_shift_r = 0x10

abbrev pub op_shift_i : ℕ
op_shift_i = 0x11

abbrev pub op_xfer : ℕ
op_xfer = 0x12

abbrev pub op_mul : ℕ
op_mul = 0x1a

abbrev pub op_div : ℕ
op_div = 0x1b

abbrev pub op_ld : ℕ
op_ld = 0x1c

abbrev pub op_st : ℕ
op_st = 0x1d

abbrev pub op_lui : ℕ
op_lui = 0x1e

abbrev pub op_auipc : ℕ
op_auipc = 0x1f

abbrev pub op_br : ℕ
op_br = 0x25

abbrev pub op_jmp_abs : ℕ
op_jmp_abs = 0x26

abbrev pub op_jmp_reg : ℕ
op_jmp_reg = 0x27

abbrev pub op_jsr_abs : ℕ
op_jsr_abs = 0x28

abbrev pub op_jsr_reg : ℕ
op_jsr_reg = 0x29

abbrev pub op_rts : ℕ
op_rts = 0x2a

abbrev pub op_stack : ℕ
op_stack = 0x2b

abbrev pub op_sys : ℕ
op_sys = 0x2d

abbrev pub reg_zero : ℕ
reg_zero = 0

abbrev pub reg_a : ℕ
reg_a = 56

abbrev pub reg_x : ℕ
reg_x = 57

abbrev pub reg_y : ℕ
reg_y = 58

abbrev pub reg_sp : ℕ
reg_sp = 59

abbrev pub reg_d : ℕ
reg_d = 60

abbrev pub reg_b : ℕ
reg_b = 61

abbrev pub reg_vbr : ℕ
reg_vbr = 62

abbrev pub reg_t : ℕ
reg_t = 63

abbrev pub cond_eq : ℕ
cond_eq = 0

abbrev pub cond_ne : ℕ
cond_ne = 1

abbrev pub cond_cs : ℕ
cond_cs = 2

abbrev pub cond_cc : ℕ
cond_cc = 3

abbrev pub cond_mi : ℕ
cond_mi = 4

abbrev pub cond_pl : ℕ
cond_pl = 5

abbrev pub cond_vs : ℕ
cond_vs = 6

abbrev pub cond_vc : ℕ
cond_vc = 7

abbrev pub cond_al : ℕ
cond_al = 8

abbrev pub sh_shl : ℕ
sh_shl = 0

abbrev pub sh_shr : ℕ
sh_shr = 1

abbrev pub sh_sar : ℕ
sh_sar = 2

abbrev pub sh_rol : ℕ
sh_rol = 3

abbrev pub sh_ror : ℕ
sh_ror = 4

abbrev pub sys_trap : ℕ
sys_trap = 0

abbrev pub sys_fence : ℕ
sys_fence = 1

abbrev pub sys_fencer : ℕ
sys_fencer = 2

abbrev pub sys_fencew : ℕ
sys_fencew = 3

abbrev pub sys_wai : ℕ
sys_wai = 4

abbrev pub sys_stp : ℕ
sys_stp = 5
