-- ===== src/Machine/Tests.antt =====
-- The lowerings on concrete operands.
use rsd_m.Base.{ℕ, ◌≡◌, List, arith}
use rsd_m.Base.Word.{add32, u32}
use rsd_m.Isa.{op_ld, reg_a, reg_b}
use rsd_m.Asm.State.{State}
use rsd_m.Asm.Lower.{am_abs, emit_load_const, emit_mem_access}
use rsd_m.Machine.{Machine, reg, exec_words, emit_words}
use rsd_m.Machine.Constants.{Loaded, emit_load_const-Loaded}
use rsd_m.Machine.Absolute.{LoadedFrom, emit_mem_access-LoadedFrom}

-- LDA #$12345
emit_load_const-Loaded_example :
    (ws : List ℕ) × ((s : State) → emit_load_const reg_a 0x12345 s ≡ emit_words ws s)
    × ((m : Machine) → Loaded reg_a 0x12345 m (exec_words ws m))
emit_load_const-Loaded_example =
    emit_load_const-Loaded reg_a 0x12345 (omega arith) (omega arith) (omega arith)

-- LDA $8000, too far for the offset
emit_mem_access-LoadedFrom_example :
    (ws : List ℕ) × ((s : State) → emit_mem_access op_ld reg_a am_abs 0x8000 s ≡ emit_words ws s)
    × ((m : Machine) → LoadedFrom reg_a (add32 (reg m reg_b) (u32 0x8000)) m (exec_words ws m))
emit_mem_access-LoadedFrom_example =
    emit_mem_access-LoadedFrom reg_a 0x8000 (omega arith) (omega arith)
