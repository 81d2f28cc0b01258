-- ===== src/Sim/Debug/Execution.antt =====
-- `GetDebugRegister`: the stages from execution on, and the counters.
use rsd_m.Sim.Debug.Wires.{Wires}
use rsd_m.Sim.Debug.{
  OpId, FpExecutionStage, IntegerExecutionStage, ExecutionStep, MemoryTagAccessStage,
  MemoryAccessStage, ComplexIntegerExecutionStage, IssueQueue, MemoryExecutionStage, CommitStage,
  PerfCounter,
}
use rsd_m.Base.{ℕ, List, [], ◌∷◌, Bool, if◌then◌else◌}
use rsd_m.Sim.Debug.Read.{Macros, read_op_id}

unfoldable pub read_integer_execution :
    Macros → Wires → ℕ → IntegerExecutionStage → IntegerExecutionStage
unfolding read_op_id
read_integer_execution m w i x =
    let x' : IntegerExecutionStage = record x {
      valid = w.int_ex_reg.valid i;
      flush = w.int_ex_reg.flush i;
      op_id = read_op_id w (w.int_ex_reg.op_id i);
    } in
    if m.functional_simulation
    then record x' {
      data_out = w.int_ex_reg.data_out i;
      fu_op_a = w.int_ex_reg.fu_op_a i;
      fu_op_b = w.int_ex_reg.fu_op_b i;
      alu_code = w.int_ex_reg.alu_code i;
      op_type = w.int_ex_reg.op_type i;
      br_pred_miss = w.int_ex_reg.br_pred_miss i;
    }
    else x'

-- The element 0 of `valid` and of `opId`.
abbrev pub set_first : Bool → OpId → List ExecutionStep → List ExecutionStep
set_first v o [] = []
set_first v o (x ∷ xs) = record { valid = v; op_id = o } ∷ xs

-- `index` stays 0 in the loop that sets `opId`, in this function and the next.
unfoldable pub read_complex_execution :
    Macros → Wires → ℕ → ComplexIntegerExecutionStage → ComplexIntegerExecutionStage
unfolding read_op_id
read_complex_execution m w i x =
    let x' : ComplexIntegerExecutionStage = record x {
      flush = w.complex_ex_reg.flush i;
      steps =
          set_first (w.complex_ex_reg.valid i) (read_op_id w (w.complex_ex_reg.op_id 0)) x.steps;
    } in
    if m.functional_simulation
    then record x' {
      data_out = w.complex_ex_reg.data_out i;
      fu_op_a = w.complex_ex_reg.fu_op_a i;
      fu_op_b = w.complex_ex_reg.fu_op_b i;
    }
    else x'

unfoldable pub read_fp_execution : Macros → Wires → ℕ → FpExecutionStage → FpExecutionStage
unfolding read_op_id
read_fp_execution m w i x =
    let x' : FpExecutionStage = record x {
      flush = w.fp_ex_reg.flush i;
      steps = set_first (w.fp_ex_reg.valid i) (read_op_id w (w.fp_ex_reg.op_id 0)) x.steps;
    } in
    if m.functional_simulation
    then record x' {
      data_out = w.fp_ex_reg.data_out i;
      fu_op_a = w.fp_ex_reg.fu_op_a i;
      fu_op_b = w.fp_ex_reg.fu_op_b i;
      fu_op_c = w.fp_ex_reg.fu_op_c i;
    }
    else x'

unfoldable pub read_memory_execution :
    Macros → Wires → ℕ → MemoryExecutionStage → MemoryExecutionStage
unfolding read_op_id
read_memory_execution m w i x =
    let x' : MemoryExecutionStage = record x {
      valid = w.mem_ex_reg.valid i;
      flush = w.mem_ex_reg.flush i;
      op_id = read_op_id w (w.mem_ex_reg.op_id i);
    } in
    if m.functional_simulation
    then record x' {
      addr_out = w.mem_ex_reg.addr_out i;
      fu_op_a = w.mem_ex_reg.fu_op_a i;
      fu_op_b = w.mem_ex_reg.fu_op_b i;
      op_type = w.mem_ex_reg.op_type i;
      size = w.mem_ex_reg.size i;
      is_signed = w.mem_ex_reg.is_signed i;
    }
    else x'

unfoldable pub read_tag_access : Macros → Wires → ℕ → MemoryTagAccessStage → MemoryTagAccessStage
unfolding read_op_id
read_tag_access m w i x =
    let x' : MemoryTagAccessStage = record x {
      valid = w.mt_reg.valid i;
      flush = w.mt_reg.flush i;
      op_id = read_op_id w (w.mt_reg.op_id i);
    } in
    if m.functional_simulation
    then record x' {
      execute_load = w.mt_reg.execute_load i;
      executed_load_addr = w.mt_reg.executed_load_addr i;
      mshr_allocated = w.mt_reg.mshr_allocated i;
      mshr_hit = w.mt_reg.mshr_hit i;
      mshr_entry_id = w.mt_reg.mshr_entry_id i;
      execute_store = w.mt_reg.execute_store i;
      executed_store_addr = w.mt_reg.executed_store_addr i;
      executed_store_data = w.mt_reg.executed_store_data i;
    }
    else x'

unfoldable pub read_memory_access : Macros → Wires → ℕ → MemoryAccessStage → MemoryAccessStage
unfolding read_op_id
read_memory_access m w i x =
    let x' : MemoryAccessStage = record x {
      valid = w.ma_reg.valid i;
      flush = w.ma_reg.flush i;
      op_id = read_op_id w (w.ma_reg.op_id i);
    } in
    if m.functional_simulation
    then record x' {
      execute_load = w.ma_reg.execute_load i;
      executed_load_data = w.ma_reg.executed_load_data i;
    }
    else x'

unfoldable pub read_commit : Macros → Wires → ℕ → CommitStage → CommitStage
unfolding read_op_id
read_commit m w i x =
    let x' : CommitStage = record x {
      commit = w.cm_reg.commit i;
      flush = w.cm_reg.flush i;
      op_id = read_op_id w (w.cm_reg.op_id i);
    } in
    if m.functional_simulation
    then record x' {
      release_reg = w.cm_reg.release_reg i;
      phy_released_reg = w.cm_reg.phy_released_reg i;
    }
    else x'

unfoldable pub read_issue_queue : Wires → ℕ → IssueQueue → IssueQueue
unfolding read_op_id
read_issue_queue w i x = record x {
  flush = w.issue_queue.flush i;
  op_id = read_op_id w (w.issue_queue.op_id i);
}

unfoldable pub read_perf_counter : Wires → PerfCounter
read_perf_counter w = record {
  num_ic_miss = w.perf_counter_num_ic_miss;
  num_load_miss = w.perf_counter_num_load_miss;
  num_store_miss = w.perf_counter_num_store_miss;
  num_store_load_forwarding_fail = w.perf_counter_num_store_load_forwarding_fail;
  num_mem_dep_pred_miss = w.perf_counter_num_mem_dep_pred_miss;
  num_branch_pred_miss = w.perf_counter_num_branch_pred_miss;
  num_branch_pred_miss_detected_on_decode = w.perf_counter_num_branch_pred_miss_detected_on_decode;
}
