-- ===== src/Sim/Debug/Get.antt =====
-- `GetDebugRegister` as a whole, on the debug register of the cycle before, of which it keeps what
-- the build does not set.
use rsd_m.Sim.Debug.Wires.{Wires, OpWires}
use rsd_m.Sim.Debug.{OpStage, DebugRegister}
use rsd_m.Sim.Debug.Execution.{
  read_integer_execution, read_complex_execution, read_fp_execution, read_memory_execution,
  read_tag_access, read_memory_access, read_commit, read_issue_queue, read_perf_counter,
}
use rsd_m.Sim.Debug.Read.{
  fill, read_next_pc, read_fetch, read_pre_decode, read_decode, read_rename, read_dispatch, read_op,
  read_ctrl, Macros,
}
use rsd_m.Base.{List, if◌then◌else◌}

unfoldable pub get_debug_register : Macros → Wires → DebugRegister → DebugRegister
unfolding fill read_next_pc read_fetch read_pre_decode read_decode read_rename read_dispatch read_op
    read_integer_execution read_complex_execution read_fp_execution read_memory_execution
    read_tag_access read_memory_access read_commit read_issue_queue read_perf_counter read_ctrl
get_debug_register m w d =
    let set_op : OpWires → List OpStage → List OpStage = λ s xs. fill (read_op w s) 0 xs in
    let complex : OpWires → List OpStage → List OpStage =
      λ s xs. if m.unified_muldiv_mem_pipe then xs else set_op s xs in
    let fp : OpWires → List OpStage → List OpStage =
      λ s xs. if m.fp_pipe then set_op s xs else xs in
    record {
      np_reg = fill (read_next_pc w) 0 d.np_reg;
      if_reg = fill (read_fetch w) 0 d.if_reg;
      pd_reg = fill (read_pre_decode m w) 0 d.pd_reg;
      id_reg = fill (read_decode w) 0 d.id_reg;
      rn_reg = fill (read_rename w) 0 d.rn_reg;
      ds_reg = fill (read_dispatch m w) 0 d.ds_reg;
      int_is_reg = set_op w.int_is_reg d.int_is_reg;
      int_rr_reg = set_op w.int_rr_reg d.int_rr_reg;
      int_ex_reg = fill (read_integer_execution m w) 0 d.int_ex_reg;
      int_rw_reg = set_op w.int_rw_reg d.int_rw_reg;
      complex_is_reg = complex w.complex_is_reg d.complex_is_reg;
      complex_rr_reg = complex w.complex_rr_reg d.complex_rr_reg;
      complex_ex_reg =
          if m.unified_muldiv_mem_pipe
          then d.complex_ex_reg
          else fill (read_complex_execution m w) 0 d.complex_ex_reg;
      complex_rw_reg = complex w.complex_rw_reg d.complex_rw_reg;
      mem_is_reg = set_op w.mem_is_reg d.mem_is_reg;
      mem_rr_reg = set_op w.mem_rr_reg d.mem_rr_reg;
      mem_ex_reg = fill (read_memory_execution m w) 0 d.mem_ex_reg;
      mt_reg = fill (read_tag_access m w) 0 d.mt_reg;
      ma_reg = fill (read_memory_access m w) 0 d.ma_reg;
      mem_rw_reg = set_op w.mem_rw_reg d.mem_rw_reg;
      fp_is_reg = fp w.fp_is_reg d.fp_is_reg;
      fp_rr_reg = fp w.fp_rr_reg d.fp_rr_reg;
      fp_ex_reg = if m.fp_pipe then fill (read_fp_execution m w) 0 d.fp_ex_reg else d.fp_ex_reg;
      fp_rw_reg = fp w.fp_rw_reg d.fp_rw_reg;
      cm_reg = fill (read_commit m w) 0 d.cm_reg;
      scheduler = fill (λ i x. w.scheduler i) 0 d.scheduler;
      issue_queue = fill (read_issue_queue w) 0 d.issue_queue;
      to_recovery_phase = w.to_recovery_phase;
      active_list_head_ptr = w.active_list_head_ptr;
      active_list_count = w.active_list_count;
      np_stage_pipe_ctrl = read_ctrl w w.np_stage_pipe_ctrl;
      if_stage_pipe_ctrl = read_ctrl w w.if_stage_pipe_ctrl;
      pd_stage_pipe_ctrl = read_ctrl w w.pd_stage_pipe_ctrl;
      id_stage_pipe_ctrl = read_ctrl w w.id_stage_pipe_ctrl;
      rn_stage_pipe_ctrl = read_ctrl w w.rn_stage_pipe_ctrl;
      ds_stage_pipe_ctrl = read_ctrl w w.ds_stage_pipe_ctrl;
      back_end_pipe_ctrl = read_ctrl w w.back_end_pipe_ctrl;
      cm_stage_pipe_ctrl = read_ctrl w w.cm_stage_pipe_ctrl;
      stall_by_decode_stage = w.stall_by_decode_stage;
      load_store_unit_allocatable = w.load_store_unit_allocatable;
      store_committer_phase = w.store_committer_phase;
      store_queue_count = w.store_queue_count;
      busy_in_recovery = w.busy_in_recovery;
      store_queue_empty = w.store_queue_empty;
      perf_counter = if m.functional_simulation then read_perf_counter w else d.perf_counter;
    }
