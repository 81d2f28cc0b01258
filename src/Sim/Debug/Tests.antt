-- ===== src/Sim/Debug/Tests.antt =====
-- The debug register of a core on which two lanes of the complex pipe execute, and one slot of two
-- commits.
use rsd_m.Sim.Debug.Get.{get_debug_register}
use rsd_m.Sim.Debug.Wires.{Wires, OpWires}
use rsd_m.Sim.Debug.Read.{Macros}
use rsd_m.Sim.Debug.{OpId, OpStage, ComplexIntegerExecutionStage, CommitStage, DebugRegister}
use rsd_m.Base.{◌+◌, ◌*◌, ◌/◌, ◌%◌, true, false, [], ◌∷◌, ◌==◌}

abbrev no_op : OpId
no_op = record { sid = 0; mid = 0 }

abbrev idle : OpStage
idle = record { valid = false; flush = false; op_id = no_op }

abbrev lane : ComplexIntegerExecutionStage
lane = record {
  flush = false;
  steps = record { valid = false; op_id = no_op } ∷ record { valid = false; op_id = no_op } ∷ [];
  data_out = 0;
  fu_op_a = 0;
  fu_op_b = 0;
}

abbrev uncommitted : CommitStage
uncommitted = record {
  commit = false;
  flush = false;
  op_id = no_op;
  release_reg = false;
  phy_released_reg = 0;
}

-- The register as `memset` leaves it, with two lanes and two commit slots and one slot for the
-- integer pipe.
abbrev pub blank : DebugRegister
blank = record {
  np_reg = [];
  if_reg = [];
  pd_reg = [];
  id_reg = [];
  rn_reg = [];
  ds_reg = [];
  int_is_reg = idle ∷ [];
  int_rr_reg = [];
  int_ex_reg = [];
  int_rw_reg = [];
  complex_is_reg = [];
  complex_rr_reg = [];
  complex_ex_reg = lane ∷ lane ∷ [];
  complex_rw_reg = [];
  mem_is_reg = [];
  mem_rr_reg = [];
  mem_ex_reg = [];
  mt_reg = [];
  ma_reg = [];
  mem_rw_reg = [];
  fp_is_reg = [];
  fp_rr_reg = [];
  fp_ex_reg = [];
  fp_rw_reg = [];
  cm_reg = uncommitted ∷ uncommitted ∷ [];
  scheduler = [];
  issue_queue = [];
  to_recovery_phase = false;
  active_list_head_ptr = 0;
  active_list_count = 0;
  np_stage_pipe_ctrl = record { stall = false; clear = false };
  if_stage_pipe_ctrl = record { stall = false; clear = false };
  pd_stage_pipe_ctrl = record { stall = false; clear = false };
  id_stage_pipe_ctrl = record { stall = false; clear = false };
  rn_stage_pipe_ctrl = record { stall = false; clear = false };
  ds_stage_pipe_ctrl = record { stall = false; clear = false };
  back_end_pipe_ctrl = record { stall = false; clear = false };
  cm_stage_pipe_ctrl = record { stall = false; clear = false };
  stall_by_decode_stage = false;
  load_store_unit_allocatable = false;
  store_committer_phase = false;
  store_queue_count = 0;
  busy_in_recovery = false;
  store_queue_empty = false;
  perf_counter = record {
    num_ic_miss = 0;
    num_load_miss = 0;
    num_store_miss = 0;
    num_store_load_forwarding_fail = 0;
    num_mem_dep_pred_miss = 0;
    num_branch_pred_miss = 0;
    num_branch_pred_miss_detected_on_decode = 0;
  };
}

abbrev silent : OpWires
silent = record { valid = λ i. false; flush = λ i. false; op_id = λ i. 0 }

-- A packed operation is its serial number times four and its micro-op.
abbrev pub wires : Wires
wires = record {
  op_id_sid = λ v. v / 4;
  op_id_mid = λ v. v % 4;
  ctrl_stall = λ v. v == 1;
  ctrl_clear = λ v. v == 2;
  np_reg = record { valid = λ i. false; sid = λ i. 0 };
  if_reg = record { valid = λ i. false; sid = λ i. 0; flush = λ i. false; ic_miss = λ i. false };
  pd_reg = record { valid = λ i. false; sid = λ i. 0; alu_code = λ i. 0; op_type = λ i. 0 };
  id_reg = record {
    valid = λ i. false;
    flushed = λ i. false;
    flush_triggering = λ i. false;
    op_id = λ i. 0;
    pc = λ i. 0;
    insn = λ i. 0;
    undefined = λ i. false;
    unsupported = λ i. false;
  };
  rn_reg = record { valid = λ i. false; op_id = λ i. 0 };
  ds_reg = record {
    valid = λ i. false;
    op_id = λ i. 0;
    read_reg_a = λ i. false;
    log_src_reg_a = λ i. 0;
    phy_src_reg_a = λ i. 0;
    read_reg_b = λ i. false;
    log_src_reg_b = λ i. 0;
    phy_src_reg_b = λ i. 0;
    read_reg_c = λ i. false;
    log_src_reg_c = λ i. 0;
    phy_src_reg_c = λ i. 0;
    write_reg = λ i. false;
    log_dst_reg = λ i. 0;
    phy_dst_reg = λ i. 0;
    phy_prev_dst_reg = λ i. 0;
    active_list_ptr = λ i. 0;
    issue_queue_ptr = λ i. 0;
  };
  int_is_reg = record { valid = λ i. true; flush = λ i. false; op_id = λ i. 4 * 0xffff_ffff };
  int_rr_reg = silent;
  int_ex_reg = record {
    valid = λ i. false;
    flush = λ i. false;
    op_id = λ i. 0;
    data_out = λ i. 0;
    fu_op_a = λ i. 0;
    fu_op_b = λ i. 0;
    alu_code = λ i. 0;
    op_type = λ i. 0;
    br_pred_miss = λ i. false;
  };
  int_rw_reg = silent;
  complex_is_reg = silent;
  complex_rr_reg = silent;
  complex_ex_reg = record {
    flush = λ i. false;
    valid = λ i. true;
    op_id = λ i. 4 * (7 + i);
    data_out = λ i. 0;
    fu_op_a = λ i. 0x1f;
    fu_op_b = λ i. 0;
  };
  complex_rw_reg = silent;
  mem_is_reg = silent;
  mem_rr_reg = silent;
  mem_ex_reg = record {
    valid = λ i. false;
    flush = λ i. false;
    op_id = λ i. 0;
    addr_out = λ i. 0;
    fu_op_a = λ i. 0;
    fu_op_b = λ i. 0;
    op_type = λ i. 0;
    size = λ i. 0;
    is_signed = λ i. false;
  };
  mt_reg = record {
    valid = λ i. false;
    flush = λ i. false;
    op_id = λ i. 0;
    execute_load = λ i. false;
    executed_load_addr = λ i. 0;
    mshr_hit = λ i. false;
    mshr_allocated = λ i. false;
    mshr_entry_id = λ i. 0;
    execute_store = λ i. false;
    executed_store_addr = λ i. 0;
    executed_store_data = λ i. 0;
  };
  ma_reg = record {
    valid = λ i. false;
    flush = λ i. false;
    op_id = λ i. 0;
    execute_load = λ i. false;
    executed_load_data = λ i. 0;
  };
  mem_rw_reg = silent;
  fp_is_reg = silent;
  fp_rr_reg = silent;
  fp_ex_reg = record {
    flush = λ i. false;
    valid = λ i. false;
    op_id = λ i. 0;
    data_out = λ i. 0;
    fu_op_a = λ i. 0;
    fu_op_b = λ i. 0;
    fu_op_c = λ i. 0;
  };
  fp_rw_reg = silent;
  cm_reg = record {
    commit = λ i. i == 0;
    flush = λ i. i == 1;
    op_id = λ i. 4 * (5 + i) + 1;
    release_reg = λ i. true;
    phy_released_reg = λ i. 40;
  };
  scheduler = λ i. false;
  issue_queue = record { flush = λ i. false; op_id = λ i. 0 };
  to_recovery_phase = false;
  active_list_head_ptr = 0;
  active_list_count = 0;
  np_stage_pipe_ctrl = 0;
  if_stage_pipe_ctrl = 0;
  pd_stage_pipe_ctrl = 0;
  id_stage_pipe_ctrl = 0;
  rn_stage_pipe_ctrl = 0;
  ds_stage_pipe_ctrl = 0;
  back_end_pipe_ctrl = 0;
  cm_stage_pipe_ctrl = 0;
  stall_by_decode_stage = false;
  load_store_unit_allocatable = false;
  store_committer_phase = false;
  store_queue_count = 0;
  busy_in_recovery = false;
  store_queue_empty = false;
  perf_counter_num_ic_miss = 0;
  perf_counter_num_load_miss = 0;
  perf_counter_num_store_miss = 0;
  perf_counter_num_store_load_forwarding_fail = 0;
  perf_counter_num_mem_dep_pred_miss = 0;
  perf_counter_num_branch_pred_miss = 0;
  perf_counter_num_branch_pred_miss_detected_on_decode = 0;
}

abbrev pub macros : Macros
macros = record { functional_simulation = true; fp_pipe = false; unified_muldiv_mem_pipe = false }

unfoldable pub seen : DebugRegister
unfolding get_debug_register
seen = get_debug_register macros wires blank
