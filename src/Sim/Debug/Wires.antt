-- ===== src/Sim/Debug/Wires.antt =====
-- The functions that Verilator makes of `VerilatorHelper.sv`: each takes the debug register of the
-- verilated core, which is fixed here, and gives a member of the element at an index.
use rsd_m.Base.{ℕ, Bool}

pub record NextPcWires : Type 0 where
  pub valid : ℕ → Bool
  pub sid : ℕ → ℕ

pub record FetchWires : Type 0 where
  pub valid : ℕ → Bool
  pub sid : ℕ → ℕ
  pub flush : ℕ → Bool
  pub ic_miss : ℕ → Bool

pub record PreDecodeWires : Type 0 where
  pub valid : ℕ → Bool
  pub sid : ℕ → ℕ
  pub alu_code : ℕ → ℕ
  pub op_type : ℕ → ℕ

pub record DecodeWires : Type 0 where
  pub valid : ℕ → Bool
  pub flushed : ℕ → Bool
  pub flush_triggering : ℕ → Bool
  pub op_id : ℕ → ℕ
  pub pc : ℕ → ℕ
  pub insn : ℕ → ℕ
  pub undefined : ℕ → Bool
  pub unsupported : ℕ → Bool

pub record RenameWires : Type 0 where
  pub valid : ℕ → Bool
  pub op_id : ℕ → ℕ

pub record DispatchWires : Type 0 where
  pub valid : ℕ → Bool
  pub op_id : ℕ → ℕ
  pub read_reg_a : ℕ → Bool
  pub log_src_reg_a : ℕ → ℕ
  pub phy_src_reg_a : ℕ → ℕ
  pub read_reg_b : ℕ → Bool
  pub log_src_reg_b : ℕ → ℕ
  pub phy_src_reg_b : ℕ → ℕ
  pub read_reg_c : ℕ → Bool
  pub log_src_reg_c : ℕ → ℕ
  pub phy_src_reg_c : ℕ → ℕ
  pub write_reg : ℕ → Bool
  pub log_dst_reg : ℕ → ℕ
  pub phy_dst_reg : ℕ → ℕ
  pub phy_prev_dst_reg : ℕ → ℕ
  pub active_list_ptr : ℕ → ℕ
  pub issue_queue_ptr : ℕ → ℕ

pub record OpWires : Type 0 where
  pub valid : ℕ → Bool
  pub flush : ℕ → Bool
  pub op_id : ℕ → ℕ

pub record IntegerExecutionWires : Type 0 where
  pub valid : ℕ → Bool
  pub flush : ℕ → Bool
  pub op_id : ℕ → ℕ
  pub data_out : ℕ → ℕ
  pub fu_op_a : ℕ → ℕ
  pub fu_op_b : ℕ → ℕ
  pub alu_code : ℕ → ℕ
  pub op_type : ℕ → ℕ
  pub br_pred_miss : ℕ → Bool

pub record ComplexIntegerExecutionWires : Type 0 where
  pub flush : ℕ → Bool
  pub valid : ℕ → Bool
  pub op_id : ℕ → ℕ
  pub data_out : ℕ → ℕ
  pub fu_op_a : ℕ → ℕ
  pub fu_op_b : ℕ → ℕ

pub record FpExecutionWires : Type 0 where
  pub flush : ℕ → Bool
  pub valid : ℕ → Bool
  pub op_id : ℕ → ℕ
  pub data_out : ℕ → ℕ
  pub fu_op_a : ℕ → ℕ
  pub fu_op_b : ℕ → ℕ
  pub fu_op_c : ℕ → ℕ

pub record MemoryExecutionWires : Type 0 where
  pub valid : ℕ → Bool
  pub flush : ℕ → Bool
  pub op_id : ℕ → ℕ
  pub addr_out : ℕ → ℕ
  pub fu_op_a : ℕ → ℕ
  pub fu_op_b : ℕ → ℕ
  pub op_type : ℕ → ℕ
  pub size : ℕ → ℕ
  pub is_signed : ℕ → Bool

pub record MemoryTagAccessWires : Type 0 where
  pub valid : ℕ → Bool
  pub flush : ℕ → Bool
  pub op_id : ℕ → ℕ
  pub execute_load : ℕ → Bool
  pub executed_load_addr : ℕ → ℕ
  pub mshr_hit : ℕ → Bool
  pub mshr_allocated : ℕ → Bool
  pub mshr_entry_id : ℕ → ℕ
  pub execute_store : ℕ → Bool
  pub executed_store_addr : ℕ → ℕ
  pub executed_store_data : ℕ → ℕ

pub record MemoryAccessWires : Type 0 where
  pub valid : ℕ → Bool
  pub flush : ℕ → Bool
  pub op_id : ℕ → ℕ
  pub execute_load : ℕ → Bool
  pub executed_load_data : ℕ → ℕ

pub record CommitWires : Type 0 where
  pub commit : ℕ → Bool
  pub flush : ℕ → Bool
  pub op_id : ℕ → ℕ
  pub release_reg : ℕ → Bool
  pub phy_released_reg : ℕ → ℕ

pub record IssueQueueWires : Type 0 where
  pub flush : ℕ → Bool
  pub op_id : ℕ → ℕ

-- `OpId_sid` and `PipelineControll_stall` and their like take a packed struct apart.
pub record Wires : Type 0 where
  pub op_id_sid : ℕ → ℕ
  pub op_id_mid : ℕ → ℕ
  pub ctrl_stall : ℕ → Bool
  pub ctrl_clear : ℕ → Bool
  pub np_reg : NextPcWires
  pub if_reg : FetchWires
  pub pd_reg : PreDecodeWires
  pub id_reg : DecodeWires
  pub rn_reg : RenameWires
  pub ds_reg : DispatchWires
  pub int_is_reg : OpWires
  pub int_rr_reg : OpWires
  pub int_ex_reg : IntegerExecutionWires
  pub int_rw_reg : OpWires
  pub complex_is_reg : OpWires
  pub complex_rr_reg : OpWires
  pub complex_ex_reg : ComplexIntegerExecutionWires
  pub complex_rw_reg : OpWires
  pub mem_is_reg : OpWires
  pub mem_rr_reg : OpWires
  pub mem_ex_reg : MemoryExecutionWires
  pub mt_reg : MemoryTagAccessWires
  pub ma_reg : MemoryAccessWires
  pub mem_rw_reg : OpWires
  pub fp_is_reg : OpWires
  pub fp_rr_reg : OpWires
  pub fp_ex_reg : FpExecutionWires
  pub fp_rw_reg : OpWires
  pub cm_reg : CommitWires
  pub scheduler : ℕ → Bool
  pub issue_queue : IssueQueueWires
  pub to_recovery_phase : Bool
  pub active_list_head_ptr : ℕ
  pub active_list_count : ℕ
  pub np_stage_pipe_ctrl : ℕ
  pub if_stage_pipe_ctrl : ℕ
  pub pd_stage_pipe_ctrl : ℕ
  pub id_stage_pipe_ctrl : ℕ
  pub rn_stage_pipe_ctrl : ℕ
  pub ds_stage_pipe_ctrl : ℕ
  pub back_end_pipe_ctrl : ℕ
  pub cm_stage_pipe_ctrl : ℕ
  pub stall_by_decode_stage : Bool
  pub load_store_unit_allocatable : Bool
  pub store_committer_phase : Bool
  pub store_queue_count : ℕ
  pub busy_in_recovery : Bool
  pub store_queue_empty : Bool
  pub perf_counter_num_ic_miss : ℕ
  pub perf_counter_num_load_miss : ℕ
  pub perf_counter_num_store_miss : ℕ
  pub perf_counter_num_store_load_forwarding_fail : ℕ
  pub perf_counter_num_mem_dep_pred_miss : ℕ
  pub perf_counter_num_branch_pred_miss : ℕ
  pub perf_counter_num_branch_pred_miss_detected_on_decode : ℕ
