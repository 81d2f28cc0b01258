-- ===== src/Sim/Debug.antt =====
-- The debug register of the core as the test bench keeps it: the structs of `VerilatorHelper.h`.
-- An array is a list; its width is a parameter of the core. The members of a functional simulation
-- are there in every build, and are only set in one.
pub mod Wires
pub mod Read
pub mod Execution
pub mod Get
pub mod Tests
use rsd_m.Base.{ℕ, Bool, List}

pub record OpId : Type 0 where
  pub sid : ℕ
  pub mid : ℕ

pub record PipelineControll : Type 0 where
  pub stall : Bool
  pub clear : Bool

pub record NextPcStage : Type 0 where
  pub valid : Bool
  pub sid : ℕ

pub record FetchStage : Type 0 where
  pub valid : Bool
  pub sid : ℕ
  pub flush : Bool
  pub ic_miss : Bool

pub record PreDecodeStage : Type 0 where
  pub valid : Bool
  pub sid : ℕ
  pub alu_code : ℕ
  pub op_type : ℕ

pub record DecodeStage : Type 0 where
  pub valid : Bool
  pub flushed : Bool
  pub flush_triggering : Bool
  pub op_id : OpId
  pub pc : ℕ
  pub insn : ℕ
  pub undefined : Bool
  pub unsupported : Bool

pub record RenameStage : Type 0 where
  pub valid : Bool
  pub op_id : OpId

pub record DispatchStage : Type 0 where
  pub valid : Bool
  pub op_id : OpId
  pub read_reg_a : Bool
  pub log_src_reg_a : ℕ
  pub phy_src_reg_a : ℕ
  pub read_reg_b : Bool
  pub log_src_reg_b : ℕ
  pub phy_src_reg_b : ℕ
  pub read_reg_c : Bool
  pub log_src_reg_c : ℕ
  pub phy_src_reg_c : ℕ
  pub write_reg : Bool
  pub log_dst_reg : ℕ
  pub phy_dst_reg : ℕ
  pub phy_prev_dst_reg : ℕ
  pub active_list_ptr : ℕ
  pub issue_queue_ptr : ℕ

-- The structs of the issue, register-read and register-write stages, which have the same members.
pub record OpStage : Type 0 where
  pub valid : Bool
  pub flush : Bool
  pub op_id : OpId

abbrev IntegerIssueStage : Type 0
IntegerIssueStage = OpStage

abbrev IntegerRegisterReadStage : Type 0
IntegerRegisterReadStage = OpStage

abbrev IntegerRegisterWriteStage : Type 0
IntegerRegisterWriteStage = OpStage

abbrev ComplexIntegerIssueStage : Type 0
ComplexIntegerIssueStage = OpStage

abbrev ComplexIntegerRegisterReadStage : Type 0
ComplexIntegerRegisterReadStage = OpStage

abbrev ComplexIntegerRegisterWriteStage : Type 0
ComplexIntegerRegisterWriteStage = OpStage

abbrev MemoryIssueStage : Type 0
MemoryIssueStage = OpStage

abbrev MemoryRegisterReadStage : Type 0
MemoryRegisterReadStage = OpStage

abbrev MemoryRegisterWriteStage : Type 0
MemoryRegisterWriteStage = OpStage

abbrev FpIssueStage : Type 0
FpIssueStage = OpStage

abbrev FpRegisterReadStage : Type 0
FpRegisterReadStage = OpStage

abbrev FpRegisterWriteStage : Type 0
FpRegisterWriteStage = OpStage

pub record IntegerExecutionStage : Type 0 where
  pub valid : Bool
  pub flush : Bool
  pub op_id : OpId
  pub data_out : ℕ
  pub fu_op_a : ℕ
  pub fu_op_b : ℕ
  pub alu_code : ℕ
  pub op_type : ℕ
  pub br_pred_miss : Bool

-- An element of the arrays `valid` and `opId` of the pipelines of several execution stages.
pub record ExecutionStep : Type 0 where
  pub valid : Bool
  pub op_id : OpId

-- The vector members, which nothing sets or reads, are left out here and below.
pub record ComplexIntegerExecutionStage : Type 0 where
  pub flush : Bool
  pub steps : List ExecutionStep
  pub data_out : ℕ
  pub fu_op_a : ℕ
  pub fu_op_b : ℕ

pub record FpExecutionStage : Type 0 where
  pub flush : Bool
  pub steps : List ExecutionStep
  pub data_out : ℕ
  pub fu_op_a : ℕ
  pub fu_op_b : ℕ
  pub fu_op_c : ℕ

pub record MemoryExecutionStage : Type 0 where
  pub valid : Bool
  pub flush : Bool
  pub op_id : OpId
  pub addr_out : ℕ
  pub fu_op_a : ℕ
  pub fu_op_b : ℕ
  pub op_type : ℕ
  pub size : ℕ
  pub is_signed : Bool

pub record MemoryTagAccessStage : Type 0 where
  pub valid : Bool
  pub flush : Bool
  pub op_id : OpId
  pub execute_load : Bool
  pub executed_load_addr : ℕ
  pub mshr_hit : Bool
  pub mshr_allocated : Bool
  pub mshr_entry_id : ℕ
  pub execute_store : Bool
  pub executed_store_addr : ℕ
  pub executed_store_data : ℕ

pub record MemoryAccessStage : Type 0 where
  pub valid : Bool
  pub flush : Bool
  pub op_id : OpId
  pub execute_load : Bool
  pub executed_load_data : ℕ

pub record CommitStage : Type 0 where
  pub commit : Bool
  pub flush : Bool
  pub op_id : OpId
  pub release_reg : Bool
  pub phy_released_reg : ℕ

pub record IssueQueue : Type 0 where
  pub flush : Bool
  pub op_id : OpId

pub record PerfCounter : Type 0 where
  pub num_ic_miss : ℕ
  pub num_load_miss : ℕ
  pub num_store_miss : ℕ
  pub num_store_load_forwarding_fail : ℕ
  pub num_mem_dep_pred_miss : ℕ
  pub num_branch_pred_miss : ℕ
  pub num_branch_pred_miss_detected_on_decode : ℕ

-- `scheduler` holds the one member of its struct.
pub record DebugRegister : Type 0 where
  pub np_reg : List NextPcStage
  pub if_reg : List FetchStage
  pub pd_reg : List PreDecodeStage
  pub id_reg : List DecodeStage
  pub rn_reg : List RenameStage
  pub ds_reg : List DispatchStage
  pub int_is_reg : List IntegerIssueStage
  pub int_rr_reg : List IntegerRegisterReadStage
  pub int_ex_reg : List IntegerExecutionStage
  pub int_rw_reg : List IntegerRegisterWriteStage
  pub complex_is_reg : List ComplexIntegerIssueStage
  pub complex_rr_reg : List ComplexIntegerRegisterReadStage
  pub complex_ex_reg : List ComplexIntegerExecutionStage
  pub complex_rw_reg : List ComplexIntegerRegisterWriteStage
  pub mem_is_reg : List MemoryIssueStage
  pub mem_rr_reg : List MemoryRegisterReadStage
  pub mem_ex_reg : List MemoryExecutionStage
  pub mt_reg : List MemoryTagAccessStage
  pub ma_reg : List MemoryAccessStage
  pub mem_rw_reg : List MemoryRegisterWriteStage
  pub fp_is_reg : List FpIssueStage
  pub fp_rr_reg : List FpRegisterReadStage
  pub fp_ex_reg : List FpExecutionStage
  pub fp_rw_reg : List FpRegisterWriteStage
  pub cm_reg : List CommitStage
  pub scheduler : List Bool
  pub issue_queue : List IssueQueue
  pub to_recovery_phase : Bool
  pub active_list_head_ptr : ℕ
  pub active_list_count : ℕ
  pub np_stage_pipe_ctrl : PipelineControll
  pub if_stage_pipe_ctrl : PipelineControll
  pub pd_stage_pipe_ctrl : PipelineControll
  pub id_stage_pipe_ctrl : PipelineControll
  pub rn_stage_pipe_ctrl : PipelineControll
  pub ds_stage_pipe_ctrl : PipelineControll
  pub back_end_pipe_ctrl : PipelineControll
  pub cm_stage_pipe_ctrl : PipelineControll
  pub stall_by_decode_stage : Bool
  pub load_store_unit_allocatable : Bool
  pub store_committer_phase : Bool
  pub store_queue_count : ℕ
  pub busy_in_recovery : Bool
  pub store_queue_empty : Bool
  pub perf_counter : PerfCounter
