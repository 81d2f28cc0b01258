-- ===== src/Sim/Kanata/Entries.antt =====
-- The operations that the debug register holds in the stages of the pipeline, in the order of the
-- stages: what a log of the cycle is to show, said without its format.
use rsd_m.Sim.Kanata.Reader.{Entry}
use rsd_m.Sim.Debug.Read.{Macros}
use rsd_m.Base.Word.{u32}
use rsd_m.Sim.Kanata.{
  ks_np, ks_if, ks_pd, ks_id, ks_rn, ks_ds, ks_sc, ks_is, ks_rr, ks_ex, ks_ma, ks_mt, ks_rw, ks_wc,
  ks_cm,
}
use rsd_m.Sim.Debug.{
  PipelineControll, NextPcStage, FetchStage, PreDecodeStage, DecodeStage, RenameStage,
  DispatchStage, OpStage, IntegerExecutionStage, ExecutionStep, MemoryExecutionStage,
  MemoryTagAccessStage, MemoryAccessStage, CommitStage, IssueQueue, DebugRegister,
}
use rsd_m.Base.{ℕ, Bool, true, false, not, ◌&&◌, ◌||◌, List, [], ◌∷◌, ◌++◌, if◌then◌else◌}

-- A stage that holds a valid operation.
abbrev pub entry : ℕ → Bool → Bool → Bool → ℕ → ℕ → List Entry
entry k valid stall clear sid mid =
    if valid
    then record { stage = k; stall = stall; clear = clear; sid = u32 sid; mid = u32 mid } ∷ []
    else []

unfoldable pub gather {ℓ} : {A : Type ℓ} → (A → List Entry) → List A → List Entry
gather f [] = []
gather f (x ∷ xs) = f x ++ gather f xs

abbrev pub op_entry : ℕ → Bool → OpStage → List Entry
op_entry k stall r = entry k r.valid stall r.flush r.op_id.sid r.op_id.mid

abbrev pub np_entry : PipelineControll → NextPcStage → List Entry
np_entry p r = entry ks_np r.valid p.stall p.clear r.sid 0

-- A flushed fetch does not stall.
abbrev pub if_entry : PipelineControll → FetchStage → List Entry
if_entry p r = entry ks_if r.valid (p.stall && not r.flush) (p.clear || r.flush) r.sid 0

abbrev pub pd_entry : PipelineControll → PreDecodeStage → List Entry
pd_entry p r = entry ks_pd r.valid p.stall p.clear r.sid 0

abbrev pub id_entry : PipelineControll → Bool → DecodeStage → List Entry
id_entry p by_itself r =
    entry ks_id r.valid (p.stall && not by_itself) (p.clear || r.flushed) r.op_id.sid r.op_id.mid

abbrev pub rn_entry : PipelineControll → RenameStage → List Entry
rn_entry p r = entry ks_rn r.valid p.stall p.clear r.op_id.sid r.op_id.mid

abbrev pub ds_entry : PipelineControll → DispatchStage → List Entry
ds_entry p r = entry ks_ds r.valid p.stall p.clear r.op_id.sid r.op_id.mid

unfoldable pub front_entries : DebugRegister → List Entry
unfolding gather
front_entries d =
    gather (np_entry d.np_stage_pipe_ctrl) d.np_reg
    ++ (gather (if_entry d.if_stage_pipe_ctrl) d.if_reg
        ++ (gather (pd_entry d.pd_stage_pipe_ctrl) d.pd_reg
            ++ (gather (id_entry d.id_stage_pipe_ctrl d.stall_by_decode_stage) d.id_reg
                ++ (gather (rn_entry d.rn_stage_pipe_ctrl) d.rn_reg
                    ++ gather (ds_entry d.ds_stage_pipe_ctrl) d.ds_reg))))

unfoldable pub schedule_entries : Bool → List Bool → List IssueQueue → List Entry
schedule_entries stall (valid ∷ vs) (q ∷ qs) =
    entry ks_sc valid stall q.flush q.op_id.sid q.op_id.mid ++ schedule_entries stall vs qs
schedule_entries stall _ _ = []

-- The integer, complex and memory pipes, and the floating-point one where there is one.
unfoldable pub pipe_entries :
    ℕ → Macros → Bool → List OpStage → List OpStage → List OpStage → List OpStage → List Entry
unfolding gather
pipe_entries k m stall int complex mem fp =
    gather (op_entry k stall) int
    ++ (gather (op_entry k stall) complex
        ++ (gather (op_entry k stall) mem
            ++ (if m.fp_pipe then gather (op_entry k stall) fp else [])))

abbrev pub step_entry : Bool → Bool → ExecutionStep → List Entry
step_entry stall flush s = entry ks_ex s.valid stall flush s.op_id.sid s.op_id.mid

abbrev pub integer_entry : Bool → IntegerExecutionStage → List Entry
integer_entry stall r = entry ks_ex r.valid stall r.flush r.op_id.sid r.op_id.mid

abbrev pub memory_entry : Bool → MemoryExecutionStage → List Entry
memory_entry stall r = entry ks_ex r.valid stall r.flush r.op_id.sid r.op_id.mid

unfoldable pub execute_entries : Macros → DebugRegister → List Entry
unfolding gather
execute_entries m d =
    let stall = d.back_end_pipe_ctrl.stall in
    gather (integer_entry stall) d.int_ex_reg
    ++ (gather (λ r. gather (step_entry stall r.flush) r.steps) d.complex_ex_reg
        ++ (gather (memory_entry stall) d.mem_ex_reg
            ++ (if m.fp_pipe
                then gather (λ r. gather (step_entry stall r.flush) r.steps) d.fp_ex_reg
                else [])))

abbrev pub tag_entry : Bool → MemoryTagAccessStage → List Entry
tag_entry stall r = entry ks_mt r.valid stall r.flush r.op_id.sid r.op_id.mid

abbrev pub access_entry : Bool → MemoryAccessStage → List Entry
access_entry stall r = entry ks_ma r.valid stall r.flush r.op_id.sid r.op_id.mid

-- An operation leaves the pipeline cancelled or committed.
abbrev pub commit_entry : CommitStage → List Entry
commit_entry r =
    if r.flush
    then entry ks_wc true false true r.op_id.sid r.op_id.mid
    else entry ks_cm r.commit false false r.op_id.sid r.op_id.mid

unfoldable pub entries_of : Macros → DebugRegister → List Entry
unfolding gather front_entries schedule_entries pipe_entries execute_entries
entries_of m d =
    let stall = d.back_end_pipe_ctrl.stall in
    front_entries d
    ++ (schedule_entries stall d.scheduler d.issue_queue
        ++ (pipe_entries ks_is m stall d.int_is_reg d.complex_is_reg d.mem_is_reg d.fp_is_reg
            ++ (pipe_entries ks_rr m stall d.int_rr_reg d.complex_rr_reg d.mem_rr_reg d.fp_rr_reg
                ++ (execute_entries m d
                    ++ (gather (tag_entry stall) d.mt_reg
                        ++ (gather (access_entry stall) d.ma_reg
                            ++ (pipe_entries ks_rw m stall d.int_rw_reg d.complex_rw_reg
                                  d.mem_rw_reg d.fp_rw_reg
                                ++ gather commit_entry d.cm_reg)))))))
