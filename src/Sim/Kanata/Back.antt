-- ===== src/Sim/Kanata/Back.antt =====
-- `DumpCycle`: the scheduler, and the stages that print no comment.
use rsd_m.Sim.Debug.Read.{Macros}
use rsd_m.Base.Text.{Text}
use rsd_m.Sim.Kanata.{ks_sc, ks_is, ks_rr, ks_rw, dump_stage, each}
use rsd_m.Sim.Debug.{OpStage, IssueQueue, DebugRegister}
use rsd_m.Base.{ℕ, Bool, List, [], ◌∷◌, ◌++◌, if◌then◌else◌}

-- The entry of the issue queue for each of the scheduler.
unfoldable pub dump_schedule : Bool → List Bool → List IssueQueue → Text
unfolding dump_stage
dump_schedule stall (valid ∷ vs) (q ∷ qs) =
    dump_stage ks_sc valid stall q.flush q.op_id.sid q.op_id.mid [] ++ dump_schedule stall vs qs
dump_schedule stall _ _ = []

unfoldable pub dump_op : ℕ → Bool → OpStage → Text
unfolding dump_stage
dump_op stage stall r = dump_stage stage r.valid stall r.flush r.op_id.sid r.op_id.mid []

unfoldable pub dump_issue : Macros → DebugRegister → Text
unfolding each dump_op
dump_issue m d =
    let stall = d.back_end_pipe_ctrl.stall in
    each (dump_op ks_is stall) d.int_is_reg
    ++ (each (dump_op ks_is stall) d.complex_is_reg
        ++ (each (dump_op ks_is stall) d.mem_is_reg
            ++ (if m.fp_pipe then each (dump_op ks_is stall) d.fp_is_reg else [])))

unfoldable pub dump_register_read : Macros → DebugRegister → Text
unfolding each dump_op
dump_register_read m d =
    let stall = d.back_end_pipe_ctrl.stall in
    each (dump_op ks_rr stall) d.int_rr_reg
    ++ (each (dump_op ks_rr stall) d.complex_rr_reg
        ++ (each (dump_op ks_rr stall) d.mem_rr_reg
            ++ (if m.fp_pipe then each (dump_op ks_rr stall) d.fp_rr_reg else [])))

unfoldable pub dump_register_write : Macros → DebugRegister → Text
unfolding each dump_op
dump_register_write m d =
    let stall = d.back_end_pipe_ctrl.stall in
    each (dump_op ks_rw stall) d.int_rw_reg
    ++ (each (dump_op ks_rw stall) d.complex_rw_reg
        ++ (each (dump_op ks_rw stall) d.mem_rw_reg
            ++ (if m.fp_pipe then each (dump_op ks_rw stall) d.fp_rw_reg else [])))
