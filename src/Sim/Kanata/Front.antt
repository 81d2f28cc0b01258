-- ===== src/Sim/Kanata/Front.antt =====
-- `DumpCycle`, from fetch to dispatch.
use rsd_m.Sim.Debug.Read.{Macros}
use rsd_m.Sim.Dump.{bin2str}
use rsd_m.Dis.Print.{show_signed}
use rsd_m.Base.Text.{Text, codes}
use rsd_m.Sim.Kanata.{ks_np, ks_if, ks_pd, ks_id, ks_rn, ks_ds, dump_stage, dump_insn_code, each}
use rsd_m.Sim.Debug.{
  PipelineControll, NextPcStage, FetchStage, PreDecodeStage, DecodeStage, RenameStage,
  DispatchStage, DebugRegister,
}
use rsd_m.Base.{ℕ, Bool, false, not, ◌&&◌, ◌||◌, [], ◌++◌, if◌then◌else◌}

unfoldable pub dump_next_pc : PipelineControll → NextPcStage → Text
unfolding dump_stage
dump_next_pc p r = dump_stage ks_np r.valid p.stall p.clear r.sid 0 []

unfoldable pub dump_fetch : PipelineControll → FetchStage → Text
unfolding dump_stage
dump_fetch p r =
    let str = if r.ic_miss then codes "i-cache-miss\\n" else [] in
    dump_stage ks_if r.valid (p.stall && not r.flush) (p.clear || r.flush) r.sid 0 str

unfoldable pub dump_pre_decode : Macros → PipelineControll → PreDecodeStage → Text
unfolding dump_stage bin2str
dump_pre_decode m p r =
    let str_alu_code = bin2str r.alu_code 4 false in
    let str_op_type = bin2str r.op_type 3 false in
    if m.functional_simulation
    then dump_stage ks_pd r.valid p.stall p.clear r.sid 0 (
        codes "optype:0b"
        ++ (str_op_type ++ (codes " ALU-code:0b" ++ (str_alu_code ++ codes "\\n"))))
    else dump_stage ks_pd r.valid p.stall p.clear r.sid 0 []

-- The last of the three comments that applies is the one that is printed.
unfoldable pub decode_comment : DecodeStage → Text
decode_comment r =
    if r.flush_triggering
    then codes "Br-pred-miss-id\\n"
    else if r.unsupported
    then codes "An unsupported instruction is decoded."
    else if r.undefined
    then codes "An undefined instruction is decoded."
    else []

unfoldable pub dump_decode : PipelineControll → Bool → DecodeStage → Text
unfolding dump_stage decode_comment
dump_decode p stall_by_decode_stage r =
    dump_stage ks_id r.valid (p.stall && not stall_by_decode_stage) (p.clear || r.flushed)
      r.op_id.sid r.op_id.mid (decode_comment r)

unfoldable pub dump_code : DecodeStage → Text
unfolding dump_insn_code
dump_code r = if r.valid then dump_insn_code r.op_id.sid r.op_id.mid r.pc r.insn else []

unfoldable pub dump_rename : PipelineControll → RenameStage → Text
unfolding dump_stage
dump_rename p r = dump_stage ks_rn r.valid p.stall p.clear r.op_id.sid r.op_id.mid []

-- `r%0d(p%0d), ` where the test holds.
unfoldable pub mapping : Bool → ℕ → ℕ → Text
unfolding show_signed
mapping used log phy =
    if used
    then codes "r" ++ (show_signed log ++ (codes "(p" ++ (show_signed phy ++ codes "), ")))
    else []

unfoldable pub fp_mapping : Macros → DispatchStage → Text
unfolding mapping
fp_mapping m r = if m.fp_pipe then mapping r.read_reg_c r.log_src_reg_c r.phy_src_reg_c else []

unfoldable pub dispatch_comment : Macros → DispatchStage → Text
unfolding mapping fp_mapping show_signed
dispatch_comment m r =
    if m.functional_simulation
    then codes "map: "
      ++ (mapping r.write_reg r.log_dst_reg r.phy_dst_reg
          ++ (codes " = "
              ++ (mapping r.read_reg_a r.log_src_reg_a r.phy_src_reg_a
                  ++ (mapping r.read_reg_b r.log_src_reg_b r.phy_src_reg_b
                      ++ (fp_mapping m r
                          ++ (codes "\\nprev: "
                              ++ (mapping r.write_reg r.log_dst_reg r.phy_prev_dst_reg
                                  ++ (codes "\\nAL alloc: "
                                      ++ (show_signed r.active_list_ptr
                                          ++ (codes " \\nIQ alloc: "
                                              ++ (show_signed r.issue_queue_ptr
                                                  ++ codes " ")))))))))))
    else []

unfoldable pub dump_dispatch : Macros → PipelineControll → DispatchStage → Text
unfolding dump_stage dispatch_comment
dump_dispatch m p r =
    dump_stage ks_ds r.valid p.stall p.clear r.op_id.sid r.op_id.mid (dispatch_comment m r)

unfoldable pub dump_front : Macros → DebugRegister → Text
unfolding each dump_next_pc dump_fetch dump_pre_decode dump_decode dump_code dump_rename
    dump_dispatch
dump_front m d =
    each (dump_next_pc d.np_stage_pipe_ctrl) d.np_reg
    ++ (each (dump_fetch d.if_stage_pipe_ctrl) d.if_reg
        ++ (each (dump_pre_decode m d.pd_stage_pipe_ctrl) d.pd_reg
            ++ (each (dump_decode d.id_stage_pipe_ctrl d.stall_by_decode_stage) d.id_reg
                ++ (each dump_code d.id_reg
                    ++ (each (dump_rename d.rn_stage_pipe_ctrl) d.rn_reg
                        ++ each (dump_dispatch m d.ds_stage_pipe_ctrl) d.ds_reg)))))
