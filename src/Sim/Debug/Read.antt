-- ===== src/Sim/Debug/Read.antt =====
-- `GetDebugRegister` up to dispatch, and the stages that only name an operation. The source goes
-- through an array once for each member, here once.
use rsd_m.Sim.Debug.Wires.{Wires, OpWires}
use rsd_m.Sim.Debug.{
  OpId, DispatchStage, NextPcStage, RenameStage, DecodeStage, PipelineControll, PreDecodeStage,
  FetchStage, OpStage,
}
use rsd_m.Base.{ℕ, List, [], ◌∷◌, suc, Bool, if◌then◌else◌}

-- `index` counts along the elements of an array.
unfoldable pub fill {ℓ} : {A : Type ℓ} → (ℕ → A → A) → ℕ → List A → List A
fill f index [] = []
fill f index (x ∷ xs) = f index x ∷ fill f (suc index) xs

-- The macros that make parts of this header: functional simulation, floating point, and
-- multiplication in the memory pipe.
pub record Macros : Type 0 where
  pub functional_simulation : Bool
  pub fp_pipe : Bool
  pub unified_muldiv_mem_pipe : Bool

unfoldable pub read_op_id : Wires → ℕ → OpId
read_op_id w packed = record { sid = w.op_id_sid packed; mid = w.op_id_mid packed }

unfoldable pub read_ctrl : Wires → ℕ → PipelineControll
read_ctrl w packed = record { stall = w.ctrl_stall packed; clear = w.ctrl_clear packed }

unfoldable pub read_next_pc : Wires → ℕ → NextPcStage → NextPcStage
read_next_pc w i x = record x { valid = w.np_reg.valid i; sid = w.np_reg.sid i }

unfoldable pub read_fetch : Wires → ℕ → FetchStage → FetchStage
read_fetch w i x = record x {
  valid = w.if_reg.valid i;
  sid = w.if_reg.sid i;
  flush = w.if_reg.flush i;
  ic_miss = w.if_reg.ic_miss i;
}

unfoldable pub read_pre_decode : Macros → Wires → ℕ → PreDecodeStage → PreDecodeStage
read_pre_decode m w i x =
    let x' : PreDecodeStage = record x { valid = w.pd_reg.valid i; sid = w.pd_reg.sid i } in
    if m.functional_simulation
    then record x' { alu_code = w.pd_reg.alu_code i; op_type = w.pd_reg.op_type i }
    else x'

unfoldable pub read_decode : Wires → ℕ → DecodeStage → DecodeStage
unfolding read_op_id
read_decode w i x = record x {
  valid = w.id_reg.valid i;
  flushed = w.id_reg.flushed i;
  flush_triggering = w.id_reg.flush_triggering i;
  op_id = read_op_id w (w.id_reg.op_id i);
  pc = w.id_reg.pc i;
  insn = w.id_reg.insn i;
  undefined = w.id_reg.undefined i;
  unsupported = w.id_reg.unsupported i;
}

unfoldable pub read_rename : Wires → ℕ → RenameStage → RenameStage
unfolding read_op_id
read_rename w i x = record x { valid = w.rn_reg.valid i; op_id = read_op_id w (w.rn_reg.op_id i) }

unfoldable pub read_dispatch : Macros → Wires → ℕ → DispatchStage → DispatchStage
unfolding read_op_id
read_dispatch m w i x =
    let x' : DispatchStage = record x {
      valid = w.ds_reg.valid i;
      op_id = read_op_id w (w.ds_reg.op_id i);
    } in
    let y : DispatchStage = record x' {
      read_reg_c = w.ds_reg.read_reg_c i;
      log_src_reg_c = w.ds_reg.log_src_reg_c i;
      phy_src_reg_c = w.ds_reg.phy_src_reg_c i;
    } in
    let z : DispatchStage = if m.fp_pipe then y else x' in
    if m.functional_simulation
    then record z {
      read_reg_a = w.ds_reg.read_reg_a i;
      log_src_reg_a = w.ds_reg.log_src_reg_a i;
      phy_src_reg_a = w.ds_reg.phy_src_reg_a i;
      read_reg_b = w.ds_reg.read_reg_b i;
      log_src_reg_b = w.ds_reg.log_src_reg_b i;
      phy_src_reg_b = w.ds_reg.phy_src_reg_b i;
      write_reg = w.ds_reg.write_reg i;
      log_dst_reg = w.ds_reg.log_dst_reg i;
      phy_dst_reg = w.ds_reg.phy_dst_reg i;
      phy_prev_dst_reg = w.ds_reg.phy_prev_dst_reg i;
      active_list_ptr = w.ds_reg.active_list_ptr i;
      issue_queue_ptr = w.ds_reg.issue_queue_ptr i;
    }
    else x'

-- The issue, register-read and register-write stages.
unfoldable pub read_op : Wires → OpWires → ℕ → OpStage → OpStage
unfolding read_op_id
read_op w s i x = record x {
  valid = s.valid i;
  flush = s.flush i;
  op_id = read_op_id w (s.op_id i);
}
