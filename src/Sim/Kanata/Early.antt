-- ===== src/Sim/Kanata/Early.antt =====
-- The log up to dispatch, and that of the stages without comments, read back.
use rsd_m.Sim.Kanata.Comments.{
  plain-fetch, plain-pre_decode, plain-decode_comment, plain-dispatch_comment,
}
use mathlib.Core.Path.{subst}
use mathlib.Core.List.{append_assoc}
use rsd_m.Sim.Kanata.Recovered.{Shows-stage, Shows-code}
use rsd_m.Sim.Kanata.Shows.{Shows, Shows-if, Shows-nil, Shows-append, Shows-each}
use rsd_m.Sim.Kanata.Printed.{plain-bin2str}
use rsd_m.Sim.Kanata.Reader.{Entry}
use rsd_m.Sim.Debug.Read.{Macros}
use rsd_m.Sim.Dump.{bin2str}
use rsd_m.Base.Text.{Text, codes}
use rsd_m.Sim.Kanata.Back.{
  dump_schedule, dump_op, dump_issue, dump_register_read, dump_register_write,
}
use rsd_m.Sim.Kanata.Front.{
  dump_next_pc, dump_fetch, dump_pre_decode, dump_decode, dump_code, dump_rename, dump_dispatch,
  dump_front,
}
use rsd_m.Sim.Kanata.Entries.{
  gather, op_entry, np_entry, if_entry, pd_entry, id_entry, rn_entry, ds_entry, front_entries,
  schedule_entries, pipe_entries,
}
use rsd_m.Sim.Debug.{
  PipelineControll, PreDecodeStage, DecodeStage, OpStage, IssueQueue, DebugRegister,
}
use rsd_m.Sim.Kanata.{ks_np, ks_if, ks_pd, ks_id, ks_rn, ks_ds, ks_sc, ks_is, ks_rr, ks_rw, each}
use rsd_m.Base.{
  ℕ, ◌^◌, ◌<◌, refl, sym, inl, inr, Bool, false, List, [], ◌∷◌, ◌++◌, arith, if◌then◌else◌,
  Bool-cases,
}

Shows-op :
    (k : ℕ) (stall : Bool) (r : OpStage)
    → k < 2 ^ 32
    → Shows (op_entry k stall r) (dump_op k stall r)
unfolding dump_op
Shows-op k stall r h = Shows-stage k r.valid stall r.flush r.op_id.sid r.op_id.mid [] h refl

Shows-ops :
    (k : ℕ) (m : Macros) (stall : Bool) (int complex mem fp : List OpStage)
    → k < 2 ^ 32
    → Shows (pipe_entries k m stall int complex mem fp) (
        each (dump_op k stall) int
        ++ (each (dump_op k stall) complex
            ++ (each (dump_op k stall) mem
                ++ (if m.fp_pipe then each (dump_op k stall) fp else []))))
unfolding pipe_entries
Shows-ops k m stall int complex mem fp h =
    let ops : (xs : List OpStage)
        → Shows (gather (op_entry k stall) xs) (each (dump_op k stall) xs) =
      Shows-each (op_entry k stall) (dump_op k stall) (λ r. Shows-op k stall r h) in
    Shows-append _ _ _ _ (ops int) (
      Shows-append _ _ _ _ (ops complex)
        (Shows-append _ _ _ _ (ops mem) (Shows-if m.fp_pipe _ _ (ops fp))))

pub Shows-schedule :
    (stall : Bool) (vs : List Bool) (qs : List IssueQueue)
    → Shows (schedule_entries stall vs qs) (dump_schedule stall vs qs)
unfolding schedule_entries dump_schedule
Shows-schedule stall [] qs = Shows-nil
Shows-schedule stall (v ∷ vs) [] = Shows-nil
Shows-schedule stall (v ∷ vs) (q ∷ qs) =
    Shows-append _ _ _ _
      (Shows-stage ks_sc v stall q.flush q.op_id.sid q.op_id.mid [] (omega arith) refl)
      (Shows-schedule stall vs qs)

Shows-pre_decode :
    (m : Macros) (p : PipelineControll) (r : PreDecodeStage)
    → Shows (pd_entry p r) (dump_pre_decode m p r)
unfolding dump_pre_decode
Shows-pre_decode m p r = elim (Bool-cases m.functional_simulation) [
  | inl e ↦
      let alu = bin2str r.alu_code 4 false in
      let op = bin2str r.op_type 3 false in
      rw e (
        Shows-stage ks_pd r.valid p.stall p.clear r.sid 0
          (codes "optype:0b" ++ (op ++ (codes " ALU-code:0b" ++ (alu ++ codes "\\n"))))
          (omega arith)
          (plain-pre_decode op alu (plain-bin2str r.op_type 3 false)
            (plain-bin2str r.alu_code 4 false)))
  | inr e ↦ rw e (Shows-stage ks_pd r.valid p.stall p.clear r.sid 0 [] (omega arith) refl)
]

-- The codes of the decoded instructions, in front of a text.
Shows-codes :
    (rs : List DecodeStage) (es : List Entry) (t : Text)
    → Shows es t
    → Shows es (each dump_code rs ++ t)
unfolding each
Shows-codes [] es t h = h
Shows-codes (r ∷ rs) es t h =
    subst (λ u. Shows es u) (sym (append_assoc (dump_code r) (each dump_code rs) t))
      (Shows-append [] es (dump_code r) (each dump_code rs ++ t) (Shows-code r)
        (Shows-codes rs es t h))

pub Shows-front : (m : Macros) (d : DebugRegister) → Shows (front_entries d) (dump_front m d)
unfolding front_entries dump_front dump_next_pc dump_fetch dump_decode dump_rename dump_dispatch
Shows-front m d =
    Shows-append _ _ _ _
      (Shows-each (np_entry d.np_stage_pipe_ctrl) (dump_next_pc d.np_stage_pipe_ctrl)
        (λ r. Shows-stage ks_np _ _ _ _ 0 [] (omega arith) refl) d.np_reg)
      (Shows-append _ _ _ _
        (Shows-each (if_entry d.if_stage_pipe_ctrl) (dump_fetch d.if_stage_pipe_ctrl)
          (λ r.
            Shows-stage ks_if _ _ _ _ 0 (if r.ic_miss then codes "i-cache-miss\\n" else [])
              (omega arith) (plain-fetch r.ic_miss))
          d.if_reg)
        (Shows-append _ _ _ _
          (Shows-each (pd_entry d.pd_stage_pipe_ctrl) (dump_pre_decode m d.pd_stage_pipe_ctrl)
            (Shows-pre_decode m d.pd_stage_pipe_ctrl) d.pd_reg)
          (Shows-append _ _ _ _
            (Shows-each (id_entry d.id_stage_pipe_ctrl d.stall_by_decode_stage)
              (dump_decode d.id_stage_pipe_ctrl d.stall_by_decode_stage)
              (λ r. Shows-stage ks_id _ _ _ _ _ _ (omega arith) (plain-decode_comment r)) d.id_reg)
            (Shows-codes d.id_reg _ _ (
              Shows-append _ _ _ _
                (Shows-each (rn_entry d.rn_stage_pipe_ctrl) (dump_rename d.rn_stage_pipe_ctrl)
                  (λ r. Shows-stage ks_rn _ _ _ _ _ [] (omega arith) refl) d.rn_reg)
                (Shows-each (ds_entry d.ds_stage_pipe_ctrl) (dump_dispatch m d.ds_stage_pipe_ctrl)
                  (λ r. Shows-stage ks_ds _ _ _ _ _ _ (omega arith) (plain-dispatch_comment m r))
                  d.ds_reg))))))

module _ (m : Macros) (d : DebugRegister) where
  abbrev stall : Bool
  stall = d.back_end_pipe_ctrl.stall

  pub Shows-issue :
      Shows
        (pipe_entries ks_is m stall d.int_is_reg d.complex_is_reg d.mem_is_reg d.fp_is_reg)
        (dump_issue m d)
  unfolding dump_issue
  Shows-issue =
      Shows-ops ks_is m stall d.int_is_reg d.complex_is_reg d.mem_is_reg d.fp_is_reg (omega arith)

  pub Shows-register_read :
      Shows
        (pipe_entries ks_rr m stall d.int_rr_reg d.complex_rr_reg d.mem_rr_reg d.fp_rr_reg)
        (dump_register_read m d)
  unfolding dump_register_read
  Shows-register_read =
      Shows-ops ks_rr m stall d.int_rr_reg d.complex_rr_reg d.mem_rr_reg d.fp_rr_reg (omega arith)

  pub Shows-register_write :
      Shows
        (pipe_entries ks_rw m stall d.int_rw_reg d.complex_rw_reg d.mem_rw_reg d.fp_rw_reg)
        (dump_register_write m d)
  unfolding dump_register_write
  Shows-register_write =
      Shows-ops ks_rw m stall d.int_rw_reg d.complex_rw_reg d.mem_rw_reg d.fp_rw_reg (omega arith)
