-- ===== src/Sim/Kanata/Log.antt =====
-- A cycle of the log, and a log of many cycles, read back.
use rsd_m.Sim.Load.{split_lines}
use rsd_m.Sim.Kanata.Comments.{
  plain-integer_comment, plain-complex_comment, plain-memory_comment, plain-fp_comment,
  plain-tag_comment, plain-access_comment, plain-release_comment,
}
use mathlib.Core.Path.{subst}
use mathlib.Core.List.{append_assoc, append-nil}
use rsd_m.Sim.Kanata.Early.{
  Shows-front, Shows-schedule, Shows-issue, Shows-register_read, Shows-register_write,
}
use rsd_m.Sim.Kanata.Recovered.{Shows-stage, Shows-cycle}
use rsd_m.Sim.Kanata.Shows.{Shows, Shows-if, Shows-nil, Shows-append, Shows-each}
use rsd_m.Sim.Kanata.Printed.{plain}
use rsd_m.Sim.Kanata.Reader.{Entry, read_log}
use rsd_m.Sim.Debug.Read.{Macros}
use rsd_m.Base.Text.{Text}
use rsd_m.Sim.Kanata.Cycle.{cycle_text, dump_cycle}
use rsd_m.Sim.Kanata.Commit.{release_comment, dump_commit}
use rsd_m.Sim.Kanata.Memory.{dump_tag_access, dump_memory_access}
use rsd_m.Sim.Kanata.Execute.{
  dump_integer, dump_step, dump_steps, complex_comment, dump_complex, dump_memory_execution,
  fp_comment, dump_fp, dump_execute,
}
use rsd_m.Sim.Kanata.Entries.{
  gather, step_entry, integer_entry, memory_entry, execute_entries, tag_entry, access_entry,
  commit_entry, entries_of,
}
use rsd_m.Sim.Debug.{ExecutionStep, CommitStage, DebugRegister}
use rsd_m.Sim.Kanata.{ks_ex, ks_ma, ks_mt, ks_wc, ks_cm, proceed_cycle, open_log, KanataDumper}
use rsd_m.Base.{
  ℕ, ◌≡◌, refl, sym, ap, ◌∙◌, inl, inr, Bool, true, false, Option, none, some, List, [], ◌∷◌, ◌++◌,
  arith, Bool-cases,
}

Shows-steps :
    (stall flush : Bool) (str : Text) (ss : List ExecutionStep)
    → plain str ≡ true
    → Shows (gather (step_entry stall flush) ss) (dump_steps stall flush str ss)
unfolding dump_steps dump_step gather
Shows-steps stall flush str [] h = Shows-nil
Shows-steps stall flush str (s ∷ ss) h =
    Shows-append _ _ _ _
      (Shows-stage ks_ex s.valid stall flush s.op_id.sid s.op_id.mid str (omega arith) h)
      (Shows-each (step_entry stall flush) (dump_step stall flush [])
        (λ t. Shows-stage ks_ex t.valid stall flush t.op_id.sid t.op_id.mid [] (omega arith) refl)
        ss)

Shows-execute :
    (m : Macros) (csr_type : ℕ) (d : DebugRegister)
    → Shows (execute_entries m d) (dump_execute m csr_type d)
unfolding execute_entries dump_execute dump_integer dump_complex dump_memory_execution dump_fp
Shows-execute m csr_type d =
    let stall = d.back_end_pipe_ctrl.stall in
    Shows-append _ _ _ _
      (Shows-each (integer_entry stall) (dump_integer m stall)
        (λ r. Shows-stage ks_ex _ _ _ _ _ _ (omega arith) (plain-integer_comment m r)) d.int_ex_reg)
      (Shows-append _ _ _ _
        (Shows-each (λ r. gather (step_entry stall r.flush) r.steps) (dump_complex m stall)
          (λ r. Shows-steps stall r.flush (complex_comment m r) r.steps (plain-complex_comment m r))
          d.complex_ex_reg)
        (Shows-append _ _ _ _
          (Shows-each (memory_entry stall) (dump_memory_execution m csr_type stall)
            (λ r. Shows-stage ks_ex _ _ _ _ _ _ (omega arith) (plain-memory_comment m csr_type r))
            d.mem_ex_reg)
          (Shows-if m.fp_pipe _ _ (
            Shows-each (λ r. gather (step_entry stall r.flush) r.steps) (dump_fp m stall)
              (λ r. Shows-steps stall r.flush (fp_comment m r) r.steps (plain-fp_comment m r))
              d.fp_ex_reg))))

Shows-commit : (m : Macros) (r : CommitStage) → Shows (commit_entry r) (dump_commit m r)
unfolding dump_commit
Shows-commit m r = elim (Bool-cases r.flush) [
  | inl e ↦ rw e (
      Shows-stage ks_wc true false true r.op_id.sid r.op_id.mid (release_comment m r) (omega arith)
        (plain-release_comment m r))
  | inr e ↦ elim (Bool-cases r.commit) [
    | inl f ↦
        rw (e, f)
          (Shows-stage ks_cm true false false r.op_id.sid r.op_id.mid (release_comment m r)
            (omega arith) (plain-release_comment m r))
    | inr f ↦ rw (e, f) Shows-nil
  ]
]

Shows-cycle_text :
    (m : Macros) (csr_type cycle : ℕ) (d : DebugRegister)
    → Shows (entries_of m d) (cycle_text m csr_type cycle d)
unfolding entries_of cycle_text dump_tag_access dump_memory_access
Shows-cycle_text m csr_type cycle d =
    let stall = d.back_end_pipe_ctrl.stall in
    Shows-append [] _ (proceed_cycle cycle) _ (Shows-cycle cycle) (
      Shows-append _ _ _ _ (Shows-front m d) (
        Shows-append _ _ _ _ (Shows-schedule stall d.scheduler d.issue_queue) (
          Shows-append _ _ _ _ (Shows-issue m d) (
            Shows-append _ _ _ _ (Shows-register_read m d) (
              Shows-append _ _ _ _ (Shows-execute m csr_type d) (
                Shows-append _ _ _ _
                  (Shows-each (tag_entry stall) (dump_tag_access m stall)
                    (λ r. Shows-stage ks_mt _ _ _ _ _ _ (omega arith) (plain-tag_comment m r))
                    d.mt_reg)
                  (Shows-append _ _ _ _
                    (Shows-each (access_entry stall) (dump_memory_access m stall)
                      (λ r. Shows-stage ks_ma _ _ _ _ _ _ (omega arith) (plain-access_comment m r))
                      d.ma_reg)
                    (Shows-append _ _ _ _ (Shows-register_write m d)
                      (Shows-each commit_entry (dump_commit m) (Shows-commit m) d.cm_reg)))))))))

-- The cycles of a run, one after the other.
unfoldable pub dump_cycles : Macros → ℕ → List DebugRegister → KanataDumper → KanataDumper
unfolding dump_cycle
dump_cycles m csr_type [] k = k
dump_cycles m csr_type (d ∷ ds) k = dump_cycles m csr_type ds (dump_cycle m csr_type d k)

-- A file whose entries are `es`, whatever is written behind it.
Shows-cycles :
    (m : Macros) (csr_type : ℕ) (ds : List DebugRegister) (es : List Entry) (k : KanataDumper)
    → Shows es k.file
    → Shows (es ++ gather (entries_of m) ds) (dump_cycles m csr_type ds k).file
unfolding dump_cycles dump_cycle gather
Shows-cycles m csr_type [] es k h = rw append-nil h
Shows-cycles m csr_type (d ∷ ds) es k h =
    subst (λ fs. Shows fs (dump_cycles m csr_type (d ∷ ds) k).file)
      (append_assoc es (entries_of m d) (gather (entries_of m) ds))
      (Shows-cycles m csr_type ds (es ++ entries_of m d) (dump_cycle m csr_type d k) (
        Shows-append es (entries_of m d) k.file (cycle_text m csr_type k.cycles d) h
          (Shows-cycle_text m csr_type k.cycles d)))

abbrev ShowsNone : Option KanataDumper → Type 0
ShowsNone none = Unit {0}
ShowsNone (some k) = Shows [] k.file

Shows-header : ShowsNone (open_log true)
unfolding open_log read_log split_lines
Shows-header = record { reads = λ rest. refl }

-- The log of a run, read back line by line, shows the operations that the debug register held in
-- the stages of the pipeline, cycle after cycle and in the order of the stages, each with its stall
-- and clear signals and its numbers as 32-bit patterns; whatever the comments are.
pub read_log-dump_cycles :
    (m : Macros) (csr_type : ℕ) (ds : List DebugRegister) (k : KanataDumper)
    → open_log true ≡ some k
    → read_log (dump_cycles m csr_type ds k).file ≡ gather (entries_of m) ds
unfolding read_log
read_log-dump_cycles m csr_type ds k h =
    let start : Shows [] k.file = subst ShowsNone h Shows-header in
    let log = (dump_cycles m csr_type ds k).file in
    ap read_log (sym (append-nil log))
    ∙ (Shows-cycles m csr_type ds [] k start).reads []
    ∙ append-nil (gather (entries_of m) ds)
