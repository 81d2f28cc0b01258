-- ===== src/Sim/Kanata/Quiet.antt =====
-- The entries of a cycle in which no operation commits: all but those of the commit stage.
use rsd_m.Sim.Kanata.Reader.{Entry}
use rsd_m.Sim.Debug.Read.{Macros}
use rsd_m.Sim.Kanata.Entries.{
  entry, gather, op_entry, np_entry, if_entry, pd_entry, id_entry, rn_entry, ds_entry,
  front_entries, schedule_entries, pipe_entries, step_entry, integer_entry, memory_entry,
  execute_entries, tag_entry, access_entry, commit_entry, entries_of,
}
use rsd_m.Sim.Debug.{OpStage, ExecutionStep, IssueQueue, DebugRegister}
use rsd_m.Sim.Kanata.{
  ks_np, ks_if, ks_pd, ks_id, ks_rn, ks_ds, ks_sc, ks_is, ks_rr, ks_ex, ks_ma, ks_mt, ks_rw, ks_cm,
}
use rsd_m.Base.{
  ℕ, suc, ◌+◌, ◌≡◌, refl, ◌∙◌, inl, inr, Bool, true, false, List, [], ◌∷◌, ◌++◌, arith, ◌==◌,
  if◌then◌else◌, Bool-cases,
}

-- The entries of a stage.
unfoldable pub count_stage : ℕ → List Entry → ℕ
count_stage k [] = 0
count_stage k (e ∷ es) = let more = count_stage k es in if e.stage == k then suc more else more

pub count_stage-append :
    (k : ℕ) (es fs : List Entry) → count_stage k (es ++ fs) ≡ count_stage k es + count_stage k fs
unfolding count_stage
count_stage-append k [] fs = omega arith
count_stage-append k (e ∷ es) fs = elim (Bool-cases (e.stage == k)) [
  | inl h ↦ rw h (omega (arith, count_stage-append k es fs))
  | inr h ↦ rw h (count_stage-append k es fs)
]

-- No operation commits in the entries.
abbrev IsQuiet : List Entry → Type 0
IsQuiet es = count_stage ks_cm es ≡ 0

entry-IsQuiet :
    (k : ℕ) (valid stall clear : Bool) (sid mid : ℕ)
    → (k == ks_cm) ≡ false
    → IsQuiet (entry k valid stall clear sid mid)
unfolding count_stage
entry-IsQuiet k true stall clear sid mid h = rw h refl
entry-IsQuiet k false stall clear sid mid h = refl

append-IsQuiet : (es fs : List Entry) → IsQuiet es → IsQuiet fs → IsQuiet (es ++ fs)
append-IsQuiet es fs h k = rw (count_stage-append ks_cm es fs, h, k) refl

gather-IsQuiet {ℓ} :
    {A : Type ℓ} (f : A → List Entry)
    → ((x : A) → IsQuiet (f x))
    → (xs : List A) → IsQuiet (gather f xs)
unfolding gather count_stage
gather-IsQuiet f h [] = refl
gather-IsQuiet f h (x ∷ xs) = append-IsQuiet (f x) (gather f xs) (h x) (gather-IsQuiet f h xs)

if-IsQuiet : (b : Bool) (es : List Entry) → IsQuiet es → IsQuiet (if b then es else [])
unfolding count_stage
if-IsQuiet true es h = h
if-IsQuiet false es h = refl

pipe-IsQuiet :
    (k : ℕ) (m : Macros) (stall : Bool) (int complex mem fp : List OpStage)
    → (k == ks_cm) ≡ false
    → IsQuiet (pipe_entries k m stall int complex mem fp)
unfolding pipe_entries
pipe-IsQuiet k m stall int complex mem fp h =
    let quiet : (xs : List OpStage) → IsQuiet (gather (op_entry k stall) xs) =
      gather-IsQuiet (op_entry k stall) (λ r. entry-IsQuiet k r.valid stall r.flush _ _ h) in
    append-IsQuiet _ _ (quiet int) (
      append-IsQuiet _ _ (quiet complex)
        (append-IsQuiet _ _ (quiet mem) (if-IsQuiet m.fp_pipe _ (quiet fp))))

schedule-IsQuiet :
    (stall : Bool) (vs : List Bool) (qs : List IssueQueue) → IsQuiet (schedule_entries stall vs qs)
unfolding schedule_entries count_stage
schedule-IsQuiet stall [] qs = refl
schedule-IsQuiet stall (v ∷ vs) [] = refl
schedule-IsQuiet stall (v ∷ vs) (q ∷ qs) =
    append-IsQuiet (entry ks_sc v stall q.flush q.op_id.sid q.op_id.mid)
      (schedule_entries stall vs qs)
      (entry-IsQuiet ks_sc v stall q.flush q.op_id.sid q.op_id.mid refl)
      (schedule-IsQuiet stall vs qs)

front-IsQuiet : (d : DebugRegister) → IsQuiet (front_entries d)
unfolding front_entries
front-IsQuiet d =
    append-IsQuiet _ _
      (gather-IsQuiet (np_entry d.np_stage_pipe_ctrl)
        (λ r. entry-IsQuiet ks_np r.valid _ _ r.sid 0 refl) d.np_reg)
      (append-IsQuiet _ _
        (gather-IsQuiet (if_entry d.if_stage_pipe_ctrl)
          (λ r. entry-IsQuiet ks_if r.valid _ _ r.sid 0 refl) d.if_reg)
        (append-IsQuiet _ _
          (gather-IsQuiet (pd_entry d.pd_stage_pipe_ctrl)
            (λ r. entry-IsQuiet ks_pd r.valid _ _ r.sid 0 refl) d.pd_reg)
          (append-IsQuiet _ _
            (gather-IsQuiet (id_entry d.id_stage_pipe_ctrl d.stall_by_decode_stage)
              (λ r. entry-IsQuiet ks_id r.valid _ _ r.op_id.sid r.op_id.mid refl) d.id_reg)
            (append-IsQuiet _ _
              (gather-IsQuiet (rn_entry d.rn_stage_pipe_ctrl)
                (λ r. entry-IsQuiet ks_rn r.valid _ _ r.op_id.sid r.op_id.mid refl) d.rn_reg)
              (gather-IsQuiet (ds_entry d.ds_stage_pipe_ctrl)
                (λ r. entry-IsQuiet ks_ds r.valid _ _ r.op_id.sid r.op_id.mid refl) d.ds_reg)))))

execute-IsQuiet : (m : Macros) (d : DebugRegister) → IsQuiet (execute_entries m d)
unfolding execute_entries
execute-IsQuiet m d =
    let stall = d.back_end_pipe_ctrl.stall in
    let steps : (flush : Bool) (ss : List ExecutionStep)
        → IsQuiet (gather (step_entry stall flush) ss) =
      λ flush.
        gather-IsQuiet (step_entry stall flush)
          (λ s. entry-IsQuiet ks_ex s.valid stall flush s.op_id.sid s.op_id.mid refl) in
    append-IsQuiet _ _
      (gather-IsQuiet (integer_entry stall)
        (λ r. entry-IsQuiet ks_ex r.valid stall r.flush r.op_id.sid r.op_id.mid refl) d.int_ex_reg)
      (append-IsQuiet _ _
        (gather-IsQuiet (λ r. gather (step_entry stall r.flush) r.steps)
          (λ r. steps r.flush r.steps) d.complex_ex_reg)
        (append-IsQuiet _ _
          (gather-IsQuiet (memory_entry stall)
            (λ r. entry-IsQuiet ks_ex r.valid stall r.flush r.op_id.sid r.op_id.mid refl)
            d.mem_ex_reg)
          (if-IsQuiet m.fp_pipe _ (
            gather-IsQuiet (λ r. gather (step_entry stall r.flush) r.steps)
              (λ r. steps r.flush r.steps) d.fp_ex_reg))))

skip-quiet : (es fs : List Entry) → IsQuiet es → count_stage ks_cm (es ++ fs) ≡ count_stage ks_cm fs
skip-quiet es fs h = omega (arith, count_stage-append ks_cm es fs, h)

-- Only the commit stage of a cycle commits.
pub count-entries :
    (m : Macros) (d : DebugRegister)
    → count_stage ks_cm (entries_of m d) ≡ count_stage ks_cm (gather commit_entry d.cm_reg)
unfolding entries_of
count-entries m d =
    let stall = d.back_end_pipe_ctrl.stall in
    let is = pipe_entries ks_is m stall d.int_is_reg d.complex_is_reg d.mem_is_reg d.fp_is_reg in
    let rr = pipe_entries ks_rr m stall d.int_rr_reg d.complex_rr_reg d.mem_rr_reg d.fp_rr_reg in
    let rw' = pipe_entries ks_rw m stall d.int_rw_reg d.complex_rw_reg d.mem_rw_reg d.fp_rw_reg in
    let mt = gather (tag_entry stall) d.mt_reg in
    let ma = gather (access_entry stall) d.ma_reg in
    let cm = gather commit_entry d.cm_reg in
    let ex = execute_entries m d in
    let sc = schedule_entries stall d.scheduler d.issue_queue in
    skip-quiet (front_entries d) (sc ++ (is ++ (rr ++ (ex ++ (mt ++ (ma ++ (rw' ++ cm)))))))
      (front-IsQuiet d)
    ∙ skip-quiet sc (is ++ (rr ++ (ex ++ (mt ++ (ma ++ (rw' ++ cm))))))
        (schedule-IsQuiet stall d.scheduler d.issue_queue)
    ∙ skip-quiet is (rr ++ (ex ++ (mt ++ (ma ++ (rw' ++ cm)))))
        (pipe-IsQuiet ks_is m stall d.int_is_reg d.complex_is_reg d.mem_is_reg d.fp_is_reg refl)
    ∙ skip-quiet rr (ex ++ (mt ++ (ma ++ (rw' ++ cm))))
        (pipe-IsQuiet ks_rr m stall d.int_rr_reg d.complex_rr_reg d.mem_rr_reg d.fp_rr_reg refl)
    ∙ skip-quiet ex (mt ++ (ma ++ (rw' ++ cm))) (execute-IsQuiet m d)
    ∙ skip-quiet mt (ma ++ (rw' ++ cm)) (
        gather-IsQuiet (tag_entry stall)
          (λ r. entry-IsQuiet ks_mt r.valid stall r.flush r.op_id.sid r.op_id.mid refl) d.mt_reg)
    ∙ skip-quiet ma (rw' ++ cm) (
        gather-IsQuiet (access_entry stall)
          (λ r. entry-IsQuiet ks_ma r.valid stall r.flush r.op_id.sid r.op_id.mid refl) d.ma_reg)
    ∙ skip-quiet rw' cm
        (pipe-IsQuiet ks_rw m stall d.int_rw_reg d.complex_rw_reg d.mem_rw_reg d.fp_rw_reg refl)
