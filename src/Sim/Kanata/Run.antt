-- ===== src/Sim/Kanata/Run.antt =====
-- The log along the main loop of the test bench, whose counter it is compared with.
use rsd_m.Sim.Kanata.Retired.{slot_of, total_micro, total_lost, count_stage-read_log}
use rsd_m.Sim.Kanata.Quiet.{count_stage}
use rsd_m.Sim.Kanata.Log.{dump_cycles}
use rsd_m.Sim.Kanata.Reader.{read_log}
use rsd_m.Sim.Kanata.{KanataDumper, ks_cm, open_log}
use rsd_m.Sim.Debug.Read.{Macros}
use rsd_m.Sim.Debug.{DebugRegister}
use rsd_m.Sim.Loop.{
  Model, Limits, Run, Next, go_on, stop, round, edge, clocked, finish_round, toggle, start_run,
  at_goal,
}
use rsd_m.Base.{
  ℕ, ◌+◌, ◌≡◌, refl, sym, ◌∙◌, inl, inr, true, ◌&&◌, some, List, [], ◌∷◌, ◌++◌, arith, leb,
  if◌then◌else◌, Bool-cases, map,
}

total_micro-append :
    (ds es : List DebugRegister) → total_micro (ds ++ es) ≡ total_micro ds + total_micro es
unfolding total_micro
total_micro-append [] es = omega arith
total_micro-append (d ∷ ds) es = omega (arith, total_micro-append ds es)

module _ {Top : Type 0} where
  -- The debug register that a round of the loop dumps, if it does: behind a rising edge, out of
  -- reset. `reg` is what the verilated core shows of it.
  unfoldable pub dumped_in : Model Top → (Top → DebugRegister) → Run Top → List DebugRegister
  unfolding toggle
  dumped_in m reg r =
      let t = toggle m r in
      if m.finished r.top then [] else if t.clk && t.start then reg t.top ∷ [] else []

  -- The rounds from a state on, with all that they have dumped.
  pub data Logged (m : Model Top) (l : Limits) (reg : Top → DebugRegister) (r : Run Top)
      : List DebugRegister → Next Top → Type 0 where
    first : Logged m l reg r [] (go_on r)
    more :
        (ds : List DebugRegister) (a : Run Top)
        → Logged m l reg r ds (go_on a)
        → Logged m l reg r (ds ++ dumped_in m reg a) (round m l a)

  -- `numCommittedMicroOp`, whether the loop goes on or has ended.
  abbrev pub micro_of : Next Top → ℕ
  micro_of (go_on r) = r.micro_ops
  micro_of (stop r) = r.micro_ops

  finish_round-micro_of :
      (m : Model Top) (l : Limits) (r : Run Top) → micro_of (finish_round m l r) ≡ r.micro_ops
  unfolding finish_round
  finish_round-micro_of m l r = elim (Bool-cases (leb l.max_cycles r.cycles)) [
    | inl e ↦ rw (e, finish_round) refl
    | inr e ↦ rw (e, finish_round) refl
  ]

  -- The slots that the loop counts are those of the debug register.
  abbrev pub ShowsSlots : Model Top → (Top → DebugRegister) → Type 0
  ShowsSlots m reg = (t : Top) → m.slots t ≡ map slot_of (reg t).cm_reg

  edge-micro_of :
      (m : Model Top) (l : Limits) (reg : Top → DebugRegister) (t : Run Top)
      → ShowsSlots m reg
      → micro_of (edge m l t)
        ≡ t.micro_ops + total_micro (if t.clk && t.start then reg t.top ∷ [] else [])
  unfolding edge clocked total_micro
  edge-micro_of m l reg t h =
      let c = clocked m l t in
      let counted : c.micro_ops ≡ t.micro_ops + total_micro (reg t.top ∷ []) =
        rw (h t.top) (omega arith) in
      elim (Bool-cases (t.clk && t.start)) [
        | inr e ↦
            let same : t.micro_ops ≡ t.micro_ops + 0 = omega arith in
            rw (e, edge) (finish_round-micro_of m l t ∙ same)
        | inl e ↦ elim (Bool-cases (at_goal l.pc_goal (m.led t.top))) [
          | inl g ↦ rw (e, g, edge) counted
          | inr g ↦ rw (e, g, edge) (finish_round-micro_of m l c ∙ counted)
        ]
      ]

  round-micro_of :
      (m : Model Top) (l : Limits) (reg : Top → DebugRegister) (r : Run Top)
      → ShowsSlots m reg
      → micro_of (round m l r) ≡ r.micro_ops + total_micro (dumped_in m reg r)
  unfolding round dumped_in toggle total_micro
  round-micro_of m l reg r h = elim (Bool-cases (m.finished r.top)) [
    | inl e ↦ let same : r.micro_ops ≡ r.micro_ops + 0 = omega arith in rw (e, round) same
    | inr e ↦ rw (e, round) (edge-micro_of m l reg (toggle m r) h)
  ]

  Logged-total_micro :
      (m : Model Top) (l : Limits) (reg : Top → DebugRegister) (t : Top) (ds : List DebugRegister)
      (n : Next Top)
      → ShowsSlots m reg
      → Logged m l reg (start_run m t) ds n
      → micro_of n ≡ total_micro ds
  unfolding total_micro
  Logged-total_micro m l reg t ds n h first = refl
  Logged-total_micro m l reg t ds n h (more es a path) =
      let before : a.micro_ops ≡ total_micro es =
        Logged-total_micro m l reg t es (go_on a) h path in
      omega (arith, before, round-micro_of m l reg a h, total_micro-append es (dumped_in m reg a))

  -- Wherever the main loop has got to from its start, its counter of micro-ops is the number of
  -- operations that its log shows as committed, and of those that commit in a slot that is flushed
  -- at the same time; for a model whose slots are those of its debug register.
  pub count_stage-Logged :
      (c : Macros) (csr_type : ℕ) (m : Model Top) (l : Limits) (reg : Top → DebugRegister) (t : Top)
      (ds : List DebugRegister) (n : Next Top) (k : KanataDumper)
      → ShowsSlots m reg
      → open_log true ≡ some k
      → Logged m l reg (start_run m t) ds n
      → count_stage ks_cm (read_log (dump_cycles c csr_type ds k).file) + total_lost ds ≡ micro_of n
  count_stage-Logged c csr_type m l reg t ds n k h hk path =
      count_stage-read_log c csr_type ds k hk ∙ sym (Logged-total_micro m l reg t ds n h path)
