-- ===== src/Sim/Counts.antt =====
-- The counters of the test bench along its rounds.
use mathlib.Core.List.{append-nil}
use mathlib.Core.Path.{subst}
use rsd_m.Base.Lists.{length, length-append}
use rsd_m.Sim.Loop.{
  go_on, stop, round, Limits, Model, Run, Next, Slot, finish_round, start_run, toggle, count_insns,
  clocked, edge, at_goal, count_micro,
}
use rsd_m.Base.{
  ℕ, suc, ◌≡◌, ◌≤◌, ◌<◌, ◌^◌, ◌*◌, ◌+◌, [], ◌∷◌, ◌++◌, List, arith, ◌&&◌, ◌==◌, leb, inl, inr, Bool,
  Bool-cases, false, refl, ap, sym, if◌then◌else◌, gt→leb,
}

-- The slots that pass a test.
unfoldable pub keep : (Slot → Bool) → List Slot → List Slot
keep f [] = []
keep f (s ∷ ss) = if f s then s ∷ keep f ss else keep f ss

abbrev pub commits : Slot → Bool
commits s = s.commit

-- An instruction is committed by its first micro-op.
abbrev pub starts_insn : Slot → Bool
starts_insn s = s.commit && s.micro == 0

length-keep-append :
    (f : Slot → Bool) (a b : List Slot)
    → length (keep f (a ++ b)) ≡ length (keep f a) + length (keep f b)
unfolding keep
length-keep-append f [] b = omega arith
length-keep-append f (s ∷ a) b = elim (Bool-cases (f s)) [
  | inl e ↦ rw (e, keep) (omega (arith, length-keep-append f a b))
  | inr e ↦ rw (e, keep) (length-keep-append f a b)
]

count_micro-keep : (ss : List Slot) → count_micro ss ≡ length (keep commits ss)
unfolding count_micro keep
count_micro-keep [] = refl
count_micro-keep (s ∷ ss) = elim (Bool-cases s.commit) [
  | inl e ↦ rw (e, keep) (ap suc (count_micro-keep ss))
  | inr e ↦ rw (e, keep) (count_micro-keep ss)
]

count_insns-keep : (ss : List Slot) → count_insns ss ≡ length (keep starts_insn ss)
unfolding count_insns keep
count_insns-keep [] = refl
count_insns-keep (s ∷ ss) = elim (Bool-cases (s.commit && s.micro == 0)) [
  | inl e ↦ rw (e, keep) (ap suc (count_insns-keep ss))
  | inr e ↦ rw (e, keep) (count_insns-keep ss)
]

keep-bounds :
    (ss : List Slot)
    → (length (keep starts_insn ss) ≤ length (keep commits ss))
      × (length (keep commits ss) ≤ length ss)
unfolding keep
keep-bounds [] = (omega arith, omega arith)
keep-bounds (s ∷ ss) =
    let (a, b) = keep-bounds ss in
    elim (Bool-cases s.commit) [
      | inr e ↦ rw (e, keep) (a, omega (arith, b))
      | inl e ↦ elim (Bool-cases (s.micro == 0)) [
        | inl f ↦ rw (e, f, keep) (omega (arith, a), omega (arith, b))
        | inr f ↦ rw (e, f, keep) (omega (arith, a), omega (arith, b))
      ]
    ]

module _ {Top : Type 0} where
  -- The slots that a round looks at: behind a rising edge, out of reset.
  unfoldable pub slots_in : Model Top → Run Top → List Slot
  unfolding toggle
  slots_in m r =
      let t = toggle m r in
      if m.finished r.top then [] else if t.clk && t.start then m.slots t.top else []

  -- The states that the loop goes through, with all the slots that it has looked at.
  pub data Reaches (m : Model Top) (l : Limits) (r : Run Top) : List Slot → Run Top → Type 0 where
    here : Reaches m l r [] r
    next :
        (ss : List Slot) (a b : Run Top)
        → Reaches m l r ss a
        → round m l a ≡ go_on b
        → Reaches m l r (ss ++ slots_in m a) b

  -- The counters are the numbers of committed micro-ops and of committed first micro-ops among
  -- the slots, which are no more than the cycles have; they fit an `int` as long as that does.
  pub record IsConsistent (width : ℕ) (ss : List Slot) (r : Run Top) : Type 0 where
    pub micro_ops : r.micro_ops ≡ length (keep commits ss)
    pub insns : r.insns ≡ length (keep starts_insn ss)
    pub slots : length ss ≤ width * r.cycles
    pub defined : width * r.cycles < 2 ^ 31 → r.overflow ≡ false

  abbrev Holds : ℕ → List Slot → Next Top → Type 0
  Holds width ss (go_on r) = IsConsistent width ss r
  Holds width ss (stop r) = IsConsistent width ss r

  finish_round-Holds :
      (width : ℕ) (m : Model Top) (l : Limits) (ss : List Slot) (r : Run Top)
      → IsConsistent width ss r
      → Holds width ss (finish_round m l r)
  unfolding finish_round
  finish_round-Holds width m l ss r h = elim (Bool-cases (leb l.max_cycles r.cycles)) [
    | inl e ↦
        rw (e, finish_round)
          (record {
            micro_ops = h.micro_ops;
            insns = h.insns;
            slots = h.slots;
            defined = h.defined;
          })
    | inr e ↦
        rw (e, finish_round)
          (record {
            micro_ops = h.micro_ops;
            insns = h.insns;
            slots = h.slots;
            defined = h.defined;
          })
  ]

  clocked-IsConsistent :
      (width : ℕ) (m : Model Top) (l : Limits) (ss : List Slot) (r : Run Top)
      → ((t : Top) → length (m.slots t) ≤ width)
      → IsConsistent width ss r
      → IsConsistent width (ss ++ m.slots r.top) (clocked m l r)
  unfolding clocked
  clocked-IsConsistent width m l ss r hw h =
      let new = m.slots r.top in
      let more : width * suc r.cycles ≡ width * r.cycles + width = grind arith in
      let all = length-append ss new in
      let fits = hw r.top in
      let micro : r.micro_ops + count_micro new ≡ length (keep commits (ss ++ new)) =
        omega (arith, h.micro_ops, count_micro-keep new, length-keep-append commits ss new) in
      let starts : r.insns + count_insns new ≡ length (keep starts_insn (ss ++ new)) =
        omega (arith, h.insns, count_insns-keep new, length-keep-append starts_insn ss new) in
      let (fewer, within) = keep-bounds (ss ++ new) in
      record {
        micro_ops = micro;
        insns = starts;
        slots = omega (arith, h.slots, all, fits, more);
        defined = λ k.
            let small : r.micro_ops + count_micro new < 2 ^ 31 =
              omega (arith, h.slots, all, fits, more, micro, within, k) in
            let low : leb (2 ^ 31) (r.micro_ops + count_micro new) ≡ false =
              gt→leb (2 ^ 31) (r.micro_ops + count_micro new) small in
            let low' : leb (2 ^ 31) (r.insns + count_insns new) ≡ false =
              gt→leb (2 ^ 31) (r.insns + count_insns new)
                (omega (arith, starts, fewer, micro, small)) in
            rw (h.defined (omega (arith, more, k)), low, low');
      }

  edge-Holds :
      (width : ℕ) (m : Model Top) (l : Limits) (ss : List Slot) (r : Run Top)
      → ((t : Top) → length (m.slots t) ≤ width)
      → IsConsistent width ss r
      → Holds width (ss ++ (if r.clk && r.start then m.slots r.top else [])) (edge m l r)
  unfolding edge
  edge-Holds width m l ss r hw h = elim (Bool-cases (r.clk && r.start)) [
    | inr e ↦
        rw (e, edge)
          (subst (λ k. Holds width k (finish_round m l r)) (sym (append-nil ss))
            (finish_round-Holds width m l ss r h))
    | inl e ↦ elim (Bool-cases (at_goal l.pc_goal (m.led r.top))) [
      | inl g ↦ rw (e, g, edge) (clocked-IsConsistent width m l ss r hw h)
      | inr g ↦
          rw (e, g, edge)
            (finish_round-Holds width m l (ss ++ m.slots r.top) (clocked m l r)
              (clocked-IsConsistent width m l ss r hw h))
    ]
  ]

  round-Holds :
      (width : ℕ) (m : Model Top) (l : Limits) (ss : List Slot) (r : Run Top)
      → ((t : Top) → length (m.slots t) ≤ width)
      → IsConsistent width ss r
      → Holds width (ss ++ slots_in m r) (round m l r)
  unfolding round toggle slots_in
  round-Holds width m l ss r hw h = elim (Bool-cases (m.finished r.top)) [
    | inl e ↦ rw (e, round) (subst (λ k. IsConsistent width k r) (sym (append-nil ss)) h)
    | inr e ↦
        rw (e, round)
          (edge-Holds width m l ss (toggle m r) hw (record {
            micro_ops = h.micro_ops;
            insns = h.insns;
            slots = h.slots;
            defined = h.defined;
          }))
  ]

  -- Along the rounds from the start of the simulation, the counter of micro-ops is the number of
  -- slots that commit among those of all cycles so far, that of instructions the number of these
  -- that hold the first micro-op of an instruction, and no `int` has overflowed while the cycles
  -- times the width of the commit stage are below 2^31; for a model with so many slots at most.
  pub Reaches-IsConsistent :
      (width : ℕ) (m : Model Top) (l : Limits) (t : Top) (ss : List Slot) (r : Run Top)
      → ((u : Top) → length (m.slots u) ≤ width)
      → Reaches m l (start_run m t) ss r
      → IsConsistent width ss r
  unfolding keep
  Reaches-IsConsistent width m l t ss r hw here = record {
    micro_ops = refl;
    insns = refl;
    slots = omega arith;
    defined = λ k. refl;
  }
  Reaches-IsConsistent width m l t ss r hw (next old a b path e) =
      subst (Holds width (old ++ slots_in m a)) e
        (round-Holds width m l old a hw (Reaches-IsConsistent width m l t old a hw path))
