-- ===== src/Sim/Ends.antt =====
-- The main loop ends, and what its counters hold.
use mathlib.Core.Path.{subst}
use rsd_m.Sim.Loop.{
  go_on, stop, Limits, Model, finish_round, Run, Next, edge, simulate, toggle, clocked, at_goal,
  round,
}
use rsd_m.Base.{
  ℕ, zero, suc, ◌+◌, ◌-◌, ◌*◌, ◌%◌, ◌^◌, ◌<◌, ◌≤◌, ◌==◌, ◌&&◌, ◌≡◌, refl, true, false, Bool, not,
  some, Option, arith, leb, ◌∙◌, if◌then◌else◌, inl, inr, Bool-cases, leb→gt, sym,
}

keeps_input : (b c : Bool) → c ≡ true → (if b then true else c) ≡ true
keeps_input true c h = refl
keeps_input false c h = h

-- A round without a rising edge, and one with it.
idle_round :
    (n : ℕ) (clk start : Bool)
    → (not clk && start) ≡ false
    → 2 * n + (if not clk then 1 else 0) < 2 * n + (if start then (if clk then 1 else 0) else 2)
idle_round n true true h = omega arith
idle_round n true false h = omega arith
idle_round n false true h = absurd cc
idle_round n false false h = omega arith

clock_round :
    (max n : ℕ) (clk start : Bool)
    → (not clk && start) ≡ true
    → suc n < max
    → 2 * (max - suc n) + (if not clk then 1 else 0)
      < 2 * (max - n) + (if start then (if clk then 1 else 0) else 2)
clock_round max n true start h l = absurd cc
clock_round max n false true h l = omega (arith, l)
clock_round max n false false h l = absurd cc

left-bound :
    (max n : ℕ) (clk start : Bool)
    → 2 * (max - n) + (if start then (if clk then 1 else 0) else 2) < 2 * max + 3
left-bound max n true true = omega arith
left-bound max n false true = omega arith
left-bound max n true false = omega arith
left-bound max n false false = omega arith

module _ {Top : Type 0} where
  -- A part of the model's states that is out of reset, and is not left while the reset input is
  -- released.
  pub record IsReleased (m : Model Top) (P : Top → Type 0) : Type 0 where
    pub stays : (clk : Bool) (t : Top) → P t → P (m.eval clk true t)
    pub out : (t : Top) → P t → m.reset_out t ≡ false

  -- Rounds that are left before the limit.
  abbrev left : Limits → Run Top → ℕ
  left l r = 2 * (l.max_cycles - r.cycles) + (if r.start then (if r.clk then 1 else 0) else 2)

  record Proceeds (P : Top → Type 0) (l : Limits) (r r' : Run Top) : Type 0 where
    at_top : P r'.top
    input : r'.reset_in ≡ true
    less : suc (left l r') ≤ left l r

  abbrev Outcome : (P : Top → Type 0) → Limits → Run Top → Next Top → Type 0
  Outcome P l r (stop e) = Unit
  Outcome P l r (go_on r') = Proceeds P l r r'

  finish_round-Outcome :
      (m : Model Top) (P : Top → Type 0) (l : Limits) (r c : Run Top)
      → IsReleased m P
      → P c.top
      → c.reset_in ≡ true
      → (c.cycles < l.max_cycles
          → 2 * (l.max_cycles - c.cycles) + (if c.clk then 1 else 0) < left l r)
      → Outcome P l r (finish_round m l c)
  unfolding finish_round
  finish_round-Outcome m P l r c k h i d = elim (Bool-cases (leb l.max_cycles c.cycles)) [
    | inl over ↦ rw (over, finish_round) tt
    | inr under ↦
        let started : not (m.reset_out c.top) ≡ true = rw (k.out c.top h) in
        rw (under, finish_round)
          (record {
            at_top = h;
            input = keeps_input ((c.time + 8) % 2 ^ 32 == 128) c.reset_in i;
            less = rw started (omega (arith, d (leb→gt l.max_cycles c.cycles under)));
          })
  ]

  edge-Outcome :
      (m : Model Top) (P : Top → Type 0) (l : Limits) (r : Run Top)
      → IsReleased m P
      → P r.top
      → r.reset_in ≡ true
      → Outcome P l r (edge m l (toggle m r))
  unfolding edge toggle clocked
  edge-Outcome m P l r k h i =
      let t = toggle m r in
      let p : P t.top =
        subst (λ b. P (m.eval (not r.clk) b r.top)) (sym i) (k.stays (not r.clk) r.top h) in
      elim (Bool-cases (not r.clk && r.start)) [
        | inr rests ↦
            rw (rests, edge)
              (finish_round-Outcome m P l r t k p i
                (λ x. idle_round (l.max_cycles - r.cycles) r.clk r.start rests))
        | inl rises ↦ elim (Bool-cases (at_goal l.pc_goal (m.led t.top))) [
          | inl hit ↦ rw (rises, hit, edge) tt
          | inr miss ↦
              rw (rises, miss, edge)
                (finish_round-Outcome m P l r (clocked m l t) k p i
                  (clock_round l.max_cycles r.cycles r.clk r.start rises))
        ]
      ]

  round-Outcome :
      (m : Model Top) (P : Top → Type 0) (l : Limits) (r : Run Top)
      → IsReleased m P
      → P r.top
      → r.reset_in ≡ true
      → Outcome P l r (round m l r)
  unfolding round
  round-Outcome m P l r k h i = elim (Bool-cases (m.finished r.top)) [
    | inl over ↦ rw (over, round) tt
    | inr runs ↦ rw (runs, round) (edge-Outcome m P l r k h i)
  ]

  after_round : ℕ → Model Top → Limits → Next Top → Option (Run Top)
  after_round f m l (stop e) = some e
  after_round f m l (go_on r') = simulate f m l r'

  simulate-round :
      (f : ℕ) (m : Model Top) (l : Limits) (r : Run Top)
      → simulate (suc f) m l r ≡ after_round f m l (round m l r)
  unfolding simulate after_round
  simulate-round f m l r = refl

  next_ends :
      (f : ℕ) (m : Model Top) (P : Top → Type 0) (l : Limits) (r : Run Top) (n : Next Top)
      → ((r' : Run Top)
          → P r'.top
          → r'.reset_in ≡ true
          → left l r' < f
          → (e : Run Top) × (simulate f m l r' ≡ some e))
      → Outcome P l r n
      → left l r < suc f
      → (e : Run Top) × (after_round f m l n ≡ some e)
  unfolding after_round
  next_ends f m P l r (stop e) more o b = (e, refl)
  next_ends f m P l r (go_on r') more o b = more r' o.at_top o.input (omega (arith, b, o.less))

  ends_within :
      (f : ℕ) (m : Model Top) (P : Top → Type 0) (l : Limits) (r : Run Top)
      → IsReleased m P
      → P r.top
      → r.reset_in ≡ true
      → left l r < f
      → (e : Run Top) × (simulate f m l r ≡ some e)
  ends_within zero m P l r k h i b = absurd (omega (arith, b))
  ends_within (suc f) m P l r k h i b =
      let (e, runs) =
        next_ends f m P l r (round m l r) (λ r'. ends_within f m P l r' k)
          (round-Outcome m P l r k h i) b in
      (e, simulate-round f m l r ∙ runs)

  -- Once the core is out of reset and stays there while the reset input is released, the main
  -- loop ends, whatever the core does: two rounds for each cycle up to the limit are enough.
  pub simulate-ends :
      (m : Model Top) (P : Top → Type 0) (l : Limits) (r : Run Top) (f : ℕ)
      → IsReleased m P
      → P r.top
      → r.reset_in ≡ true
      → 2 * l.max_cycles + 3 ≤ f
      → (e : Run Top) × (simulate f m l r ≡ some e)
  simulate-ends m P l r f k h i b =
      ends_within f m P l r k h i (omega (arith, b, left-bound l.max_cycles r.cycles r.clk r.start))
