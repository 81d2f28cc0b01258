-- ===== src/Sim/Loop.antt =====
-- The main loop of the test bench. `Top` is the verilated model: `eval` takes the clock and the
-- reset input, the other functions read its signals.
use rsd_m.Base.{
  ℕ, zero, suc, ◌+◌, ◌%◌, ◌^◌, ◌==◌, ◌&&◌, ◌||◌, true, false, Bool, not, List, [], ◌∷◌, some, none,
  Option, leb, if◌then◌else◌,
}

-- A slot of the commit stage in the debug register.
pub record Slot : Type 0 where
  pub commit : Bool
  pub micro : ℕ

pub record Model (Top : Type 0) : Type 0 where
  pub eval : Bool → Bool → Top → Top
  pub finished : Top → Bool
  pub reset_out : Top → Bool
  pub led : Top → ℕ
  pub slots : Top → List Slot

-- `MAX_TEST_CYCLES` (a negative one acts like 0) and `ENABLE_PC_GOAL` with the goal's low half.
pub record Limits : Type 0 where
  pub max_cycles : ℕ
  pub pc_goal : Option ℕ

-- `cycles` is `cycle + 1`, which is also `kanataCycle`; both start from -1 and 0. The two counters
-- of the source have the type `int`: `overflow` says that one has got past it, from where on C
-- leaves the program undefined.
pub record Run (Top : Type 0) : Type 0 where
  pub top : Top
  pub clk : Bool
  pub reset_in : Bool
  pub start : Bool
  pub cycles : ℕ
  pub time : ℕ
  pub insns : ℕ
  pub micro_ops : ℕ
  pub overflow : Bool
  pub last_pc : ℕ

-- The next round, or the end by `break` or by the simulation's end.
pub data Next (Top : Type 0) : Type 0 where
  go_on : Run Top → Next Top
  stop : Run Top → Next Top

unfoldable pub count_micro : List Slot → ℕ
count_micro [] = 0
count_micro (s ∷ ss) = let more = count_micro ss in if s.commit then suc more else more

-- The first micro-op of an instruction counts for the instruction.
unfoldable pub count_insns : List Slot → ℕ
count_insns [] = 0
count_insns (s ∷ ss) =
    let more = count_insns ss in if s.commit && s.micro == 0 then suc more else more

abbrev pub at_goal : Option ℕ → ℕ → Bool
at_goal none pc = false
at_goal (some goal) pc = pc == goal

abbrev pub seen_pc : Option ℕ → ℕ → ℕ → ℕ
seen_pc none led old = old
seen_pc (some goal) led old = led

module _ {Top : Type 0} where
  -- A rising edge, once the core is out of reset: the counters, before the goal is looked at.
  unfoldable pub clocked : Model Top → Limits → Run Top → Run Top
  unfolding count_micro count_insns
  clocked m l r = record r {
    cycles = suc r.cycles;
    micro_ops = r.micro_ops + count_micro (m.slots r.top);
    insns = r.insns + count_insns (m.slots r.top);
    overflow =
        r.overflow
        || leb (2 ^ 31) (r.micro_ops + count_micro (m.slots r.top))
        || leb (2 ^ 31) (r.insns + count_insns (m.slots r.top));
    last_pc = seen_pc l.pc_goal (m.led r.top) r.last_pc;
  }

  -- Behind the rising edge: 8 units later, with the reset input released at 128.
  unfoldable pub finish_round : Model Top → Limits → Run Top → Next Top
  finish_round m l r =
      let time = (r.time + 8) % 2 ^ 32 in
      let r' : Run Top = record r {
        start = not (m.reset_out r.top);
        time = time;
        reset_in = if time == 128 then true else r.reset_in;
      } in
      if leb l.max_cycles r.cycles then stop r' else go_on r'

  -- `clk_p` and `clk_n` are inverted and the model evaluated.
  unfoldable pub toggle : Model Top → Run Top → Run Top
  toggle m r = record r { clk = not r.clk; top = m.eval (not r.clk) r.reset_in r.top }

  unfoldable pub edge : Model Top → Limits → Run Top → Next Top
  unfolding clocked finish_round
  edge m l r =
      let c = clocked m l r in
      if r.clk && r.start
      then (if at_goal l.pc_goal (m.led r.top) then stop c else finish_round m l c)
      else finish_round m l r

  unfoldable pub round : Model Top → Limits → Run Top → Next Top
  unfolding toggle edge
  round m l r = if m.finished r.top then stop r else edge m l (toggle m r)

  unfoldable pub simulate : ℕ → Model Top → Limits → Run Top → Option (Run Top)
  unfolding round
  simulate zero m l r = none
  simulate (suc f) m l r = elim (round m l r) [ stop e ↦ some e | go_on r' ↦ simulate f m l r' ]

  -- The state before the loop, behind a first evaluation in reset.
  abbrev pub start_run : Model Top → Top → Run Top
  start_run m t = record {
    top = m.eval false false t;
    clk = false;
    reset_in = false;
    start = false;
    cycles = 0;
    time = 16;
    insns = 0;
    micro_ops = 0;
    overflow = false;
    last_pc = 0;
  }
