-- ===== src/Sim/Tests.antt =====
-- The test bench on a concrete core.
use rsd_m.Sim.Reported.{words_of, values, words_of-final_dump}
use rsd_m.Sim.Report.{final_dump}
use rsd_m.Sim.Dumped.{sent_bytes, check_all-file}
use rsd_m.Sim.Dump.{check_all, Serial}
use rsd_m.Sim.Args.{
  stoi, has_equals, parse_parameters, default_settings, parse_parameters-last, last_commits,
}
use rsd_m.Sim.Counts.{here, next, IsConsistent, Reaches-IsConsistent, slots_in}
use rsd_m.Asm.Line.Base.{emit_nop}
use rsd_m.Asm.Line.Directives.{directive}
use rsd_m.Asm.Line.Dispatch.{assemble_line}
use rsd_m.Sim.Ends.{IsReleased, simulate-ends}
use rsd_m.Sim.Loaded.{load_hex_file-HasWords}
use rsd_m.Asm.Code.{read32, emit32}
use rsd_m.Board.Loaded.{file_text}
use rsd_m.Sim.Load.{load_hex_file, loaded}
use rsd_m.Sim.Registers.{
  Core, or_else, youngest, retiring, committed_values, committed_values-outcomes, values_by, retire,
}
use rsd_m.Base.Text.{Text, codes}
use rsd_m.Sim.Loop.{Run, Model, start_run, simulate, go_on, stop, round, Limits, Slot}
use rsd_m.Asm.Program.{assemble, hex_end, write_hex}
use rsd_m.Asm.State.{ok, err, State, Result, initial}
use rsd_m.Base.{
  ℕ, suc, ◌≡◌, ◌<◌, ◌≤◌, ◌*◌, ◌+◌, ◌%◌, refl, [], ◌∷◌, some, none, arith, true, false, ◌&&◌, leb,
  ltb, if◌then◌else◌, ◌++◌, inl, inr, Bool-cases, ◌^◌, ◌⊎◌, zero, List,
}

-- Two instructions retire, and both write register 3.
abbrev core : Core
core = record {
  map = λ r. r;
  head = 5;
  entries = 64;
  active = λ p. record { writes = true; logical = 3; physical = 40 + p % 8 };
  registers = λ p. (100 + p) % 2 ^ 32;
  fp_registers = λ p. 0;
}

committed_values-outcomes_example :
    ((5 + 2 ≤ 64)
      × ((value : ℕ → ℕ) × (committed_values true 32 2 core ≡ some value)
          × ((r : ℕ)
              → let p = or_else (core.map r) (youngest (retiring 2 core.active 5) r) in
                value r ≡ (if true && leb 32 r then core.fp_registers p else core.registers p))))
    ⊎ ((64 < 5 + 2) × (committed_values true 32 2 core ≡ none))
committed_values-outcomes_example =
    committed_values-outcomes true 32 2 core (omega arith) (omega arith)

-- With the head at the last entry, the second of two entries is behind the list.
head_at_end : committed_values true 32 2 (record core { head = 63 }) ≡ none
unfolding committed_values
head_at_end = refl

abbrev input : Text
input = codes "NOP\n"

abbrev state_of : {A : Type 0} → Result (A × State) → State
state_of (ok (a, s)) = s
state_of (err e) = initial

abbrev state : State
unfolding assemble
state = state_of (assemble input)

load_hex_file-HasWords_example :
    (mem : ℕ → ℕ) × (load_hex_file 0x14000 (file_text (write_hex state)) (λ q. 0) ≡ loaded mem)
    × ((q : ℕ) → 4 * q < hex_end state.max_phy → mem q ≡ read32 state.code (4 * q))
    × ((q : ℕ) → hex_end state.max_phy ≤ 4 * q → q < 0x14000 → mem q ≡ 0xcdcd_cdcd)
unfolding assemble hex_end assemble_line directive emit_nop emit32
load_hex_file-HasWords_example =
    load_hex_file-HasWords input (write_hex state) state 0x14000 (λ q. 0) refl (omega arith)

-- A model that counts its evaluations, is out of reset from the fourth on, and retires one
-- instruction each time.
abbrev counter : Model ℕ
counter = record {
  eval = λ clk reset n. suc n;
  finished = λ n. false;
  reset_out = λ n. ltb n 4;
  led = λ n. n;
  slots = λ n. record { commit = true; micro = 0 } ∷ [];
}

counter-IsReleased : IsReleased counter (λ n. 4 ≤ n)
counter-IsReleased = record { stays = λ clk t h. omega (arith, h); out = λ t h. ground (arith, h) }

abbrev running : Run ℕ
running = record (start_run counter 9) { reset_in = true }

simulate-ends_example :
    (e : Run ℕ) × (simulate 203 counter (record { max_cycles = 100; pc_goal = none }) running
      ≡ some e)
simulate-ends_example =
    simulate-ends counter (λ n. 4 ≤ n) (record { max_cycles = 100; pc_goal = none }) running 203
      counter-IsReleased (omega arith) refl (omega arith)

-- Four rounds; in the third a cycle is counted, with an instruction of two micro-ops.
abbrev early : Limits
early = record { max_cycles = 100; pc_goal = none }

abbrev pairs : Model ℕ
pairs = record counter {
  slots = λ n. record { commit = true; micro = 0 } ∷ record { commit = true; micro = 1 } ∷ [];
}

abbrev step : Run ℕ → Run ℕ
unfolding round
step r = elim (round pairs early r) [ go_on a ↦ a | stop a ↦ a ]

abbrev after : ℕ → Run ℕ
after zero = start_run pairs 9
after (suc n) = step (after n)

abbrev seen : ℕ → List Slot
unfolding slots_in
seen zero = []
seen (suc n) = seen n ++ slots_in pairs (after n)

Reaches-IsConsistent_example : IsConsistent 2 (seen 4) (after 4)
unfolding round slots_in
Reaches-IsConsistent_example =
    Reaches-IsConsistent 2 pairs early 9 (seen 4) (after 4) (λ u. omega arith)
      (next (seen 3) (after 3) (after 4)
        (next (seen 2) (after 2) (after 3)
          (next (seen 1) (after 1) (after 2) (next [] (after 0) (after 1) here refl) refl) refl)
        refl)

counted_pair : ((after 4).cycles ≡ 1) × ((after 4).micro_ops ≡ 2) × ((after 4).insns ≡ 1)
unfolding round
counted_pair = (refl, refl, refl)

parse_parameters-last_example :
    parse_parameters
      (codes "ENABLE_PC_GOAL=0" ∷ (codes "TEST_CODE" ++ (b'=' ∷ codes "x")) ∷ [])
      default_settings
    ≡ some (record default_settings { enable_pc_goal = false; test_code = codes "x" })
unfolding parse_parameters stoi has_equals
parse_parameters-last_example =
    parse_parameters-last (codes "ENABLE_PC_GOAL=0" ∷ []) (codes "x") default_settings
      (record default_settings { enable_pc_goal = false }) refl refl refl

abbrev console : Serial
console = record { is_open = true; echo = false; file = codes "ok"; out = [] }

check_all-file_example :
    (check_all ((true, b'!') ∷ (false, b'?') ∷ (true, 0) ∷ []) console).file
    ≡ codes "ok" ++ sent_bytes ((true, b'!') ∷ (false, b'?') ∷ (true, 0) ∷ [])
check_all-file_example = check_all-file ((true, b'!') ∷ (false, b'?') ∷ (true, 0) ∷ []) console refl

abbrev shown : ℕ → ℕ
shown = values_by true 2 core (retire (core.active 5) core.map)

shown-words : (i : ℕ) → shown i < 2 ^ 32
shown-words i = elim (Bool-cases (leb 2 i)) [
  | inl e ↦ rw e (omega arith)
  | inr e ↦ rw e (omega arith)
]

words_of-final_dump_example :
    (text : Text) × (final_dump true 2 1 (true ∷ false ∷ true ∷ []) core (start_run counter 9)
      ≡ some text)
    × (words_of text ≡ values 2 0 shown ++ (0 ∷ values 1 2 shown))
unfolding last_commits committed_values
words_of-final_dump_example =
    words_of-final_dump true 2 1 (true ∷ false ∷ true ∷ []) core (start_run counter 9) shown refl
      shown-words (omega arith)
