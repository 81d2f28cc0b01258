-- ===== src/Sim/Kanata/Tests.antt =====
-- The log of a cycle.
use rsd_m.Sim.Kanata.Run.{dumped_in, micro_of, count_stage-Logged, more, first}
use rsd_m.Sim.Debug.{DebugRegister}
use rsd_m.Sim.Loop.{Model, Limits, Run, go_on, stop, round, start_run}
use rsd_m.Sim.Kanata.Retired.{total_lost, slot_of}
use rsd_m.Sim.Kanata.Quiet.{count_stage}
use rsd_m.Sim.Kanata.Log.{dump_cycles, read_log-dump_cycles}
use rsd_m.Sim.Kanata.Reader.{read_log}
use rsd_m.Sim.Debug.Tests.{macros, seen}
use rsd_m.Base.Text.{codes}
use rsd_m.Sim.Kanata.Cycle.{cycle_text}
use rsd_m.Sim.Kanata.Entries.{gather, entries_of}
use rsd_m.Sim.Kanata.{ks_cm, open_log, KanataDumper}
use rsd_m.Base.{◌+◌, ◌≡◌, refl, [], ◌∷◌, ◌++◌, map, suc, none, false, ℕ}

-- A serial number above 2^31 is printed as a negative number; both lanes show operation 7.
log_of_cycle :
    cycle_text macros 6 0 seen
    ≡ codes "C\t          1\n#\tcycle:0\n"
      ++ codes "S\t7\t1\t0\t0\t-1\t0\t\n"
      ++ codes "S\t9\t1\t0\t0\t7\t0\t\\nfu(a:0x1f, b:0x0)\n"
      ++ codes "S\t9\t1\t0\t0\t7\t0\t\\nfu(a:0x1f, b:0x0)\n"
      ++ codes "S\t14\t1\t0\t0\t5\t1\t\\nrelease: p40, \n"
      ++ codes "S\t13\t1\t0\t1\t6\t1\t\\nrelease: p40, \n"
unfolding cycle_text seen
log_of_cycle = refl

abbrev opened : KanataDumper
opened = record {
  cycles = 0;
  file =
      codes
        "RSD_Kanata\t0000\n#\tS:\n#\tstage_id\tvalid\tstall\tclear\tiid\tmid\n#\tL:\n#\tiid\tmid\tpc\tcode\n";
}

read_log-dump_cycles_example :
    read_log (dump_cycles macros 6 (seen ∷ seen ∷ []) opened).file
    ≡ gather (entries_of macros) (seen ∷ seen ∷ [])
unfolding open_log
read_log-dump_cycles_example = read_log-dump_cycles macros 6 (seen ∷ seen ∷ []) opened refl

-- A core that shows the same register all the time; the third round is the first that dumps it.
abbrev looped : Model ℕ
looped = record {
  eval = λ clk reset n. suc n;
  finished = λ n. false;
  reset_out = λ n. false;
  led = λ n. n;
  slots = λ n. map slot_of seen.cm_reg;
}

abbrev limits : Limits
limits = record { max_cycles = 100; pc_goal = none }

abbrev after : Run ℕ → Run ℕ
unfolding round
after r = elim (round looped limits r) [ go_on a ↦ a | stop a ↦ a ]

abbrev show : ℕ → DebugRegister
show t = seen

abbrev start : Run ℕ
start = start_run looped 0

count_stage-Logged_example :
    let ds =
      (([] ++ dumped_in looped show start) ++ dumped_in looped show (after start))
      ++ dumped_in looped show (after (after start)) in
    count_stage ks_cm (read_log (dump_cycles macros 6 ds opened).file) + total_lost ds
    ≡ micro_of (round looped limits (after (after start)))
unfolding open_log round after
count_stage-Logged_example =
    count_stage-Logged macros 6 looped limits show 0
      ((([] ++ dumped_in looped show start) ++ dumped_in looped show (after start))
        ++ dumped_in looped show (after (after start)))
      (round looped limits (after (after start))) opened (λ t. refl) refl
      (more (([] ++ dumped_in looped show start) ++ dumped_in looped show (after start))
        (after (after start))
        (more ([] ++ dumped_in looped show start) (after start) (more [] start first)))

-- The third round has counted the one operation that the register commits.
counted : micro_of (round looped limits (after (after start))) ≡ 1
unfolding round after seen
counted = refl
