-- ===== src/Sim/Kanata/Cycle.antt =====
-- `DumpCycle` as a whole.
use rsd_m.Sim.Kanata.Commit.{dump_commit}
use rsd_m.Sim.Kanata.Memory.{dump_tag_access, dump_memory_access}
use rsd_m.Sim.Kanata.Execute.{dump_execute}
use rsd_m.Sim.Kanata.Back.{dump_schedule, dump_issue, dump_register_read, dump_register_write}
use rsd_m.Sim.Kanata.Front.{dump_front}
use rsd_m.Sim.Debug.Read.{Macros}
use rsd_m.Base.Text.{Text}
use rsd_m.Sim.Kanata.{proceed_cycle, each, KanataDumper}
use rsd_m.Sim.Debug.{DebugRegister}
use rsd_m.Base.{ℕ, suc, ◌++◌}

unfoldable pub cycle_text : Macros → ℕ → ℕ → DebugRegister → Text
unfolding proceed_cycle dump_front dump_schedule dump_issue dump_register_read dump_execute each
    dump_tag_access dump_memory_access dump_register_write dump_commit
cycle_text m csr_type cycle d =
    let stall = d.back_end_pipe_ctrl.stall in
    proceed_cycle cycle
    ++ (dump_front m d
        ++ (dump_schedule stall d.scheduler d.issue_queue
            ++ (dump_issue m d
                ++ (dump_register_read m d
                    ++ (dump_execute m csr_type d
                        ++ (each (dump_tag_access m stall) d.mt_reg
                            ++ (each (dump_memory_access m stall) d.ma_reg
                                ++ (dump_register_write m d ++ each (dump_commit m) d.cm_reg))))))))

unfoldable pub dump_cycle : Macros → ℕ → DebugRegister → KanataDumper → KanataDumper
unfolding cycle_text
dump_cycle m csr_type d k = record {
  file = k.file ++ cycle_text m csr_type k.cycles d;
  cycles = suc k.cycles;
}
