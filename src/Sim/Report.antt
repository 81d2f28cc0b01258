-- ===== src/Sim/Report.antt =====
-- The end of `main`: the file names, the results that are printed, and the final register file.
use rsd_m.Sim.Registers.{Core, committed_values}
use rsd_m.Sim.Dump.{dump_hex}
use rsd_m.Sim.Debug.{PerfCounter}
use rsd_m.Sim.Loop.{Run}
use rsd_m.Sim.Args.{Settings, last_commits}
use rsd_m.Dis.Print.{show_signed}
use rsd_m.Base.Word.{u32}
use rsd_m.Base.Text.{Text, codes}
use rsd_m.Base.{
  ℕ, ◌+◌, ◌-◌, ◌^◌, Bool, Option, none, some, List, [], ◌∷◌, ◌++◌, ◌==◌, if◌then◌else◌,
}

-- `TEST_CODE + "/" + name`.
unfoldable pub in_test_code : Settings → Text → Text
in_test_code s name = s.test_code ++ (codes "/" ++ name)

abbrev pub code_file_name : Settings → Text
code_file_name s = in_test_code s (codes "code.hex")

abbrev pub reg_out_file_name : Settings → Text
reg_out_file_name s = in_test_code s (codes "reg.out.hex")

abbrev pub serial_dump_file_name : Settings → Text
serial_dump_file_name s = in_test_code s (codes "serial.out.txt")

-- A line with a number, printed by `%d`.
unfoldable pub result_line : Text → ℕ → Text
unfolding show_signed
result_line label n = label ++ (show_signed (u32 n) ++ (b'\n' ∷ []))

module _ {Top : Type 0} where
  -- `cycle`, which starts from -1, as a 32-bit pattern.
  abbrev pub elapsed : Run Top → ℕ
  elapsed r = u32 (r.cycles + (2 ^ 32 - 1))

  -- `ipc` prints the quotient of two numbers as a floating-point number.
  unfoldable pub results : (ℕ → ℕ → Text) → PerfCounter → Run Top → Text
  unfolding result_line
  results ipc c r =
      result_line (codes "Num of I$ misses: ") c.num_ic_miss
      ++ (result_line (codes "Num of D$ load misses: ") c.num_load_miss
          ++ (result_line (codes "Num of D$ store misses: ") c.num_store_miss
              ++ (result_line (codes "Num of branch prediction misses: ") c.num_branch_pred_miss
                  ++ (result_line (codes "Num of branch prediction misses detected on decode: ")
                        c.num_branch_pred_miss_detected_on_decode
                      ++ (result_line (codes "Num of store-load-forwanind misses: ")
                            c.num_store_load_forwarding_fail
                          ++ (result_line (codes "Num of memory dependency prediction misses: ")
                                c.num_mem_dep_pred_miss
                              ++ (result_line (codes "Num of committed RISC-V-ops: ") r.insns
                                  ++ (result_line (codes "Num of committed micro-ops: ") r.micro_ops
                                      ++ ((if elapsed r == 0
                                            then []
                                            else codes "IPC (RISC-V instruction): "
                                              ++ (ipc r.insns (elapsed r)
                                                  ++ (codes "\nIPC (micro-op): "
                                                      ++ (ipc r.micro_ops (elapsed r)
                                                          ++ codes "\n"))))
                                          ++ result_line (codes "Elapsed cycles: ")
                                              (elapsed r))))))))))

  -- The registers behind the commits of the last cycle, and the last pc that the goal has seen.
  unfoldable pub final_dump : Bool → ℕ → ℕ → List Bool → Core → Run Top → Option Text
  unfolding dump_hex committed_values last_commits
  final_dump has_fp scalars floats commit core r =
      elim (committed_values has_fp scalars (last_commits commit) core) [
        | none ↦ none
        | some value ↦ some (dump_hex has_fp scalars floats r.last_pc value)
      ]
