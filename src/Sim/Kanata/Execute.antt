-- ===== src/Sim/Kanata/Execute.antt =====
-- `DumpCycle`: the execution stages.
use rsd_m.Sim.Debug.Read.{Macros}
use rsd_m.Sim.Dump.{bin2str}
use rsd_m.Base.Text.{Text, codes}
use rsd_m.Sim.Kanata.{ks_ex, dump_stage, show_lower, each}
use rsd_m.Sim.Debug.{
  IntegerExecutionStage, ExecutionStep, ComplexIntegerExecutionStage, FpExecutionStage,
  MemoryExecutionStage, DebugRegister,
}
use rsd_m.Base.{ℕ, Bool, true, List, [], ◌∷◌, ◌++◌, ◌==◌, if◌then◌else◌}

unfoldable pub integer_comment : Macros → IntegerExecutionStage → Text
unfolding show_lower bin2str
integer_comment m r =
    if m.functional_simulation
    then codes "\\nd:0x"
      ++ (show_lower r.data_out
          ++ (codes " = fu(a:0x"
              ++ (show_lower r.fu_op_a
                  ++ (codes ", b:0x"
                      ++ (show_lower r.fu_op_b
                          ++ (codes "), alu:0b"
                              ++ (bin2str r.alu_code 4 true
                                  ++ (codes ", op:0b"
                                      ++ (bin2str r.op_type 3 true
                                          ++ (if r.br_pred_miss
                                              then codes "\\nBr-pred-miss-ex"
                                              else []))))))))))
    else []

unfoldable pub dump_integer : Macros → Bool → IntegerExecutionStage → Text
unfolding dump_stage integer_comment
dump_integer m stall r =
    dump_stage ks_ex r.valid stall r.flush r.op_id.sid r.op_id.mid (integer_comment m r)

-- The stages of a pipeline behind its first one, which alone has a comment.
unfoldable pub dump_step : Bool → Bool → Text → ExecutionStep → Text
unfolding dump_stage
dump_step stall flush str s = dump_stage ks_ex s.valid stall flush s.op_id.sid s.op_id.mid str

unfoldable pub dump_steps : Bool → Bool → Text → List ExecutionStep → Text
unfolding dump_step each
dump_steps stall flush str [] = []
dump_steps stall flush str (s ∷ ss) =
    dump_step stall flush str s ++ each (dump_step stall flush []) ss

unfoldable pub complex_comment : Macros → ComplexIntegerExecutionStage → Text
unfolding show_lower
complex_comment m r =
    if m.functional_simulation
    then codes "\\nfu(a:0x"
      ++ (show_lower r.fu_op_a ++ (codes ", b:0x" ++ (show_lower r.fu_op_b ++ codes ")")))
    else []

unfoldable pub dump_complex : Macros → Bool → ComplexIntegerExecutionStage → Text
unfolding dump_steps complex_comment
dump_complex m stall r = dump_steps stall r.flush (complex_comment m r) r.steps

-- `MEM_MOP_TYPE_CSR` is a parameter of the core.
unfoldable pub memory_comment : Macros → ℕ → MemoryExecutionStage → Text
unfolding show_lower bin2str
memory_comment m csr_type r =
    if m.functional_simulation
    then if r.op_type == csr_type
      then codes "\\nd:0x"
        ++ (show_lower r.addr_out
            ++ (codes " = csr[0x"
                ++ (show_lower r.fu_op_a
                    ++ (codes "], csr[0x"
                        ++ (show_lower r.fu_op_a
                            ++ (codes "] <= fu(0x" ++ (show_lower r.fu_op_b ++ codes ")")))))))
      else codes "\\nd:0x"
        ++ (show_lower r.addr_out
            ++ (codes " = fu(a:0x"
                ++ (show_lower r.fu_op_a
                    ++ (codes ", b:0x"
                        ++ (show_lower r.fu_op_b
                            ++ (codes ")\\nop:0b"
                                ++ (bin2str r.op_type 3 true
                                    ++ (codes ", size:0b"
                                        ++ (bin2str r.size 2 true
                                            ++ (codes ", signed:0b"
                                                ++ bin2str (if r.is_signed then 1 else 0) 1
                                                    true))))))))))
    else []

unfoldable pub dump_memory_execution : Macros → ℕ → Bool → MemoryExecutionStage → Text
unfolding dump_stage memory_comment
dump_memory_execution m csr_type stall r =
    dump_stage ks_ex r.valid stall r.flush r.op_id.sid r.op_id.mid (memory_comment m csr_type r)

unfoldable pub fp_comment : Macros → FpExecutionStage → Text
unfolding show_lower
fp_comment m r =
    if m.functional_simulation
    then codes "\\nfp-ex(a:0x"
      ++ (show_lower r.fu_op_a
          ++ (codes ", b:0x"
              ++ (show_lower r.fu_op_b ++ (codes ", c:0x" ++ (show_lower r.fu_op_c ++ codes ")")))))
    else []

unfoldable pub dump_fp : Macros → Bool → FpExecutionStage → Text
unfolding dump_steps fp_comment
dump_fp m stall r = dump_steps stall r.flush (fp_comment m r) r.steps

unfoldable pub dump_execute : Macros → ℕ → DebugRegister → Text
unfolding each dump_integer dump_complex dump_memory_execution dump_fp
dump_execute m csr_type d =
    let stall = d.back_end_pipe_ctrl.stall in
    each (dump_integer m stall) d.int_ex_reg
    ++ (each (dump_complex m stall) d.complex_ex_reg
        ++ (each (dump_memory_execution m csr_type stall) d.mem_ex_reg
            ++ (if m.fp_pipe then each (dump_fp m stall) d.fp_ex_reg else [])))
