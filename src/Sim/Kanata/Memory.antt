-- ===== src/Sim/Kanata/Memory.antt =====
-- `DumpCycle`: the two stages that access memory.
use rsd_m.Sim.Debug.Read.{Macros}
use rsd_m.Dis.Print.{show_signed}
use rsd_m.Base.Text.{Text, codes}
use rsd_m.Sim.Kanata.{ks_ma, ks_mt, dump_stage, show_lower}
use rsd_m.Sim.Debug.{MemoryTagAccessStage, MemoryAccessStage}
use rsd_m.Base.{Bool, ◌&&◌, [], ◌++◌, if◌then◌else◌}

unfoldable pub mshr_comment : MemoryTagAccessStage → Text
unfolding show_signed
mshr_comment r =
    if r.mshr_allocated
    then codes "\\nD$-miss. MSHR alloc: " ++ show_signed r.mshr_entry_id
    else if r.mshr_hit
    then codes "\\nMSHR hit: " ++ show_signed r.mshr_entry_id
    else []

unfoldable pub load_comment : MemoryTagAccessStage → Text
unfolding show_lower mshr_comment
load_comment r =
    if r.execute_load
    then codes "\\n = load([#0x"
      ++ (show_lower r.executed_load_addr ++ (codes "])" ++ mshr_comment r))
    else []

unfoldable pub store_comment : MemoryTagAccessStage → Text
unfolding show_lower
store_comment r =
    if r.execute_store
    then codes "\\nstore(#0x"
      ++ (show_lower r.executed_store_data
          ++ (codes ", [#0x" ++ (show_lower r.executed_store_addr ++ codes "])\\n")))
    else []

unfoldable pub tag_comment : Macros → MemoryTagAccessStage → Text
unfolding load_comment store_comment
tag_comment m r = if m.functional_simulation then load_comment r ++ store_comment r else []

unfoldable pub dump_tag_access : Macros → Bool → MemoryTagAccessStage → Text
unfolding dump_stage tag_comment
dump_tag_access m stall r =
    dump_stage ks_mt r.valid stall r.flush r.op_id.sid r.op_id.mid (tag_comment m r)

unfoldable pub access_comment : Macros → MemoryAccessStage → Text
unfolding show_lower
access_comment m r =
    if m.functional_simulation && r.execute_load
    then codes "\\n#0x" ++ (show_lower r.executed_load_data ++ codes " = load()")
    else []

unfoldable pub dump_memory_access : Macros → Bool → MemoryAccessStage → Text
unfolding dump_stage access_comment
dump_memory_access m stall r =
    dump_stage ks_ma r.valid stall r.flush r.op_id.sid r.op_id.mid (access_comment m r)
