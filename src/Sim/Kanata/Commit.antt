-- ===== src/Sim/Kanata/Commit.antt =====
-- `DumpCycle`: the commit stage.
use rsd_m.Sim.Debug.Read.{Macros}
use rsd_m.Dis.Print.{show_signed}
use rsd_m.Base.Text.{Text, codes}
use rsd_m.Sim.Kanata.{ks_wc, ks_cm, dump_stage}
use rsd_m.Sim.Debug.{CommitStage}
use rsd_m.Base.{true, false, [], ◌++◌, if◌then◌else◌}

unfoldable pub release_comment : Macros → CommitStage → Text
unfolding show_signed
release_comment m r =
    if m.functional_simulation
    then if r.release_reg
      then codes "\\nrelease: p" ++ (show_signed r.phy_released_reg ++ codes ", ")
      else codes "\\nrelease: "
    else []

-- A flushed operation is one that is cancelled, even where the slot also commits.
unfoldable pub dump_commit : Macros → CommitStage → Text
unfolding dump_stage release_comment
dump_commit m r =
    let str = release_comment m r in
    if r.flush
    then dump_stage ks_wc r.flush false true r.op_id.sid r.op_id.mid str
    else if r.commit
    then dump_stage ks_cm r.commit false false r.op_id.sid r.op_id.mid str
    else []
