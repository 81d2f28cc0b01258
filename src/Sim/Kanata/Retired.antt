-- ===== src/Sim/Kanata/Retired.antt =====
-- The committed operations of the log and those that the test bench counts.
use rsd_m.Sim.Kanata.Quiet.{count_stage, count_stage-append, count-entries}
use rsd_m.Sim.Loop.{Slot, count_micro}
use rsd_m.Sim.Kanata.Log.{dump_cycles, read_log-dump_cycles}
use rsd_m.Sim.Kanata.Reader.{read_log}
use rsd_m.Sim.Debug.Read.{Macros}
use rsd_m.Sim.Kanata.Entries.{gather, commit_entry, entries_of}
use rsd_m.Sim.Debug.{CommitStage, DebugRegister}
use rsd_m.Sim.Kanata.{ks_cm, open_log, KanataDumper}
use rsd_m.Base.{
  ℕ, suc, ◌+◌, ◌≡◌, refl, inl, inr, true, ◌&&◌, some, List, [], ◌∷◌, arith, if◌then◌else◌,
  Bool-cases, map,
}

-- The slots of the commit stage, as the counters of the test bench read them.
abbrev pub slot_of : CommitStage → Slot
slot_of r = record { commit = r.commit; micro = r.op_id.mid }

-- The slots that commit an operation and flush it.
unfoldable pub count_lost : List CommitStage → ℕ
count_lost [] = 0
count_lost (r ∷ rs) = let more = count_lost rs in if r.commit && r.flush then suc more else more

-- Over the cycles of a run.
unfoldable pub total_micro : List DebugRegister → ℕ
unfolding count_micro
total_micro [] = 0
total_micro (d ∷ ds) = count_micro (map slot_of d.cm_reg) + total_micro ds

unfoldable pub total_lost : List DebugRegister → ℕ
unfolding count_lost
total_lost [] = 0
total_lost (d ∷ ds) = count_lost d.cm_reg + total_lost ds

count-commits :
    (rs : List CommitStage)
    → count_stage ks_cm (gather commit_entry rs) + count_lost rs ≡ count_micro (map slot_of rs)
unfolding gather count_stage count_lost count_micro
count-commits [] = refl
count-commits (r ∷ rs) =
    let ih = count-commits rs in
    elim (Bool-cases r.flush) [
      | inl e ↦ elim (Bool-cases r.commit) [
        | inl f ↦ rw (e, f) (omega (arith, ih))
        | inr f ↦ rw (e, f) (omega (arith, ih))
      ]
      | inr e ↦ elim (Bool-cases r.commit) [
        | inl f ↦ rw (e, f) (omega (arith, ih))
        | inr f ↦ rw (e, f) (omega (arith, ih))
      ]
    ]

count-cycles :
    (m : Macros) (ds : List DebugRegister)
    → count_stage ks_cm (gather (entries_of m) ds) + total_lost ds ≡ total_micro ds
unfolding gather count_stage total_lost total_micro
count-cycles m [] = refl
count-cycles m (d ∷ ds) = omega (
  arith,
  count_stage-append ks_cm (entries_of m d) (gather (entries_of m) ds),
  count-entries m d,
  count-commits d.cm_reg,
  count-cycles m ds,
)

-- The operations that the log of a run shows as committed, and those that commit in a slot that is
-- flushed at the same time, are together as many as the micro-ops that the test bench counts.
pub count_stage-read_log :
    (m : Macros) (csr_type : ℕ) (ds : List DebugRegister) (k : KanataDumper)
    → open_log true ≡ some k
    → count_stage ks_cm (read_log (dump_cycles m csr_type ds k).file) + total_lost ds
      ≡ total_micro ds
count_stage-read_log m csr_type ds k h =
    rw (read_log-dump_cycles m csr_type ds k h) (count-cycles m ds)
