-- ===== src/Sim/Kanata/Comments.antt =====
-- The comments hold neither a tab nor a newline: the `\n` in them is written as two characters.
use rsd_m.Sim.Kanata.Commit.{release_comment}
use rsd_m.Sim.Kanata.Memory.{mshr_comment, tag_comment, access_comment, load_comment, store_comment}
use rsd_m.Sim.Kanata.Execute.{integer_comment, complex_comment, memory_comment, fp_comment}
use rsd_m.Sim.Kanata.Front.{mapping, decode_comment, dispatch_comment, fp_mapping}
use rsd_m.Sim.Kanata.Printed.{
  plain, plain-append, plain-show_signed, plain-lower_digits, plain-show_lower, plain-bin2str,
  plain-if,
}
use rsd_m.Sim.Debug.Read.{Macros}
use rsd_m.Base.Text.{Text, codes}
use rsd_m.Sim.Debug.{
  DecodeStage, DispatchStage, IntegerExecutionStage, ComplexIntegerExecutionStage, FpExecutionStage,
  MemoryExecutionStage, MemoryTagAccessStage, MemoryAccessStage, CommitStage,
}
use rsd_m.Base.{ℕ, ◌≡◌, refl, Bool, true, false, ◌&&◌, [], ◌++◌, leb, ◌==◌, if◌then◌else◌}

plain-digit : (b : Bool) → leb 32 (if b then b'1' else b'0') ≡ true
plain-digit false = refl
plain-digit true = refl

ruleset plains = (
  plain-append, plain-show_signed, plain-lower_digits, plain-show_lower, plain-bin2str, plain-digit,
)

plain-mapping : (used : Bool) (log phy : ℕ) → plain (mapping used log phy) ≡ true
unfolding mapping
plain-mapping false log phy = refl
plain-mapping true log phy = simp plains

pub plain-fetch : (b : Bool) → plain (if b then codes "i-cache-miss\\n" else []) ≡ true
plain-fetch false = refl
plain-fetch true = refl

pub plain-pre_decode :
    (s t : Text)
    → plain s ≡ true
    → plain t ≡ true
    → plain (codes "optype:0b" ++ (s ++ (codes " ALU-code:0b" ++ (t ++ codes "\\n")))) ≡ true
plain-pre_decode s t h k = rw (plain-append s, h, plain-append t, k) refl

pub plain-decode_comment : (r : DecodeStage) → plain (decode_comment r) ≡ true
unfolding decode_comment
plain-decode_comment r =
    plain-if r.flush_triggering _ _ refl
      (plain-if r.unsupported _ _ refl (plain-if r.undefined _ _ refl refl))

plain-fp_mapping : (m : Macros) (r : DispatchStage) → plain (fp_mapping m r) ≡ true
unfolding fp_mapping
plain-fp_mapping m r =
    plain-if m.fp_pipe _ _ (plain-mapping r.read_reg_c r.log_src_reg_c r.phy_src_reg_c) refl

pub plain-dispatch_comment : (m : Macros) (r : DispatchStage) → plain (dispatch_comment m r) ≡ true
unfolding dispatch_comment
plain-dispatch_comment m r =
    let third : plain (fp_mapping m r) ≡ true = plain-fp_mapping m r in
    plain-if m.functional_simulation _ _ (simp (plains, plain-mapping, third)) refl

pub plain-integer_comment :
    (m : Macros) (r : IntegerExecutionStage) → plain (integer_comment m r) ≡ true
unfolding integer_comment
plain-integer_comment m r =
    let missed : plain (if r.br_pred_miss then codes "\\nBr-pred-miss-ex" else []) ≡ true =
      plain-if r.br_pred_miss _ _ refl refl in
    plain-if m.functional_simulation _ _ (simp (plains, missed)) refl

pub plain-complex_comment :
    (m : Macros) (r : ComplexIntegerExecutionStage) → plain (complex_comment m r) ≡ true
unfolding complex_comment
plain-complex_comment m r = plain-if m.functional_simulation _ _ (simp plains) refl

pub plain-memory_comment :
    (m : Macros) (csr_type : ℕ) (r : MemoryExecutionStage)
    → plain (memory_comment m csr_type r) ≡ true
unfolding memory_comment
plain-memory_comment m csr_type r =
    plain-if m.functional_simulation _ _
      (plain-if (r.op_type == csr_type) _ _ (simp plains) (simp plains)) refl

pub plain-fp_comment : (m : Macros) (r : FpExecutionStage) → plain (fp_comment m r) ≡ true
unfolding fp_comment
plain-fp_comment m r = plain-if m.functional_simulation _ _ (simp plains) refl

plain-mshr_comment : (r : MemoryTagAccessStage) → plain (mshr_comment r) ≡ true
unfolding mshr_comment
plain-mshr_comment r =
    plain-if r.mshr_allocated _ _ (simp plains) (plain-if r.mshr_hit _ _ (simp plains) refl)

plain-load_comment : (r : MemoryTagAccessStage) → plain (load_comment r) ≡ true
unfolding load_comment
plain-load_comment r = plain-if r.execute_load _ _ (simp (plains, plain-mshr_comment r)) refl

plain-store_comment : (r : MemoryTagAccessStage) → plain (store_comment r) ≡ true
unfolding store_comment
plain-store_comment r = plain-if r.execute_store _ _ (simp plains) refl

pub plain-tag_comment : (m : Macros) (r : MemoryTagAccessStage) → plain (tag_comment m r) ≡ true
unfolding tag_comment
plain-tag_comment m r =
    plain-if m.functional_simulation _ _
      (rw (plain-append, plain-load_comment r, plain-store_comment r) refl) refl

pub plain-access_comment : (m : Macros) (r : MemoryAccessStage) → plain (access_comment m r) ≡ true
unfolding access_comment
plain-access_comment m r =
    plain-if (m.functional_simulation && r.execute_load) _ _ (simp plains) refl

pub plain-release_comment : (m : Macros) (r : CommitStage) → plain (release_comment m r) ≡ true
unfolding release_comment
plain-release_comment m r =
    plain-if m.functional_simulation _ _ (plain-if r.release_reg _ _ (simp plains) refl) refl
