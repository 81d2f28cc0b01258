-- ===== src/Sim/Kanata/Recovered.antt =====
-- The lines that the dumper writes, read one by one.
use mathlib.Core.Path.{subst}
use mathlib.Core.List.{append_assoc}
use rsd_m.Sim.Kanata.Front.{dump_code}
use rsd_m.Sim.Kanata.Decimal.{signed_value-show_signed}
use rsd_m.Sim.Kanata.Shows.{
  Shows, Shows-line, Shows-if, Shows-nil, Shows-append, split_tabs-field, split_tabs-last,
}
use rsd_m.Sim.Kanata.Printed.{
  plain, lacks, plain-lacks, lacks-append, plain-show_signed, plain-lower_digits,
}
use rsd_m.Sim.Kanata.Entries.{entry}
use rsd_m.Sim.Kanata.Reader.{split_tabs, read_entry, of_fields}
use rsd_m.Sim.Dump.{lower_digits}
use rsd_m.Dis.Print.{show_signed}
use rsd_m.Base.Word.{u32}
use rsd_m.Base.Text.{Text, codes, str_eq}
use rsd_m.Sim.Debug.{DecodeStage}
use rsd_m.Sim.Kanata.{bit, stage_line, dump_stage, insn_line, dump_insn_code, proceed_cycle}
use rsd_m.Base.{
  ℕ, ◌%◌, ◌^◌, ◌<◌, ◌≡◌, refl, inl, inr, Bool, true, false, none, some, [], ◌∷◌, ◌++◌, arith, ◌==◌,
  Bool-cases,
}

one : (b : Bool) → str_eq (bit b ∷ []) (codes "1") ≡ b
one false = refl
one true = refl

plain-tab : (t : Text) → plain t ≡ true → lacks b'\t' t ≡ true
plain-tab t h = plain-lacks b'\t' t (omega arith) h

plain-newline : (t : Text) → plain t ≡ true → lacks b'\n' t ≡ true
plain-newline t h = plain-lacks b'\n' t (omega arith) h

number-tab : (v : ℕ) → lacks b'\t' (show_signed v) ≡ true
number-tab v = plain-tab (show_signed v) (plain-show_signed v)

number-newline : (v : ℕ) → lacks b'\n' (show_signed v) ≡ true
number-newline v = plain-newline (show_signed v) (plain-show_signed v)

bit-lacks : (c : ℕ) (b : Bool) → c < 32 → (bit b == c) ≡ false
bit-lacks c false h = ground arith
bit-lacks c true h = ground arith

field-bit :
    (b : Bool) (rest : Text)
    → split_tabs [] (bit b ∷ b'\t' ∷ rest) ≡ (bit b ∷ []) ∷ split_tabs [] rest
unfolding split_tabs
field-bit false rest = refl
field-bit true rest = refl

-- The number of a stage, of an operation or of a micro-op, up to its tab.
field-number :
    (v : ℕ) (rest : Text)
    → split_tabs [] (show_signed v ++ (b'\t' ∷ rest)) ≡ show_signed v ∷ split_tabs [] rest
field-number v rest = split_tabs-field [] (show_signed v) rest (number-tab v)

module _ (k : ℕ) (valid stall clear : Bool) (sid mid : ℕ) (str : Text) (hk : k < 2 ^ 32)
    (hs : plain str ≡ true) where
  stage_line-newline : lacks b'\n' (stage_line k valid stall clear sid mid str) ≡ true
  unfolding stage_line
  stage_line-newline = simp (
    lacks-append,
    number-newline,
    bit-lacks b'\n' valid (omega arith),
    bit-lacks b'\n' stall (omega arith),
    bit-lacks b'\n' clear (omega arith),
    plain-newline str hs,
  )

  split_tabs-stage_line :
      split_tabs [] (stage_line k valid stall clear sid mid str)
      ≡ codes "S"
        ∷ show_signed k
        ∷ (bit valid ∷ [])
        ∷ (bit stall ∷ [])
        ∷ (bit clear ∷ [])
        ∷ show_signed (u32 sid)
        ∷ show_signed (u32 mid)
        ∷ str
        ∷ []
  unfolding stage_line
  split_tabs-stage_line =
      rw
        (
          split_tabs-field [] (codes "S") _ refl,
          field-number,
          field-bit valid,
          field-bit stall,
          field-bit clear,
          field-number (u32 sid),
          field-number (u32 mid),
          split_tabs-last [] str (plain-tab str hs),
        )
        refl

  -- A stage line is read back as its entry.
  read_entry-stage_line :
      read_entry (stage_line k valid stall clear sid mid str)
      ≡ some (record { stage = k; stall = stall; clear = clear; sid = u32 sid; mid = u32 mid })
  unfolding read_entry of_fields
  read_entry-stage_line =
      rw
        (
          split_tabs-stage_line,
          one stall,
          one clear,
          signed_value-show_signed k hk,
          signed_value-show_signed (u32 sid) (omega arith),
          signed_value-show_signed (u32 mid) (omega arith),
        )
        refl

  pub Shows-stage :
      Shows (entry k valid stall clear sid mid) (dump_stage k valid stall clear sid mid str)
  unfolding dump_stage
  Shows-stage = Shows-if valid _ _ (
      Shows-line (stage_line k valid stall clear sid mid str) _ stage_line-newline
        read_entry-stage_line)

-- The line of an instruction's code is no stage.
Shows-insn : (sid mid pc insn : ℕ) → Shows [] (dump_insn_code sid mid pc insn)
unfolding dump_insn_code insn_line
Shows-insn sid mid pc insn =
    Shows-line (insn_line sid mid pc insn) none
      (simp (
        lacks-append,
        number-newline,
        plain-newline (lower_digits 8 pc) (plain-lower_digits 8 pc),
        plain-newline (lower_digits 8 insn) (plain-lower_digits 8 insn),
      ))
      (unfold read_entry of_fields in
        rw
          (
            split_tabs-field [] (codes "L") _ refl,
            field-number (u32 sid),
            field-number (u32 mid),
            split_tabs-field [] (lower_digits 8 pc) _
                (plain-tab (lower_digits 8 pc) (plain-lower_digits 8 pc)),
            split_tabs-last [] (lower_digits 8 insn)
                (plain-tab (lower_digits 8 insn) (plain-lower_digits 8 insn)),
          )
          refl)

pub Shows-code : (r : DecodeStage) → Shows [] (dump_code r)
unfolding dump_code
Shows-code r = elim (Bool-cases r.valid) [
  | inl e ↦ rw e (Shows-insn r.op_id.sid r.op_id.mid r.pc r.insn)
  | inr e ↦ rw e Shows-nil
]

pub Shows-cycle : (cycle : ℕ) → Shows [] (proceed_cycle cycle)
unfolding proceed_cycle
Shows-cycle cycle =
    let n = show_signed (cycle % 2 ^ 32) in
    Shows-append [] [] (codes "C\t          1\n") (codes "#\tcycle:" ++ (n ++ (b'\n' ∷ [])))
      (Shows-line (codes "C\t          1") none refl
        (unfold read_entry of_fields split_tabs in refl))
      (subst (λ t. Shows [] t) (append_assoc (codes "#\tcycle:") n (b'\n' ∷ []))
        (Shows-line (codes "#\tcycle:" ++ n) none
          (rw (lacks-append (b'\n') (codes "#\tcycle:") n, number-newline) refl)
          (unfold read_entry of_fields in
            rw
              (
                split_tabs-field [] (codes "#") _ refl,
                split_tabs-last [] (codes "cycle:" ++ n) (rw (lacks-append, number-tab) refl),
              )
              refl)))
