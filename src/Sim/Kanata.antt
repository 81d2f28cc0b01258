-- ===== src/Sim/Kanata.antt =====
-- `KanataDumper` of `Dumper.h`: the log of the pipeline, a line for each stage that holds an
-- operation. The children go through the stages in the order of `DumpCycle`.
pub mod Front
pub mod Back
pub mod Execute
pub mod Memory
pub mod Commit
pub mod Cycle
pub mod Printed
pub mod Comments
pub mod Reader
pub mod Decimal
pub mod Entries
pub mod Shows
pub mod Recovered
pub mod Early
pub mod Log
pub mod Quiet
pub mod Retired
pub mod Run
mod Tests
use rsd_m.Base.Word.{u32}
use rsd_m.Sim.Dump.{lower_digits}
use rsd_m.Dis.Print.{show_signed, hex_width}
use rsd_m.Base.Text.{Text, codes}
use rsd_m.Base.{
  ℕ, zero, suc, ◌+◌, ◌-◌, ◌*◌, ◌/◌, ◌%◌, ◌^◌, ◌≤◌, ◌<◌, ◌≡◌, refl, sym, ap, ◌∙◌, ◌≢◌, inl, inr,
  Bool, true, false, not, ◌&&◌, ◌||◌, Option, none, some, List, [], ◌∷◌, ◌++◌, arith, ltb, leb,
  ◌==◌, if◌then◌else◌,
}

abbrev pub ks_np : ℕ
ks_np = 0

abbrev pub ks_if : ℕ
ks_if = 1

abbrev pub ks_pd : ℕ
ks_pd = 2

abbrev pub ks_id : ℕ
ks_id = 3

abbrev pub ks_rn : ℕ
ks_rn = 4

abbrev pub ks_ds : ℕ
ks_ds = 5

abbrev pub ks_sc : ℕ
ks_sc = 6

abbrev pub ks_is : ℕ
ks_is = 7

abbrev pub ks_rr : ℕ
ks_rr = 8

abbrev pub ks_ex : ℕ
ks_ex = 9

abbrev pub ks_ma : ℕ
ks_ma = 10

abbrev pub ks_mt : ℕ
ks_mt = 11

abbrev pub ks_rw : ℕ
ks_rw = 12

abbrev pub ks_wc : ℕ
ks_wc = 13

abbrev pub ks_cm : ℕ
ks_cm = 14

-- The open file, and `m_cycle + 1`, which starts from -1.
pub record KanataDumper : Type 0 where
  pub file : Text
  pub cycles : ℕ

-- `%0d` of a Boolean.
abbrev pub bit : Bool → ℕ
bit b = if b then b'1' else b'0'

-- The line of a stage without its newline; `sid` and `mid` are `int` parameters, here and below.
unfoldable pub stage_line : ℕ → Bool → Bool → Bool → ℕ → ℕ → Text → Text
unfolding show_signed
stage_line stage valid stall clear sid mid str =
    codes "S\t"
    ++ (show_signed stage
        ++ (b'\t'
            ∷ bit valid
            ∷ b'\t'
            ∷ bit stall
            ∷ b'\t'
            ∷ bit clear
            ∷ b'\t'
            ∷ (show_signed (u32 sid) ++ (b'\t' ∷ (show_signed (u32 mid) ++ (b'\t' ∷ str))))))

unfoldable pub dump_stage : ℕ → Bool → Bool → Bool → ℕ → ℕ → Text → Text
unfolding stage_line
dump_stage stage valid stall clear sid mid str =
    if valid then stage_line stage valid stall clear sid mid str ++ (b'\n' ∷ []) else []

-- `%08x` is that of 32-bit words.
unfoldable pub insn_line : ℕ → ℕ → ℕ → ℕ → Text
unfolding show_signed lower_digits
insn_line sid mid pc insn =
    codes "L\t"
    ++ (show_signed (u32 sid)
        ++ (b'\t'
            ∷ (show_signed (u32 mid)
                ++ (b'\t' ∷ (lower_digits 8 pc ++ (b'\t' ∷ lower_digits 8 insn))))))

unfoldable pub dump_insn_code : ℕ → ℕ → ℕ → ℕ → Text
unfolding insn_line
dump_insn_code sid mid pc insn = insn_line sid mid pc insn ++ (b'\n' ∷ [])

-- `%0x` of a 32-bit word.
unfoldable pub show_lower : ℕ → Text
unfolding lower_digits
show_lower w = lower_digits (hex_width 7 w) w

-- The text that `ProceedCycle` writes, before the counter that it has raised.
unfoldable pub proceed_cycle : ℕ → Text
unfolding show_signed
proceed_cycle cycle =
    codes "C\t          1\n"
    ++ (codes "#\tcycle:" ++ (show_signed (cycle % 2 ^ 32) ++ (b'\n' ∷ [])))

-- A loop over the elements of an array.
unfoldable pub each {ℓ} : {A : Type ℓ} → (A → Text) → List A → Text
each f [] = []
each f (x ∷ xs) = f x ++ each f xs

-- A file that cannot be opened is written all the same, which C leaves undefined.
unfoldable pub open_log : Bool → Option KanataDumper
open_log opens =
    if opens
    then some (record {
      cycles = 0;
      file =
          codes "RSD_Kanata\t0000\n"
          ++ (codes "#\tS:\n"
              ++ (codes "#\tstage_id\tvalid\tstall\tclear\tiid\tmid\n"
                  ++ (codes "#\tL:\n" ++ codes "#\tiid\tmid\tpc\tcode\n")));
    })
    else none
