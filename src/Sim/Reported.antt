-- ===== src/Sim/Reported.antt =====
-- The final register file, read back.
use mathlib.Core.List.{append-nil, append_assoc}
use rsd_m.Sim.Report.{final_dump}
use rsd_m.Sim.Dumped.{strtoul16-hex_word}
use rsd_m.Sim.Kanata.Shows.{split_lines-line}
use rsd_m.Sim.Kanata.Printed.{lacks, plain-lacks, plain-lower_digits}
use rsd_m.Sim.Registers.{Core, committed_values}
use rsd_m.Sim.Dump.{dump_hex, dump_registers, hex_word, lower_digits}
use rsd_m.Sim.Loop.{Run}
use rsd_m.Sim.Args.{last_commits}
use rsd_m.Sim.Load.{split_lines}
use rsd_m.Board.{strtoul16}
use rsd_m.Base.Text.{Text}
use rsd_m.Base.{
  ℕ, zero, suc, ◌^◌, ◌<◌, ◌≡◌, refl, sym, ap, ◌∙◌, Bool, true, false, List, [], ◌∷◌, ◌++◌, arith,
  if◌then◌else◌, map, some,
}

-- The numbers of a file of hexadecimal lines.
abbrev pub words_of : Text → List ℕ
words_of text = map strtoul16 (split_lines [] text)

-- The registers from one on.
unfoldable pub values : ℕ → ℕ → (ℕ → ℕ) → List ℕ
values zero i regs = []
values (suc n) i regs = regs i ∷ values n (suc i) regs

hex_word-newline : (w : ℕ) → lacks b'\n' (hex_word w) ≡ true
unfolding hex_word
hex_word-newline w =
    plain-lacks b'\n' (b'0' ∷ b'x' ∷ lower_digits 8 w) (omega arith) (plain-lower_digits 8 w)

strtoul16-line : (w : ℕ) → w < 2 ^ 32 → strtoul16 (hex_word w) ≡ w
strtoul16-line w h = ap strtoul16 (sym (append-nil (hex_word w))) ∙ strtoul16-hex_word w [] h refl

words_of-word :
    (w : ℕ) (rest : Text) → w < 2 ^ 32 → words_of (hex_word w ++ (b'\n' ∷ rest)) ≡ w ∷ words_of rest
words_of-word w rest h =
    ap (map strtoul16) (split_lines-line [] (hex_word w) rest (hex_word-newline w))
    ∙ ap (λ v. v ∷ words_of rest) (strtoul16-line w h)

words_of-registers :
    (n i : ℕ) (regs : ℕ → ℕ) (rest : Text)
    → ((r : ℕ) → regs r < 2 ^ 32)
    → words_of (dump_registers [] (b'\n' ∷ []) n i regs ++ rest) ≡ values n i regs ++ words_of rest
unfolding dump_registers values
words_of-registers zero i regs rest h = refl
words_of-registers (suc n) i regs rest h =
    let more = dump_registers [] (b'\n' ∷ []) n (suc i) regs in
    ap words_of (append_assoc (hex_word (regs i)) (b'\n' ∷ more) rest)
    ∙ words_of-word (regs i) (more ++ rest) (h i)
    ∙ ap (λ vs. regs i ∷ vs) (words_of-registers n (suc i) regs rest h)

words_of-floats :
    (has_fp : Bool) (n i : ℕ) (regs : ℕ → ℕ)
    → ((r : ℕ) → regs r < 2 ^ 32)
    → words_of (if has_fp then dump_registers [] (b'\n' ∷ []) n i regs else [])
      ≡ (if has_fp then values n i regs else [])
unfolding split_lines
words_of-floats false n i regs h = refl
words_of-floats true n i regs h =
    let text = dump_registers [] (b'\n' ∷ []) n i regs in
    ap words_of (sym (append-nil text))
    ∙ words_of-registers n i regs [] h
    ∙ append-nil (values n i regs)

-- The register file that the test bench leaves, read line by line as hexadecimal numbers, holds the
-- committed values of the scalar registers, the last pc, and the committed values of the
-- floating-point registers where the core has them; where the committed values can be read, for
-- registers and a pc of 32 bits.
pub words_of-final_dump :
    {Top : Type 0} (has_fp : Bool) (scalars floats : ℕ) (commit : List Bool) (core : Core)
    (r : Run Top) (value : ℕ → ℕ)
    → committed_values has_fp scalars (last_commits commit) core ≡ some value
    → ((i : ℕ) → value i < 2 ^ 32)
    → r.last_pc < 2 ^ 32
    → (text : Text) × (final_dump has_fp scalars floats commit core r ≡ some text)
      × (words_of text
          ≡ values scalars 0 value
            ++ (r.last_pc ∷ (if has_fp then values floats scalars value else [])))
unfolding final_dump dump_hex
words_of-final_dump has_fp scalars floats commit core r value e h hp =
    let tail = if has_fp then dump_registers [] (b'\n' ∷ []) floats scalars value else [] in
    (
      dump_hex has_fp scalars floats r.last_pc value,
      rw (final_dump, e),
      words_of-registers scalars 0 value (hex_word r.last_pc ++ (b'\n' ∷ tail)) h
          ∙ ap (λ vs. values scalars 0 value ++ vs)
              (words_of-word r.last_pc tail hp
                ∙ ap (λ vs. r.last_pc ∷ vs) (words_of-floats has_fp floats scalars value h)),
    )
