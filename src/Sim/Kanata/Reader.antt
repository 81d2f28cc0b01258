-- ===== src/Sim/Kanata/Reader.antt =====
-- A reader of the log, which knows its format and nothing of the dumper: the lines of stages, their
-- fields behind tabs, and the numbers in them.
use rsd_m.Sim.Load.{split_lines}
use rsd_m.Base.Text.{Text, codes, str_eq}
use rsd_m.Base.{
  ℕ, ◌+◌, ◌-◌, ◌*◌, ◌%◌, ◌^◌, Bool, true, false, Option, none, some, List, [], ◌∷◌, ◌++◌, ◌==◌,
  if◌then◌else◌,
}

pub record Entry : Type 0 where
  pub stage : ℕ
  pub stall : Bool
  pub clear : Bool
  pub sid : ℕ
  pub mid : ℕ

-- The texts between the tabs.
unfoldable pub split_tabs : Text → Text → List Text
split_tabs got [] = got ∷ []
split_tabs got (c ∷ p) = elim (c == b'\t') [
  | true ↦ got ∷ split_tabs [] p
  | false ↦ split_tabs (got ++ (c ∷ [])) p
]

-- A decimal number behind the digits of `v`.
unfoldable pub decimal_value : ℕ → Text → ℕ
decimal_value v [] = v
decimal_value v (c ∷ t) = decimal_value (v * 10 + (c - b'0')) t

-- A decimal number with its sign, as a 32-bit pattern.
unfoldable pub signed_value : Text → ℕ
unfolding decimal_value
signed_value [] = 0
signed_value (c ∷ t) =
    if c == b'-' then (2 ^ 32 - decimal_value 0 t) % 2 ^ 32 else decimal_value 0 (c ∷ t)

-- `S`, the stage, whether it is valid, stalls and is cleared, the two numbers of the operation and
-- a comment.
unfoldable pub of_fields : List Text → Option Entry
unfolding signed_value
of_fields (s ∷ stage ∷ valid ∷ stall ∷ clear ∷ sid ∷ mid ∷ str ∷ []) =
    if str_eq s (codes "S")
    then some (record {
      stage = signed_value stage;
      stall = str_eq stall (codes "1");
      clear = str_eq clear (codes "1");
      sid = signed_value sid;
      mid = signed_value mid;
    })
    else none
of_fields _ = none

unfoldable pub read_entry : Text → Option Entry
unfolding split_tabs of_fields
read_entry line = of_fields (split_tabs [] line)

abbrev pub prepend : Option Entry → List Entry → List Entry
prepend none es = es
prepend (some e) es = e ∷ es

unfoldable pub read_lines : List Text → List Entry
unfolding read_entry
read_lines [] = []
read_lines (line ∷ lines) = prepend (read_entry line) (read_lines lines)

-- The stages that a log shows, in its order.
unfoldable pub read_log : Text → List Entry
unfolding split_lines read_lines
read_log text = read_lines (split_lines [] text)
