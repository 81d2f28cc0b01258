-- ===== src/Asm/Program.antt =====
-- `write_hex` and `main`: the options, the lines of the input, and the text of the output.
use rsd_m.Base.{
  ℕ, zero, suc, ◌+◌, ◌-◌, ◌/◌, ◌%◌, ◌^◌, Bool, true, false, not, ◌||◌, List, [], ◌∷◌, ◌++◌, Option,
  none, some, bit_and, ltb, ◌==◌, if◌then◌else◌,
}
use rsd_m.Base.Text.{Text, codes, peek, str_eq}
use rsd_m.Asm.State.{State, Action, Result, ok, err, initial, done, gets, ◌>>◌}
use rsd_m.Asm.Code.{read32}
use rsd_m.Asm.Fixups.{resolve_fixups}
use rsd_m.Asm.Line.Dispatch.{c_string, assemble_line}

-- A digit of `%X`.
abbrev pub hex_char : ℕ → ℕ
hex_char d = if ltb d 10 then b'0' + d else b'A' + (d - 10)

-- `%08X`, the `n` lowest digits of `w`, highest first.
unfoldable pub hex_digits : ℕ → ℕ → Text
hex_digits zero w = []
hex_digits (suc n) w = hex_char (w / 16 ^ n % 16) ∷ hex_digits n w

-- A line holds sixteen bytes, the word of the highest address first.
unfoldable pub hex_line : (ℕ → ℕ) → ℕ → Text
unfolding hex_digits
hex_line code a =
    hex_digits 8 (read32 code (a + 12))
    ++ (hex_digits 8 (read32 code (a + 8))
        ++ (hex_digits 8 (read32 code (a + 4)) ++ (hex_digits 8 (read32 code a) ++ (b'\n' ∷ []))))

unfoldable pub hex_end : ℕ → ℕ
hex_end max_phy =
    let end = bit_and ((max_phy + 15) % 2 ^ 32) (2 ^ 32 - 16) in
    if ltb end (0x10000 + 16) then 0x10000 + 16 else end

unfoldable pub hex_lines : ℕ → (ℕ → ℕ) → ℕ → List Text
unfolding hex_line
hex_lines zero code a = []
hex_lines (suc n) code a = hex_line code a ∷ hex_lines n code (a + 16)

-- The lines that `write_hex` prints.
unfoldable pub write_hex : State → List Text
unfolding hex_lines hex_end
write_hex s = hex_lines (hex_end s.max_phy / 16) s.code 0

-- A last line with no newline.
abbrev pub unfinished : Text → List Text
unfinished [] = []
unfinished (c ∷ r) = (c ∷ r) ∷ []

-- `fgets` with 1024 bytes: up to a newline, or 1023 bytes; `room` is what is left of those.
unfoldable pub fgets_from : Text → ℕ → Text → List Text
fgets_from got room [] = unfinished got
fgets_from got room (c ∷ p) = elim (c == b'\n' || room == 1) [
  | true ↦ (got ++ (c ∷ [])) ∷ fgets_from [] 1023 p
  | false ↦ fgets_from (got ++ (c ∷ [])) (room - 1) p
]

-- `if (len > 0 && line[len-1]=='\n') line[len-1]='\0'`.
abbrev pub chomp : Text → Text
chomp [] = []
chomp (c ∷ []) = if c == b'\n' then [] else c ∷ []
chomp (c ∷ d ∷ p) = c ∷ chomp (d ∷ p)

unfoldable pub assemble_lines : List Text → Action
assemble_lines [] s = done s
assemble_lines (l ∷ ls) s =
    elim (assemble_line (chomp (c_string l)) (record s { line_num = s.line_num + 1 })) [
      | err e ↦ err e
      | ok (u, s') ↦ assemble_lines ls s'
    ]

-- `main` from the input's bytes to the lines of the output file.
unfoldable pub assemble : Text → Result (List Text × State)
unfolding fgets_from assemble_lines resolve_fixups write_hex
assemble input =
    (do assemble_lines (fgets_from [] 1023 input); resolve_fixups; gets write_hex) initial

-- What the command line asks for; `input` is `none` for the standard input.
pub record Options : Type 0 where
  pub input : Option Text
  pub output : Text
  pub verbose : Bool

pub data Command : Type 0 where
  run : Options → Command
  help : Command
  unknown_option : Text → Command

unfoldable pub parse_args : Options → List Text → Command
parse_args o [] = run o
parse_args o (arg ∷ []) =
    if str_eq arg (codes "-v")
    then run (record o { verbose = true })
    else if str_eq arg (codes "--help") || str_eq arg (codes "-h")
    then help
    else if not (peek arg == b'-')
    then run (record o { input = some arg })
    else unknown_option arg
parse_args o (arg ∷ value ∷ args) = elim (str_eq arg (codes "-o")) [
  | true ↦ parse_args (record o { output = value }) args
  | false ↦ elim (str_eq arg (codes "-v")) [
    | true ↦ parse_args (record o { verbose = true }) (value ∷ args)
    | false ↦ elim (str_eq arg (codes "--help") || str_eq arg (codes "-h")) [
      | true ↦ help
      | false ↦ elim (peek arg == b'-') [
        | true ↦ unknown_option arg
        | false ↦ parse_args (record o { input = some arg }) (value ∷ args)
      ]
    ]
  ]
]

abbrev pub default_options : Options
default_options = record { input = none; output = codes "code.hex"; verbose = false }
