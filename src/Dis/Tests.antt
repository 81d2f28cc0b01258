-- ===== src/Dis/Tests.antt =====
-- The disassembler's theorems on concrete instructions.
use rsd_m.Base.Text.{codes}
use rsd_m.Dis.Args.{parse_options, default_options, hex_value, parse_options-addresses}
use rsd_m.Base.{◌≤◌, ◌≡◌, some, [], ◌∷◌, arith, refl}
use rsd_m.Dis.Decode.{Insn, decode}
use rsd_m.Dis.Match.Rules.{match_traditional}
use rsd_m.Dis.Match.Consumes.{window, match_traditional-window}

-- LUI A, #0x12 and ORI A, A, #0x345.
abbrev upper : Insn
upper = decode 0x7B80_0012

abbrev lower : Insn
lower = decode 0x1F8E_068A

match_traditional-window_example :
    (1 ≤ (match_traditional upper (some lower) 0x1000).consumed)
    × ((match_traditional upper (some lower) 0x1000).consumed ≤ window (some lower))
match_traditional-window_example = match_traditional-window upper (some lower) 0x1000

parse_options-addresses_example :
    (parse_options (codes "-s" ∷ codes "0x1aC0" ∷ codes "a.hex" ∷ []) default_options
      ≡ parse_options (codes "a.hex" ∷ []) (record default_options { start = 0x1ac0 }))
    × (parse_options (codes "-e" ∷ codes "0x1aC0" ∷ codes "a.hex" ∷ []) default_options
        ≡ parse_options (codes "a.hex" ∷ []) (record default_options { stop = 0x1ac0 }))
unfolding hex_value
parse_options-addresses_example =
    parse_options-addresses b'x' b'1' (codes "aC0") (codes "a.hex" ∷ []) default_options refl
      (refl, (refl, (refl, (refl, tt)))) (omega arith)
