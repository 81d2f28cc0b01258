-- ===== src/Dis/Listing.antt =====
-- `main` of the disassembler: the instructions of a range, and the lines printed for them.
pub mod Total
use rsd_m.Base.{
  ℕ, zero, suc, ◌-◌, ◌*◌, ◌/◌, Bool, not, ◌||◌, List, [], ◌∷◌, ◌++◌, Option, none, some, leb, ◌==◌,
  if◌then◌else◌,
}
use rsd_m.Base.Lists.{length, drop}
use rsd_m.Base.Text.{Text, codes}
use rsd_m.Base.Word.{add32}
use rsd_m.Dis.Decode.{Insn, decode}
use rsd_m.Dis.Print.{show_hex}
use rsd_m.Dis.Raw.{dis_raw}
use rsd_m.Dis.Match.{Matched}
use rsd_m.Dis.Match.Rules.{match_traditional}
use rsd_m.Dis.HexIn.{Image, read_hex, read32_at}

-- The instructions from `start_addr` on.
unfoldable pub decode_from : Image → ℕ → ℕ → List Insn
decode_from m pc zero = []
decode_from m pc (suc n) = decode (read32_at m pc) ∷ decode_from m (add32 pc 4) n

abbrev pub head_of : List Insn → Option Insn
head_of [] = none
head_of (b ∷ rest) = some b

-- One entry of the listing, in either mode.
unfoldable pub disassemble_one : Bool → Insn → Option Insn → ℕ → Matched
disassemble_one raw_mode a next pc =
    if raw_mode then record { consumed = 1; out = dis_raw a pc } else match_traditional a next pc

next_raw : Option Insn → Text
next_raw none = []
next_raw (some b) = show_hex 8 b.raw

-- Address, words and text.
unfoldable pub entry_line : Matched → Insn → Option Insn → ℕ → Text
unfolding next_raw
entry_line m a next pc =
    if m.consumed == 1
    then codes "  "
      ++ (show_hex 8 pc ++ (codes "  " ++ (show_hex 8 a.raw ++ (codes "          " ++ m.out))))
    else codes "  "
      ++ (show_hex 8 pc
          ++ (codes "  "
              ++ (show_hex 8 a.raw ++ (codes " " ++ (next_raw next ++ (codes "  " ++ m.out))))))

pub record Entry : Type 0 where
  pub at : ℕ
  pub taken : ℕ
  pub line : Text

abbrev pub prepend : Entry → Option (List Entry) → Option (List Entry)
prepend e none = none
prepend e (some es) = some (e ∷ es)

-- The loop, on fuel: the number of instructions is enough.
unfoldable pub listing : ℕ → Bool → ℕ → List Insn → Option (List Entry)
unfolding disassemble_one entry_line
listing fuel raw_mode pc [] = some []
listing zero raw_mode pc (a ∷ rest) = none
listing (suc fuel) raw_mode pc (a ∷ rest) =
    let m = disassemble_one raw_mode a (head_of rest) pc in
    let e : Entry = record {
      at = pc;
      taken = m.consumed;
      line = entry_line m a (head_of rest) pc;
    } in
    prepend e (listing fuel raw_mode (add32 pc (m.consumed * 4)) (drop (m.consumed - 1) rest))

-- The whole program on the lines of the input, from the address `start` to `stop`, where 0
-- stands for the end of the code. `room` says whether `calloc` gives memory for that many
-- instructions. `none` is the exit with no code to disassemble, or with no memory.
unfoldable pub disassemble : (ℕ → Bool) → Bool → ℕ → ℕ → List Text → Option (List Entry)
unfolding decode_from listing
disassemble room raw_mode start stop lines =
    let m = read_hex lines in
    let end = if stop == 0 then m.max_phy else stop in
    let count = (end - start) / 4 in
    let insns = decode_from m start count in
    if leb end start || not (room count) then none else listing (length insns) raw_mode start insns
