-- ===== src/Dis/Listing/Total.antt =====
-- The loop of the disassembler's `main` ends, and its entries cover the instructions in order.
use rsd_m.Dis.HexIn.{Image, read_hex, read32_at}
use rsd_m.Base.Text.{Text}
use rsd_m.Base.{
  ℕ, zero, suc, ◌-◌, ◌*◌, ◌≤◌, ◌≡◌, Bool, List, [], ◌∷◌, Option, none, some, ◌==◌, if◌then◌else◌,
}
use rsd_m.Base.Word.{add32}
use rsd_m.Dis.Decode.{Insn, decode}
use rsd_m.Dis.Listing.{Entry, disassemble_one, entry_line}

-- The instruction at an address, where instructions are left.
abbrev pub insn_at : Image → ℕ → ℕ → Option Insn
insn_at m pc zero = none
insn_at m pc (suc left) = some (decode (read32_at m pc))

-- The text for the instruction at an address, with the one behind it if there is one.
abbrev pub text_for : Bool → Image → ℕ → ℕ → Text
text_for raw_mode m pc left =
    let a = decode (read32_at m pc) in
    let next = insn_at m (add32 pc 4) (left - 1) in
    entry_line (disassemble_one raw_mode a next pc) a next pc

-- The entries take the `left` instructions from `pc` on between them, one after the other, and
-- each has the text of the instructions at its address.
abbrev pub Lists : Bool → Image → ℕ → ℕ → List Entry → Type 0
Lists raw_mode m pc left [] = left ≡ 0
Lists raw_mode m pc left (e ∷ es) =
    (e.at ≡ pc)
    × (1 ≤ e.taken)
    × (e.taken ≤ left)
    × (e.line ≡ text_for raw_mode m pc left)
    × Lists raw_mode m (add32 pc (e.taken * 4)) (left - e.taken) es

-- The end of the listing: the address that the user gives, or that of the code.
abbrev pub end_of : ℕ → List Text → ℕ
end_of stop lines = if stop == 0 then (read_hex lines).max_phy else stop
