-- ===== src/Sim/Dump.antt =====
-- `Dumper.h`: the serial output, the register files, and the binary numbers of the Kanata log.
use rsd_m.Base.Text.{Text}
use rsd_m.Base.Word.{u8}
use rsd_m.Base.{
  ℕ, zero, suc, ◌+◌, ◌-◌, ◌/◌, ◌%◌, ◌^◌, ◌==◌, ◌&&◌, ◌||◌, true, Bool, not, List, [], ◌∷◌, ◌++◌,
  ltb, if◌then◌else◌,
}

-- `SerialDumper`: what is in its file, where that is open, and on the standard output.
pub record Serial : Type 0 where
  pub is_open : Bool
  pub echo : Bool
  pub file : Text
  pub out : Text

-- `CheckSignal`, with the byte of the data that `fwrite` and `printf` take.
unfoldable pub check_signal : Bool → ℕ → Serial → Serial
check_signal we byte s = record s {
  file = if we && not (u8 byte == 0) && s.is_open then s.file ++ (u8 byte ∷ []) else s.file;
  out = if s.echo && we then s.out ++ (u8 byte ∷ []) else s.out;
}

-- The signals of the cycles, in order.
unfoldable pub check_all : List (Bool × ℕ) → Serial → Serial
unfolding check_signal
check_all [] s = s
check_all ((we, byte) ∷ rest) s = check_all rest (check_signal we byte s)

-- A digit of `%x`.
abbrev pub hex_lower : ℕ → ℕ
hex_lower d = if ltb d 10 then b'0' + d else b'a' + (d - 10)

unfoldable pub lower_digits : ℕ → ℕ → Text
lower_digits zero w = []
lower_digits (suc n) w = hex_lower (w / 16 ^ n % 16) ∷ lower_digits n w

-- `0x%08x`.
unfoldable pub hex_word : ℕ → Text
unfolding lower_digits
hex_word w = b'0' ∷ b'x' ∷ lower_digits 8 w

-- The registers from one on, each behind a text and before another.
unfoldable pub dump_registers : Text → Text → ℕ → ℕ → (ℕ → ℕ) → Text
unfolding hex_word
dump_registers before after zero i regs = []
dump_registers before after (suc n) i regs =
    before ++ (hex_word (regs i) ++ (after ++ dump_registers before after n (suc i) regs))

-- `RegisterFileHexDumper::Dump`: the scalar registers, the pc, and the floating-point ones where
-- the core has them.
unfoldable pub dump_hex : Bool → ℕ → ℕ → ℕ → (ℕ → ℕ) → Text
unfolding dump_registers hex_word
dump_hex has_fp scalars floats pc regs =
    dump_registers [] (b'\n' ∷ []) scalars 0 regs
    ++ (hex_word pc
        ++ (b'\n' ∷ (if has_fp then dump_registers [] (b'\n' ∷ []) floats scalars regs else [])))

-- `RegisterFileCSV_Dumper::Dump`: a line for a committed instruction.
unfoldable pub dump_csv : ℕ → ℕ → (ℕ → ℕ) → Text
unfolding dump_registers hex_word
dump_csv registers pc regs =
    hex_word pc ++ (dump_registers (b',' ∷ []) [] registers 0 regs ++ (b'\n' ∷ []))

-- The loop of `Bin2Str` from bit `n` down; `start` tells that a digit has been printed.
unfoldable pub binary_digits : ℕ → ℕ → Bool → Text × Bool
binary_digits zero b start = ([], start)
binary_digits (suc n) b start =
    let s = b / 2 ^ n % 2 == 1 in
    if start || s
    then (let (p, t) = binary_digits n b true in ((if s then b'1' else b'0') ∷ p, t))
    else binary_digits n b start

-- `Bin2Str` of a number that is not negative.
unfoldable pub bin2str : ℕ → ℕ → Bool → Text
unfolding binary_digits
bin2str b length zero_padding =
    let (p, start) = binary_digits length b zero_padding in if start then p else b'0' ∷ []
