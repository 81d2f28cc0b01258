-- ===== src/Dis/Args.antt =====
-- The options of the disassembler's `main`, and the run that they ask for.
use rsd_m.Dis.HexIn.{scan_space}
use rsd_m.Base.Word.{u32, minus32}
use rsd_m.Base.Text.{
  Text, is_digit, is_alpha, codes, str_eq, peek, next, to_lower, peek1, is_xdigit, peek2,
}
use rsd_m.Base.Lists.{length}
use rsd_m.Dis.Listing.{Entry, disassemble}
use native.Mathlib.Nat.{pow-suc}
use rsd_m.Base.{
  ℕ, suc, ◌+◌, ◌-◌, ◌*◌, ◌^◌, ◌<◌, ◌==◌, ◌&&◌, ◌||◌, ◌≡◌, true, false, Bool, not, List, [], ◌∷◌,
  arith, ltb, leb, ◌∙◌, if◌then◌else◌, ap, lt→ltb, gt→leb, Option, some, none,
}

-- The value of a digit in the bases up to 36; no digit is 36 or more.
unfoldable pub digit_of : ℕ → ℕ
digit_of c = if is_digit c then c - b'0' else if is_alpha c then to_lower c - b'a' + 10 else 36

-- Digits of a base up to the first other character, without a bound.
unfoldable pub number_in : ℕ → ℕ → Text → ℕ
unfolding digit_of
number_in base v [] = v
number_in base v (c ∷ p) = elim (ltb (digit_of c) base) [
  | true ↦ number_in base (v * base + digit_of c) p
  | false ↦ v
]

-- `strtoul` with base 0, behind the sign: hexadecimal, octal or decimal by the prefix.
unfoldable pub by_prefix : Text → ℕ
unfolding number_in
by_prefix p =
    if peek p == b'0' && (peek1 p == b'x' || peek1 p == b'X') && is_xdigit (peek2 p)
    then number_in 16 0 (next (next p))
    else if peek p == b'0'
    then number_in 8 0 p
    else number_in 10 0 p

-- A 64-bit `unsigned long`, `ULONG_MAX` where it overflows, cut to a `uint32_t`.
unfoldable pub address_of : Text → ℕ
unfolding by_prefix
address_of text =
    let p = scan_space text in
    let negative = peek p == b'-' in
    let v = by_prefix (if negative || peek p == b'+' then next p else p) in
    if leb (2 ^ 64) v then 2 ^ 32 - 1 else if negative then minus32 (u32 v) else u32 v

pub record Options : Type 0 where
  pub input : Option Text
  pub raw_mode : Bool
  pub start : ℕ
  pub stop : ℕ

abbrev pub default_options : Options
default_options = record { input = none; raw_mode = false; start = 0x1000; stop = 0 }

pub data Command : Type 0 where
  run : Options → Command
  help : Command
  unknown_option : Text → Command

-- An option of one word; `none` where it ends the program.
unfoldable pub single : Text → Options → Option Options
single arg o =
    if str_eq arg (codes "-r")
    then some (record o { raw_mode = true })
    else if str_eq arg (codes "-t")
    then some (record o { raw_mode = false })
    else if not (peek arg == b'-')
    then some (record o { input = some arg })
    else none

abbrev pub refused : Text → Command
refused arg =
    if str_eq arg (codes "--help") || str_eq arg (codes "-h") then help else unknown_option arg

-- `-s` and `-e` take the next argument, where there is one.
unfoldable pub parse_options : List Text → Options → Command
unfolding single address_of
parse_options [] o = run o
parse_options (arg ∷ []) o = elim (single arg o) [ none ↦ refused arg | some o' ↦ run o' ]
parse_options (arg ∷ value ∷ args) o = elim (str_eq arg (codes "-s")) [
  | true ↦ parse_options args (record o { start = address_of value })
  | false ↦ elim (str_eq arg (codes "-e")) [
    | true ↦ parse_options args (record o { stop = address_of value })
    | false ↦ elim (single arg o) [ none ↦ refused arg | some o' ↦ parse_options (value ∷ args) o' ]
  ]
]

pub data Outcome : Type 0 where
  listed : List Entry → Outcome
  usage failed : Outcome

abbrev pub listed_or_failed : Option (List Entry) → Outcome
listed_or_failed none = failed
listed_or_failed (some es) = listed es

abbrev pub on_file : (ℕ → Bool) → Options → Option (List Text) → Outcome
on_file room o none = failed
on_file room o (some lines) = listed_or_failed (disassemble room o.raw_mode o.start o.stop lines)

abbrev pub run_command : (ℕ → Bool) → (Text → Option (List Text)) → Command → Outcome
run_command room files (run o) = elim o.input [
  | none ↦ failed
  | some name ↦ on_file room o (files name)
]
run_command room files help = usage
run_command room files (unknown_option arg) = failed

-- `main`, with the lines of the files that can be opened, and the memory that there is.
unfoldable pub dis_main : (ℕ → Bool) → (Text → Option (List Text)) → List Text → Outcome
unfolding parse_options disassemble
dis_main room files args = run_command room files (parse_options args default_options)

-- The number that digits of either case stand for, by their places.
unfoldable pub hex_value : Text → ℕ
unfolding digit_of
hex_value [] = 0
hex_value (c ∷ p) = digit_of c * 16 ^ length p + hex_value p

abbrev pub AllHex : Text → Type 0
AllHex [] = Unit
AllHex (c ∷ p) = (is_xdigit c ≡ true) × AllHex p

pub digit_of-bound : (c : ℕ) → is_xdigit c ≡ true → digit_of c < 16
unfolding digit_of
digit_of-bound c h = ground (arith, h)

number_in-hex_value :
    (v : ℕ) (p : Text) → AllHex p → number_in 16 v p ≡ v * 16 ^ length p + hex_value p
unfolding number_in hex_value
number_in-hex_value v [] h = omega arith
number_in-hex_value v (c ∷ p) h =
    let digit : ltb (digit_of c) 16 ≡ true = lt→ltb (digit_of c) 16 (digit_of-bound c h.0) in
    let P = 16 ^ length p in
    let power : 16 ^ suc (length p) ≡ 16 * P = omega (arith, pow-suc 16 (length p)) in
    let value : (v * 16 + digit_of c) * P + hex_value p
        ≡ v * 16 ^ suc (length p) + (digit_of c * P + hex_value p) =
      rw power (grind arith) in
    rw (digit, number_in) (number_in-hex_value (v * 16 + digit_of c) p h.1 ∙ value)

address_of-hex_value :
    (x c : ℕ) (p : Text)
    → (x == b'x' || x == b'X') ≡ true
    → AllHex (c ∷ p)
    → hex_value (c ∷ p) < 2 ^ 32
    → address_of (b'0' ∷ x ∷ c ∷ p) ≡ hex_value (c ∷ p)
unfolding address_of
address_of-hex_value x c p hx h small =
    let number : number_in 16 0 (c ∷ p) ≡ hex_value (c ∷ p) =
      number_in-hex_value 0 (c ∷ p) h ∙ omega arith in
    let fits : leb (2 ^ 64) (hex_value (c ∷ p)) ≡ false =
      gt→leb (2 ^ 64) (hex_value (c ∷ p)) (omega (arith, small)) in
    let same : u32 (hex_value (c ∷ p)) ≡ hex_value (c ∷ p) = omega (arith, small) in
    rw (hx, h.0, number, fits, same)

-- `-s` or `-e` with `0x` or `0X` and hexadecimal digits, of either case and any number, that stand
-- for an address of 32 bits sets the start or the end of the listing to that address, and the other
-- options are read as before.
pub parse_options-addresses :
    (x c : ℕ) (p : Text) (args : List Text) (o : Options)
    → (x == b'x' || x == b'X') ≡ true
    → AllHex (c ∷ p)
    → hex_value (c ∷ p) < 2 ^ 32
    → (parse_options (codes "-s" ∷ (b'0' ∷ x ∷ c ∷ p) ∷ args) o
        ≡ parse_options args (record o { start = hex_value (c ∷ p) }))
      × (parse_options (codes "-e" ∷ (b'0' ∷ x ∷ c ∷ p) ∷ args) o
          ≡ parse_options args (record o { stop = hex_value (c ∷ p) }))
unfolding parse_options
parse_options-addresses x c p args o hx h small =
    let a = address_of-hex_value x c p hx h small in
    (
      ap (λ v. parse_options args (record o { start = v })) a,
      ap (λ v. parse_options args (record o { stop = v })) a,
    )
