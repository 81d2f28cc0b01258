-- ===== src/Board/Loader.antt =====
-- `loader.c`: its arguments, the lines of the file, and the image in memory.
use rsd_m.Dis.HexIn.{scan_space}
use rsd_m.Board.Transfer.{transfer, Sending}
use rsd_m.Base.Text.{Text, is_digit, peek, next}
use rsd_m.Base.Lists.{length}
use rsd_m.Board.{put}
use rsd_m.Base.{
  ℕ, zero, suc, ◌+◌, ◌-◌, ◌*◌, ◌/◌, ◌^◌, ◌==◌, ◌||◌, if◌then◌else◌, true, false, Bool, List, [],
  ◌∷◌, Option, none, some, ltb, leb,
}

-- `fgets` with room for `room` bytes: up to a newline. The rest of the file is left.
unfoldable pub read_chunk : ℕ → Text → Text × Text
read_chunk zero p = ([], p)
read_chunk (suc room) [] = ([], [])
read_chunk (suc room) (c ∷ p) = elim (c == b'\n') [
  | true ↦ (c ∷ [], p)
  | false ↦ let (got, rest) = read_chunk room p in (c ∷ got, rest)
]

-- What `fgets` puts into the buffer from index `i` on, with a 0 behind it.
unfoldable pub overlay : Text → ℕ → (ℕ → ℕ) → ℕ → ℕ
overlay [] i line = put line i 0
overlay (c ∷ p) i line = overlay p (suc i) (put line i c)

-- The array `line` has 32 bytes, and `fgets` is told 35: what it reads fits with the 0 behind it
-- up to 31 bytes. More has no behaviour in C.
abbrev pub line_size : ℕ
line_size = 32

-- `for (j = 0; j < n; j++) prog[j + i * 32] = line[j]`.
unfoldable pub copy_line : ℕ → ℕ → (ℕ → ℕ) → (ℕ → ℕ) → ℕ → ℕ
copy_line zero i line prog = prog
copy_line (suc n) i line prog = put (copy_line n i line prog) (n + i * 32) (line n)

-- How the reading loop ends: at the end of the file, behind the array `line`, or with the text.
pub data Loading : Type 0 where
  short_file overrun : Loading
  loaded : (ℕ → ℕ) → Loading

-- The rounds of the reading loop that are left.
unfoldable pub load_lines : ℕ → ℕ → Text → (ℕ → ℕ) → (ℕ → ℕ) → Loading
unfolding read_chunk overlay copy_line
load_lines zero i [] line prog = loaded prog
load_lines zero i (c ∷ p) line prog = loaded prog
load_lines (suc n) i [] line prog = short_file
load_lines (suc n) i (c ∷ p) line prog =
    let (got, rest) = read_chunk 34 (c ∷ p) in
    let line' = overlay got 0 line in
    let more = load_lines n (suc i) rest line' (copy_line 32 i line' prog) in
    if leb line_size (length got) then overrun else more

-- `i` is compared with the number of words behind the first round.
abbrev pub line_rounds : ℕ → ℕ
line_rounds words = if words == 0 then 1 else words

-- Bytes of the machine that the program does not set before it reads them.
pub record Unset : Type 0 where
  pub line : ℕ → ℕ
  pub prog : ℕ → ℕ
  pub val : ℕ → ℕ
  pub beyond : Text
  pub mem : ℕ → ℕ

-- `for (t = 0; t < n; t++) mem[t] = 0`.
abbrev pub cleared : ℕ → (ℕ → ℕ) → ℕ → ℕ
cleared n mem q = if ltb q n then 0 else mem q

pub data Outcome : Type 0 where
  usage bad_size open_error size_mismatch undefined : Outcome
  memory_set : (ℕ → ℕ) → Outcome

abbrev scan_int : ℕ → Text → ℕ
scan_int v [] = v
scan_int v (c ∷ p) = let more = scan_int (v * 10 + (c - b'0')) p in if is_digit c then more else v

-- `atoi`: a sign, and a magnitude.
unfoldable pub atoi : Text → Bool × ℕ
atoi text =
    let p = scan_space text in
    if peek p == b'-'
    then (true, scan_int 0 (next p))
    else if peek p == b'+'
    then (false, scan_int 0 (next p))
    else (false, scan_int 0 p)

abbrev pub after_transfer : Option Sending → Outcome
after_transfer none = undefined
after_transfer (some s) = memory_set s.mem

-- A line does not fit `prog`, which has three bytes more than characters, below 15 bytes.
abbrev pub after_load : Unset → ℕ → Loading → Outcome
after_load u size short_file = size_mismatch
after_load u size overrun = undefined
after_load u size (loaded prog) =
    if ltb size 15
    then undefined
    else after_transfer (transfer prog u.beyond (size * 2) u.val (cleared 67108864 u.mem))

-- With a file of that name or none, and its size as the user gives it. Sizes that are negative,
-- or whose characters an `int` cannot count, have no behaviour in C.
unfoldable pub load_file : Unset → Option Text → Bool × ℕ → Outcome
unfolding load_lines transfer
load_file u file (negative, size) = if size == 0 then bad_size else elim file [
  | none ↦ open_error
  | some text ↦
      if negative || leb (2 ^ 30) size
      then undefined
      else after_load u size (load_lines (line_rounds (size / 16)) 0 text u.line u.prog)
]

-- `main` up to the transfer. `argv[1] == "-h"` compares addresses and is never true, so `-h`
-- gets the usage by the number of arguments.
unfoldable pub loader : Unset → (Text → Option Text) → List Text → Outcome
unfolding load_file atoi
loader u files (path ∷ size ∷ []) = load_file u (files path) (atoi size)
loader u files _ = usage
