-- ===== src/Board/Image.antt =====
-- What the loader does with the assembler's output file.
use rsd_m.Asm.Invariant.Program.{assembled-IsWell, assembled_lines}
use rsd_m.Asm.Program.{assemble, hex_lines, hex_end}
use rsd_m.Asm.State.{ok, State}
use rsd_m.Board.Loaded.{file_text, load_lines-overrun}
use rsd_m.Board.Loader.{loader, load_file, Unset, atoi, undefined, line_rounds}
use rsd_m.RoundTrip.HexFile.{hex_end-bounds, hex_end-least}
use rsd_m.Base.Text.{Text}
use rsd_m.Base.{
  ℕ, suc, ◌*◌, ◌/◌, ◌^◌, ◌<◌, ◌≡◌, arith, false, some, List, [], ◌∷◌, leb, ◌==◌, ◌∙◌, ap, Option,
  ◌-◌,
}

load_file-undefined :
    (u : Unset) (code : ℕ → ℕ) (n size : ℕ)
    → size ≡ 16 * suc n
    → size < 2 ^ 30
    → load_file u (some (file_text (hex_lines (suc n) code 0))) (false, size) ≡ undefined
unfolding load_file
load_file-undefined u code n size e small =
    let some_size : (size == 0) ≡ false = ground (arith, e) in
    let fits : leb (2 ^ 30) size ≡ false = ground (arith, small) in
    let rounds : line_rounds (size / 16) ≡ suc n = ground (arith, e) in
    rw (some_size, fits, rounds, load_lines-overrun n 0 0 code u.line u.prog)

-- The loader has no defined behaviour on what the assembler writes: where `assemble` succeeds, the
-- file that `loader` opens has the lines of its output, and the size argument is the file's size in
-- bytes of code, whatever stands in the variables that are not set.
pub loader-undefined :
    (input : Text) (lines : List Text) (s : State) (u : Unset) (files : Text → Option Text)
    (path size : Text)
    → assemble input ≡ ok (lines, s)
    → files path ≡ some (file_text lines)
    → atoi size ≡ (false, hex_end s.max_phy)
    → loader u files (path ∷ size ∷ []) ≡ undefined
unfolding loader
loader-undefined input lines s u files path size e ef es =
    let w = assembled-IsWell input lines s e in
    let (whole, low, high) = hex_end-bounds s.max_phy w.top in
    let n = hex_end s.max_phy / 16 - 1 in
    let count : hex_end s.max_phy / 16 ≡ suc n = omega (arith, whole, hex_end-least s.max_phy) in
    let text : lines ≡ hex_lines (suc n) s.code 0 =
      assembled_lines input lines s e ∙ ap (λ k. hex_lines k s.code 0) count in
    rw (ef, es, text)
      (load_file-undefined u s.code n (hex_end s.max_phy) (omega (arith, whole, count))
        (omega (arith, high)))
