-- ===== src/Sim/Load.antt =====
-- `loadHexFile`: a line is four words of main memory, the word of the highest address first.
use rsd_m.Asm.Program.{unfinished}
use rsd_m.Board.{put, strtoul16}
use rsd_m.Base.Text.{Text}
use rsd_m.Base.Lists.{length, take, drop}
use rsd_m.Base.{
  ℕ, ◌+◌, ◌==◌, true, false, List, [], ◌∷◌, ◌++◌, some, none, Option, ltb, leb, if◌then◌else◌,
}

-- `getline`: the lines without their newlines; no line behind the last newline.
unfoldable pub split_lines : Text → Text → List Text
split_lines got [] = unfinished got
split_lines got (c ∷ p) = elim (c == b'\n') [
  | true ↦ got ∷ split_lines [] p
  | false ↦ split_lines (got ++ (c ∷ [])) p
]

pub data LoadResult : Type 0 where
  loaded : (ℕ → ℕ) → LoadResult
  too_large out_of_range : LoadResult

-- `strtoul(line.substr(pos, 8), nullptr, 16)`; `substr` throws for a `pos` behind the end.
unfoldable pub word_text : Text → ℕ → Option ℕ
unfolding strtoul16
word_text line pos =
    if ltb (length line) pos then none else some (strtoul16 (take 8 (drop pos line)))

-- `for (int i = 0; i < 4; i++)`, where `none` is an exception that nothing catches.
unfoldable pub load_words : (ℕ → ℕ) → ℕ → Option ℕ → Option ℕ → Option ℕ → Option ℕ → Option (ℕ → ℕ)
load_words mem a (some w0) (some w1) (some w2) (some w3) =
    some (put (put (put (put mem a w0) (a + 1) w1) (a + 2) w2) (a + 3) w3)
load_words mem a _ _ _ _ = none

unfoldable pub load_from : ℕ → ℕ → (ℕ → ℕ) → List Text → LoadResult
unfolding word_text load_words
load_from size a mem [] = loaded mem
load_from size a mem (line ∷ lines) = elim (leb size a) [
  | true ↦ too_large
  | false ↦
      elim (load_words mem a (word_text line 24) (word_text line 16) (word_text line 8)
        (word_text line 0)) [ none ↦ out_of_range | some mem' ↦ load_from size (a + 4) mem' lines ]
]

-- Main memory has `size` words, a multiple of four, and is filled before the file is read.
unfoldable pub load_hex_file : ℕ → Text → (ℕ → ℕ) → LoadResult
unfolding split_lines load_from
load_hex_file size text mem =
    load_from size 0 (λ q. if ltb q size then 0xcdcd_cdcd else mem q) (split_lines [] text)
