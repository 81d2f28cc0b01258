-- ===== src/Sim/Loaded.antt =====
-- The test bench loads the assembler's hex file as its code buffer.
use rsd_m.Sim.Lines.{line_text, line_texts, split-hex_lines, word_texts}
use rsd_m.Asm.Invariant.Program.{assembled-IsWell, assembled_lines}
use rsd_m.Asm.State.{ok, State}
use rsd_m.RoundTrip.HexFile.{IsBytes, hex_end-bounds}
use rsd_m.Board.Loaded.{file_text}
use rsd_m.Sim.Load.{loaded, load_from, load_words, load_hex_file}
use rsd_m.Asm.Code.{read32}
use rsd_m.Board.{put}
use rsd_m.Base.Text.{Text}
use rsd_m.Asm.Program.{assemble, hex_end}
use rsd_m.Base.{
  ℕ, zero, suc, ◌+◌, ◌*◌, ◌/◌, ◌<◌, ◌≤◌, ◌≡◌, refl, false, List, ◌∷◌, arith, ltb, leb, ◌∙◌,
  if◌then◌else◌, inl, inr, Bool-cases, ◌⊎◌, leb→le, leb→gt, gt→leb, lt→ltb,
}

-- From word `lo` to `hi` memory has the words of the code, and elsewhere what it had.
pub record HasWords (code : ℕ → ℕ) (lo hi : ℕ) (mem mem' : ℕ → ℕ) : Type 0 where
  pub words : (q : ℕ) → lo ≤ q → q < hi → mem' q ≡ read32 code (4 * q)
  pub others : (q : ℕ) → (q < lo) ⊎ (hi ≤ q) → mem' q ≡ mem q

abbrev line_loaded : (ℕ → ℕ) → ℕ → (ℕ → ℕ) → ℕ → ℕ
line_loaded code a mem =
    put
      (put (put (put mem a (read32 code (4 * a))) (a + 1) (read32 code (4 * a + 4))) (a + 2)
        (read32 code (4 * a + 8)))
      (a + 3) (read32 code (4 * a + 12))

line_cases : (a q : ℕ) → a ≤ q → q < a + 4 → (q ≡ a) ⊎ (q ≡ a + 1) ⊎ (q ≡ a + 2) ⊎ (q ≡ a + 3)
line_cases a q l u = ground arith

line_loaded_other :
    (code : ℕ → ℕ) (a q : ℕ) (mem : ℕ → ℕ)
    → (q < a) ⊎ (a + 4 ≤ q)
    → line_loaded code a mem q ≡ mem q
line_loaded_other code a q mem (inl h) = ground (arith, h)
line_loaded_other code a q mem (inr h) = ground (arith, h)

line_loaded_at :
    (code : ℕ → ℕ) (a q : ℕ) (mem : ℕ → ℕ)
    → a ≤ q
    → q < a + 4
    → line_loaded code a mem q ≡ read32 code (4 * q)
line_loaded_at code a q mem l u = elim (line_cases a q l u) [
  | inl e ↦ rw e (ground arith)
  | inr (inl e) ↦ let k : 4 * a + 4 ≡ 4 * (a + 1) = omega arith in rw (e, k) (ground arith)
  | inr (inr (inl e)) ↦ let k : 4 * a + 8 ≡ 4 * (a + 2) = omega arith in rw (e, k) (ground arith)
  | inr (inr (inr e)) ↦ let k : 4 * a + 12 ≡ 4 * (a + 3) = omega arith in rw (e, k) (ground arith)
]

line_reads :
    (size a b : ℕ) (code mem : ℕ → ℕ) (ls : List Text)
    → IsBytes code
    → b ≡ 4 * a
    → a + 4 ≤ size
    → load_from size a mem (line_text code b ∷ ls)
      ≡ load_from size (a + 4) (line_loaded code a mem) ls
unfolding load_from load_words
line_reads size a b code mem ls hc e h =
    let (t0, t1, t2, t3) = word_texts code b hc in
    let room : leb size a ≡ false = gt→leb size a (omega (arith, h)) in
    rw (load_from, room, t0, t1, t2, t3, e)

next_words :
    (code : ℕ → ℕ) (a n : ℕ) (mem mem' : ℕ → ℕ)
    → HasWords code (a + 4) (a + 4 + 4 * n) (line_loaded code a mem) mem'
    → HasWords code a (a + 4 * suc n) mem mem'
next_words code a n mem mem' h = record {
  words = λ q l u. elim (Bool-cases (leb (a + 4) q)) [
    | inl later ↦ h.words q (leb→le (a + 4) q later) (omega (arith, u))
    | inr now ↦
        h.others q (inl (leb→gt (a + 4) q now))
        ∙ line_loaded_at code a q mem l (leb→gt (a + 4) q now)
  ];
  others = λ q o. elim o [
    | inl b ↦ h.others q (inl (omega (arith, b))) ∙ line_loaded_other code a q mem (inl b)
    | inr b ↦
        h.others q (inr (omega (arith, b)))
        ∙ line_loaded_other code a q mem (inr (omega (arith, b)))
  ];
}

load_from-HasWords :
    (n size a b : ℕ) (code mem : ℕ → ℕ)
    → IsBytes code
    → b ≡ 4 * a
    → a + 4 * n ≤ size
    → (mem' : ℕ → ℕ) × (load_from size a mem (line_texts n code b) ≡ loaded mem')
      × HasWords code a (a + 4 * n) mem mem'
unfolding load_from
load_from-HasWords zero size a b code mem hc e h =
    (mem, refl, record { words = λ q l u. absurd (omega (arith, l, u)); others = λ q o. refl })
load_from-HasWords (suc n) size a b code mem hc e h =
    let (mem', runs, holds) =
      load_from-HasWords n size (a + 4) (b + 16) code (line_loaded code a mem) hc (omega (arith, e))
        (omega (arith, h)) in
    (
      mem',
      line_reads size a b code mem (line_texts n code (b + 16)) hc e (omega (arith, h)) ∙ runs,
      next_words code a n mem mem' holds,
    )

filler :
    (size q : ℕ) (mem : ℕ → ℕ)
    → q < size
    → (if ltb q size then 0xcdcd_cdcd else mem q) ≡ 0xcdcd_cdcd
filler size q mem h = rw (lt→ltb q size h)

-- What the assembler wrote, the test bench loads: where `assemble` succeeds and main memory is
-- large enough, `loadHexFile` ends with memory holding the words of the assembler's code buffer,
-- and the filler behind them.
pub load_hex_file-HasWords :
    (input : Text) (lines : List Text) (s : State) (size : ℕ) (mem : ℕ → ℕ)
    → assemble input ≡ ok (lines, s)
    → hex_end s.max_phy ≤ 4 * size
    → (mem' : ℕ → ℕ) × (load_hex_file size (file_text lines) mem ≡ loaded mem')
      × ((q : ℕ) → 4 * q < hex_end s.max_phy → mem' q ≡ read32 s.code (4 * q))
      × ((q : ℕ) → hex_end s.max_phy ≤ 4 * q → q < size → mem' q ≡ 0xcdcd_cdcd)
unfolding load_hex_file
load_hex_file-HasWords input lines s size mem e room =
    let w = assembled-IsWell input lines s e in
    let (whole, low, high) = hex_end-bounds s.max_phy w.top in
    let n = hex_end s.max_phy / 16 in
    let filled : ℕ → ℕ = λ q. if ltb q size then 0xcdcd_cdcd else mem q in
    let (mem', runs, holds) =
      load_from-HasWords n size 0 0 s.code filled w.bytes (omega arith)
        (omega (arith, whole, room)) in
    (
      mem',
      rw (load_hex_file, assembled_lines input lines s e, split-hex_lines n s.code 0) runs,
      λ q l. holds.words q (omega arith) (omega (arith, l, whole)),
      λ q l k. holds.others q (inr (omega (arith, l, whole))) ∙ filler size q mem k,
    )
