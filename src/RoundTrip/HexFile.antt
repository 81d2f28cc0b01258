-- ===== src/RoundTrip/HexFile.antt =====
-- The whole hex file: the disassembler's image is the assembler's code buffer.
use mathlib.Core.Path.{subst, sym}
use rsd_m.Base.{
  ℕ, zero, suc, ◌+◌, ◌*◌, ◌/◌, ◌%◌, ◌^◌, ◌≤◌, ◌<◌, ◌≡◌, refl, sym, ◌⊎◌, inl, inr, true, some, arith,
  ltb, lt→ltb,
}
use rsd_m.Base.Word.{add32}
use rsd_m.Base.Bits.{and_high, or_bytes}
use rsd_m.Asm.State.{State}
use rsd_m.Asm.Code.{read32, store32, max_code_bytes}
use rsd_m.Asm.Code.Memory.{byte_at, store32_frame}
use rsd_m.Asm.Program.{hex_line, hex_lines, hex_end, write_hex}
use rsd_m.Dis.HexIn.{Image, max_code, put_word, put_words, read_line, read_lines, blank, read_hex}
use rsd_m.RoundTrip.HexLines.{line_words, read_line-hex_line}

-- A buffer of bytes.
abbrev pub IsBytes : (ℕ → ℕ) → Type 0
IsBytes code = (q : ℕ) → code q < 256

-- From `lo` to `hi` the bytes come from `source`; all else is as before.
Copies : (ℕ → ℕ) → (ℕ → ℕ) → (ℕ → ℕ) → ℕ → ℕ → Type 0
Copies source before after lo hi =
    (q : ℕ) → (lo ≤ q → q < hi → after q ≡ source q) × ((q < lo) ⊎ (hi ≤ q) → after q ≡ before q)

Copies-join :
    (source before between after : ℕ → ℕ) (lo mid hi : ℕ)
    → lo ≤ mid
    → mid ≤ hi
    → Copies source before between lo mid
    → Copies source between after mid hi
    → Copies source before after lo hi
unfolding Copies
Copies-join source before between after lo mid hi hl hm first second q =
    let (a, b) = first q in let (c, d) = second q in (λ x y. grind arith, λ x. grind arith)

read32_sum :
    (code : ℕ → ℕ) (p : ℕ)
    → IsBytes code
    → read32 code p ≡ code p + code (p + 1) * 2 ^ 8 + code (p + 2) * 2 ^ 16 + code (p + 3) * 2 ^ 24
unfolding read32
read32_sum code p h =
    or_bytes (code p) (code (p + 1)) (code (p + 2)) (code (p + 3)) (h p) (h (p + 1)) (h (p + 2))

pub read32-bound : (code : ℕ → ℕ) → IsBytes code → (p : ℕ) → read32 code p < 2 ^ 32
read32-bound code h p = omega (arith, read32_sum code p h, h p, h (p + 1), h (p + 2), h (p + 3))

-- A place in a word is one of four.
place-cases : (p q : ℕ) → p ≤ q → q < p + 4 → (q ≡ p) ⊎ (q ≡ p + 1) ⊎ (q ≡ p + 2) ⊎ (q ≡ p + 3)
place-cases p q l h = ground arith

store32-Copies :
    (source code : ℕ → ℕ) (p : ℕ)
    → IsBytes source
    → Copies source code (store32 code p (read32 source p)) p (p + 4)
unfolding Copies
store32-Copies source code p h q =
    let (b0, b1, b2, b3) = byte_at code p (read32 source p) in
    let sum = read32_sum source p h in
    let h0 = h p in
    let h1 = h (p + 1) in
    let h2 = h (p + 2) in
    let h3 = h (p + 3) in
    (
      λ x y. elim (place-cases p q x y) [
        | inl e ↦ rw (e, b0) (omega (arith, sum))
        | inr (inl e) ↦ rw (e, b1) (omega (arith, sum))
        | inr (inr (inl e)) ↦ rw (e, b2) (omega (arith, sum))
        | inr (inr (inr e)) ↦ rw (e, b3) (omega (arith, sum))
      ],
      λ x. store32_frame code p (read32 source p) q x,
    )

put_word-Copies :
    (source : ℕ → ℕ) (m : Image) (p hi : ℕ)
    → IsBytes source
    → hi ≤ max_code
    → hi ≡ p + 4
    → Copies source m.code (put_word m p (read32 source p)).code p hi
unfolding put_word store32
put_word-Copies source m p hi h l e =
    let room : ltb (add32 p 3) max_code ≡ true =
      lt→ltb (add32 p 3) max_code (omega (arith, l, e)) in
    let inside : ltb p max_code ≡ true = lt→ltb p max_code (omega (arith, l, e)) in
    rw (room, inside, e) (store32-Copies source m.code p h)

put_words-Copies :
    (source : ℕ → ℕ) (m : Image) (a : ℕ)
    → IsBytes source
    → a + 16 ≤ max_code
    → Copies source m.code (put_words m a (some (line_words source a))).code a (a + 16)
unfolding put_words
put_words-Copies source m a h l =
    let m0 = put_word m a (read32 source a) in
    let m1 = put_word m0 (a + 4) (read32 source (a + 4)) in
    let m2 = put_word m1 (a + 8) (read32 source (a + 8)) in
    let m3 = put_word m2 (a + 12) (read32 source (a + 12)) in
    let a4 : add32 a 4 ≡ a + 4 = omega (arith, l) in
    let a8 : add32 a 8 ≡ a + 8 = omega (arith, l) in
    let a12 : add32 a 12 ≡ a + 12 = omega (arith, l) in
    let c1 =
      Copies-join source m.code m0.code m1.code a (a + 4) (a + 8) (omega arith) (omega arith)
        (put_word-Copies source m a (a + 4) h (omega (arith, l)) (omega arith))
        (put_word-Copies source m0 (a + 4) (a + 8) h (omega (arith, l)) (omega arith)) in
    let c2 =
      Copies-join source m.code m1.code m2.code a (a + 8) (a + 12) (omega arith) (omega arith) c1
        (put_word-Copies source m1 (a + 8) (a + 12) h (omega (arith, l)) (omega arith)) in
    rw (a4, a8, a12)
      (Copies-join source m.code m2.code m3.code a (a + 12) (a + 16) (omega arith) (omega arith) c2
        (put_word-Copies source m2 (a + 12) (a + 16) h (omega (arith, l)) (omega arith)))

Copies-none : (source code : ℕ → ℕ) (lo hi : ℕ) → hi ≤ lo → Copies source code code lo hi
unfolding Copies
Copies-none source code lo hi h q = (λ x y. absurd (omega (arith, h, x, y)), λ x. refl)

hex_lines-Copies :
    (n : ℕ) (source : ℕ → ℕ) (m : Image) (a hi : ℕ)
    → IsBytes source
    → hi ≤ max_code
    → hi ≡ a + n * 16
    → Copies source m.code (read_lines m a (hex_lines n source a)).code a hi
unfolding hex_lines read_lines
hex_lines-Copies zero source m a hi h l e = Copies-none source m.code a hi (omega (arith, e))
hex_lines-Copies (suc n) source m a hi h l e =
    let m1 = read_line m a (hex_line source a) in
    let next : add32 a 16 ≡ a + 16 = omega (arith, l, e) in
    let first : Copies source m.code m1.code a (a + 16) =
      rw (read_line-hex_line m a source (read32-bound source h))
        (put_words-Copies source m a h (omega (arith, l, e))) in
    subst (λ x. Copies source m.code (read_lines m1 x (hex_lines n source (a + 16))).code a hi)
      (sym next)
      (Copies-join source m.code m1.code (read_lines m1 (a + 16) (hex_lines n source (a + 16))).code
        a (a + 16) hi (omega arith) (omega (arith, e)) first
        (hex_lines-Copies n source m1 (a + 16) hi h l (omega (arith, e))))

-- The end of the file is a multiple of 16, and leaves nothing out.
pub hex_end-bounds :
    (n : ℕ)
    → n ≤ max_code_bytes
    → (hex_end n % 16 ≡ 0) × (n ≤ hex_end n) × (hex_end n ≤ max_code_bytes)
unfolding hex_end
hex_end-bounds n h = ground (arith, and_high 4 28 ((n + 15) % 2 ^ 32))

-- The file goes past the first 64 KB.
pub hex_end-least : (n : ℕ) → 65552 ≤ hex_end n
unfolding hex_end
hex_end-least n = ground arith

-- The disassembler reads back what the assembler wrote. For a buffer of bytes whose use ends
-- within it, the file is long enough for `max_phy`; up to the file's end every byte of the image
-- is the assembler's, and from there on it is the filler.
pub read_hex-write_hex :
    (s : State)
    → IsBytes s.code
    → s.max_phy ≤ max_code_bytes
    → (s.max_phy ≤ hex_end s.max_phy)
      × ((q : ℕ) → q < hex_end s.max_phy → (read_hex (write_hex s)).code q ≡ s.code q)
      × ((q : ℕ) → hex_end s.max_phy ≤ q → (read_hex (write_hex s)).code q ≡ 0xcd)
unfolding read_hex write_hex Copies
read_hex-write_hex s hb hm =
    let (e16, low, high) = hex_end-bounds s.max_phy hm in
    let n = hex_end s.max_phy / 16 in
    let all = hex_lines-Copies n s.code blank 0 (hex_end s.max_phy) hb high (omega (arith, e16)) in
    (low, λ q l. (all q).0 (omega arith) l, λ q l. (all q).1 (inr l))
