-- ===== src/Board/Rounds.antt =====
-- Rounds of the sending loop: eight of them send a word.
use rsd_m.Board.{strtoul16, put}
use rsd_m.Base.Text.{Text}
use rsd_m.Board.Transfer.{Sending, transfer_step, val_text, transfer_loop}
use rsd_m.Base.{
  ℕ, zero, suc, ◌+◌, ◌-◌, ◌≡◌, sym, inl, inr, true, false, some, ◌∷◌, arith, ◌==◌, if◌then◌else◌,
  Bool-cases,
}

-- Eight characters from `j` on, at the places of `val` behind `0x`.
abbrev pub next_val : (ℕ → ℕ) → (ℕ → ℕ) → ℕ → ℕ → ℕ
next_val val prog j =
    let j1 = suc j in
    let j2 = suc j1 in
    let j3 = suc j2 in
    let j4 = suc j3 in
    let j5 = suc j4 in
    let j6 = suc j5 in
    put
      (put
        (put
          (put (put (put (put (put val 2 (prog j)) 3 (prog j1)) 4 (prog j2)) 5 (prog j3)) 6
            (prog j4))
          7 (prog j5))
        8 (prog j6))
      9 (prog (suc j6))

-- The word that eight characters make, as the source reads them.
unfoldable pub word_of : (ℕ → ℕ) → Text → ℕ → ℕ
word_of prog beyond j = strtoul16 (
    b'0'
    ∷ b'x'
    ∷ prog j
    ∷ prog (j + 1)
    ∷ prog (j + 2)
    ∷ prog (j + 3)
    ∷ prog (j + 4)
    ∷ prog (j + 5)
    ∷ prog (j + 6)
    ∷ prog (j + 7)
    ∷ beyond)

-- Some rounds of the loop.
unfoldable pub rounds : ℕ → (ℕ → ℕ) → Text → Sending → Sending
rounds zero prog beyond s = s
rounds (suc n) prog beyond s = rounds n prog beyond (transfer_step prog beyond s)

abbrev pub at_word : ℕ → ℕ → ℕ → (ℕ → ℕ) → (ℕ → ℕ) → Sending
at_word j k offset val mem = record { i = 2; j = j; k = k; offset = offset; val = val; mem = mem }

text_sent :
    (prog : ℕ → ℕ) (beyond : Text) (j : ℕ) (val : ℕ → ℕ)
    → val 0 ≡ b'0'
    → val 1 ≡ b'x'
    → strtoul16 (val_text (next_val val prog j) beyond) ≡ word_of prog beyond j
unfolding word_of
text_sent prog beyond j val h0 h1 =
    let e1 : suc j ≡ j + 1 = omega arith in
    let e2 : suc (suc j) ≡ j + 2 = omega arith in
    let e3 : suc (suc (suc j)) ≡ j + 3 = omega arith in
    let e4 : suc (suc (suc (suc j))) ≡ j + 4 = omega arith in
    let e5 : suc (suc (suc (suc (suc j)))) ≡ j + 5 = omega arith in
    let e6 : suc (suc (suc (suc (suc (suc j))))) ≡ j + 6 = omega arith in
    let e7 : suc (suc (suc (suc (suc (suc (suc j)))))) ≡ j + 7 = omega arith in
    rw (h0, h1, e7, e6, e5, e4, e3, e2, e1)

pub word_sent :
    (prog : ℕ → ℕ) (beyond : Text) (j k offset : ℕ) (val mem : ℕ → ℕ)
    → val 0 ≡ b'0'
    → val 1 ≡ b'x'
    → rounds 8 prog beyond (at_word j k offset val mem)
      ≡ at_word
          (j + 8)
          (if k == 0 then 3 else k - 1)
          (if k == 0 then offset + 4 else offset)
          (next_val val prog j)
          (put mem (offset + k) (word_of prog beyond j))
unfolding rounds transfer_step
word_sent prog beyond j k offset val mem h0 h1 =
    let e8 : suc (suc (suc (suc (suc (suc (suc (suc j))))))) ≡ j + 8 = omega arith in
    rw (sym e8, sym (text_sent prog beyond j val h0 h1))

pub rounds-add :
    (m n : ℕ) (prog : ℕ → ℕ) (beyond : Text) (s : Sending)
    → rounds (m + n) prog beyond s ≡ rounds n prog beyond (rounds m prog beyond s)
unfolding rounds
rounds-add zero n prog beyond s = let e : 0 + n ≡ n = omega arith in rw e
rounds-add (suc m) n prog beyond s =
    let e : suc m + n ≡ suc (m + n) = omega arith in
    rw e (rounds-add m n prog beyond (transfer_step prog beyond s))

step_j : (prog : ℕ → ℕ) (beyond : Text) (s : Sending) → (transfer_step prog beyond s).j ≡ suc s.j
unfolding transfer_step
step_j prog beyond s = elim (Bool-cases (s.i == 9)) [ inl e ↦ rw e | inr e ↦ rw e ]

-- As many rounds as characters are left, and then the test of `j`.
pub loop_rounds :
    (n : ℕ) (prog : ℕ → ℕ) (beyond : Text) (size : ℕ) (s : Sending)
    → size ≡ s.j + n
    → transfer_loop (suc n) prog beyond size s ≡ some (rounds n prog beyond s)
unfolding transfer_loop rounds
loop_rounds zero prog beyond size s h =
    let t : (s.j == size) ≡ true = ground arith in rw (t, transfer_loop)
loop_rounds (suc n) prog beyond size s h =
    let f : (s.j == size) ≡ false = ground arith in
    rw (transfer_loop, f)
      (loop_rounds n prog beyond size (transfer_step prog beyond s)
        (omega (arith, step_j prog beyond s)))
