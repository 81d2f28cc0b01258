-- ===== src/Board/Sent.antt =====
-- What the sending loop leaves in memory.
use rsd_m.Board.Rounds.{rounds, at_word, next_val, word_of, word_sent, rounds-add, loop_rounds}
use rsd_m.Board.{put}
use rsd_m.Base.Text.{Text}
use rsd_m.Board.Transfer.{Sending, transfer}
use rsd_m.Base.{
  ℕ, zero, suc, ◌+◌, ◌-◌, ◌*◌, ◌/◌, ◌%◌, ◌≤◌, ◌<◌, ◌≡◌, refl, sym, ap, ◌∙◌, ◌⊎◌, inl, inr, some,
  arith, ltb, ltb→lt, Bool-cases,
}

-- The word that a place in memory gets: the lines in order, the words of a line from its end.
unfoldable pub sent : (ℕ → ℕ) → Text → ℕ → ℕ
sent prog beyond q = word_of prog beyond (32 * (q / 4) + 8 * (3 - q % 4))

-- `n` lines are sent.
record Sent (prog : ℕ → ℕ) (beyond : Text) (mem0 : ℕ → ℕ) (n : ℕ) (s : Sending) : Type 0 where
  val : ℕ → ℕ
  mem : ℕ → ℕ
  here : s ≡ at_word (32 * n) 3 (4 * n) val mem
  zero_char : val 0 ≡ b'0'
  x_char : val 1 ≡ b'x'
  done : (q : ℕ) → q < 4 * n → mem q ≡ sent prog beyond q
  rest : (q : ℕ) → 4 * n ≤ q → mem q ≡ mem0 q

abbrev line_mem : (ℕ → ℕ) → Text → ℕ → ℕ → (ℕ → ℕ) → ℕ → ℕ
line_mem prog beyond j o mem =
    put
      (put (put (put mem (o + 3) (word_of prog beyond j)) (o + 2) (word_of prog beyond (j + 8)))
        (o + 1) (word_of prog beyond (j + 8 + 8)))
      (o + 0) (word_of prog beyond (j + 8 + 8 + 8))

abbrev line_val : (ℕ → ℕ) → ℕ → (ℕ → ℕ) → ℕ → ℕ
line_val prog j val =
    next_val (next_val (next_val (next_val val prog j) prog (j + 8)) prog (j + 8 + 8)) prog
      (j + 8 + 8 + 8)

line_run :
    (prog : ℕ → ℕ) (beyond : Text) (j o : ℕ) (val mem : ℕ → ℕ)
    → val 0 ≡ b'0'
    → val 1 ≡ b'x'
    → rounds 32 prog beyond (at_word j 3 o val mem)
      ≡ at_word (j + 8 + 8 + 8 + 8) 3 (o + 4) (line_val prog j val) (line_mem prog beyond j o mem)
line_run prog beyond j o val mem h0 h1 =
    rounds-add 8 24 prog beyond (at_word j 3 o val mem)
    ∙ ap (rounds 24 prog beyond) (word_sent prog beyond j 3 o val mem h0 h1)
    ∙ rounds-add 8 16 prog beyond _
    ∙ ap (rounds 16 prog beyond) (word_sent prog beyond (j + 8) 2 o _ _ h0 h1)
    ∙ rounds-add 8 8 prog beyond _
    ∙ ap (rounds 8 prog beyond) (word_sent prog beyond (j + 8 + 8) 1 o _ _ h0 h1)
    ∙ word_sent prog beyond (j + 8 + 8 + 8) 0 o _ _ h0 h1

sent_in_line :
    (prog : ℕ → ℕ) (beyond : Text) (n r : ℕ)
    → r < 4
    → sent prog beyond (4 * n + r) ≡ word_of prog beyond (32 * n + 8 * (3 - r))
unfolding sent
sent_in_line prog beyond n r h = ap (word_of prog beyond) (omega arith)

line_cases :
    (n q : ℕ)
    → q < 4 * n + 4
    → (q < 4 * n) ⊎ (q ≡ 4 * n + 0) ⊎ (q ≡ 4 * n + 1) ⊎ (q ≡ 4 * n + 2) ⊎ (q ≡ 4 * n + 3)
line_cases n q h = ground arith

line_mem_below :
    (prog : ℕ → ℕ) (beyond : Text) (j o q : ℕ) (mem : ℕ → ℕ)
    → q < o
    → line_mem prog beyond j o mem q ≡ mem q
line_mem_below prog beyond j o q mem h = ground arith

line_mem_above :
    (prog : ℕ → ℕ) (beyond : Text) (j o q : ℕ) (mem : ℕ → ℕ)
    → o + 4 ≤ q
    → line_mem prog beyond j o mem q ≡ mem q
line_mem_above prog beyond j o q mem h = ground arith

line_mem_at :
    (prog : ℕ → ℕ) (beyond : Text) (n q : ℕ) (mem : ℕ → ℕ)
    → 4 * n ≤ q
    → q < 4 * n + 4
    → line_mem prog beyond (32 * n) (4 * n) mem q ≡ sent prog beyond q
line_mem_at prog beyond n q mem l h = elim (line_cases n q h) [
  | inl e ↦ absurd (omega arith)
  | inr (inl e) ↦
      rw (e, sent_in_line prog beyond n 0 (omega arith))
        (let a : 32 * n + 8 + 8 + 8 ≡ 32 * n + 24 = omega arith in rw a (ground arith))
  | inr (inr (inl e)) ↦
      rw (e, sent_in_line prog beyond n 1 (omega arith))
        (let a : 32 * n + 8 + 8 ≡ 32 * n + 16 = omega arith in rw a (ground arith))
  | inr (inr (inr (inl e))) ↦ rw (e, sent_in_line prog beyond n 2 (omega arith)) (ground arith)
  | inr (inr (inr (inr e))) ↦ rw (e, sent_in_line prog beyond n 3 (omega arith)) (ground arith)
]

at_word-Sent :
    (prog : ℕ → ℕ) (beyond : Text) (val mem : ℕ → ℕ)
    → val 0 ≡ b'0'
    → val 1 ≡ b'x'
    → Sent prog beyond mem 0 (at_word 0 3 0 val mem)
at_word-Sent prog beyond val mem h0 h1 = record {
  val = val;
  mem = mem;
  here = refl;
  zero_char = h0;
  x_char = h1;
  done = λ q h. absurd (omega arith);
  rest = λ q h. refl;
}

one_line :
    (prog : ℕ → ℕ) (beyond : Text) (mem0 : ℕ → ℕ) (n : ℕ) (s : Sending)
    → Sent prog beyond mem0 n s
    → Sent prog beyond mem0 (suc n) (rounds 32 prog beyond s)
one_line prog beyond mem0 n s h =
    let e : 32 * n + 8 + 8 + 8 + 8 ≡ 32 * suc n = omega arith in
    let o : 4 * n + 4 ≡ 4 * suc n = omega arith in
    record {
      val = line_val prog (32 * n) h.val;
      mem = line_mem prog beyond (32 * n) (4 * n) h.mem;
      here = rw h.here (
          rw (sym e, sym o)
            (line_run prog beyond (32 * n) (4 * n) h.val h.mem h.zero_char h.x_char));
      zero_char = h.zero_char;
      x_char = h.x_char;
      done = λ q l. elim (Bool-cases (ltb q (4 * n))) [
        | inl b ↦
            line_mem_below prog beyond (32 * n) (4 * n) q h.mem (ltb→lt q (4 * n) b)
            ∙ h.done q (ltb→lt q (4 * n) b)
        | inr b ↦ line_mem_at prog beyond n q h.mem (ground arith) (omega arith)
      ];
      rest = λ q l.
          line_mem_above prog beyond (32 * n) (4 * n) q h.mem (omega arith)
          ∙ h.rest q (omega arith);
    }

rounds-Sent :
    (prog : ℕ → ℕ) (beyond : Text) (n : ℕ) (val mem : ℕ → ℕ)
    → val 0 ≡ b'0'
    → val 1 ≡ b'x'
    → Sent prog beyond mem n (rounds (32 * n) prog beyond (at_word 0 3 0 val mem))
unfolding rounds
rounds-Sent prog beyond zero val mem h0 h1 = at_word-Sent prog beyond val mem h0 h1
rounds-Sent prog beyond (suc n) val mem h0 h1 =
    let e : 32 * suc n ≡ 32 * n + 32 = omega arith in
    rw (e, rounds-add (32 * n) 32 prog beyond (at_word 0 3 0 val mem))
      (one_line prog beyond mem n (rounds (32 * n) prog beyond (at_word 0 3 0 val mem))
        (rounds-Sent prog beyond n val mem h0 h1))

-- What memory holds of a program of `n` lines.
pub record Transferred (prog : ℕ → ℕ) (beyond : Text) (n : ℕ) (before after : ℕ → ℕ) : Type 0 where
  pub words : (q : ℕ) → q < 4 * n → after q ≡ sent prog beyond q
  pub others : (q : ℕ) → 4 * n ≤ q → after q ≡ before q

-- The sending loop ends for a program of whole lines; then each of its words is in memory, those
-- of a line in reverse order, and nothing else has changed.
pub transfer-words :
    (prog : ℕ → ℕ) (beyond : Text) (n : ℕ) (garbage mem : ℕ → ℕ)
    → (s : Sending) × (transfer prog beyond (32 * n) garbage mem ≡ some s)
      × Transferred prog beyond n mem s.mem
unfolding transfer
transfer-words prog beyond n garbage mem =
    let val = put (put garbage 0 b'0') 1 b'x' in
    let start = at_word 0 3 0 val mem in
    let h = rounds-Sent prog beyond n val mem refl refl in
    let same = ap (λ (t : Sending). t.mem) h.here in
    (
      rounds (32 * n) prog beyond start,
      loop_rounds (32 * n) prog beyond (32 * n) start (omega arith),
      record {
        words = λ q l. ap (λ (f : ℕ → ℕ). f q) same ∙ h.done q l;
        others = λ q l. ap (λ (f : ℕ → ℕ). f q) same ∙ h.rest q l;
      },
    )
