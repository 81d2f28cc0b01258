-- ===== src/Board/Transfer.antt =====
-- The loop that sends a program: eight characters make a word, and the words of a line go to
-- memory last one first. `loader.c` and `run_simple.c` have the same loop.
use rsd_m.Base.Text.{Text}
use rsd_m.Board.{strtoul16, put}
use rsd_m.Base.{ℕ, zero, suc, ◌+◌, ◌-◌, true, false, Option, none, some, ◌∷◌, ◌==◌, if◌then◌else◌}

-- The variables of the loop; `val` is the text of a number, without a terminating 0.
pub record Sending : Type 0 where
  pub i : ℕ
  pub j : ℕ
  pub k : ℕ
  pub offset : ℕ
  pub val : ℕ → ℕ
  pub mem : ℕ → ℕ

-- `strtoul` reads on behind the ten bytes of `val`; `beyond` is what stands there.
abbrev pub val_text : (ℕ → ℕ) → Text → Text
val_text val beyond =
    val 0 ∷ val 1 ∷ val 2 ∷ val 3 ∷ val 4 ∷ val 5 ∷ val 6 ∷ val 7 ∷ val 8 ∷ val 9 ∷ beyond

-- One round, behind the test of `j`.
unfoldable pub transfer_step : (ℕ → ℕ) → Text → Sending → Sending
unfolding strtoul16
transfer_step prog beyond s =
    let val = put s.val s.i (prog s.j) in
    if s.i == 9
    then record {
      i = 2;
      j = suc s.j;
      k = if s.k == 0 then 3 else s.k - 1;
      offset = if s.k == 0 then s.offset + 4 else s.offset;
      val = val;
      mem = put s.mem (s.offset + s.k) (strtoul16 (val_text val beyond));
    }
    else record s { i = suc s.i; j = suc s.j; val = val }

-- `for (;;) { if (j == program_charsize) break; ... }`, on fuel.
unfoldable pub transfer_loop : ℕ → (ℕ → ℕ) → Text → ℕ → Sending → Option Sending
unfolding transfer_step
transfer_loop zero prog beyond charsize s = none
transfer_loop (suc f) prog beyond charsize s = elim (s.j == charsize) [
  | true ↦ some s
  | false ↦ transfer_loop f prog beyond charsize (transfer_step prog beyond s)
]

-- The loop from its start. `val` holds `0x`; its other bytes are whatever they are. A round
-- takes one character, so one round more than characters is enough.
unfoldable pub transfer : (ℕ → ℕ) → Text → ℕ → (ℕ → ℕ) → (ℕ → ℕ) → Option Sending
unfolding transfer_loop
transfer prog beyond charsize garbage mem =
    transfer_loop (suc charsize) prog beyond charsize
      (record { i = 2; j = 0; k = 3; offset = 0; val = put (put garbage 0 b'0') 1 b'x'; mem = mem })
