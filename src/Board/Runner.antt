-- ===== src/Board/Runner.antt =====
-- `run_simple.c`: the same transfer with fixed sizes, and a polling loop that ends.
use rsd_m.Board.Program.{program_at}
use rsd_m.Board.Loader.{cleared}
use rsd_m.Base.Text.{Text}
use rsd_m.Board.Transfer.{transfer, Sending}
use rsd_m.Base.{
  ℕ, zero, suc, ◌*◌, ◌/◌, ◌==◌, ◌&&◌, if◌then◌else◌, true, false, List, [], ◌∷◌, ◌++◌, Option, none,
  some,
}

abbrev pub program_wordsize : ℕ
program_wordsize = 65536 / 16

abbrev pub program_charsize : ℕ
program_charsize = program_wordsize * 16 * 2

-- What the registers of the board show in a round.
pub record Registers : Type 0 where
  pub empty : ℕ
  pub serial : ℕ
  pub last_pc : ℕ
  pub committed : ℕ

-- What a round prints: a character of the serial output, or the state of the core.
pub data Printed : Type 0 where
  serial_char : ℕ → Printed
  progress : ℕ → ℕ → Printed

pub record Polling : Type 0 where
  pub t : ℕ
  pub u : ℕ
  pub out : List Printed

abbrev pub serial_out : Registers → List Printed
serial_out r = if r.empty == 1 then [] else serial_char r.serial ∷ []

-- One round of the loop; every `period + 1` rounds it prints the state and counts it.
unfoldable pub poll_step : ℕ → Registers → Polling → Polling
poll_step period r s =
    if s.t == period
    then record {
      t = 0;
      u = suc s.u;
      out = s.out ++ (serial_out r ++ (progress r.last_pc r.committed ∷ []));
    }
    else record { t = suc s.t; u = s.u; out = s.out ++ serial_out r }

-- The loop breaks in the round in which `u` gets to 10; `device` gives the registers by round.
unfoldable pub poll_loop : ℕ → (ℕ → Registers) → ℕ → Polling → Option Polling
unfolding poll_step
poll_loop zero device n s = none
poll_loop (suc f) device n s =
    let r = poll_step 10000000 (device n) s in
    elim (s.t == 10000000 && r.u == 10) [ true ↦ some r | false ↦ poll_loop f device (suc n) r ]

-- `main` up to the polling loop: the text that `programinit` sets is sent. `garbage` is what
-- stands in `val`, and `beyond` behind it.
unfoldable pub send_program : Text → (ℕ → ℕ) → (ℕ → ℕ) → Option Sending
unfolding transfer
send_program beyond garbage mem =
    transfer program_at beyond program_charsize garbage (cleared (program_wordsize * 16) mem)
