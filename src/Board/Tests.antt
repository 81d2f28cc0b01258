-- ===== src/Board/Tests.antt =====
-- The loaders on concrete files and registers.
use rsd_m.Dis.Args.{hex_value}
use rsd_m.Board.Literal.{send_program-literal, digits_at}
use rsd_m.Board.Watch.{View, watch, chars, states, received, watch-shown}
use rsd_m.Asm.Code.{emit32}
use rsd_m.Asm.Line.Base.{emit_nop}
use rsd_m.Asm.Line.Directives.{directive}
use rsd_m.Asm.Line.Dispatch.{assemble_line}
use rsd_m.Board.Sent.{Transferred, transfer-words}
use rsd_m.Board.Polls.{reports, poll_loop-ends}
use rsd_m.Board.Loaded.{file_text}
use rsd_m.Board.Program.{program_at}
use rsd_m.Board.Transfer.{Sending, transfer}
use rsd_m.Board.Runner.{Polling, Registers, poll_loop, send_program}
use rsd_m.Board.Image.{loader-undefined}
use rsd_m.Base.Text.{Text, codes}
use rsd_m.Board.Loader.{Unset, atoi, loader, undefined, size_mismatch}
use rsd_m.Asm.Program.{assemble, hex_end, write_hex}
use rsd_m.Asm.State.{ok, err, State, Result, initial}
use rsd_m.Base.{ℕ, ◌≡◌, ◌+◌, ◌%◌, refl, [], ◌∷◌, some, Option, arith, ◌<◌, ◌≤◌, ◌-◌, ◌*◌, ◌/◌}

-- A line of 32 characters, and a text that goes on with a character that is no digit.
abbrev counted : ℕ → ℕ
counted q = b'0' + q % 8

transfer-words_example :
    (s : Sending) × (transfer counted [] 32 (λ q. 0) (λ q. 0) ≡ some s)
    × Transferred counted [] 1 (λ q. 0) s.mem
transfer-words_example = transfer-words counted [] 1 (λ q. 0) (λ q. 0)

send_program-literal_example :
    (s : Sending) × (send_program [] (λ q. 0) (λ q. 1) ≡ some s)
    × ((q : ℕ) → q < 16384 → s.mem q ≡ hex_value (digits_at (32 * (q / 4) + 8 * (3 - q % 4))))
    × ((q : ℕ) → 16384 ≤ q → q < 65536 → s.mem q ≡ 0)
    × ((q : ℕ) → 65536 ≤ q → s.mem q ≡ 1)
send_program-literal_example = send_program-literal [] (λ q. 0) (λ q. 1) refl

-- The last word of the literal's first line of code.
first_word : hex_value (digits_at (32 * 256 + 24)) ≡ 0x0100006f
unfolding program_at hex_value
first_word = refl

abbrev quiet : ℕ → Registers
quiet n = record { empty = 1; serial = 0; last_pc = 0x1000; committed = n }

poll_loop-ends_example :
    (r : Polling) × (poll_loop 100000010 quiet 0 (record { t = 0; u = 0; out = [] }) ≡ some r)
    × (r.u ≡ 10)
    × (reports r.out ≡ 10)
poll_loop-ends_example = poll_loop-ends quiet 100000010 (omega arith)

-- Memory that holds nothing of use, and a file with the assembler's output.
abbrev stale : Unset
stale = record { line = λ q. 7; prog = λ q. 7; val = λ q. 7; beyond = codes "."; mem = λ q. 7 }

abbrev input : Text
input = codes "NOP\n"

abbrev state_of : {A : Type 0} → Result (A × State) → State
state_of (ok (a, s)) = s
state_of (err e) = initial

abbrev state : State
unfolding assemble
state = state_of (assemble input)

abbrev only_file : Text → Option Text
only_file name = some (file_text (write_hex state))

loader-undefined_example :
    loader stale only_file (codes "code.hex" ∷ codes "65552" ∷ []) ≡ undefined
unfolding assemble atoi hex_end assemble_line directive emit_nop emit32
loader-undefined_example =
    loader-undefined input (write_hex state) state stale only_file (codes "code.hex")
      (codes "65552") refl refl refl

-- A file of one line of 31 characters is read up to its end and found too short; a line of 32 is
-- not read within the array.
abbrev thirty : Text
thirty = codes "000000000000000000000000000000\n"

short_line : loader stale (λ name. some thirty) (codes "f" ∷ codes "32" ∷ []) ≡ size_mismatch
unfolding loader
short_line = refl

-- The first line of the bare-metal program's text that is not zero is the 257th.
program_start : program_at 8191 ∷ program_at 8192 ∷ [] ≡ 48 ∷ 102 ∷ []
unfolding program_at
program_start = refl

-- The core sends a character in every second round.
abbrev chatty : ℕ → View
chatty n = record {
  empty = n % 2;
  empty_again = 1;
  serial = b'a' + n;
  two = 0;
  four = 0x80;
  five = 7;
}

watch-shown_example :
    (states (watch chatty 4).out ≡ 0) × (chars (watch chatty 4).out ≡ received chatty 4)
watch-shown_example = watch-shown chatty 4
