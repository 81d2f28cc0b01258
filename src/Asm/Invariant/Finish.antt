-- ===== src/Asm/Invariant/Finish.antt =====
-- The assembler as a whole ends.
use rsd_m.Asm.State.{State, Failure, out_of_fuel, memory_fault}
use rsd_m.Base.Text.{Text}

-- The failures that the program reports itself, and ends with.
abbrev pub Reported : Failure → Type 0
Reported out_of_fuel = ⊥
Reported memory_fault = ⊥
Reported _ = Unit
