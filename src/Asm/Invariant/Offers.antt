-- ===== src/Asm/Invariant/Offers.antt =====
-- The tables of `assemble_line`: whatever action they offer keeps the invariant.
use rsd_m.Asm.Invariant.{IsWell}
use rsd_m.Base.Text.{Text, str_eq, codes}
use rsd_m.Asm.Keeps.{Keeps}
use rsd_m.Asm.Line.Base.{Entry, when_any, first_entry, is_any, ◌or_else◌}
use Prim.Native.String.{String}
use rsd_m.Asm.State.{Action}
use rsd_m.Base.{List, Option, none, Bool, some, if◌then◌else◌, true, false, [], ◌∷◌}

abbrev Each : Option Action → Type 0
Each none = Unit
Each (some act) = Keeps IsWell act

pub record Offers (o : Option Action) : Type 0 where
  pub each : Each o

pub Offers-none : Offers none
Offers-none = record { each = tt }

pub Offers-some : (act : Action) → Keeps IsWell act → Offers (some act)
Offers-some act k = record { each = k }

pub Offers-if : (b : Bool) (o p : Option Action) → Offers o → Offers p → Offers (if b then o else p)
Offers-if true o p h k = h
Offers-if false o p h k = k

pub Offers-or_else : (o p : Option Action) → Offers o → Offers p → Offers (o or_else p)
Offers-or_else none p h k = k
Offers-or_else (some act) p h k = h

-- Every action of a table.
abbrev pub EachEntry : List Entry → Type 0
EachEntry [] = Unit
EachEntry ((name, act) ∷ rest) = Keeps IsWell act × EachEntry rest

pub Offers-first_entry :
    (es : List Entry) (mnem : Text) → EachEntry es → Offers (first_entry es mnem)
Offers-first_entry [] mnem h = Offers-none
Offers-first_entry ((name, act) ∷ es) mnem h =
    Offers-if (str_eq mnem (codes name)) (some act) (first_entry es mnem) (Offers-some act h.0)
      (Offers-first_entry es mnem h.1)

pub Offers-when_any :
    (names : List String) (act : Action) (mnem : Text)
    → Keeps IsWell act
    → Offers (when_any names act mnem)
Offers-when_any names act mnem k =
    Offers-if (is_any names mnem) (some act) none (Offers-some act k) Offers-none

pub ruleset offers_rules =
    (Offers-none, Offers-some, Offers-if, Offers-or_else, Offers-first_entry, Offers-when_any)
