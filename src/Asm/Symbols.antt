-- ===== src/Asm/Symbols.antt =====
-- The symbol tables: `find_label`, `add_label`, `find_constant`, and the two places of
-- `assemble_line` that define a label and a constant.
pub mod Lookup
use rsd_m.Base.{ℕ, true, false, List, [], ◌∷◌, ◌++◌, Option, none, some, leb, if◌then◌else◌}
use rsd_m.Base.Lists.{length, take}
use rsd_m.Base.Text.{Text, str_case_eq}
use rsd_m.Asm.State.{
  Label, Constant, State, M, Action, pure, done, fail, modify, ◌>>=◌, too_many_labels,
  too_many_constants, duplicate_label,
}

abbrev pub max_labels : ℕ
max_labels = 4096

-- The first entry with that name, letters in either case.
pub find_in : List Label → Text → Option Label
find_in [] n = none
find_in (l ∷ ls) n = if str_case_eq l.name n then some l else find_in ls n

unfoldable pub find_label : State → Text → Option Label
unfolding find_in
find_label s n = find_in s.labels n

-- A new entry is not yet defined; its name is cut to 63 bytes.
unfoldable pub add_label : Text → M Label
unfolding find_label
add_label n s = elim (find_label s n) [
  | some l ↦ pure l s
  | none ↦
      if leb max_labels (length s.labels)
      then fail too_many_labels s
      else let l : Label = record { name = take 63 n; addr = 0; defined = false } in
        pure l (record s { labels = s.labels ++ (l ∷ []) })
]

-- A write through the pointer that `find_label` gives: the first entry with that name.
unfoldable pub define_in : List Label → Text → ℕ → List Label
define_in [] n a = []
define_in (l ∷ ls) n a =
    if str_case_eq l.name n
    then record l { addr = a; defined = true } ∷ ls
    else l ∷ define_in ls n a

-- `name:` in `assemble_line`.
unfoldable pub define_label : Text → Action
unfolding add_label define_in
define_label n = do
  l ← add_label n
  if l.defined
      then fail duplicate_label
      else modify (λ s. record s { labels = define_in s.labels l.name s.cur_pc })

pub find_constant_in : List Constant → Text → Option Constant
find_constant_in [] n = none
find_constant_in (c ∷ cs) n = if str_case_eq c.name n then some c else find_constant_in cs n

unfoldable pub find_constant : State → Text → Option Constant
unfolding find_constant_in
find_constant s n = find_constant_in s.constants n

unfoldable pub update_constant : List Constant → Text → ℕ → List Constant
update_constant [] n v = (record { name = take 63 n; value = v }) ∷ []
update_constant (c ∷ cs) n v =
    if str_case_eq c.name n then record c { value = v } ∷ cs else c ∷ update_constant cs n v

-- `name = expr` and `name EQU expr`; a full table is refused also where the name is in it.
unfoldable pub define_constant : Text → ℕ → Action
unfolding update_constant
define_constant n v s =
    if leb max_labels (length s.constants)
    then fail too_many_constants s
    else done (record s { constants = update_constant s.constants n v })
