-- ===== src/Sim/Registers.antt =====
-- `GetCommittedRegisterValue`: the register map of the retired instructions, brought forward
-- over the ones that retire in this cycle.
use rsd_m.Board.{put}
use rsd_m.Base.{
  ℕ, zero, suc, ◌+◌, ◌%◌, ◌^◌, ◌==◌, ◌&&◌, ◌≡◌, refl, Bool, List, [], ◌∷◌, some, none, Option, leb,
  ◌∙◌, if◌then◌else◌, inl, inr, Bool-cases, ◌≤◌, ◌<◌, ◌⊎◌, arith, ltb, ltb→lt,
}

-- What `VerilatorHelper` reads from an entry of the active list.
pub record Entry : Type 0 where
  pub writes : Bool
  pub logical : ℕ
  pub physical : ℕ

-- The state of the core that the function reads. The active list has `entries` entries, fewer than
-- 256, so that the head pointer is a byte.
pub record Core : Type 0 where
  pub map : ℕ → ℕ
  pub head : ℕ
  pub entries : ℕ
  pub active : ℕ → Entry
  pub registers : ℕ → ℕ
  pub fp_registers : ℕ → ℕ

abbrev pub retire : Entry → (ℕ → ℕ) → ℕ → ℕ
retire e map = if e.writes then put map e.logical e.physical else map

-- `for (int i = 0; i < n; i++)` over the entries from the head on. `alHeadPtr++` counts in a byte
-- and does not wrap at the end of the list; `none` is the read behind the list.
unfoldable pub retire_all : ℕ → ℕ → (ℕ → Entry) → ℕ → (ℕ → ℕ) → Option (ℕ → ℕ)
retire_all zero entries active ptr map = some map
retire_all (suc n) entries active ptr map =
    let rest = retire_all n entries active ((ptr + 1) % 2 ^ 8) (retire (active ptr) map) in
    if ltb ptr entries then rest else none

-- The values of the logical registers; from `scalars` on they are floating-point registers, where
-- the core has them.
abbrev pub values_by : Bool → ℕ → Core → (ℕ → ℕ) → ℕ → ℕ
values_by has_fp scalars core map r =
    if has_fp && leb scalars r then core.fp_registers (map r) else core.registers (map r)

unfoldable pub committed_values : Bool → ℕ → ℕ → Core → Option (ℕ → ℕ)
unfolding retire_all
committed_values has_fp scalars n core =
    elim (retire_all n core.entries core.active core.head core.map) [
      | none ↦ none
      | some map ↦ some (values_by has_fp scalars core map)
    ]

-- The entries that retire, oldest first.
unfoldable pub retiring : ℕ → (ℕ → Entry) → ℕ → List Entry
retiring zero active ptr = []
retiring (suc n) active ptr = active ptr ∷ retiring n active (ptr + 1)

-- The physical register of the youngest entry that writes `r`, if one does.
unfoldable pub youngest : List Entry → ℕ → Option ℕ
youngest [] r = none
youngest (e ∷ es) r = elim (youngest es r) [
  | some p ↦ some p
  | none ↦ if e.writes && e.logical == r then some e.physical else none
]

abbrev pub or_else : ℕ → Option ℕ → ℕ
or_else d none = d
or_else d (some p) = p

older :
    (e : Entry) (map : ℕ → ℕ) (r : ℕ) (y : Option ℕ)
    → or_else (retire e map r) y
      ≡ or_else (map r) (elim y [
        | some p ↦ some p
        | none ↦ if e.writes && e.logical == r then some e.physical else none
      ])
older e map r (some p) = refl
older e map r none = elim (Bool-cases e.writes) [
  | inr reads ↦ rw reads
  | inl w ↦ elim (Bool-cases (e.logical == r)) [
    | inl same ↦ rw (w, same)
    | inr other ↦ rw (w, other)
  ]
]

abbrev MapOutcome : ℕ → ℕ → (ℕ → Entry) → ℕ → (ℕ → ℕ) → Type 0
MapOutcome n entries active ptr map =
    ((ptr + n ≤ entries)
      × ((map' : ℕ → ℕ) × (retire_all n entries active ptr map ≡ some map')
          × ((r : ℕ) → map' r ≡ or_else (map r) (youngest (retiring n active ptr) r))))
    ⊎ ((entries < ptr + n) × (retire_all n entries active ptr map ≡ none))

retire_all-outcomes :
    (n entries : ℕ) (active : ℕ → Entry) (ptr : ℕ) (map : ℕ → ℕ)
    → entries < 256
    → ptr ≤ entries
    → MapOutcome n entries active ptr map
unfolding retire_all retiring youngest
retire_all-outcomes zero entries active ptr map h k = inl (omega (arith, k), (map, refl, λ r. refl))
retire_all-outcomes (suc n) entries active ptr map h k = elim (Bool-cases (ltb ptr entries)) [
  | inr out ↦ inr (ground (arith, k), rw (out, retire_all))
  | inl inside ↦
      let below : ptr < entries = ltb→lt ptr entries inside in
      let next : (ptr + 1) % 2 ^ 8 ≡ ptr + 1 = omega (arith, h, below) in
      let map1 = retire (active ptr) map in
      elim (retire_all-outcomes n entries active (ptr + 1) map1 h (omega (arith, below))) [
        | inl (fits, (map', runs, values)) ↦ inl (
          omega (arith, fits),
          (
            map',
            rw (inside, retire_all, next) runs,
            λ r. values r ∙ older (active ptr) map r (youngest (retiring n active (ptr + 1)) r),
          ),
        )
        | inr (over, fails) ↦ inr (omega (arith, over), rw (inside, retire_all, next) fails)
      ]
]

-- Where the retiring instructions stand before the end of the active list, the reported value of
-- every register is what the youngest of them that writes it has written, and the retired value
-- where none of them does; where they go on from the start of the list, the function reads behind
-- it. For a head pointer within a list of fewer than 256 entries.
pub committed_values-outcomes :
    (has_fp : Bool) (scalars n : ℕ) (core : Core)
    → core.entries < 256
    → core.head < core.entries
    → ((core.head + n ≤ core.entries)
        × ((value : ℕ → ℕ) × (committed_values has_fp scalars n core ≡ some value)
            × ((r : ℕ)
                → let p = or_else (core.map r) (youngest (retiring n core.active core.head) r) in
                  value r
                  ≡ (if has_fp && leb scalars r then core.fp_registers p else core.registers p))))
      ⊎ ((core.entries < core.head + n) × (committed_values has_fp scalars n core ≡ none))
unfolding committed_values
committed_values-outcomes has_fp scalars n core h k =
    elim (retire_all-outcomes n core.entries core.active core.head core.map h (omega (arith, k))) [
      | inl (fits, (map', runs, values)) ↦ inl (
        fits,
        (values_by has_fp scalars core map', rw (runs, committed_values), λ r. rw (values r)),
      )
      | inr (over, fails) ↦ inr (over, rw (fails, committed_values))
    ]
