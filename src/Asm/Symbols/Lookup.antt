-- ===== src/Asm/Symbols/Lookup.antt =====
-- What the label table answers after a label was added or defined.
use rsd_m.Base.{
  ◌≡◌, true, false, none, some, [], ◌∷◌, ◌++◌, leb, ℕ, refl, sym, ◌∙◌, inl, inr, Bool, ◌&&◌, Option,
  List, arith, ◌==◌, if◌then◌else◌, ==_iff, Bool-cases, zero, suc, ◌≤◌, ap, ◌⊎◌, leb→le,
  Option-cases,
}
use rsd_m.Base.Lists.{length, take}
use rsd_m.Base.Text.{Text, str_case_eq, to_lower}
use rsd_m.Asm.State.{State, Label, ok, err, too_many_labels, duplicate_label, Result, fail, modify}
use rsd_m.Asm.Symbols.{max_labels, find_in, find_label, add_label, define_in, define_label}

abbrev pub fresh_label : Text → Label
fresh_label n = record { name = take 63 n; addr = 0; defined = false }

pub add_label-found :
    (n : Text) (s : State) (l : Label) → find_label s n ≡ some l → add_label n s ≡ ok (l, s)
unfolding add_label
add_label-found n s l e = let found : find_in s.labels n ≡ some l = e in rw (add_label, found)

pub add_label-full :
    (n : Text) (s : State)
    → find_label s n ≡ none
    → leb max_labels (length s.labels) ≡ true
    → add_label n s ≡ err too_many_labels
unfolding add_label
add_label-full n s e full =
    let missing : find_in s.labels n ≡ none = e in rw (add_label, missing, full)

pub add_label-fresh :
    (n : Text) (s : State)
    → find_label s n ≡ none
    → leb max_labels (length s.labels) ≡ false
    → add_label n s ≡ ok (fresh_label n, record s { labels = s.labels ++ (fresh_label n ∷ []) })
unfolding add_label
add_label-fresh n s e room =
    let missing : find_in s.labels n ≡ none = e in rw (add_label, missing, room)

and-both : (a b : Bool) → (a && b) ≡ true → (a ≡ true) × (b ≡ true)
and-both true true h = (refl, refl)
and-both true false h = absurd cc
and-both false b h = absurd cc

abbrev or_last : Option Label → Option Label → Option Label
or_last (some l) o = some l
or_last none o = o

or_last-none : (o : Option Label) → or_last o none ≡ o
or_last-none (some l) = refl
or_last-none none = refl

-- Names are compared as they read in lower case.
str_case_eq_sym : (a b : Text) → str_case_eq a b ≡ str_case_eq b a
str_case_eq_sym [] [] = refl
str_case_eq_sym [] (y ∷ b) = refl
str_case_eq_sym (x ∷ a) [] = refl
str_case_eq_sym (x ∷ a) (y ∷ b) = rw (str_case_eq_sym a b) (ground arith)

str_case_eq_refl : (a : Text) → str_case_eq a a ≡ true
str_case_eq_refl [] = refl
str_case_eq_refl (x ∷ a) = rw (str_case_eq_refl a) (ground arith)

-- A name in the place of one that is equal to it.
str_case_eq_same : (a b c : Text) → str_case_eq a b ≡ true → str_case_eq a c ≡ str_case_eq b c
str_case_eq_same [] [] c h = refl
str_case_eq_same [] (y ∷ b) c h = absurd cc
str_case_eq_same (x ∷ a) [] c h = absurd cc
str_case_eq_same (x ∷ a) (y ∷ b) [] h = refl
str_case_eq_same (x ∷ a) (y ∷ b) (z ∷ c) h =
    let (head, tail) = and-both (to_lower x == to_lower y) (str_case_eq a b) h in
    let same : to_lower x ≡ to_lower y = (==_iff (to_lower x) (to_lower y)).0 head in
    rw (same, str_case_eq_same a b c tail)

-- The first label with a name, in the table with one more.
find_in-append :
    (ls : List Label) (l : Label) (m : Text)
    → find_in (ls ++ (l ∷ [])) m
      ≡ or_last (find_in ls m) (if str_case_eq l.name m then some l else none)
unfolding find_in
find_in-append [] l m = refl
find_in-append (k ∷ ls) l m = elim (Bool-cases (str_case_eq k.name m)) [
  | inl e ↦ rw e
  | inr e ↦ rw e (find_in-append ls l m)
]

find_in-name :
    (ls : List Label) (n : Text) (l : Label) → find_in ls n ≡ some l → str_case_eq l.name n ≡ true
unfolding find_in
find_in-name [] n l h = absurd cc
find_in-name (k ∷ ls) n l h = elim (Bool-cases (str_case_eq k.name n)) [
  | inl e ↦ (let first : some k ≡ some l = (rw e at h) in let same : k ≡ l = cc in rw (← same) e)
  | inr e ↦ find_in-name ls n l (rw e at h)
]

abbrev defined_at : ℕ → Option Label → Option Label
defined_at a none = none
defined_at a (some l) = some (record l { addr = a; defined = true })

-- The label defined is found under its name, and nothing else changes.
find_in-define_in :
    (ls : List Label) (n : Text) (a : ℕ) (m : Text)
    → find_in (define_in ls n a) m
      ≡ (if str_case_eq n m then defined_at a (find_in ls m) else find_in ls m)
unfolding find_in define_in
find_in-define_in [] n a m = ground arith
find_in-define_in (l ∷ ls) n a m = elim (Bool-cases (str_case_eq l.name n)) [
  | inl e ↦
      (let same = str_case_eq_same l.name n m e in
        elim (Bool-cases (str_case_eq l.name m)) [
          | inl k ↦ (let other : str_case_eq n m ≡ true = sym same ∙ k in rw (e, k, other))
          | inr k ↦ (let other : str_case_eq n m ≡ false = sym same ∙ k in rw (e, k, other))
        ])
  | inr e ↦ elim (Bool-cases (str_case_eq l.name m)) [
    | inl k ↦
        (let other : str_case_eq n m ≡ false =
            str_case_eq_sym n m ∙ sym (str_case_eq_same l.name m n k) ∙ e in
          rw (e, k, other))
    | inr k ↦ rw (e, k) (find_in-define_in ls n a m)
  ]
]

-- The label `n` is defined at the place of `s`, and every other name keeps its label.
abbrev pub Defines : Text → State → State → Type 0
Defines n s t =
    ((l : Label) × (find_label t n ≡ some l) × (l.addr ≡ s.cur_pc) × (l.defined ≡ true))
    × ((m : Text) → str_case_eq n m ≡ false → find_label t m ≡ find_label s m)

-- A table that holds `l` under the name `n`, from which the table `ls` differs in nothing else.
define_in-Defines :
    (n : Text) (s : State) (ls : List Label) (l : Label)
    → str_case_eq l.name n ≡ true
    → find_in ls n ≡ some l
    → ((m : Text) → str_case_eq n m ≡ false → find_in ls m ≡ find_label s m)
    → Defines n s (record s { labels = define_in ls l.name s.cur_pc })
unfolding find_label
define_in-Defines n s ls l hn hf ho = (
  (
    record l { addr = s.cur_pc; defined = true },
    find_in-define_in ls l.name s.cur_pc n ∙ (rw (hn, hf)),
    refl,
    refl,
  ),
  λ m h.
      find_in-define_in ls l.name s.cur_pc m
      ∙ (let other : str_case_eq l.name m ≡ false = str_case_eq_same l.name n m hn ∙ h in
          rw other (ho m h)),
)

take-all : (k : ℕ) (n : Text) → length n ≤ k → take k n ≡ n
take-all zero [] h = refl
take-all zero (c ∷ n) h = absurd (omega arith)
take-all (suc k) [] h = refl
take-all (suc k) (c ∷ n) h = ap (λ p. c ∷ p) (take-all k n (omega arith))

-- The table with a new entry, which is found under its name.
fresh-Defines :
    (n : Text) (s : State)
    → length n ≤ 63
    → find_label s n ≡ none
    → Defines n s (record s {
      labels = define_in (s.labels ++ (fresh_label n ∷ [])) (fresh_label n).name s.cur_pc;
    })
unfolding find_label
fresh-Defines n s hn e =
    let whole : str_case_eq (take 63 n) n ≡ true = rw (take-all 63 n hn) (str_case_eq_refl n) in
    let missing : find_in s.labels n ≡ none = e in
    define_in-Defines n s (s.labels ++ (fresh_label n ∷ [])) (fresh_label n) whole
      (find_in-append s.labels (fresh_label n) n ∙ (rw (missing, whole)))
      (λ m h.
        find_in-append s.labels (fresh_label n) m
        ∙ (let other : str_case_eq (take 63 n) m ≡ false =
              str_case_eq_same (take 63 n) n m whole ∙ h in
            rw other (or_last-none (find_in s.labels m))))

-- What `define_label` makes of the label that `add_label` gives.
abbrev with_label : Result (Label × State) → Result (Unit {0} × State)
with_label (err e) = err e
with_label (ok (l, s)) =
    (if l.defined
        then fail duplicate_label
        else modify (λ t. record t { labels = define_in t.labels l.name t.cur_pc }))
      s

found-Defines :
    (n : Text) (s : State) (l : Label)
    → find_label s n ≡ some l
    → Defines n s (record s { labels = define_in s.labels l.name s.cur_pc })
unfolding find_label
found-Defines n s l e =
    define_in-Defines n s s.labels l (find_in-name s.labels n l e) e (λ m h. refl)

define_label-with_label : (n : Text) (s : State) → define_label n s ≡ with_label (add_label n s)
unfolding define_label
define_label-with_label n s = refl

-- Defining a label does one of three things. A name that is defined already is a duplicate; a
-- new name in a full table is refused; otherwise the name, of at most 63 bytes, is found with the
-- current address as its own, and every name that differs in more than case keeps its label.
pub define_label-outcomes :
    (n : Text) (s : State)
    → length n ≤ 63
    → ((l : Label) × (find_label s n ≡ some l)
        × (l.defined ≡ true)
        × (define_label n s ≡ err duplicate_label))
      ⊎ ((find_label s n ≡ none)
          × (max_labels ≤ length s.labels)
          × (define_label n s ≡ err too_many_labels))
      ⊎ ((t : State) × (define_label n s ≡ ok (tt, t)) × Defines n s t)
define_label-outcomes n s hn = elim (Option-cases (find_label s n)) [
  | inr (l, e) ↦ elim (Bool-cases l.defined) [
    | inl d ↦ inl (l, e, d, define_label-with_label n s ∙ (rw (add_label-found n s l e, d)))
    | inr d ↦ inr (
        inr (
          record s { labels = define_in s.labels l.name s.cur_pc },
          define_label-with_label n s ∙ (rw (add_label-found n s l e, d)),
          found-Defines n s l e,
        ))
  ]
  | inl e ↦ elim (Bool-cases (leb max_labels (length s.labels))) [
    | inl full ↦ inr (
        inl (
          e,
          leb→le max_labels (length s.labels) full,
          define_label-with_label n s ∙ ap with_label (add_label-full n s e full),
        ))
    | inr room ↦ inr (
        inr (
          record s {
            labels = define_in (s.labels ++ (fresh_label n ∷ [])) (fresh_label n).name s.cur_pc;
          },
          define_label-with_label n s ∙ ap with_label (add_label-fresh n s e room),
          fresh-Defines n s hn e,
        ))
  ]
]
