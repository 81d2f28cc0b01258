-- ===== src/Sim/Kanata/Shows.antt =====
-- Pieces of the log in front of any rest of it: which entries the reader finds there.
use mathlib.Core.List.{append-nil, append_assoc}
use rsd_m.Sim.Load.{split_lines}
use rsd_m.Sim.Kanata.Printed.{lacks}
use rsd_m.Sim.Kanata.Entries.{gather}
use rsd_m.Sim.Kanata.Reader.{Entry, split_tabs, read_entry, read_log, read_lines, prepend}
use rsd_m.Base.Text.{Text}
use rsd_m.Sim.Kanata.{each}
use rsd_m.Base.{
  ◌≡◌, refl, ap, ◌∙◌, inl, inr, Bool, true, false, Option, none, some, List, [], ◌∷◌, ◌++◌, ◌==◌,
  if◌then◌else◌, Bool-cases,
}

pub split_lines-line :
    (got l rest : Text)
    → lacks b'\n' l ≡ true
    → split_lines got (l ++ (b'\n' ∷ rest)) ≡ (got ++ l) ∷ split_lines [] rest
unfolding split_lines
split_lines-line got [] rest h = rw append-nil refl
split_lines-line got (c ∷ l) rest h = elim (Bool-cases (c == b'\n')) [
  | inl e ↦ absurd (cc (rw e at h))
  | inr e ↦
      rw (e, split_lines, split_lines-line (got ++ (c ∷ [])) l rest (rw e at h))
        (ap (λ t. t ∷ split_lines [] rest) (append_assoc got (c ∷ []) l))
]

pub split_tabs-field :
    (got l rest : Text)
    → lacks b'\t' l ≡ true
    → split_tabs got (l ++ (b'\t' ∷ rest)) ≡ (got ++ l) ∷ split_tabs [] rest
unfolding split_tabs
split_tabs-field got [] rest h = rw append-nil refl
split_tabs-field got (c ∷ l) rest h = elim (Bool-cases (c == b'\t')) [
  | inl e ↦ absurd (cc (rw e at h))
  | inr e ↦
      rw (e, split_tabs, split_tabs-field (got ++ (c ∷ [])) l rest (rw e at h))
        (ap (λ t. t ∷ split_tabs [] rest) (append_assoc got (c ∷ []) l))
]

pub split_tabs-last : (got l : Text) → lacks b'\t' l ≡ true → split_tabs got l ≡ (got ++ l) ∷ []
unfolding split_tabs
split_tabs-last got [] h = rw append-nil refl
split_tabs-last got (c ∷ l) h = elim (Bool-cases (c == b'\t')) [
  | inl e ↦ absurd (cc (rw e at h))
  | inr e ↦
      rw (e, split_tabs, split_tabs-last (got ++ (c ∷ [])) l (rw e at h))
        (ap (λ t. t ∷ []) (append_assoc got (c ∷ []) l))
]

-- The reader finds the entries in front of those of the rest.
pub record Shows (es : List Entry) (t : Text) : Type 0 where
  pub reads : (rest : Text) → read_log (t ++ rest) ≡ es ++ read_log rest

pub Shows-nil : Shows [] []
Shows-nil = record { reads = λ rest. refl }

pub Shows-append :
    (es fs : List Entry) (s t : Text) → Shows es s → Shows fs t → Shows (es ++ fs) (s ++ t)
Shows-append es fs s t h k = record {
  reads = λ rest.
      rw (append_assoc s t rest, append_assoc es fs (read_log rest))
        (h.reads (t ++ rest) ∙ ap (λ r. es ++ r) (k.reads rest));
}

pub Shows-if :
    (b : Bool) (es : List Entry) (t : Text)
    → Shows es t
    → Shows (if b then es else []) (if b then t else [])
Shows-if true es t h = h
Shows-if false es t h = Shows-nil

pub Shows-each {ℓ} :
    {A : Type ℓ} (g : A → List Entry) (f : A → Text)
    → ((x : A) → Shows (g x) (f x))
    → (xs : List A) → Shows (gather g xs) (each f xs)
unfolding gather each
Shows-each g f h [] = Shows-nil
Shows-each g f h (x ∷ xs) =
    Shows-append (g x) (gather g xs) (f x) (each f xs) (h x) (Shows-each g f h xs)

prepend-append : (o : Option Entry) (es : List Entry) → prepend o es ≡ prepend o [] ++ es
prepend-append none es = refl
prepend-append (some e) es = refl

-- A line with what the reader makes of it.
pub Shows-line :
    (l : Text) (e : Option Entry)
    → lacks b'\n' l ≡ true
    → read_entry l ≡ e
    → Shows (prepend e []) (l ++ (b'\n' ∷ []))
unfolding read_log read_lines
Shows-line l e h k = record {
  reads = λ rest.
      rw (append_assoc l (b'\n' ∷ []) rest, read_log, split_lines-line [] l rest h, k)
        (prepend-append e (read_log rest));
}
