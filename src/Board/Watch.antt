-- ===== src/Board/Watch.antt =====
-- The last loop of `loader.c`, which never ends: it prints what the core sends and, from time to
-- time, the core's state.
use mathlib.Core.List.{append-nil, append_assoc}
use rsd_m.Base.Word.{u8}
use rsd_m.Base.Text.{Text}
use rsd_m.Base.{
  ℕ, zero, suc, ◌+◌, ◌/◌, ◌%◌, ◌≡◌, refl, sym, ap, ◌∙◌, ◌≢◌, inl, inr, List, [], ◌∷◌, ◌++◌, arith,
  ◌==◌, if◌then◌else◌, Bool-cases,
}

-- What the registers of the board show in a round. EMPTY is read at the start of the round, and
-- read again, behind the pop of a character, for the state that is printed.
pub record View : Type 0 where
  pub empty : ℕ
  pub empty_again : ℕ
  pub serial : ℕ
  pub two : ℕ
  pub four : ℕ
  pub five : ℕ

-- The two calls of `printf`.
pub data Shown : Type 0 where
  shown_char : ℕ → Shown
  shown_state : ℕ → ℕ → ℕ → ℕ → Shown

pub record Watch : Type 0 where
  pub t : ℕ
  pub out : List Shown

abbrev pub popped : View → List Shown
popped v = if v.empty == 1 then [] else shown_char (u8 v.serial) ∷ []

unfoldable pub watch_step : View → Watch → Watch
watch_step v w =
    if w.t == 10000000
    then record {
      t = 0;
      out = w.out ++ (popped v ++ (shown_state v.four v.five v.empty_again v.two ∷ []));
    }
    else record { t = suc w.t; out = w.out ++ popped v }

-- The rounds up to `n`, with the board's registers by round.
unfoldable pub watch : (ℕ → View) → ℕ → Watch
unfolding watch_step
watch device zero = record { t = 0; out = [] }
watch device (suc n) = watch_step (device n) (watch device n)

-- The characters that are printed.
unfoldable pub chars : List Shown → Text
chars [] = []
chars (shown_char c ∷ ss) = c ∷ chars ss
chars (shown_state a b c d ∷ ss) = chars ss

-- How often the state is printed.
unfoldable pub states : List Shown → ℕ
states [] = 0
states (shown_char c ∷ ss) = states ss
states (shown_state a b c d ∷ ss) = suc (states ss)

-- The characters that the core has sent up to a round, the oldest first.
unfoldable pub received : (ℕ → View) → ℕ → Text
received device zero = []
received device (suc n) =
    let before = received device n in
    if (device n).empty == 1 then before else before ++ (u8 (device n).serial ∷ [])

chars-append : (a b : List Shown) → chars (a ++ b) ≡ chars a ++ chars b
unfolding chars
chars-append [] b = refl
chars-append (shown_char c ∷ a) b = ap (λ t. c ∷ t) (chars-append a b)
chars-append (shown_state p q r s ∷ a) b = chars-append a b

states-append : (a b : List Shown) → states (a ++ b) ≡ states a + states b
unfolding states
states-append [] b = omega arith
states-append (shown_char c ∷ a) b = states-append a b
states-append (shown_state p q r s ∷ a) b = omega (arith, states-append a b)

-- A round prints the character that it pops, and counts no state or one.
popped-chars :
    (v : View) (t : Text)
    → t ++ chars (popped v) ≡ (if v.empty == 1 then t else t ++ (u8 v.serial ∷ []))
unfolding chars
popped-chars v t = elim (Bool-cases (v.empty == 1)) [
  | inl e ↦ rw e (append-nil t)
  | inr e ↦ rw e refl
]

popped-states : (v : View) → states (popped v) ≡ 0
unfolding states
popped-states v = elim (Bool-cases (v.empty == 1)) [ inl e ↦ rw e refl | inr e ↦ rw e refl ]

abbrev IsShown : (ℕ → View) → ℕ → Watch → Type 0
IsShown device n w =
    (w.t ≡ n % 10000001) × (states w.out ≡ n / 10000001) × (chars w.out ≡ received device n)

step-IsShown :
    (device : ℕ → View) (n : ℕ) (w : Watch)
    → IsShown device n w
    → IsShown device (suc n) (watch_step (device n) w)
unfolding watch_step received states chars
step-IsShown device n w (ht, hs, hc) =
    let v = device n in
    let text : chars (w.out ++ popped v) ≡ received device (suc n) =
      chars-append w.out (popped v)
      ∙ popped-chars v (chars w.out)
      ∙ ap (λ t. if v.empty == 1 then t else t ++ (u8 v.serial ∷ [])) hc in
    let s = states-append w.out (popped v) in
    let none_popped = popped-states v in
    elim (Bool-cases (w.t == 10000000)) [
      | inl e ↦
          let at_end : w.t ≡ 10000000 = ground arith in
          let state = shown_state v.four v.five v.empty_again v.two ∷ [] in
          let out = append_assoc w.out (popped v) state in
          let s' = states-append (w.out ++ popped v) state in
          let count : states (w.out ++ (popped v ++ state)) ≡ states (w.out ++ popped v) + 1 =
            sym (ap states out) ∙ s' in
          rw (e, watch_step)
            (
              omega (arith, ht, at_end),
              omega (arith, ht, hs, at_end, s, none_popped, count),
              sym (ap chars out) ∙ chars-append (w.out ++ popped v) state ∙ append-nil _ ∙ text,
            )
      | inr e ↦
          let before : w.t ≢ 10000000 = ground arith in
          rw (e, watch_step)
            (omega (arith, ht, before), omega (arith, ht, hs, before, s, none_popped), text)
    ]

-- After any number of rounds, the loop has printed the characters that the core has sent, in their
-- order, and the state of the core once for every 10,000,001 rounds.
pub watch-shown :
    (device : ℕ → View) (n : ℕ)
    → let w = watch device n in (states w.out ≡ n / 10000001) × (chars w.out ≡ received device n)
unfolding watch states chars received
watch-shown device n = let (t, s, c) = shown n in (s, c)
  where
    shown : (k : ℕ) → IsShown device k (watch device k)
    shown zero = (refl, refl, refl)
    shown (suc k) = step-IsShown device k (watch device k) (shown k)
