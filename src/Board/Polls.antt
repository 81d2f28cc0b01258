-- ===== src/Board/Polls.antt =====
-- The polling loop of `run_simple.c` ends.
use rsd_m.Board.Runner.{
  serial_char, progress, poll_loop, Printed, Registers, poll_step, Polling, serial_out,
}
use rsd_m.Base.{
  ℕ, zero, suc, ◌+◌, ◌-◌, ◌*◌, ◌==◌, ◌&&◌, ◌≤◌, ◌≡◌, refl, true, false, List, [], ◌∷◌, ◌++◌, some,
  arith, Bool-cases, inl, inr,
}

-- How often the state of the core was printed.
unfoldable pub reports : List Printed → ℕ
reports [] = 0
reports (serial_char c ∷ ps) = reports ps
reports (progress pc n ∷ ps) = suc (reports ps)

reports-append : (ps qs : List Printed) → reports (ps ++ qs) ≡ reports ps + reports qs
unfolding reports
reports-append [] qs = omega arith
reports-append (serial_char c ∷ ps) qs = reports-append ps qs
reports-append (progress pc n ∷ ps) qs = omega (arith, reports-append ps qs)

silent : (r : Registers) → reports (serial_out r) ≡ 0
unfolding reports
silent r = elim (Bool-cases (r.empty == 1)) [ inl e ↦ rw e | inr e ↦ rw e ]

-- The state is counted as often as it is printed.
record IsCounted (s : Polling) : Type 0 where
  timer : s.t ≤ 10000000
  count : s.u ≤ 9
  printed : reports s.out ≡ s.u

-- Rounds that are left.
abbrev left : Polling → ℕ
left s = (9 - s.u) * 10000001 + (10000001 - s.t)

tick :
    (r : Registers) (s : Polling)
    → IsCounted s
    → (s.t == 10000000) ≡ false
    → IsCounted (poll_step 10000000 r s)
      × (left s ≡ suc (left (poll_step 10000000 r s)))
      × ((s.t == 10000000 && (poll_step 10000000 r s).u == 10) ≡ false)
unfolding poll_step
tick r s h e = rw e (
  record {
    timer = ground (arith, h.timer);
    count = h.count;
    printed = omega (arith, reports-append s.out (serial_out r), silent r, h.printed);
  },
  ground (arith, h.timer, h.count),
  refl,
)

report_reports :
    (r : Registers) → reports (serial_out r ++ (progress r.last_pc r.committed ∷ [])) ≡ 1
unfolding reports
report_reports r =
    omega (arith, reports-append (serial_out r) (progress r.last_pc r.committed ∷ []), silent r)

lap :
    (r : Registers) (s : Polling)
    → IsCounted s
    → (s.t == 10000000) ≡ true
    → ((poll_step 10000000 r s).u ≡ suc s.u)
      × ((poll_step 10000000 r s).t ≡ 0)
      × (reports (poll_step 10000000 r s).out ≡ suc s.u)
unfolding poll_step
lap r s h e = rw e (
  refl,
  refl,
  omega (
    arith,
    reports-append s.out (serial_out r ++ (progress r.last_pc r.committed ∷ [])),
    report_reports r,
    h.printed,
  ),
)

polls_on :
    (f n : ℕ) (device : ℕ → Registers) (s : Polling)
    → IsCounted s
    → left s ≤ f
    → (r : Polling) × (poll_loop f device n s ≡ some r) × (r.u ≡ 10) × (reports r.out ≡ 10)
unfolding poll_loop
polls_on zero n device s h l = absurd (ground (arith, h.timer))
polls_on (suc f) n device s h l =
    let r = poll_step 10000000 (device n) s in
    elim (Bool-cases (s.t == 10000000)) [
      | inr e ↦
          let (c, d, b) = tick (device n) s h e in
          let (a, runs, u, p) = polls_on f (suc n) device r c (omega (arith, d, l)) in
          (a, rw (poll_loop, b) runs, u, p)
      | inl e ↦
          let (a, b, c) = lap (device n) s h e in
          elim (Bool-cases (s.u == 9)) [
            | inl nine ↦
                let last : (s.t == 10000000 && r.u == 10) ≡ true = rw e (ground (arith, a)) in
                (r, rw (poll_loop, last) refl, ground (arith, a), ground (arith, c))
            | inr fewer ↦
                let more : (s.t == 10000000 && r.u == 10) ≡ false = rw e (ground (arith, a)) in
                let (x, runs, u, p) =
                  polls_on f (suc n) device r
                    (record {
                      timer = omega (arith, b);
                      count = ground (arith, a, h.count);
                      printed = omega (arith, a, c);
                    })
                    (ground (arith, a, b, h.count)) in
                (x, rw (poll_loop, more) runs, u, p)
          ]
    ]

nothing_printed : reports [] ≡ 0
unfolding reports
nothing_printed = refl

-- Whatever the board shows, the polling loop ends within 100,000,010 rounds, and it has then
-- printed the state of the core ten times.
pub poll_loop-ends :
    (device : ℕ → Registers) (f : ℕ)
    → 100000010 ≤ f
    → (r : Polling) × (poll_loop f device 0 (record { t = 0; u = 0; out = [] }) ≡ some r)
      × (r.u ≡ 10)
      × (reports r.out ≡ 10)
poll_loop-ends device f h =
    polls_on f 0 device (record { t = 0; u = 0; out = [] })
      (record { timer = omega arith; count = omega arith; printed = nothing_printed })
      (omega (arith, h))
