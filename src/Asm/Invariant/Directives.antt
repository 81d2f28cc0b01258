-- ===== src/Asm/Invariant/Directives.antt =====
-- The directives keep the invariant.
use rsd_m.Asm.Expr.{expression}
use native.Mathlib.Nat.{zero-mod, mod-lt, mod-add-mod, mod_self}
use rsd_m.Base.Lists.{length}
use rsd_m.Asm.Invariant.Shrinks.{
  Within, skip-Within, byte_item-Within, word_item-Within, long_item-Within, dword_item-Within,
}
use rsd_m.Asm.Invariant.Stores.{emit_low-Keeps, emit32-Keeps, emit8-Keeps, emit8-bind}
use rsd_m.Asm.Lexer.{skip}
use rsd_m.Asm.Invariant.Parsing.{set_cursor-Keeps, expression-Keeps, skip-Keeps, retext-IsWell}
use rsd_m.Asm.Code.{emit8}
use rsd_m.Base.Word.{u32, u8, add32, is_neg64}
use rsd_m.Asm.Invariant.Offers.{Offers, offers_rules}
use rsd_m.Base.Text.{Text, peek, next}
use rsd_m.Asm.Invariant.{IsWell}
use rsd_m.Asm.Keeps.{
  Keeps, keeps_rules, Keeps-then, Leaves, After, AfterOr, Any, Keeps-bind, Keeps-done,
}
use rsd_m.Asm.State.{State, Action, modify, ◌>>◌, Result, ok, err, done}
use rsd_m.Asm.Line.Directives.{
  item_list, long_item, word_item, set_origin, dword_item, byte_item, align_to, emit_bytes,
  directive, align, reserve, emit_zeros, items, string_item,
}
use rsd_m.Base.{
  ℕ, List, suc, ◌∷◌, arith, ◌+◌, ◌%◌, ◌==◌, [], inl, inr, Bool-cases, zero, ◌-◌, ◌^◌, ◌≤◌, ◌<◌, ◌≡◌,
  sym, ◌∙◌, ◌≢◌, true, ◌||◌, ltb, if◌then◌else◌,
}

origin-IsWell : (v : ℕ) (s : State) → IsWell s → IsWell (record s { cur_pc = u32 v })
origin-IsWell v s h = record {
  bytes = h.bytes;
  top = h.top;
  pc = omega arith;
  labels = h.labels;
  constants = h.constants;
  fixups = h.fixups;
  filler = h.filler;
  places = h.places;
  addresses = h.addresses;
}

goto-Keeps : (v : ℕ) → Keeps IsWell (modify (λ s. record s { cur_pc = u32 v }))
goto-Keeps v = record { at = λ s h. origin-IsWell v s h }

pub set_origin-Keeps : Keeps IsWell set_origin
unfolding set_origin
set_origin-Keeps = search (keeps_rules, expression-Keeps, goto-Keeps)

emit_u8-Keeps : (v : ℕ) → Keeps IsWell (emit8 (u8 v))
emit_u8-Keeps v = emit8-Keeps (u8 v) (omega arith)

emit_bytes-Keeps : (bs : List ℕ) → Keeps IsWell (emit_bytes bs)
unfolding emit_bytes
emit_bytes-Keeps [] = record { at = λ s h. h }
emit_bytes-Keeps (b ∷ bs) = record {
  at = (Keeps-then (emit8 (u8 b)) (emit_bytes bs) (emit_u8-Keeps b) (emit_bytes-Keeps bs)).at;
}

string_item-Keeps : (r : List ℕ × Text) → Keeps IsWell (string_item r)
unfolding string_item
string_item-Keeps (bs, rest) = search (keeps_rules, emit_bytes-Keeps, set_cursor-Keeps)

byte_item-Keeps : Keeps IsWell byte_item
unfolding byte_item
byte_item-Keeps = search (keeps_rules, string_item-Keeps, expression-Keeps, emit_u8-Keeps) depth 12

word_item-Keeps : Keeps IsWell word_item
unfolding word_item
word_item-Keeps = search (keeps_rules, expression-Keeps, emit_low-Keeps) depth 12

long_item-Keeps : Keeps IsWell long_item
unfolding long_item
long_item-Keeps = search (keeps_rules, expression-Keeps, emit_low-Keeps) depth 12

dword_item-Keeps : Keeps IsWell dword_item
unfolding dword_item
dword_item-Keeps = search (keeps_rules, expression-Keeps, emit32-Keeps)

-- What holds after an item, of the state and of the text that is left.
item-bind :
    {n : ℕ} (r : Result (Unit {0} × State)) (f : Unit {0} → Action)
    → After IsWell r
    → AfterOr Any (Within n) r
    → ((t : State) → IsWell t → length t.text ≤ n → After IsWell (f tt t))
    → After IsWell (elim r [ err e ↦ err e | ok (u, s') ↦ f u s' ])
item-bind (ok (u, t)) f h k g = g t h k
item-bind (err e) f h k g = h

comma-length : (p : Text) → (peek p == b',') ≡ true → length (next p) < length p
comma-length [] e = absurd (cc e)
comma-length (c ∷ p) e = omega arith

-- Each round takes a comma off the line, so that the rounds are fewer than its bytes.
items-After :
    (f : ℕ) (item : Action)
    → Keeps IsWell item
    → ((n : ℕ) → Leaves (Within n) item)
    → (s : State) → IsWell s
    → length s.text < f
    → After IsWell (items f item s)
unfolding items
items-After zero item k w s h l = absurd (omega (arith, l))
items-After (suc f) item k w s h l =
    let n = length s.text in
    item-bind ((do item; skip) s) _ ((Keeps-then item skip k skip-Keeps).at s h)
      ((Keeps-then item skip (w n) (skip-Within n)).at s (omega arith))
      (λ t g m. elim (Bool-cases (peek t.text == b',')) [
        | inl e ↦ rw e (
            items-After f item k w (record t { text = next t.text })
              (retext-IsWell (next t.text) t g) (omega (arith, comma-length t.text e, m, l)))
        | inr e ↦ rw e g
      ])

item_list-Keeps :
    (item : Action)
    → Keeps IsWell item
    → ((n : ℕ) → Leaves (Within n) item)
    → Keeps IsWell (item_list item)
unfolding item_list
item_list-Keeps item k w = record {
  at = λ s h. items-After (length s.text + 1) item k w s h (omega arith);
}

emit_zeros-Keeps : (n : ℕ) → Keeps IsWell (emit_zeros n)
unfolding emit_zeros
emit_zeros-Keeps zero = record { at = λ s h. h }
emit_zeros-Keeps (suc n) = record {
  at = (Keeps-then (emit8 0) (emit_zeros n) (emit8-Keeps 0 (omega arith)) (emit_zeros-Keeps n)).at;
}

reserve-Keeps : Keeps IsWell reserve
unfolding reserve
reserve-Keeps = search (keeps_rules, expression-Keeps, emit_zeros-Keeps)

-- The program counter of the next round, and how far it is from there to a multiple of `a`.
next-padding :
    (a pc k : ℕ)
    → pc < 2 ^ 32
    → (pc + k) % a ≡ 0
    → pc % a ≢ 0
    → (j : ℕ) × (j < k) × ((add32 pc 1 + j) % a ≡ 0)
next-padding a pc zero h e g = let same : pc + 0 ≡ pc = omega arith in absurd (g (rw same at e))
next-padding a pc (suc k) h e g = elim (Bool-cases (ltb (pc + 1) (2 ^ 32))) [
  | inl small ↦ let near : add32 pc 1 + k ≡ pc + suc k = ground arith in (k, omega arith, rw near e)
  | inr wraps ↦ let top : add32 pc 1 + 0 ≡ 0 = ground arith in (0, omega arith, rw top (zero-mod a))
]

-- With `k` bytes to go to a multiple of `a`; the program counter may wrap around to 0 before.
align_to-After :
    (f a k : ℕ) (s : State)
    → IsWell s
    → k < f
    → (s.cur_pc + k) % a ≡ 0
    → After IsWell (align_to f a s)
unfolding align_to
align_to-After zero a k s h l e = absurd (omega (arith, l))
align_to-After (suc f) a k s h l e = elim (Bool-cases (s.cur_pc % a == 0)) [
  | inl g ↦ rw (g, align_to) h
  | inr g ↦
      let other : s.cur_pc % a ≢ 0 = ground arith in
      let (j, m, e') = next-padding a s.cur_pc k h.pc e other in
      rw (g, align_to)
        (emit8-bind 0 s (λ u. align_to f a) (omega arith) h
          (λ t w p. align_to-After f a j t w (omega (arith, l, m)) (rw p e')))
]

-- `a` rounds are enough.
align_to-Keeps : (a : ℕ) → 0 < a → Keeps IsWell (align_to a a)
align_to-Keeps a pos = record {
  at = λ s h. elim (Bool-cases (s.cur_pc % a == 0)) [
    | inl e ↦
        let here : (s.cur_pc + 0) % a ≡ 0 =
          (let same : s.cur_pc + 0 ≡ s.cur_pc = omega arith in rw same (ground arith)) in
        align_to-After a a 0 s h pos here
    | inr e ↦
        let r = s.cur_pc % a in
        let small : r < a = mod-lt s.cur_pc pos in
        let some_left : 0 < r = ground arith in
        let whole : r + (a - r) ≡ a = omega arith in
        let there : (s.cur_pc + (a - r)) % a ≡ 0 =
          sym (mod-add-mod s.cur_pc a (a - r)) ∙ (rw whole (mod_self a)) in
        align_to-After a a (a - r) s h (omega arith) there
  ];
}

aligned-Keeps : (a : ℕ) → Keeps IsWell (if is_neg64 a || a == 0 then done else align_to a a)
aligned-Keeps a = elim (Bool-cases (is_neg64 a || a == 0)) [
  | inl e ↦ rw e Keeps-done
  | inr e ↦ rw e (align_to-Keeps a (ground arith))
]

align-Keeps : Keeps IsWell align
unfolding align
align-Keeps = Keeps-bind expression _ expression-Keeps aligned-Keeps

pub directive-Offers : (mnem : Text) → Offers (directive mnem)
unfolding directive
directive-Offers mnem =
    search
      (
        offers_rules, keeps_rules, set_origin-Keeps, item_list-Keeps, byte_item-Keeps,
        word_item-Keeps, long_item-Keeps, dword_item-Keeps, reserve-Keeps, align-Keeps,
        byte_item-Within, word_item-Within, long_item-Within, dword_item-Within,
      )
      depth 40 fits 3000
