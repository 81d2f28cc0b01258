-- ===== src/Asm/Keeps.antt =====
-- What the functions of the assembler keep: rules for predicates of the state that hold again
-- after an action, one for each way to build an action.
use rsd_m.Base.{Bool, true, false, ◌≡◌, if◌then◌else◌}
use rsd_m.Asm.State.{
  State, Result, ok, err, Failure, M, Action, pure, fail, done, gets, cursor, ◌>>=◌, ◌>>◌,
  out_of_fuel,
}

-- Every failure but a loop that did not end: an error that the program reports, or a store outside
-- the code buffer.
abbrev pub Stops : Failure → Type 0
Stops out_of_fuel = ⊥
Stops _ = Unit

abbrev pub Any : Failure → Type 0
Any e = Unit

-- An early exit leaves no state.
abbrev pub AfterOr :
    {A : Type 0} → (Failure → Type 0) → (State → Type 0) → Result (A × State) → Type 0
AfterOr F P (ok (a, t)) = P t
AfterOr F P (err e) = F e

pub record KeepsOr {A : Type 0} (F : Failure → Type 0) (P : State → Type 0) (m : M A) : Type 0 where
  pub at : (s : State) → P s → AfterOr F P (m s)

-- Every loop ends.
abbrev pub After : {A : Type 0} → (State → Type 0) → Result (A × State) → Type 0
After P r = AfterOr Stops P r

abbrev pub Keeps : {A : Type 0} → (State → Type 0) → M A → Type 0
Keeps P m = KeepsOr Stops P m

-- Nothing is said of a failure.
abbrev pub Leaves : {A : Type 0} → (State → Type 0) → M A → Type 0
Leaves P m = KeepsOr Any P m

module _ {A : Type 0} {F : Failure → Type 0} {P : State → Type 0} where
  pub Keeps-pure : (a : A) → KeepsOr F P (pure a)
  Keeps-pure a = record { at = λ s h. h }

  pub Keeps-fail : (e : Failure) → F e → KeepsOr F P (fail {A = A} e)
  Keeps-fail e h = record { at = λ s k. h }

  pub Keeps-gets : (f : State → A) → KeepsOr F P (gets f)
  Keeps-gets f = record { at = λ s h. h }

  pub Keeps-if :
      (b : Bool) (m n : M A) → KeepsOr F P m → KeepsOr F P n → KeepsOr F P (if b then m else n)
  Keeps-if true m n h k = h
  Keeps-if false m n h k = k

module _ {A B : Type 0} (F : Failure → Type 0) {P : State → Type 0} where
  pub AfterOr-bind :
      (r : Result (A × State)) (f : A → M B)
      → AfterOr F P r
      → ((a : A) (t : State) → P t → AfterOr F P (f a t))
      → AfterOr F P (elim r [ err e ↦ err e | ok (a, s') ↦ f a s' ])
  AfterOr-bind (ok (a, t)) f h k = k a t h
  AfterOr-bind (err e) f h k = h

module _ {A B : Type 0} {P : State → Type 0} where
  pub After-bind :
      (r : Result (A × State)) (f : A → M B)
      → After P r
      → ((a : A) (t : State) → P t → After P (f a t))
      → After P (elim r [ err e ↦ err e | ok (a, s') ↦ f a s' ])
  After-bind = AfterOr-bind Stops

module _ {A B : Type 0} {F : Failure → Type 0} {P : State → Type 0} where
  pub Keeps-bind :
      (m : M A) (f : A → M B)
      → KeepsOr F P m
      → ((a : A) → KeepsOr F P (f a))
      → KeepsOr F P (m >>= f)
  Keeps-bind m f h k = record { at = λ s p. AfterOr-bind F (m s) f (h.at s p) (λ a. (k a).at) }

module _ {B : Type 0} {F : Failure → Type 0} {P : State → Type 0} where
  pub Keeps-then : (m : Action) (n : M B) → KeepsOr F P m → KeepsOr F P n → KeepsOr F P (m >> n)
  Keeps-then m n h k = record { at = λ s p. AfterOr-bind F (m s) (λ u. n) (h.at s p) (λ u. k.at) }

module _ {B : Type 0} (P : State → Type 0) where
  pub After-ok :
      (m : Action) (n : M B) (s t : State) → m s ≡ ok (tt, t) → After P (n t) → After P ((m >> n) s)
  After-ok m n s t e k = rw (e, ◌>>◌) k

  pub After-err :
      (m : Action) (n : M B) (s : State) (f : Failure)
      → m s ≡ err f
      → Stops f
      → After P ((m >> n) s)
  After-err m n s f e h = rw (e, ◌>>◌) h

module _ {F : Failure → Type 0} {P : State → Type 0} where
  pub Keeps-done : KeepsOr F P done
  Keeps-done = record { at = λ s h. h }

  pub Keeps-cursor : KeepsOr F P cursor
  Keeps-cursor = record { at = λ s h. h }

module _ {A : Type 0} (P : State → Type 0) where
  pub After-Any : (r : Result (A × State)) → After P r → AfterOr Any P r
  After-Any (ok (a, t)) h = h
  After-Any (err e) h = tt

module _ {A : Type 0} {P : State → Type 0} where
  pub Keeps-Leaves : (m : M A) → Keeps P m → Leaves P m
  Keeps-Leaves m h = record { at = λ s p. After-Any P (m s) (h.at s p) }

-- A failure that is no loop without an end.
pub reported : Unit {0}
reported = tt

pub ruleset keeps_rules = (
  Keeps-pure, Keeps-fail, Keeps-gets, Keeps-if, Keeps-bind, Keeps-then, Keeps-done, Keeps-cursor,
  reported,
)
