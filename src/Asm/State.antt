-- ===== src/Asm/State.antt =====
-- The static variables of `m65f32asm.c` as one record, and the monad of its functions: a state,
-- and an early `exit(1)` as a failure. The cursor `text` is what `*pp` points at in the line.
use rsd_m.Base.{ℕ, Bool, List, []}
use rsd_m.Base.Text.{Text}

-- Why the assembler stops. `memory_fault` is an access outside `code`, which C leaves undefined;
-- `out_of_fuel` stands for a loop that did not end.
pub data Failure : Type 0 where
  code_overflow memory_fault too_many_labels too_many_constants too_many_fixups : Failure
  duplicate_label expected_register register_range fp_register_range expected_comma : Failure
  bad_expression unsupported_load_store flag_operand branch_unaligned undefined_label : Failure
  cmp_three_operands cmpi_unsupported unsupported_jmp unsupported_jsr unsupported_jml : Failure
  unsupported_lea immediate_required block_move needs_opcode unknown_instruction : Failure
  out_of_fuel : Failure

pub data Result {ℓ} (A : Type ℓ) : Type ℓ where
  ok : A → Result A
  err : Failure → Result A

pub record Label : Type 0 where
  pub name : Text
  pub addr : ℕ
  pub defined : Bool

pub record Constant : Type 0 where
  pub name : Text
  pub value : ℕ

pub data FixupType : Type 0 where
  fix_b21 fix_j26 : FixupType

pub record Fixup : Type 0 where
  pub code_offset : ℕ
  pub pc : ℕ
  pub label : Text
  pub kind : FixupType
  pub line_num : ℕ
  pub cond : ℕ
  pub link : ℕ
  pub opcode : ℕ

-- The tables grow at the end, so their lengths are `nlabels`, `nconstants` and `nfixups`.
pub record State : Type 0 where
  pub labels : List Label
  pub constants : List Constant
  pub fixups : List Fixup
  pub code : ℕ → ℕ
  pub cur_pc : ℕ
  pub max_phy : ℕ
  pub line_num : ℕ
  pub text : Text

abbrev pub M : Type 0 → Type 0
M A = State → Result (A × State)

abbrev pub Action : Type 0
Action = M (Unit {0})

abbrev pub pure : {A : Type 0} → A → M A
pure a s = ok (a, s)

abbrev pub fail : {A : Type 0} → Failure → M A
fail e s = err e

infixl 5 ◌>>=◌ ◌>>◌
abbrev pub ◌>>=◌ : {A B : Type 0} → M A → (A → M B) → M B
◌>>=◌ m f s = elim (m s) [ err e ↦ err e | ok (a, s') ↦ f a s' ]

abbrev pub ◌>>◌ : {B : Type 0} → Action → M B → M B
◌>>◌ m k s = elim (m s) [ err e ↦ err e | ok (a, s') ↦ k s' ]

abbrev pub done : Action
done s = ok (tt, s)

abbrev pub gets : {A : Type 0} → (State → A) → M A
gets f s = ok (f s, s)

abbrev pub modify : (State → State) → Action
modify f s = ok (tt, f s)

abbrev pub cursor : M Text
cursor s = ok (s.text, s)

abbrev pub set_cursor : Text → Action
set_cursor p s = ok (tt, record s { text = p })

-- The state in which `main` starts reading.
abbrev pub initial : State
initial = record {
  labels = [];
  constants = [];
  fixups = [];
  code = λ a. 0xcd;
  cur_pc = 0x1000;
  max_phy = 0;
  line_num = 0;
  text = [];
}
