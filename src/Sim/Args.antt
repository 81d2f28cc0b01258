-- ===== src/Sim/Args.antt =====
-- The command line of the test bench, and the count of the last cycle's commits.
use rsd_m.Dis.HexIn.{scan_space}
use rsd_m.Board.Loader.{atoi}
use rsd_m.Base.Text.{codes, Text, str_eq, peek, next, is_digit}
use mathlib.Core.Path.{subst}
use rsd_m.Base.{
  ℕ, suc, ◌≡◌, ◌^◌, ◌++◌, [], ◌∷◌, List, true, false, Bool, not, ◌&&◌, ◌||◌, ◌==◌, ltb, inl, inr,
  Bool-cases, if◌then◌else◌, Option, some, none, refl, ap,
}

-- `stoi` gives a sign and a magnitude; `none` where it throws.
pub record Settings : Type 0 where
  pub max_test_cycles : Bool × ℕ
  pub enable_pc_goal : Bool
  pub show_serial_out : Bool
  pub test_code : Text
  pub reg_csv_file : Text
  pub rsd_log_file : Text
  pub wave_log_file : Text

abbrev pub default_settings : Settings
default_settings = record {
  max_test_cycles = (false, 100);
  enable_pc_goal = true;
  show_serial_out = false;
  test_code = codes "Verification/TestCode/C/Fibonacci";
  reg_csv_file = [];
  rsd_log_file = [];
  wave_log_file = [];
}

-- The text before the first `=`, and what stands behind it.
unfoldable pub before_equals : Text → Option (Text × Text)
before_equals [] = none
before_equals (c ∷ p) = elim (c == b'=') [
  | true ↦ some ([], p)
  | false ↦ elim (before_equals p) [ none ↦ none | some (n, v) ↦ some (c ∷ n, v) ]
]

unfoldable pub has_equals : Text → Bool
has_equals [] = false
has_equals (c ∷ p) = c == b'=' || has_equals p

abbrev pub is_empty : Text → Bool
is_empty [] = true
is_empty (c ∷ p) = false

-- `([^=]+)=([^=]+)`: one `=`, and text on both its sides.
unfoldable pub name_value : Text → Option (Text × Text)
unfolding before_equals has_equals
name_value arg = elim (before_equals arg) [
  | none ↦ none
  | some (name, value) ↦
      if is_empty name || is_empty value || has_equals value then none else some (name, value)
]

-- `stoi`: at least one digit behind white space and a sign, and a value that an `int` holds.
unfoldable pub stoi : Text → Option (Bool × ℕ)
unfolding atoi
stoi text =
    let p = scan_space text in
    let q = if peek p == b'-' || peek p == b'+' then next p else p in
    let (negative, v) = atoi text in
    if is_digit (peek q) && (ltb v (2 ^ 31) || (negative && v == 2 ^ 31))
    then some (negative, v)
    else none

abbrev number_setting : Text → (Bool × ℕ → Settings) → Option Settings
number_setting value set = elim (stoi value) [ none ↦ none | some n ↦ some (set n) ]

abbrev is_true : Bool × ℕ → Bool
is_true (negative, v) = not (v == 0)

-- An unknown name leaves the settings as they are.
unfoldable pub set_parameter : Text → Text → Settings → Option Settings
unfolding stoi
set_parameter name value s =
    if str_eq name (codes "MAX_TEST_CYCLES")
    then number_setting value (λ n. record s { max_test_cycles = n })
    else if str_eq name (codes "ENABLE_PC_GOAL")
    then number_setting value (λ n. record s { enable_pc_goal = is_true n })
    else if str_eq name (codes "SHOW_SERIAL_OUT")
    then number_setting value (λ n. record s { show_serial_out = is_true n })
    else if str_eq name (codes "REG_CSV_FILE")
    then some (record s { reg_csv_file = value })
    else if str_eq name (codes "RSD_LOG_FILE")
    then some (record s { rsd_log_file = value })
    else if str_eq name (codes "TEST_CODE")
    then some (record s { test_code = value })
    else if str_eq name (codes "WAVE_LOG_FILE")
    then some (record s { wave_log_file = value })
    else some s

abbrev pub parameter : Option (Text × Text) → Settings → Option Settings
parameter none s = some s
parameter (some (name, value)) s = set_parameter name value s

-- The arguments in their order; `none` where `stoi` throws, which ends the program.
unfoldable pub parse_parameters : List Text → Settings → Option Settings
unfolding name_value set_parameter
parse_parameters [] s = some s
parse_parameters (arg ∷ args) s = elim (parameter (name_value arg) s) [
  | none ↦ none
  | some s' ↦ parse_parameters args s'
]

-- The leading commit slots of the last cycle that are in use.
unfoldable pub last_commits : List Bool → ℕ
last_commits [] = 0
last_commits (c ∷ cs) = let more = last_commits cs in if c then suc more else 0

true_is_not_false : true ≡ false → ⊥
true_is_not_false h = cc

starts_equals : (c : ℕ) (p : Text) → (c == b'=') ≡ true → has_equals (c ∷ p) ≡ false → ⊥
unfolding has_equals
starts_equals c p e h = true_is_not_false (subst (λ b. (b || has_equals p) ≡ false) e h)

rest_equals :
    (c : ℕ) (p : Text) → (c == b'=') ≡ false → has_equals (c ∷ p) ≡ false → has_equals p ≡ false
unfolding has_equals
rest_equals c p e h = subst (λ b. (b || has_equals p) ≡ false) e h

before_equals-append :
    (name value : Text)
    → has_equals name ≡ false
    → before_equals (name ++ (b'=' ∷ value)) ≡ some (name, value)
unfolding before_equals has_equals
before_equals-append [] value h = refl
before_equals-append (c ∷ p) value h = elim (Bool-cases (c == b'=')) [
  | inl e ↦ absurd (starts_equals c p e h)
  | inr e ↦ rw (before_equals, e, before_equals-append p value (rest_equals c p e h))
]

-- A parameter as the user writes it is taken apart into its name and value, for texts that are
-- not empty and hold no `=`.
pub name_value-append :
    (name value : Text)
    → is_empty name ≡ false
    → is_empty value ≡ false
    → has_equals name ≡ false
    → has_equals value ≡ false
    → name_value (name ++ (b'=' ∷ value)) ≡ some (name, value)
unfolding name_value
name_value-append name value hn hv en ev =
    rw (name_value, before_equals-append name value en, hn, hv, ev)

name_plain : has_equals (codes "TEST_CODE") ≡ false
unfolding has_equals
name_plain = refl

code_parameter :
    (value : Text) (s : Settings)
    → is_empty value ≡ false
    → has_equals value ≡ false
    → parameter (name_value (codes "TEST_CODE" ++ (b'=' ∷ value))) s
      ≡ some (record s { test_code = value })
unfolding set_parameter
code_parameter value s hv ev =
    ap (λ r. parameter r s) (name_value-append (codes "TEST_CODE") value refl hv name_plain ev)

abbrev with_code : Text → Option Settings → Option Settings
with_code value none = none
with_code value (some s) = some (record s { test_code = value })

carried :
    (o : Option Settings) (f g : Settings → Option Settings) (t u : Settings)
    → elim o [ none ↦ none | some s ↦ f s ] ≡ some t
    → ((s : Settings) → f s ≡ some t → g s ≡ some u)
    → elim o [ none ↦ none | some s ↦ g s ] ≡ some u
carried none f g t u h k = absurd cc
carried (some s) f g t u h k = k s h

-- The last `TEST_CODE=value` takes effect, whatever came before it, and the other settings stay;
-- for a value that is not empty and holds no `=`, behind arguments that are parsed.
pub parse_parameters-last :
    (args : List Text) (value : Text) (s t : Settings)
    → is_empty value ≡ false
    → has_equals value ≡ false
    → parse_parameters args s ≡ some t
    → parse_parameters (args ++ ((codes "TEST_CODE" ++ (b'=' ∷ value)) ∷ [])) s
      ≡ some (record t { test_code = value })
unfolding parse_parameters
parse_parameters-last [] value s t hv ev h =
    rw (parse_parameters, code_parameter value s hv ev) (ap (with_code value) h)
parse_parameters-last (a ∷ args) value s t hv ev h =
    carried (parameter (name_value a) s) (parse_parameters args)
      (parse_parameters (args ++ ((codes "TEST_CODE" ++ (b'=' ∷ value)) ∷ []))) t
      (record t { test_code = value }) h (λ u k. parse_parameters-last args value u t hv ev k)
