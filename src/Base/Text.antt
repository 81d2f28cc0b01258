-- ===== src/Base/Text.antt =====
-- C text. A pointer into a line is the list of the bytes from there on; the byte 0 ends the
-- text, and what stands past the list reads as 0. The `ctype.h` tests are those of the C locale.
use Prim.Native.Char.{code}
use Prim.Native.Nat.{ℕ, ◌+◌, ◌-◌}
use Prim.Native.String.{String}
use mathlib.Core.Bool.{Bool, true, false, ◌&&◌, ◌||◌}
use mathlib.Core.List.{List, [], ◌∷◌}
use rsd_m.Base.Tests.{leb, ◌==◌, if◌then◌else◌}

abbrev pub Text : Type 0
Text = List ℕ

abbrev pub codes : String → Text
codes String.[] = []
codes (String.◌∷◌ c s) = code c ∷ codes s

-- `*p`, `p[1]` and `p[2]`.
abbrev pub peek : Text → ℕ
peek [] = 0
peek (c ∷ p) = c

abbrev pub next : Text → Text
next [] = []
next (c ∷ p) = p

abbrev pub peek1 : Text → ℕ
peek1 p = peek (next p)

abbrev pub peek2 : Text → ℕ
peek2 p = peek (next (next p))

abbrev pub is_space : ℕ → Bool
is_space c = c == b' ' || leb 9 c && leb c 13

abbrev pub is_digit : ℕ → Bool
is_digit c = leb b'0' c && leb c b'9'

abbrev pub is_upper : ℕ → Bool
is_upper c = leb b'A' c && leb c b'Z'

abbrev pub is_lower : ℕ → Bool
is_lower c = leb b'a' c && leb c b'z'

abbrev pub is_alpha : ℕ → Bool
is_alpha c = is_upper c || is_lower c

abbrev pub is_alnum : ℕ → Bool
is_alnum c = is_alpha c || is_digit c

abbrev pub is_xdigit : ℕ → Bool
is_xdigit c = is_digit c || leb b'A' c && leb c b'F' || leb b'a' c && leb c b'f'

abbrev pub to_upper : ℕ → ℕ
to_upper c = if is_lower c then c - 32 else c

abbrev pub to_lower : ℕ → ℕ
to_lower c = if is_upper c then c + 32 else c

-- `strcmp(a, b) == 0`, on names that hold no 0.
abbrev pub str_eq : Text → Text → Bool
str_eq [] [] = true
str_eq (x ∷ a) (y ∷ b) = x == y && str_eq a b
str_eq _ _ = false

-- `strcasecmp(a, b) == 0`.
abbrev pub str_case_eq : Text → Text → Bool
str_case_eq [] [] = true
str_case_eq (x ∷ a) (y ∷ b) = to_lower x == to_lower y && str_case_eq a b
str_case_eq _ _ = false

-- `strncasecmp(p, name, strlen(name)) == 0`, for a name that holds no 0.
abbrev pub starts_case : Text → Text → Bool
starts_case p [] = true
starts_case [] (y ∷ b) = false
starts_case (x ∷ p) (y ∷ b) = to_lower x == to_lower y && starts_case p b
