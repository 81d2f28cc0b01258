-- ===== src/Asm/Line/Base.antt =====
-- What the handlers of `assemble_line` share.
use rsd_m.Base.{ℕ, Bool, false, ◌||◌, List, [], ◌∷◌, Option, none, some, if◌then◌else◌}
use rsd_m.Base.Text.{Text, codes, str_eq}
use rsd_m.Asm.State.{M, Action, pure, ◌>>=◌, ◌>>◌}
use rsd_m.Asm.Lexer.{expect_comma, parse_register}
use rsd_m.Asm.Code.{emit32}
use rsd_m.Asm.Encode.{enc_r3}
use rsd_m.Isa.{op_add}
use Prim.Native.String.{String}

-- A mnemonic, and the action that it stands for.
abbrev pub Entry : Type 0
Entry = String × Action

-- `if (!strcmp(mnem, "..")) { ...; return; }` for each entry in turn.
abbrev pub first_entry : List Entry → Text → Option Action
first_entry [] mnem = none
first_entry ((name, act) ∷ rest) mnem =
    if str_eq mnem (codes name) then some act else first_entry rest mnem

-- `!strcmp(mnem, a) || !strcmp(mnem, b) || ...`
abbrev pub is_any : List String → Text → Bool
is_any [] mnem = false
is_any (name ∷ rest) mnem = str_eq mnem (codes name) || is_any rest mnem

-- The next handler, where this one does not know the mnemonic.
infixr 5 ◌or_else◌
abbrev pub ◌or_else◌ : Option Action → Option Action → Option Action
some act or_else other = some act
none or_else other = other

abbrev pub when_any : List String → Action → Text → Option Action
when_any names act mnem = if is_any names mnem then some act else none

-- `ADD R0, R0, R0` with no flags.
abbrev pub nop_word : ℕ
nop_word = enc_r3 op_add 0 0 0 0 0

unfoldable pub emit_nop : Action
emit_nop = emit32 nop_word

-- A register and the comma behind it.
unfoldable pub register_comma : M ℕ
register_comma = do rd ← parse_register; expect_comma; pure rd
