-- ===== src/Config/Names.antt =====
-- The names that config.py accepts (src/uplinkmgr/config.py, the two patterns and
-- `_validate_iface`).
use uplinkmgr.Prelude.{
  ℕ, [], ◌∷◌, Bool, true, false, ◌&&◌, ◌||◌, Text, leb, eqb, length, is_nonempty,
}
use uplinkmgr.Prelude.Decimal.{is_digit}
use uplinkmgr.Config.Yaml.{Result, ◌>>◌, check, interface_too_long, interface_invalid}
use uplinkmgr.Naming.{chomp}

abbrev is_letter : ℕ → Bool
is_letter c = (leb b'a' c && leb c b'z') || (leb b'A' c && leb c b'Z')

-- [a-zA-Z0-9]
abbrev pub is_alnum : ℕ → Bool
is_alnum c = is_letter c || is_digit c

-- [a-zA-Z0-9-]
abbrev pub is_name_char : ℕ → Bool
is_name_char c = is_alnum c || eqb c b'-'

-- [a-zA-Z0-9._:-]
abbrev pub is_iface_char : ℕ → Bool
is_iface_char c = is_alnum c || eqb c b'.' || eqb c b'_' || eqb c b':' || eqb c b'-'

abbrev pub all_chars : (ℕ → Bool) → Text → Bool
all_chars p [] = true
all_chars p (c ∷ s) = p c && all_chars p s

-- _NAME_RE.match(s); `$` also stands before a newline that ends the text.
unfoldable pub is_name : Text → Bool
is_name s = is_nonempty (chomp s) && all_chars is_name_char (chomp s)

abbrev pub is_iface_from : Text → Bool
is_iface_from [] = false
is_iface_from (c ∷ s) = is_alnum c && (leb (length s) 14 && all_chars is_iface_char s)

-- _IFACE_RE.match(s)
unfoldable pub is_iface : Text → Bool
is_iface s = is_iface_from (chomp s)

unfoldable pub validate_iface : Text → Result (Unit {0})
validate_iface name =
    check (leb (length name) 15) (interface_too_long name)
    >> check (is_iface name) (interface_invalid name)
