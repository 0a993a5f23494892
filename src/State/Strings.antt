-- ===== src/State/Strings.antt =====
-- The methods of Python's `str` that state.py reads files with, and `int` of a text.
use uplinkmgr.Prelude.{
  ℕ, zero, suc, ◌+◌, ◌-◌, ◌*◌, List, [], ◌∷◌, Bool, true, false, ◌&&◌, ◌||◌, not, Option, none,
  some, Text, ℤ, pos, negsuc, leb, eqb, is_nonempty, if◌then◌else◌,
}
use uplinkmgr.Prelude.Decimal.{is_digit}

-- c.isspace()
abbrev pub is_space : ℕ → Bool
is_space c =
    (leb 9 c && leb c 13)
    || (leb 28 c && leb c 32)
    || eqb c 133
    || eqb c 160
    || eqb c 5760
    || (leb 8192 c && leb c 8202)
    || eqb c 8232
    || eqb c 8233
    || eqb c 8239
    || eqb c 8287
    || eqb c 12288

-- The characters at which `splitlines` ends a line.
abbrev pub is_break : ℕ → Bool
is_break c =
    (leb 10 c && leb c 13) || (leb 28 c && leb c 30) || eqb c 133 || eqb c 8232 || eqb c 8233

abbrev pub push : ℕ → List Text → List Text
push c [] = (c ∷ []) ∷ []
push c (l ∷ ls) = (c ∷ l) ∷ ls

-- s.splitlines(); a carriage return before a line feed ends no line of its own.
unfoldable pub split_lines : Text → List Text
split_lines [] = []
split_lines (c ∷ []) = if is_break c then [] ∷ [] else (c ∷ []) ∷ []
split_lines (c ∷ d ∷ s) =
    let rest = split_lines (d ∷ s) in
    if eqb c 13 && eqb d 10 then rest else if is_break c then [] ∷ rest else push c rest

unfoldable pub lstrip : Text → Text
lstrip [] = []
lstrip (c ∷ s) = let rest = lstrip s in if is_space c then rest else c ∷ s

unfoldable pub rstrip : Text → Text
rstrip [] = []
rstrip (c ∷ s) =
    let rest = rstrip s in if not (is_nonempty rest) && is_space c then [] else c ∷ rest

-- s.strip()
unfoldable pub strip : Text → Text
unfolding lstrip rstrip
strip s = rstrip (lstrip s)

-- The two parts of s.partition("="), or `none` where "=" is not in s.
unfoldable pub partition : Text → Option (Text × Text)
partition [] = none
partition (c ∷ s) =
    let rest : Option (Text × Text) = elim (partition s) [
      | none ↦ none
      | some (k, v) ↦ some (c ∷ k, v)
    ] in
    if eqb c b'=' then some ([], s) else rest

-- Digits, with single underscores between them. The flag says that a digit stands before.
unfoldable pub int_from : Bool → ℕ → Text → Option ℕ
int_from true acc [] = some acc
int_from false acc [] = none
int_from after_digit acc (c ∷ s) =
    let more = int_from true (acc * 10 + (c - 48)) s in
    let skip = int_from false acc s in
    if is_digit c then more else if after_digit && eqb c b'_' then skip else none

abbrev pub negate : Option ℕ → Option ℤ
negate none = none
negate (some zero) = some (pos 0)
negate (some (suc n)) = some (negsuc n)

abbrev pub positive : Option ℕ → Option ℤ
positive none = none
positive (some n) = some (pos n)

abbrev pub signed : Text → Option ℤ
signed [] = none
signed (c ∷ s) =
    if eqb c b'-'
    then negate (int_from false 0 s)
    else if eqb c b'+'
    then positive (int_from false 0 s)
    else positive (int_from false 0 (c ∷ s))

-- int(s), `none` for its ValueError. Digits other than 0 to 9 are not modelled.
unfoldable pub int_of : Text → Option ℤ
unfolding strip int_from
int_of s = signed (strip s)
