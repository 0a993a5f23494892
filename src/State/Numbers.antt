-- ===== src/State/Numbers.antt =====
-- `int` reads what `str` prints.
use uplinkmgr.Prelude.{
  ℕ, suc, ◌+◌, ◌-◌, ◌*◌, ◌<◌, ◌≡◌, refl, ap, ◌∙◌, [], ◌∷◌, ◌++◌, Bool, true, false, not, ◌&&◌, some,
  Text, ℤ, pos, negsuc, length, is_nonempty, if◌then◌else◌, arith,
}
use uplinkmgr.Prelude.Decimal.{
  str_ℕ, str_ℤ, is_digit, all_digits, all_digits-str_ℕ, value_from, value_from-str_ℕ,
  length-str_ℕ-positive,
}
use uplinkmgr.State.Strings.{
  is_space, lstrip, rstrip, strip, int_from, signed, positive, negate, int_of,
}

-- No character is white space.
abbrev pub is_solid : Text → Bool
is_solid [] = true
is_solid (c ∷ s) = not (is_space c) && is_solid s

pub is_solid-append :
    (s t : Text) → is_solid s ≡ true → is_solid t ≡ true → is_solid (s ++ t) ≡ true
is_solid-append [] t hs ht = ht
is_solid-append (c ∷ s) t hs ht = ground (arith, is_solid-append s t)

lstrip-solid : (s : Text) → is_solid s ≡ true → lstrip s ≡ s
unfolding lstrip
lstrip-solid [] h = refl
lstrip-solid (c ∷ s) h = ground arith

both : (b r : Bool) → (not b && r) ≡ true → (b ≡ false) × (r ≡ true)
both b r h = ground arith

not_taken : (b x : Bool) (t : Text) → x ≡ false → (if b && x then [] else t) ≡ t
not_taken b x t h = ground arith

rstrip-solid : (s : Text) → is_solid s ≡ true → rstrip s ≡ s
unfolding rstrip
rstrip-solid [] h = refl
rstrip-solid (c ∷ s) h =
    let (solid, rest) = both (is_space c) (is_solid s) h in
    rw (rstrip-solid s rest) (not_taken (not (is_nonempty s)) (is_space c) (c ∷ s) solid)

pub strip-solid : (s : Text) → is_solid s ≡ true → strip s ≡ s
unfolding strip
strip-solid s h = ap rstrip (lstrip-solid s h) ∙ rstrip-solid s h

is_solid-digits : (s : Text) → all_digits s ≡ true → is_solid s ≡ true
is_solid-digits [] h = refl
is_solid-digits (c ∷ s) h = ground (arith, is_solid-digits s)

int_from-digits :
    (acc : ℕ) (s : Text) → all_digits s ≡ true → int_from true acc s ≡ some (value_from 10 acc s)
unfolding int_from value_from
int_from-digits acc [] h = refl
int_from-digits acc (c ∷ s) h = ground (arith, int_from-digits (acc * 10 + (c - 48)) s)

-- A digit comes first.
starts_with_digit :
    (s : Text)
    → all_digits s ≡ true
    → 0 < length s
    → (c : ℕ) × (rest : Text) × (s ≡ c ∷ rest) × (is_digit c ≡ true)
starts_with_digit [] h lt = absurd (omega arith)
starts_with_digit (c ∷ s) h lt = (c, s, refl, ground arith)

int_from-first :
    (s : Text) → all_digits s ≡ true → 0 < length s → int_from false 0 s ≡ some (value_from 10 0 s)
unfolding int_from value_from
int_from-first [] h lt = absurd (omega arith)
int_from-first (c ∷ s) h lt = ground (arith, int_from-digits (0 * 10 + (c - 48)) s)

int_from-str_ℕ : (n : ℕ) → int_from false 0 (str_ℕ n) ≡ some n
int_from-str_ℕ n =
    int_from-first (str_ℕ n) (all_digits-str_ℕ n) (length-str_ℕ-positive n)
    ∙ ap some (value_from-str_ℕ n)

signed-digits :
    (s : Text) → all_digits s ≡ true → 0 < length s → signed s ≡ positive (int_from false 0 s)
signed-digits [] h lt = absurd (omega arith)
signed-digits (c ∷ s) h lt = ground arith

pub is_solid-str_ℤ : (n : ℤ) → is_solid (str_ℤ n) ≡ true
unfolding str_ℤ
is_solid-str_ℤ (pos n) = is_solid-digits (str_ℕ n) (all_digits-str_ℕ n)
is_solid-str_ℤ (negsuc n) = is_solid-digits (str_ℕ (suc n)) (all_digits-str_ℕ (suc n))

signed-str_ℤ : (n : ℤ) → signed (str_ℤ n) ≡ some n
unfolding str_ℤ
signed-str_ℤ (pos n) =
    signed-digits (str_ℕ n) (all_digits-str_ℕ n) (length-str_ℕ-positive n)
    ∙ ap positive (int_from-str_ℕ n)
signed-str_ℤ (negsuc n) = ap negate (int_from-str_ℕ (suc n))

-- The text of a number is read as that number.
pub int_of-str_ℤ : (n : ℤ) → int_of (str_ℤ n) ≡ some n
unfolding int_of
int_of-str_ℤ n = ap signed (strip-solid (str_ℤ n) (is_solid-str_ℤ n)) ∙ signed-str_ℤ n
