-- ===== src/Prelude/Decimal.antt =====
-- Numbers as text: Python's `str(int)`, and the hexadecimal digits of a format.
use native.Mathlib.Nat.{div-add-mod', div-lt_self}
use native.Mathlib.Omega.{arith}
use uplinkmgr.Prelude.{
  ℕ, zero, suc, ◌+◌, ◌-◌, ◌*◌, ◌/◌, ◌%◌, ◌<◌, ◌≤◌, ◌≡◌, refl, ap, ◌∙◌, sym, [], ◌∷◌, ◌++◌, Text,
  ltb, if◌then◌else◌, ℤ, pos, negsuc, Bool-cases, inl, inr, false, true, Bool, ◌&&◌, leb, length,
  length-append, lt→ltb,
}

-- '0'..'9', then 'a'..
abbrev digit_char : ℕ → ℕ
digit_char d = if ltb d 10 then 48 + d else 87 + d

abbrev pub digit_value : ℕ → ℕ
digit_value c = if ltb c 58 then c - 48 else c - 87

digit_value-char : (d : ℕ) → digit_value (digit_char d) ≡ d
digit_value-char d = ground arith

-- The digits of `n`, the last one first taken off. One unit of fuel for each digit.
digits_from : ℕ → ℕ → ℕ → Text
digits_from base zero n = []
digits_from base (suc fuel) n =
    let rest = digits_from base fuel (n / base) in
    if ltb n base then digit_char n ∷ [] else rest ++ digit_char (n % base) ∷ []

-- str(n)
unfoldable pub str_ℕ : ℕ → Text
unfolding digits_from
str_ℕ n = digits_from 10 (suc n) n

-- f"{n:x}"
unfoldable pub hex : ℕ → Text
unfolding digits_from
hex n = digits_from 16 (suc n) n

-- str(n) of a signed number
unfoldable pub str_ℤ : ℤ → Text
unfolding str_ℕ
str_ℤ (pos n) = str_ℕ n
str_ℤ (negsuc n) = b'-' ∷ str_ℕ (suc n)

-- What a run of digits stands for.
unfoldable pub value_from : ℕ → ℕ → Text → ℕ
value_from base acc [] = acc
value_from base acc (c ∷ cs) = value_from base (acc * base + digit_value c) cs

value_from-append_one :
    (base acc c : ℕ) (s : Text)
    → value_from base acc (s ++ c ∷ []) ≡ value_from base acc s * base + digit_value c
unfolding value_from
value_from-append_one base acc c [] = refl
value_from-append_one base acc c (d ∷ s) =
    value_from-append_one base (acc * base + digit_value d) c s

module _ (base : ℕ) (big : 2 ≤ base) where
  div_smaller : (n : ℕ) → ltb n base ≡ false → n / base < n
  div_smaller n h = div-lt_self {n = n} {k = base} (ground arith) big

  value_from-digits : (fuel n : ℕ) → n < fuel → value_from base 0 (digits_from base fuel n) ≡ n
  unfolding value_from digits_from
  value_from-digits zero n h = elim h [ ]
  value_from-digits (suc fuel) n h = elim (Bool-cases (ltb n base)) [
    | inl small ↦ rw small (ground arith)
    | inr large ↦
        let smaller = div_smaller n large in
        rw large (
          rw
            (value_from-append_one base 0 (digit_char (n % base))
              (digits_from base fuel (n / base)))
            (rw (value_from-digits fuel (n / base) (omega arith), digit_value-char (n % base))
              (div-add-mod' n base)))
  ]

-- Different numbers have different decimal texts.
pub str_ℕ-injective : (n m : ℕ) → str_ℕ n ≡ str_ℕ m → n ≡ m
unfolding str_ℕ
str_ℕ-injective n m e =
    sym (value_from-digits 10 (omega arith) (suc n) n (omega arith))
    ∙ ap (value_from 10 0) e
    ∙ value_from-digits 10 (omega arith) (suc m) m (omega arith)

pub value_from-str_ℕ : (n : ℕ) → value_from 10 0 (str_ℕ n) ≡ n
unfolding str_ℕ
value_from-str_ℕ n = value_from-digits 10 (omega arith) (suc n) n (omega arith)

pub length-str_ℕ-positive : (n : ℕ) → 0 < length (str_ℕ n)
unfolding str_ℕ digits_from
length-str_ℕ-positive n = elim (Bool-cases (ltb n 10)) [
  | inl small ↦ rw small (omega arith)
  | inr large ↦
      rw (large, length-append (digits_from 10 n (n / 10)) (digit_char (n % 10) ∷ [])) (omega arith)
]

pub hex-injective : (n m : ℕ) → hex n ≡ hex m → n ≡ m
unfolding hex
hex-injective n m e =
    sym (value_from-digits 16 (omega arith) (suc n) n (omega arith))
    ∙ ap (value_from 16 0) e
    ∙ value_from-digits 16 (omega arith) (suc m) m (omega arith)

abbrev pub is_digit : ℕ → Bool
is_digit c = leb b'0' c && leb c b'9'

abbrev pub all_digits : Text → Bool
all_digits [] = true
all_digits (c ∷ s) = is_digit c && all_digits s

all_digits-append_one :
    (s : Text) (c : ℕ) → all_digits s ≡ true → is_digit c ≡ true → all_digits (s ++ c ∷ []) ≡ true
all_digits-append_one [] c hs hc = ground arith
all_digits-append_one (d ∷ s) c hs hc = ground (arith, all_digits-append_one s c)

is_digit-char : (d : ℕ) → d < 10 → is_digit (digit_char d) ≡ true
is_digit-char d h = ground arith

all_digits-digits : (fuel n : ℕ) → all_digits (digits_from 10 fuel n) ≡ true
unfolding digits_from
all_digits-digits zero n = refl
all_digits-digits (suc fuel) n = elim (Bool-cases (ltb n 10)) [
  | inl small ↦ rw small (ground (arith, is_digit-char n))
  | inr large ↦ rw large (
      all_digits-append_one (digits_from 10 fuel (n / 10)) (digit_char (n % 10))
        (all_digits-digits fuel (n / 10)) (is_digit-char (n % 10) (omega arith)))
]

pub all_digits-str_ℕ : (n : ℕ) → all_digits (str_ℕ n) ≡ true
unfolding str_ℕ
all_digits-str_ℕ n = all_digits-digits (suc n) n

length-digits-lt_ten : (fuel n : ℕ) → n < 10 → length (digits_from 10 fuel n) ≤ 1
unfolding digits_from
length-digits-lt_ten zero n h = omega arith
length-digits-lt_ten (suc fuel) n h = rw (lt→ltb n 10 h) (omega arith)

length-digits-step :
    (fuel n : ℕ) → length (digits_from 10 (suc fuel) n) ≤ length (digits_from 10 fuel (n / 10)) + 1
unfolding digits_from
length-digits-step fuel n =
    ground (arith, length-append (digits_from 10 fuel (n / 10)) (digit_char (n % 10) ∷ []))

length-digits-lt_hundred : (fuel n : ℕ) → n < 100 → length (digits_from 10 fuel n) ≤ 2
unfolding digits_from
length-digits-lt_hundred zero n h = omega arith
length-digits-lt_hundred (suc fuel) n h =
    omega (arith, length-digits-step fuel n, length-digits-lt_ten fuel (n / 10) (omega arith))

pub length-str_ℕ-le_three : (n : ℕ) → n < 1000 → length (str_ℕ n) ≤ 3
unfolding str_ℕ
length-str_ℕ-le_three n h =
    omega (arith, length-digits-step n n, length-digits-lt_hundred n (n / 10) (omega arith))
