-- ===== src/Hooks/Stems.antt =====
-- What a filename is compared by (`_stem` of src/uplinkmgr/hooks.py).
use uplinkmgr.Prelude.{
  ℕ, ◌≡◌, ◌↔◌, ◌⊎◌, subst, refl, sym, ap, ◌∙◌, [], ◌∷◌, ◌++◌, Bool-cases, Option-cases, inl, inr,
  true, some, Text, eqb, arith,
}
use uplinkmgr.Prelude.Decimal.{is_digit, all_digits}
use uplinkmgr.Hooks.{after_prefix, or_else, stem}

-- The text has a number and a hyphen before the rest: at least one digit, and nothing else.
abbrev pub IsNumbered : (filename rest : Text) → Type 0
IsNumbered filename rest =
    (c : ℕ) × (digits : Text) × (all_digits (c ∷ digits) ≡ true)
    × (filename ≡ (c ∷ digits) ++ b'-' ∷ rest)

-- The stem is what stands behind the number, and the whole filename where there is none.
abbrev pub IsStem : (filename s : Text) → Type 0
IsStem filename s =
    IsNumbered filename s ⊎ (((rest : Text) → ¬ IsNumbered filename rest) × (s ≡ filename))

after_prefix-digits :
    (digits rest : Text)
    → all_digits digits ≡ true
    → after_prefix (digits ++ b'-' ∷ rest) ≡ some rest
unfolding after_prefix
after_prefix-digits [] rest h = refl
after_prefix-digits (c ∷ digits) rest h =
    let first : is_digit c ≡ true = ground arith in
    rw (first, after_prefix-digits digits rest (ground arith)) refl

after_prefix-some :
    (s rest : Text)
    → after_prefix s ≡ some rest
    → (digits : Text) × (all_digits digits ≡ true) × (s ≡ digits ++ b'-' ∷ rest)
unfolding after_prefix
after_prefix-some [] rest h = cc
after_prefix-some (c ∷ s) rest h = elim (Bool-cases (is_digit c)) [
  | inl digit ↦
      let (digits, all, e) = after_prefix-some s rest (rw digit at h) in
      (c ∷ digits, rw (digit, all) refl, ap (λ t. c ∷ t) e)
  | inr other ↦ elim (Bool-cases (eqb c b'-')) [
    | inl hyphen ↦
        let same : c ≡ b'-' = ground arith in
        let tail : s ≡ rest = ground arith in
        ([], refl, ap (λ d. d ∷ s) same ∙ ap (λ t. b'-' ∷ t) tail)
    | inr ne ↦ ground arith
  ]
]

numbered :
    (c : ℕ) (s rest : Text)
    → is_digit c ≡ true
    → after_prefix (c ∷ s) ≡ some rest
    → IsNumbered (c ∷ s) rest
numbered c s rest digit h = go (after_prefix-some (c ∷ s) rest h)
  where
    go :
        (digits : Text) × (all_digits digits ≡ true) × ((c ∷ s) ≡ digits ++ b'-' ∷ rest)
        → IsNumbered (c ∷ s) rest
    go ([], all, e) = let hyphen : c ≡ b'-' = ground arith in ground arith
    go (d ∷ digits, all, e) = (d, digits, all, e)

stem-digit :
    (c : ℕ) (s : Text) → is_digit c ≡ true → stem (c ∷ s) ≡ or_else (c ∷ s) (after_prefix (c ∷ s))
unfolding stem after_prefix
stem-digit c s digit = rw digit refl

stem_numbered : (filename rest : Text) → IsNumbered filename rest → stem filename ≡ rest
stem_numbered filename rest (c, digits, all, e) =
    let first : is_digit c ≡ true = ground arith in
    ap stem e
    ∙ stem-digit c (digits ++ b'-' ∷ rest) first
    ∙ ap (or_else ((c ∷ digits) ++ b'-' ∷ rest)) (after_prefix-digits (c ∷ digits) rest all)

stem_plain :
    (filename : Text) → ((rest : Text) → ¬ IsNumbered filename rest) → stem filename ≡ filename
unfolding stem
stem_plain [] plain = refl
stem_plain (c ∷ s) plain = elim (Bool-cases (is_digit c)) [
  | inl digit ↦ elim (Option-cases (after_prefix (c ∷ s))) [
    | inl missing ↦ stem-digit c s digit ∙ ap (or_else (c ∷ s)) missing
    | inr (rest, found) ↦ absurd (plain rest (numbered c s rest digit found))
  ]
  | inr other ↦ rw other refl
]

some_number : (filename rest : Text) → IsNumbered filename rest → after_prefix filename ≡ some rest
some_number filename rest (c, digits, all, e) =
    ap after_prefix e ∙ after_prefix-digits (c ∷ digits) rest all

first_digit : (c : ℕ) (s rest : Text) → IsNumbered (c ∷ s) rest → is_digit c ≡ true
first_digit c s rest (d, digits, all, e) =
    let same : c ≡ d = ground arith in ap is_digit same ∙ ground arith

stem-IsStem : (filename : Text) → IsStem filename (stem filename)
unfolding stem
stem-IsStem [] = inr (λ rest (c, digits, all, e). cc, refl)
stem-IsStem (c ∷ s) = elim (Bool-cases (is_digit c)) [
  | inl digit ↦ elim (Option-cases (after_prefix (c ∷ s))) [
    | inl missing ↦
        let plain : (rest : Text) → ¬ IsNumbered (c ∷ s) rest =
          λ rest n. let found = some_number (c ∷ s) rest n in cc in
        inr (plain, stem_plain (c ∷ s) plain)
    | inr (rest, found) ↦
        subst (IsStem (c ∷ s)) (sym (stem-digit c s digit ∙ ap (or_else (c ∷ s)) found))
          (inl (numbered c s rest digit found))
  ]
  | inr other ↦
      let plain : (rest : Text) → ¬ IsNumbered (c ∷ s) rest =
        λ rest n. let digit = first_digit c s rest n in cc in
      inr (plain, stem_plain (c ∷ s) plain)
]

-- The stem is the only text that is one.
pub stem_iff : (filename s : Text) → (stem filename ≡ s) ↔ IsStem filename s
stem_iff filename s = (
  λ e. subst (IsStem filename) e (stem-IsStem filename),
  λ h. elim h [
    | inl number ↦ stem_numbered filename s number
    | inr (plain, e) ↦ stem_plain filename plain ∙ sym e
  ],
)
