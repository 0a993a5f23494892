-- ===== src/Hooks/Candidates.antt =====
-- Which entries of a directory are scripts: no hidden files and no backups (src/uplinkmgr/hooks.py).
use uplinkmgr.Prelude.{
  ℕ, ◌-◌, ◌≡◌, ◌≢◌, ◌↔◌, refl, sym, ap, ◌∙◌, List, [], ◌∷◌, ◌++◌, Bool-cases, inl, inr, true, false,
  Text, text, ==_iff, ==_refl, contains, length, length-append, take, drop, take-append-drop, leb,
  eqb, ◌==◌, arith,
}
use uplinkmgr.Hooks.{ends_with, any_suffix, backup_suffixes, is_candidate}

-- The endings of editors' and package managers' backups.
abbrev pub endings : List Text
endings =
    text "~"
    ∷ text ".bak"
    ∷ text ".swp"
    ∷ text ".dpkg-old"
    ∷ text ".dpkg-new"
    ∷ text ".dpkg-dist"
    ∷ text ".dpkg-tmp"
    ∷ text ".rpmsave"
    ∷ text ".rpmnew"
    ∷ text ".rpmorig"
    ∷ []

-- No hidden file, and no backup.
pub record IsHookName (n : Text) : Type 0 where
  pub visible : (rest : Text) → n ≢ (b'.' ∷ rest)
  pub current : (base ending : Text) → contains ending endings ≡ true → n ≢ (base ++ ending)

pub drop-length_append : (s t : Text) → drop (length s) (s ++ t) ≡ t
drop-length_append [] t = refl
drop-length_append (c ∷ s) t = drop-length_append s t

pub ends_with-append : (s suffix : Text) → ends_with (s ++ suffix) suffix ≡ true
unfolding ends_with
ends_with-append s suffix =
    let same : length (s ++ suffix) - length suffix ≡ length s =
      omega (arith, length-append s suffix) in
    let fits : leb (length suffix) (length (s ++ suffix)) ≡ true =
      ground (arith, length-append s suffix) in
    rw (fits, same, drop-length_append s suffix) (==_refl suffix)

-- What stands before the ending.
ends_with-base :
    (s suffix : Text) → ends_with s suffix ≡ true → (base : Text) × (s ≡ base ++ suffix)
unfolding ends_with
ends_with-base s suffix h =
    let n = length s - length suffix in
    let same : drop n s ≡ suffix = (==_iff (drop n s) suffix).0 (ground arith) in
    (take n s, sym (take-append-drop n s) ∙ ap (λ t. take n s ++ t) same)

any_suffix-append :
    (base ending : Text) (suffixes : List Text)
    → contains ending suffixes ≡ true
    → any_suffix (base ++ ending) suffixes ≡ true
unfolding any_suffix contains
any_suffix-append base ending [] h = cc
any_suffix-append base ending (x ∷ suffixes) h = elim (Bool-cases (ending == x)) [
  | inl e ↦
      let found =
        ap (ends_with (base ++ ending)) (sym ((==_iff ending x).0 e))
        ∙ ends_with-append base ending in
      rw found refl
  | inr ne ↦ ground (arith, any_suffix-append base ending suffixes)
]

any_suffix-ends :
    (s : Text) (suffixes : List Text)
    → any_suffix s suffixes ≡ true
    → (base ending : Text) × (contains ending suffixes ≡ true) × (s ≡ base ++ ending)
unfolding any_suffix contains
any_suffix-ends s [] h = cc
any_suffix-ends s (x ∷ suffixes) h = elim (Bool-cases (ends_with s x)) [
  | inl found ↦ let (base, e) = ends_with-base s x found in (base, x, rw (==_refl x) refl, e)
  | inr missing ↦
      let (base, ending, listed, e) = any_suffix-ends s suffixes (ground arith) in
      (base, ending, ground arith, e)
]

-- The suffixes of the source are the endings.
listed_iff : (ending : Text) → contains ending backup_suffixes ≡ contains ending endings
unfolding contains
listed_iff ending = ground arith

dotless : (c : ℕ) (rest : Text) → eqb c b'.' ≡ false → (s : Text) → (c ∷ rest) ≢ (b'.' ∷ s)
dotless c rest ne s e = let same : c ≡ b'.' = ground arith in ground arith

any_suffix-false : (n : Text) → IsHookName n → any_suffix n backup_suffixes ≡ false
any_suffix-false n h = elim (Bool-cases (any_suffix n backup_suffixes)) [
  | inl found ↦
      let (base, ending, listed, e) = any_suffix-ends n backup_suffixes found in
      absurd (h.current base ending (sym (listed_iff ending) ∙ listed) e)
  | inr missing ↦ missing
]

current_of :
    (n : Text)
    → any_suffix n backup_suffixes ≡ false
    → (base ending : Text) → contains ending endings ≡ true
    → n ≢ (base ++ ending)
current_of n missing base ending listed e =
    let found = any_suffix-append base ending backup_suffixes (listed_iff ending ∙ listed) in
    let bad = sym missing ∙ ap (λ s. any_suffix s backup_suffixes) e ∙ found in cc

pub is_candidate-IsHookName : (n : Text) → (is_candidate n ≡ true) ↔ IsHookName n
unfolding is_candidate
is_candidate-IsHookName [] = (
  λ h. record { visible = λ rest e. cc; current = current_of [] (ground arith) },
  λ h. rw (any_suffix-false [] h) refl,
)
is_candidate-IsHookName (c ∷ n) = elim (Bool-cases (eqb c b'.')) [
  | inl dot ↦ (
    λ h. ground arith,
    λ h. let same : c ≡ b'.' = ground arith in absurd (h.visible n (ap (λ d. d ∷ n) same)),
  )
  | inr plain ↦ (
    λ h. record { visible = dotless c n plain; current = current_of (c ∷ n) (ground arith) },
    λ h. rw (plain, any_suffix-false (c ∷ n) h) refl,
  )
]
