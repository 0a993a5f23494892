-- ===== src/Hooks/Order.antt =====
-- The order in which an event attempts its scripts (src/uplinkmgr/hooks.py).
use uplinkmgr.Prelude.{
  ◌≡◌, refl, List, [], ◌∷◌, true, false, Bool-cases, inl, inr, Option, Text, arith,
}
use uplinkmgr.Hooks.{Script, lt_text, insert_script, sort_scripts, survivors, resolve_hook_scripts}

-- The order by filename: nothing that stands later is less.
abbrev NoneLess : Text → List Script → Type 0
NoneLess n [] = Unit
NoneLess n (s ∷ scripts) = (lt_text s.1 n ≡ false) × NoneLess n scripts

abbrev pub IsSorted : List Script → Type 0
IsSorted [] = Unit
IsSorted (s ∷ scripts) = NoneLess s.1 scripts × IsSorted scripts

lt_text_asymm : (s t : Text) → lt_text s t ≡ true → lt_text t s ≡ false
unfolding lt_text
lt_text_asymm [] [] h = cc
lt_text_asymm (c ∷ s) [] h = cc
lt_text_asymm [] (d ∷ t) h = refl
lt_text_asymm (c ∷ s) (d ∷ t) h = ground (arith, lt_text_asymm s t)

not-lt_text_trans : (r s t : Text) → lt_text r s ≡ false → lt_text s t ≡ false → lt_text r t ≡ false
unfolding lt_text
not-lt_text_trans r s [] h k = refl
not-lt_text_trans r [] (d ∷ t) h k = cc
not-lt_text_trans [] (c ∷ s) (d ∷ t) h k = cc
not-lt_text_trans (b ∷ r) (c ∷ s) (d ∷ t) h k = ground (arith, not-lt_text_trans r s t)

NoneLess-trans :
    (m n : Text) (xs : List Script) → NoneLess m xs → lt_text m n ≡ false → NoneLess n xs
NoneLess-trans m n [] h k = tt
NoneLess-trans m n (x ∷ xs) h k = (not-lt_text_trans x.1 m n h.0 k, NoneLess-trans m n xs h.1 k)

NoneLess-insert :
    (n : Text) (x : Script) (ys : List Script)
    → lt_text x.1 n ≡ false
    → NoneLess n ys
    → NoneLess n (insert_script x ys)
unfolding insert_script
NoneLess-insert n x [] h k = (h, tt)
NoneLess-insert n x (y ∷ ys) h k = elim (Bool-cases (lt_text y.1 x.1)) [
  | inl less ↦ rw less (k.0, NoneLess-insert n x ys h k.1)
  | inr more ↦ rw more (h, k)
]

insert-IsSorted : (x : Script) (ys : List Script) → IsSorted ys → IsSorted (insert_script x ys)
unfolding insert_script
insert-IsSorted x [] h = (tt, tt)
insert-IsSorted x (y ∷ ys) h = elim (Bool-cases (lt_text y.1 x.1)) [
  | inl less ↦
      rw less (NoneLess-insert y.1 x ys (lt_text_asymm y.1 x.1 less) h.0, insert-IsSorted x ys h.1)
  | inr more ↦ rw more ((more, NoneLess-trans y.1 x.1 ys h.0 more), h)
]

sort-IsSorted : (xs : List Script) → IsSorted (sort_scripts xs)
unfolding sort_scripts
sort-IsSorted [] = tt
sort-IsSorted (x ∷ xs) = insert-IsSorted x (sort_scripts xs) (sort-IsSorted xs)

module _ (system_dir user_dir : Text) (listing : Text → Option (List Text)) where
  -- The scripts of an event are attempted in the order of their filenames: no script stands behind
  -- one whose filename is greater.
  pub resolve_hook_scripts-IsSorted : IsSorted (resolve_hook_scripts system_dir user_dir listing)
  unfolding resolve_hook_scripts
  resolve_hook_scripts-IsSorted = sort-IsSorted (survivors system_dir user_dir listing)
