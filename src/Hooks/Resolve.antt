-- ===== src/Hooks/Resolve.antt =====
-- The scripts that an event attempts: which survive the shadowing (src/uplinkmgr/hooks.py).
use uplinkmgr.Prelude.{
  ◌≡◌, ◌↔◌, ◌⊎◌, refl, sym, ap, ◌∙◌, List, [], ◌∷◌, ◌++◌, map, Bool, true, false, ◌&&◌, ◌||◌, not,
  Bool-cases, Option-cases, inl, inr, Option, some, none, Text, ◌==◌, ==_iff, ==_refl, contains,
  arith,
}
use uplinkmgr.Hooks.{
  Script, stem, is_candidate, keep_if, list_dir, insert_script, sort_scripts, survivors,
  resolve_hook_scripts,
}
use uplinkmgr.Hooks.Candidates.{IsHookName, is_candidate-IsHookName}
use uplinkmgr.Hooks.Stems.{IsStem, stem_iff}

-- What a directory lists; nothing where listing it fails.
abbrev pub entries_of : Option (List Text) → List Text
entries_of none = []
entries_of (some entries) = entries

-- Whether a list holds the script of that name in that directory.
abbrev pub holds : Text → Text → List Script → Bool
holds d n [] = false
holds d n (s ∷ scripts) = (d == s.0 && n == s.1) || holds d n scripts

holds-append :
    (d n : Text) (xs ys : List Script) → holds d n (xs ++ ys) ≡ (holds d n xs || holds d n ys)
holds-append d n [] ys = refl
holds-append d n (x ∷ xs) ys = ground (arith, holds-append d n xs ys)

holds-insert :
    (d n : Text) (x : Script) (ys : List Script)
    → holds d n (insert_script x ys) ≡ holds d n (x ∷ ys)
unfolding insert_script
holds-insert d n x [] = refl
holds-insert d n x (y ∷ ys) = ground (arith, holds-insert d n x ys)

holds-sort : (d n : Text) (xs : List Script) → holds d n (sort_scripts xs) ≡ holds d n xs
unfolding sort_scripts
holds-sort d n [] = refl
holds-sort d n (x ∷ xs) =
    holds-insert d n x (sort_scripts xs) ∙ ap (λ b. (d == x.0 && n == x.1) || b) (holds-sort d n xs)

holds-map :
    (d n e : Text) (names : List Text)
    → holds d n (map (λ name. (e, name)) names) ≡ (d == e && contains n names)
unfolding contains
holds-map d n e [] = ground arith
holds-map d n e (m ∷ names) = ground (arith, holds-map d n e names)

contains-keep_if :
    (n : Text) (keep : Text → Bool) (xs : List Text)
    → contains n (keep_if keep xs) ≡ (contains n xs && keep n)
unfolding contains keep_if
contains-keep_if n keep [] = refl
contains-keep_if n keep (x ∷ xs) = elim (Bool-cases (n == x)) [
  | inl e ↦
      let same : n ≡ x = (==_iff n x).0 e in
      ground (arith, contains-keep_if n keep xs, ap keep same)
  | inr ne ↦ ground (arith, contains-keep_if n keep xs, ne)
]

flags :
    (a b c e f : Bool)
    → ((a && b) || (c && (e && not f)) ≡ true)
      ↔ (((a ≡ true) × (b ≡ true)) ⊎ ((c ≡ true) × (e ≡ true) × (¬ (f ≡ true))))
flags a b c e f = ground arith

module _ (system_dir user_dir : Text) (listing : Text → Option (List Text)) where
  -- An entry of a directory that the filter keeps.
  abbrev offers : Text → Text → Bool
  offers d n = contains n (entries_of (listing d)) && is_candidate n

  contains-list_dir : (d n : Text) → contains n (list_dir (listing d)) ≡ offers d n
  unfolding list_dir
  contains-list_dir d n = elim (Option-cases (listing d)) [
    | inl missing ↦ rw missing (unfold contains in refl)
    | inr (entries, found) ↦ rw found (contains-keep_if n is_candidate entries)
  ]

  holds-resolved :
      (d n : Text)
      → holds d n (resolve_hook_scripts system_dir user_dir listing) ≡ (
          (d == user_dir && offers user_dir n)
          || (d == system_dir
              && (offers system_dir n
                  && not (contains (stem n) (map stem (list_dir (listing user_dir)))))))
  unfolding resolve_hook_scripts survivors
  holds-resolved d n =
      let users = list_dir (listing user_dir) in
      let systems = list_dir (listing system_dir) in
      let unshadowed = λ (name : Text). not (contains (stem name) (map stem users)) in
      rw (
        holds-sort d n (survivors system_dir user_dir listing),
        holds-append d n (map (λ name. (user_dir, name)) users)
            (map (λ name. (system_dir, name)) (keep_if unshadowed systems)),
        holds-map d n user_dir users,
        holds-map d n system_dir (keep_if unshadowed systems),
        contains-keep_if n unshadowed systems,
        contains-list_dir user_dir n,
        contains-list_dir system_dir n,
      )

  -- An entry of a directory that is no hidden file and no backup.
  pub record Offers (d n : Text) : Type 0 where
    pub entry : contains n (entries_of (listing d)) ≡ true
    pub name : IsHookName n

  -- Such an entry of the user's directory has the same stem.
  abbrev pub IsShadowed : Text → Type 0
  IsShadowed n = (m s : Text) × Offers user_dir m × IsStem m s × IsStem n s

  offers-Offers : (d n : Text) → (offers d n ≡ true) ↔ Offers d n
  offers-Offers d n = (
    λ h. record { entry = ground arith; name = (is_candidate-IsHookName n).0 (ground arith) },
    λ o.
        let good = (is_candidate-IsHookName n).1 o.name in
        let there = o.entry in rw (there, good) refl,
  )

  contains-stems :
      (s : Text) (names : List Text)
      → (contains s (map stem names) ≡ true)
        ↔ ((m : Text) × (contains m names ≡ true) × (stem m ≡ s))
  unfolding contains
  contains-stems s [] = (λ h. cc, λ (m, h, e). cc)
  contains-stems s (x ∷ names) = (
    λ h. elim (Bool-cases (s == stem x)) [
      | inl e ↦ (x, rw (==_refl x) refl, sym ((==_iff s (stem x)).0 e))
      | inr ne ↦
          let (m, listed, same) = (contains-stems s names).0 (ground arith) in
          (m, ground arith, same)
    ],
    λ (m, h, e). elim (Bool-cases (m == x)) [
      | inl e' ↦ rw ((==_iff s (stem x)).1 (sym e ∙ ap stem ((==_iff m x).0 e'))) refl
      | inr ne ↦ let later = (contains-stems s names).1 (m, ground arith, e) in ground arith
    ],
  )

  IsShadowed-iff :
      (n : Text)
      → (contains (stem n) (map stem (list_dir (listing user_dir))) ≡ true) ↔ IsShadowed n
  IsShadowed-iff n = (
    λ h.
        let (m, listed, e) = (contains-stems (stem n) (list_dir (listing user_dir))).0 h in
        (
          m,
          stem n,
          (offers-Offers user_dir m).0 (sym (contains-list_dir user_dir m) ∙ listed),
          (stem_iff m (stem n)).0 e,
          (stem_iff n (stem n)).0 refl,
        ),
    λ (m, s, o, em, en). (contains-stems (stem n) (list_dir (listing user_dir))).1 (
      m,
      contains-list_dir user_dir m ∙ (offers-Offers user_dir m).1 o,
      (stem_iff m s).1 em ∙ sym ((stem_iff n s).1 en),
    ),
  )

  -- A script is attempted exactly if it stands in the user's directory, or in the system's and no
  -- script of the user's directory has its stem, where entries with a leading dot or one of the ten
  -- endings of backups are no scripts, and the stem is what stands behind a leading number and
  -- hyphen, or the whole name without one.
  pub resolve_hook_scripts-holds :
      (d n : Text)
      → (holds d n (resolve_hook_scripts system_dir user_dir listing) ≡ true) ↔ (
          ((d ≡ user_dir) × Offers user_dir n)
          ⊎ ((d ≡ system_dir) × Offers system_dir n × (¬ IsShadowed n)))
  resolve_hook_scripts-holds d n =
      let both =
        flags (d == user_dir) (offers user_dir n) (d == system_dir) (offers system_dir n)
          (contains (stem n) (map stem (list_dir (listing user_dir)))) in
      (
        λ h. elim (both.0 (sym (holds-resolved d n) ∙ h)) [
          | inl (u, o) ↦ inl ((==_iff d user_dir).0 u, (offers-Offers user_dir n).0 o)
          | inr (s, o, alone) ↦ inr (
            (==_iff d system_dir).0 s,
            (offers-Offers system_dir n).0 o,
            λ shadow. alone ((IsShadowed-iff n).1 shadow),
          )
        ],
        λ h.
            holds-resolved d n
            ∙ both.1 (elim h [
              | inl (u, o) ↦ inl ((==_iff d user_dir).1 u, (offers-Offers user_dir n).1 o)
              | inr (s, o, alone) ↦ inr (
                (==_iff d system_dir).1 s,
                (offers-Offers system_dir n).1 o,
                λ shadow. alone ((IsShadowed-iff n).0 shadow),
              )
            ]),
      )
