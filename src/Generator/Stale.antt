-- ===== src/Generator/Stale.antt =====
-- Removing the files of uplinks that are gone (`remove_stale_files` of src/uplinkmgr/generator.py),
-- on the names of the files of the directory.
use mathlib.Core.List.{append_assoc}
use uplinkmgr.Prelude.{
  ◌-◌, ◌≡◌, refl, sym, ap, ap₂, ◌∙◌, List, [], ◌∷◌, ◌++◌, Bool, true, false, ◌&&◌, not, Text, ◌==◌,
  ==_iff, ==_refl, contains, is_nonempty, length, length-append, take, drop, if◌then◌else◌, arith,
}
use uplinkmgr.Hooks.{ends_with}
use uplinkmgr.Hooks.Candidates.{drop-length_append, ends_with-append}

-- s.startswith(prefix)
abbrev pub starts_with : Text → Text → Bool
starts_with s prefix = take (length prefix) s == prefix

-- s[len(prefix):-len(suffix)]; -0 is 0.
abbrev pub inner : (prefix suffix s : Text) → Text
inner prefix suffix s =
    if is_nonempty suffix
    then take (length s - length suffix - length prefix) (drop (length prefix) s)
    else []

-- The file is removed.
unfoldable pub is_stale : (prefix suffix : Text) → List Text → Text → Bool
unfolding ends_with
is_stale prefix suffix current_names name =
    starts_with name prefix
    && ends_with name suffix
    && not (contains (inner prefix suffix name) current_names)

-- The names that are left; a dry run only prints what it would do.
unfoldable pub remove_stale_files :
    (prefix : Text) → List Text → (suffix : Text) → (dry_run : Bool) → List Text → List Text
unfolding is_stale
remove_stale_files prefix current_names suffix dry_run [] = []
remove_stale_files prefix current_names suffix dry_run (f ∷ names) =
    let rest = remove_stale_files prefix current_names suffix dry_run names in
    if is_stale prefix suffix current_names f && not dry_run then rest else f ∷ rest

not-not : (b : Bool) → not (not b) ≡ b
not-not true = refl
not-not false = refl

take-length_append : (s t : Text) → take (length s) (s ++ t) ≡ s
take-length_append [] t = refl
take-length_append (c ∷ s) t = ap (λ x. c ∷ x) (take-length_append s t)

module _ (prefix suffix : Text) (some_suffix : is_nonempty suffix ≡ true) where
  inner-append : (n : Text) → inner prefix suffix (prefix ++ (n ++ suffix)) ≡ n
  inner-append n =
      let same : length (prefix ++ (n ++ suffix)) - length suffix - length prefix ≡ length n =
        omega (arith, length-append prefix (n ++ suffix), length-append n suffix) in
      rw (some_suffix, same, drop-length_append prefix (n ++ suffix)) (take-length_append n suffix)

  is_stale-append :
      (current_names : List Text) (n : Text)
      → is_stale prefix suffix current_names (prefix ++ (n ++ suffix))
        ≡ not (contains n current_names)
  unfolding is_stale
  is_stale-append current_names n =
      let ends : ends_with (prefix ++ (n ++ suffix)) suffix ≡ true =
        ap (λ x. ends_with x suffix) (sym (append_assoc prefix n suffix))
        ∙ ends_with-append (prefix ++ n) suffix in
      let starts : starts_with (prefix ++ (n ++ suffix)) prefix ≡ true =
        ap (λ x. x == prefix) (take-length_append prefix (n ++ suffix)) ∙ ==_refl prefix in
      ap₂ (λ b x. b && not (contains x current_names)) (ap₂ (λ b c. b && c) starts ends)
        (inner-append n)

  contains-remove :
      (current_names : List Text) (names : List Text) (x : Text)
      → contains x (remove_stale_files prefix current_names suffix false names)
        ≡ (contains x names && not (is_stale prefix suffix current_names x))
  unfolding remove_stale_files contains
  contains-remove current_names [] x = refl
  contains-remove current_names (f ∷ names) x =
      let ih = contains-remove current_names names x in
      let same = λ (e : x ≡ f). ap (is_stale prefix suffix current_names) e in
      ground (arith, ih, same, ==_iff x f)

  -- Of the files that carry the name of an uplink between the prefix and a suffix that is not empty,
  -- those of the current names are left, and no others.
  pub contains-remove_stale_files :
      (current_names : List Text) (names : List Text) (n : Text)
      → contains
          (prefix ++ (n ++ suffix))
          (remove_stale_files prefix current_names suffix false names)
        ≡ (contains (prefix ++ (n ++ suffix)) names && contains n current_names)
  contains-remove_stale_files current_names names n =
      contains-remove current_names names (prefix ++ (n ++ suffix))
      ∙ ap (λ b. contains (prefix ++ (n ++ suffix)) names && b)
          (ap not (is_stale-append current_names n) ∙ not-not (contains n current_names))
