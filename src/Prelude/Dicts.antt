-- ===== src/Prelude/Dicts.antt =====
-- Python's `dict` and `set` with text keys, as association lists in the order of insertion.
use mathlib.Core.Path.{◌≡◌, refl}
use mathlib.Core.Bool.{Bool, true, false, ◌||◌}
use mathlib.Core.Option.{Option, none, some}
use mathlib.Core.List.{List, [], ◌∷◌, ◌++◌}
use native.Mathlib.Omega.{arith}
use uplinkmgr.Prelude.Tests.{if◌then◌else◌}
use uplinkmgr.Prelude.Texts.{Text, ◌==◌, ==_iff, is_some}

abbrev pub Dict {ℓ} : Type ℓ → Type ℓ
Dict V = List (Text × V)

module _ {ℓ} {V : Type ℓ} where
  -- d.get(k)
  unfoldable pub lookup : Text → Dict V → Option V
  lookup k [] = none
  lookup k ((j, v) ∷ d) = if k == j then some v else lookup k d

  -- d[k] = v
  unfoldable pub insert : Text → V → Dict V → Dict V
  insert k v [] = (k, v) ∷ []
  insert k v ((j, w) ∷ d) = if k == j then (j, v) ∷ d else (j, w) ∷ insert k v d

  -- del d[k]
  unfoldable pub delete : Text → Dict V → Dict V
  delete k [] = []
  delete k ((j, w) ∷ d) = let rest = delete k d in if k == j then rest else (j, w) ∷ rest

  -- k in d
  abbrev pub has_key : Text → Dict V → Bool
  has_key k d = is_some (lookup k d)

  pub lookup-insert :
      (k j : Text) (v : V) (d : Dict V)
      → lookup j (insert k v d) ≡ (if j == k then some v else lookup j d)
  unfolding lookup insert
  lookup-insert k j v [] = refl
  lookup-insert k j v ((i, w) ∷ d) =
      ground (arith, ==_iff j k, ==_iff k i, ==_iff j i, lookup-insert k j v d)

  pub lookup-delete :
      (k j : Text) (d : Dict V) → lookup j (delete k d) ≡ (if j == k then none else lookup j d)
  unfolding lookup delete
  lookup-delete k j [] = ground arith
  lookup-delete k j ((i, w) ∷ d) =
      ground (arith, ==_iff j k, ==_iff k i, ==_iff j i, lookup-delete k j d)

-- k in s, s a set or a list of texts
unfoldable pub contains : Text → List Text → Bool
contains k [] = false
contains k (j ∷ s) = k == j || contains k s

-- s.add(k)
unfoldable pub add : Text → List Text → List Text
add k s = if contains k s then s else s ++ k ∷ []

-- s.discard(k)
unfoldable pub discard : Text → List Text → List Text
discard k [] = []
discard k (j ∷ s) = let rest = discard k s in if k == j then rest else j ∷ rest

pub contains-append_one :
    (k j : Text) (s : List Text) → contains j (s ++ k ∷ []) ≡ (contains j s || j == k)
unfolding contains
contains-append_one k j [] = ground arith
contains-append_one k j (i ∷ s) = ground (arith, contains-append_one k j s)

pub contains-add :
    (k j : Text) (s : List Text) → contains j (add k s) ≡ (if j == k then true else contains j s)
unfolding add
contains-add k j s = ground (arith, contains-append_one k j s, ==_iff j k)

pub contains-discard :
    (k j : Text) (s : List Text)
    → contains j (discard k s) ≡ (if j == k then false else contains j s)
unfolding contains discard
contains-discard k j [] = ground arith
contains-discard k j (i ∷ s) =
    ground (arith, ==_iff j k, ==_iff k i, ==_iff j i, contains-discard k j s)
