-- ===== src/Prelude/Texts.antt =====
-- Text as the list of its code points, as the program walks it. `text` reads a literal.
use Prim.Native.Nat.{ℕ}
use Prim.Native.Char.{code}
use Prim.Native.String.{String}
use mathlib.Core.Path.{◌≡◌, refl}
use mathlib.Core.Logic.{◌↔◌, ◌≢◌}
use mathlib.Core.Bool.{Bool, true, false, ◌&&◌}
use mathlib.Core.Option.{Option, none, some}
use mathlib.Core.List.{List, [], ◌∷◌}
use native.Mathlib.Omega.{arith}
use uplinkmgr.Prelude.Tests.{eqb}

abbrev pub Text : Type 0
Text = List ℕ

unfoldable pub text : String → Text
text String.[] = []
text (String.◌∷◌ c s) = code c ∷ text s

infix 50 ◌==◌
-- s == t
unfoldable pub ◌==◌ : Text → Text → Bool
[] == [] = true
[] == (d ∷ t) = false
(c ∷ s) == [] = false
(c ∷ s) == (d ∷ t) = eqb c d && s == t

pub ==_refl : (s : Text) → (s == s) ≡ true
unfolding ◌==◌
==_refl [] = refl
==_refl (c ∷ s) = ground (arith, ==_refl s)

pub eq_of_== : (s t : Text) → (s == t) ≡ true → s ≡ t
unfolding ◌==◌
eq_of_== [] [] h = refl
eq_of_== [] (d ∷ t) h = ground arith
eq_of_== (c ∷ s) [] h = ground arith
eq_of_== (c ∷ s) (d ∷ t) h = ground (arith, eq_of_== s t)

pub ==_of_eq : (s t : Text) → s ≡ t → (s == t) ≡ true
==_of_eq s t e = ground (arith, ==_refl s)

pub ==_iff : (s t : Text) → ((s == t) ≡ true) ↔ (s ≡ t)
==_iff s t = (eq_of_== s t, ==_of_eq s t)

pub ==_of_ne : (s t : Text) → s ≢ t → (s == t) ≡ false
==_of_ne s t ne = ground (arith, ne, ==_iff s t)

-- s == t where either may be None
unfoldable pub eqb_option : Option Text → Option Text → Bool
eqb_option none none = true
eqb_option none (some t) = false
eqb_option (some s) none = false
eqb_option (some s) (some t) = s == t

pub eqb_option_iff : (a b : Option Text) → (eqb_option a b ≡ true) ↔ (a ≡ b)
unfolding eqb_option
eqb_option_iff none none = ground arith
eqb_option_iff none (some t) = ground arith
eqb_option_iff (some s) none = ground arith
eqb_option_iff (some s) (some t) = ground (arith, ==_iff s t)

-- bool(s): a text is true when it is not empty
abbrev pub is_nonempty : Text → Bool
is_nonempty [] = false
is_nonempty (c ∷ s) = true

-- x is not None
abbrev pub is_some {ℓ} : {A : Type ℓ} → Option A → Bool
is_some none = false
is_some (some a) = true
