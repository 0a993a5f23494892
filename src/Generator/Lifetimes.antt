-- ===== src/Generator/Lifetimes.antt =====
-- The clamp of the default lifetime.
use uplinkmgr.Prelude.{ℤ, pos, negsuc, ◌≤ℤ◌, ◌≡◌, ◌↔◌, ◌⊎◌, arith}
use uplinkmgr.Generator.Advert.{clamp_default_lifetime}

-- An AdvDefaultLifetime that radvd takes: 0, or from 300 to 9000 seconds.
abbrev pub Allowed : ℤ → Type 0
Allowed n = (n ≡ pos 0) ⊎ ((pos 300 ≤ℤ n) × (n ≤ℤ pos 9000))

-- The clamp of a lifetime is one that radvd takes, is the lifetime itself where radvd takes that,
-- and is 0 exactly if no positive lifetime is left.
pub clamp_default_lifetime-Allowed :
    (seconds : ℤ)
    → Allowed (clamp_default_lifetime seconds)
      × (Allowed seconds → clamp_default_lifetime seconds ≡ seconds)
      × ((clamp_default_lifetime seconds ≡ pos 0) ↔ (seconds ≤ℤ pos 0))
unfolding clamp_default_lifetime
clamp_default_lifetime-Allowed (pos n) = ground arith
clamp_default_lifetime-Allowed (negsuc n) = ground arith
