-- ===== src/Radvd/Exclusive.antt =====
-- What a file of radvd shows with `exclusive_preferred_pd` (src/uplinkmgr/radvd.py).
use uplinkmgr.Prelude.{
  Dict, ℕ, ◌≡◌, ◌≢◌, ◌⊎◌, refl, ap, ◌∙◌, Bool, true, false, Bool-cases, inl, inr, Option, some,
  Text, text, ℤ, pos, get_elem?, if◌then◌else◌, arith,
}
use uplinkmgr.Config.{Config, UplinkConfig}
use uplinkmgr.Config.Loaded.{IsValid}
use uplinkmgr.StateMachine.{UplinkState, is_down}
use uplinkmgr.State.{Ipv6RaState, Ipv6PdState}
use uplinkmgr.Naming.{radvd_conf_path}
use uplinkmgr.Effect.{Trace}
use uplinkmgr.Generator.Advert.{clamp_default_lifetime}
use uplinkmgr.Daemon.Booked.{IsNamed}
use uplinkmgr.Radvd.{
  Ipaddress, RegenerateAction, primary_ipv6_uplink, is_primary, preference_for, is_secondary,
  advert_of, derive_prefixes, regenerate_all,
}
use uplinkmgr.Radvd.Preference.{
  HasPrimaryName, not_down, is_primary_iff, primary_is_up, preference_for_iff,
}
use uplinkmgr.Radvd.Lifetimes.{default_left, valid_left, preferred_left}
use uplinkmgr.Radvd.Files.{content_of, conf_of, regenerate_all-AreWritten}
use uplinkmgr.Radvd.Shown.{showing, showing_eq, conf_of-showing}

withdrawn :
    (down secondary : Bool) (n : ℤ)
    → (down ≡ false → secondary ≡ true)
    → (if down then pos 0 else if secondary then pos 0 else n) ≡ pos 0
withdrawn down secondary n h = ground arith

in_full :
    (down secondary : Bool) (n : ℤ)
    → down ≡ false
    → secondary ≡ false
    → (if down then pos 0 else if secondary then pos 0 else n) ≡ n
in_full down secondary n h k = ground arith

clamp_default_lifetime_zero : clamp_default_lifetime (pos 0) ≡ pos 0
unfolding clamp_default_lifetime
clamp_default_lifetime_zero = refl

module _ (addresses : Ipaddress) (cfg : Config) (states : Text → UplinkState) (now : ℤ)
    (ra_of : Text → Option Ipv6RaState) (pd_of : Text → Option Ipv6PdState) where
  abbrev prefixes_of : UplinkConfig → Dict Text
  prefixes_of u = derive_prefixes addresses cfg u (pd_of u.name)

  -- A file shows the high preference and what is left of the lifetimes of an uplink.
  abbrev pub ShowsAll : UplinkConfig → Option Text → Type 0
  ShowsAll u content =
      content
      ≡ showing cfg u (prefixes_of u) (text "high")
          (clamp_default_lifetime (default_left cfg states now (ra_of u.name)))
          (valid_left cfg states now (pd_of u.name)) (preferred_left cfg states now (pd_of u.name))

  -- A file shows another preference, and a default and preferred lifetime of 0.
  pub record ShowsNone (u : UplinkConfig) (content : Option Text) : Type 0 where
    pub preference : Text
    pub valid : ℤ
    pub lower : preference ≢ text "high"
    pub text_is : content ≡ showing cfg u (prefixes_of u) preference (pos 0) valid (pos 0)

  conf_of-primary :
      (u : UplinkConfig)
      → HasPrimaryName cfg states u
      → conf_of addresses cfg states now ra_of pd_of u
        ≡ showing cfg u
            (prefixes_of u)
            (text "high")
            (clamp_default_lifetime (default_left cfg states now (ra_of u.name)))
            (valid_left cfg states now (pd_of u.name))
            (preferred_left cfg states now (pd_of u.name))
  unfolding advert_of
  conf_of-primary u h =
      let off = is_down (states u.name).ipv6 in
      let alive : off ≡ false =
        not_down cfg states (states u.name).ipv6 (primary_is_up cfg states u h) in
      let first = (is_primary_iff cfg states u).1 h in
      let kept : is_secondary cfg states u ≡ false = ground (arith, first) in
      conf_of-showing addresses cfg states now ra_of pd_of u
      ∙ showing_eq cfg u (prefixes_of u) ((preference_for_iff cfg states u).0.1 h)
          (ap clamp_default_lifetime (in_full off (is_secondary cfg states u) _ alive kept))
          (ap (λ b. if b then pos 0 else valid_left cfg states now (pd_of u.name)) alive)
          (in_full off (is_secondary cfg states u) _ alive kept)

  -- An uplink that is up and not the primary one is secondary.
  other_is_secondary :
      (u : UplinkConfig)
      → cfg.exclusive_preferred_pd ≡ true
      → ¬ HasPrimaryName cfg states u
      → is_down (states u.name).ipv6 ≡ false
      → is_secondary cfg states u ≡ true
  other_is_secondary u exclusive h alive =
      elim (Bool-cases (is_primary (primary_ipv6_uplink cfg states) u)) [
        | inl good ↦ absurd (h ((is_primary_iff cfg states u).0 good))
        | inr bad ↦ ground arith
      ]

  conf_of-other :
      (u : UplinkConfig)
      → cfg.exclusive_preferred_pd ≡ true
      → ¬ HasPrimaryName cfg states u
      → conf_of addresses cfg states now ra_of pd_of u
        ≡ showing cfg u
            (prefixes_of u)
            (preference_for cfg states u)
            (pos 0)
            (if is_down (states u.name).ipv6
              then pos 0
              else valid_left cfg states now (pd_of u.name))
            (pos 0)
  unfolding advert_of
  conf_of-other u exclusive h =
      let off = is_down (states u.name).ipv6 in
      let second = other_is_secondary u exclusive h in
      conf_of-showing addresses cfg states now ra_of pd_of u
      ∙ showing_eq cfg u (prefixes_of u) refl
          (ap clamp_default_lifetime (withdrawn off (is_secondary cfg states u) _ second)
            ∙ clamp_default_lifetime_zero)
          refl (withdrawn off (is_secondary cfg states u) _ second)

  conf_of-exclusive :
      (u : UplinkConfig) (content : Option Text)
      → cfg.exclusive_preferred_pd ≡ true
      → content ≡ conf_of addresses cfg states now ra_of pd_of u
      → (HasPrimaryName cfg states u × ShowsAll u content)
        ⊎ ((¬ HasPrimaryName cfg states u) × ShowsNone u content)
  conf_of-exclusive u content exclusive e =
      elim (Bool-cases (is_primary (primary_ipv6_uplink cfg states) u)) [
        | inl good ↦
            let h = (is_primary_iff cfg states u).0 good in inl (h, e ∙ conf_of-primary u h)
        | inr bad ↦
            let h : ¬ HasPrimaryName cfg states u =
              λ p. let good = (is_primary_iff cfg states u).1 p in cc in
            inr (
              h,
              record {
                preference = preference_for cfg states u;
                valid = _;
                lower = λ high. h ((preference_for_iff cfg states u).0.0 high);
                text_is = e ∙ conf_of-other u exclusive h;
              },
            )
      ]

  -- With exclusive_preferred_pd, for a valid configuration whose networks have macvlan names of their
  -- own for every uplink, and an uplink of it with prefix delegation: regenerating the files of radvd
  -- returns, and then, if the uplink has the name of the primary one, the text of its file shows the
  -- preference `high` and what is left of its lifetimes, the default one clamped; if it has not, the
  -- text shows another preference, and a default and a preferred lifetime of 0.
  pub regenerate_all_exclusive :
      cfg.exclusive_preferred_pd ≡ true
      → IsValid cfg
      → IsNamed cfg
      → (action : RegenerateAction) (before : Trace) (i : ℕ) (u : UplinkConfig)
      → get_elem? cfg.uplinks i ≡ some u
      → u.ipv6_pd ≡ true
      → (after : Trace) × (regenerate_all addresses cfg states now ra_of pd_of action before
          ≡ some after)
        × ((HasPrimaryName cfg states u × ShowsAll u (content_of (radvd_conf_path u.name) after))
            ⊎ ((¬ HasPrimaryName cfg states u)
                × ShowsNone u (content_of (radvd_conf_path u.name) after)))
  regenerate_all_exclusive exclusive valid named action before i u at on =
      let (after, e, w) =
        regenerate_all-AreWritten addresses cfg states now ra_of pd_of valid named action before in
      (
        after,
        e,
        conf_of-exclusive u (content_of (radvd_conf_path u.name) after) exclusive (w.own i u at on),
      )
