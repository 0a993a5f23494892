-- ===== src/Uplink/Apart.antt =====
-- The IPv6 rules of one uplink stand at different priorities.
use uplinkmgr.Prelude.{ℕ, ◌<◌, ◌≡◌, ◌≢◌, false, some, Text, length}
use uplinkmgr.Config.{Config, UplinkConfig}
use uplinkmgr.Priority.Distinct.{lo6, pd6, fwd6, reject6}
use uplinkmgr.Uplink.Ledger.{same}
use uplinkmgr.Uplink.Places.{
  lo6_rule, pd6_rule, fwd_rule, reject_rule, macvlan_at, macvlan_at-lt, priority6_apart,
}

fwd6-injective : {u v n m : ℕ} → fwd6 u n ≡ fwd6 v m → n ≡ m
fwd6-injective e = cc

reject6-injective : {u v n m : ℕ} → reject6 u n ≡ reject6 v m → n ≡ m
reject6-injective e = cc

module _ (cfg : Config) (uplink : UplinkConfig) (known : uplink.index < length cfg.uplinks) where
  pub lo6_not_pd6 : same (lo6_rule cfg uplink) (pd6_rule cfg uplink) ≡ false
  lo6_not_pd6 = priority6_apart cfg (lo6 uplink.index) (pd6 uplink.index) known known (λ e. cc)

  pub pd6_not_lo6 : same (pd6_rule cfg uplink) (lo6_rule cfg uplink) ≡ false
  pd6_not_lo6 = priority6_apart cfg (pd6 uplink.index) (lo6 uplink.index) known known (λ e. cc)

  module _ (n : ℕ) {mv : Text} (at : macvlan_at cfg uplink n ≡ some mv) where
    pub fwd_not_lo6 : same (fwd_rule cfg uplink n) (lo6_rule cfg uplink) ≡ false
    fwd_not_lo6 =
        priority6_apart cfg (fwd6 uplink.index n) (lo6 uplink.index)
          (known, macvlan_at-lt cfg uplink n at) known (λ e. cc)

    pub fwd_not_pd6 : same (fwd_rule cfg uplink n) (pd6_rule cfg uplink) ≡ false
    fwd_not_pd6 =
        priority6_apart cfg (fwd6 uplink.index n) (pd6 uplink.index)
          (known, macvlan_at-lt cfg uplink n at) known (λ e. cc)

    pub reject_not_lo6 : same (reject_rule cfg uplink n) (lo6_rule cfg uplink) ≡ false
    reject_not_lo6 =
        priority6_apart cfg (reject6 uplink.index n) (lo6 uplink.index)
          (known, macvlan_at-lt cfg uplink n at) known (λ e. cc)

    pub reject_not_pd6 : same (reject_rule cfg uplink n) (pd6_rule cfg uplink) ≡ false
    reject_not_pd6 =
        priority6_apart cfg (reject6 uplink.index n) (pd6 uplink.index)
          (known, macvlan_at-lt cfg uplink n at) known (λ e. cc)

    pub lo6_not_fwd : same (lo6_rule cfg uplink) (fwd_rule cfg uplink n) ≡ false
    lo6_not_fwd =
        priority6_apart cfg (lo6 uplink.index) (fwd6 uplink.index n) known
          (known, macvlan_at-lt cfg uplink n at) (λ e. cc)

    pub pd6_not_fwd : same (pd6_rule cfg uplink) (fwd_rule cfg uplink n) ≡ false
    pd6_not_fwd =
        priority6_apart cfg (pd6 uplink.index) (fwd6 uplink.index n) known
          (known, macvlan_at-lt cfg uplink n at) (λ e. cc)

    pub lo6_not_reject : same (lo6_rule cfg uplink) (reject_rule cfg uplink n) ≡ false
    lo6_not_reject =
        priority6_apart cfg (lo6 uplink.index) (reject6 uplink.index n) known
          (known, macvlan_at-lt cfg uplink n at) (λ e. cc)

    pub pd6_not_reject : same (pd6_rule cfg uplink) (reject_rule cfg uplink n) ≡ false
    pd6_not_reject =
        priority6_apart cfg (pd6 uplink.index) (reject6 uplink.index n) known
          (known, macvlan_at-lt cfg uplink n at) (λ e. cc)

    module _ (m : ℕ) {other : Text} (at' : macvlan_at cfg uplink m ≡ some other) where
      pub fwd_not_reject : same (fwd_rule cfg uplink n) (reject_rule cfg uplink m) ≡ false
      fwd_not_reject =
          priority6_apart cfg (fwd6 uplink.index n) (reject6 uplink.index m)
            (known, macvlan_at-lt cfg uplink n at) (known, macvlan_at-lt cfg uplink m at') (λ e. cc)

      pub reject_not_fwd : same (reject_rule cfg uplink n) (fwd_rule cfg uplink m) ≡ false
      reject_not_fwd =
          priority6_apart cfg (reject6 uplink.index n) (fwd6 uplink.index m)
            (known, macvlan_at-lt cfg uplink n at) (known, macvlan_at-lt cfg uplink m at') (λ e. cc)

      pub fwd_not_fwd : n ≢ m → same (fwd_rule cfg uplink n) (fwd_rule cfg uplink m) ≡ false
      fwd_not_fwd ne =
          priority6_apart cfg (fwd6 uplink.index n) (fwd6 uplink.index m)
            (known, macvlan_at-lt cfg uplink n at) (known, macvlan_at-lt cfg uplink m at')
            (λ e. ne (fwd6-injective e))

      pub reject_not_reject :
          n ≢ m → same (reject_rule cfg uplink n) (reject_rule cfg uplink m) ≡ false
      reject_not_reject ne =
          priority6_apart cfg (reject6 uplink.index n) (reject6 uplink.index m)
            (known, macvlan_at-lt cfg uplink n at) (known, macvlan_at-lt cfg uplink m at')
            (λ e. ne (reject6-injective e))
