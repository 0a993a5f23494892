-- ===== src/Radvd/Files.antt =====
-- What the files of radvd hold after `regenerate_all`.
use uplinkmgr.Prelude.{
  ℕ, zero, suc, ◌≡◌, ◌≢◌, refl, sym, ap, ◌∙◌, subst, List, [], ◌∷◌, Bool, Bool-cases, inl, inr,
  true, false, Option, none, some, Text, ◌==◌, ==_refl, ==_of_ne, ℤ, get_elem?, if◌then◌else◌,
  arith,
}
use uplinkmgr.Config.{Config, UplinkConfig}
use uplinkmgr.Config.Loaded.{IsValid}
use uplinkmgr.StateMachine.{UplinkState}
use uplinkmgr.State.{Ipv6RaState, Ipv6PdState, ◌>>=◌}
use uplinkmgr.Naming.{radvd_conf_path, radvd_unit_name}
use uplinkmgr.Naming.Paths.{radvd_conf_path-==}
use uplinkmgr.Effect.{ip, fire, write_file, systemctl, dhcpcd, stop_hooks, Trace}
use uplinkmgr.Generator.Advert.{radvd_conf_from_state}
use uplinkmgr.Uplink.Loops.{HasMacvlans}
use uplinkmgr.Daemon.Booked.{IsNamed}
use uplinkmgr.Daemon.Quiet.{radvd_conf_from_state_returns}
use uplinkmgr.Radvd.{
  Ipaddress, RegenerateAction, restart, sighup, write, advert_of, derive_prefixes, signal,
  with_ipv6_pd, regenerate_one, regenerate_each, regenerate_all,
}

-- What a file holds, by the last write of it.
abbrev pub content_of : Text → Trace → Option Text
content_of path [] = none
content_of path (write_file p content ∷ t) = if path == p then some content else content_of path t
content_of path (ip command ∷ t) = content_of path t
content_of path (fire event ∷ t) = content_of path t
content_of path (systemctl argv ∷ t) = content_of path t
content_of path (dhcpcd argv ∷ t) = content_of path t
content_of path (stop_hooks ∷ t) = content_of path t

path_of_ne : (n m : Text) → n ≢ m → (radvd_conf_path n == radvd_conf_path m) ≡ false
path_of_ne n m ne = radvd_conf_path-== n m ∙ ==_of_ne n m ne

zero_ne_suc : {n : ℕ} → 0 ≢ suc n
zero_ne_suc e = omega arith

suc_ne : {n m : ℕ} → n ≢ m → suc n ≢ suc m
suc_ne ne e = ne (omega arith)

same_uplink : {u w : UplinkConfig} → some u ≡ some w → u ≡ w
same_uplink e = cc

on_and_off : (u w : UplinkConfig) → some u ≡ some w → u.ipv6_pd ≡ false → w.ipv6_pd ≡ true → ⊥
on_and_off u w at off on =
    let flags = ap (λ x. x.ipv6_pd) (same_uplink at) in let bad = sym off ∙ flags ∙ on in cc

module _ (addresses : Ipaddress) (cfg : Config) (states : Text → UplinkState) (now : ℤ)
    (ra_of : Text → Option Ipv6RaState) (pd_of : Text → Option Ipv6PdState) where
  -- The file of an uplink, from the state files of that uplink.
  abbrev pub conf_of : UplinkConfig → Option Text
  conf_of u =
      let a = advert_of cfg states now (ra_of u.name) (pd_of u.name) u in
      radvd_conf_from_state cfg u a.preference a.default_lifetime
        (derive_prefixes addresses cfg u (pd_of u.name)) a.valid_lifetime a.preferred_lifetime
        a.is_down

  content-signal :
      (path : Text) (action : RegenerateAction) (unit : Text) (t : Trace)
      → content_of path (signal addresses action unit t) ≡ content_of path t
  content-signal path restart unit t = refl
  content-signal path sighup unit t = refl
  content-signal path write unit t = refl

  -- The file of one uplink is written, and no other.
  record HasWritten (u : UplinkConfig) (before after : Trace) : Type 0 where
    own : content_of (radvd_conf_path u.name) after ≡ conf_of u
    others :
        (path : Text)
        → (path == radvd_conf_path u.name) ≡ false
        → content_of path after ≡ content_of path before

  regenerate_one-HasWritten :
      (action : RegenerateAction) (u : UplinkConfig) (t : Trace)
      → HasMacvlans cfg u
      → (after : Trace) × (regenerate_one addresses cfg states now
            (ra_of u.name)
            (pd_of u.name)
            action
            u
            t
          ≡ some after)
        × HasWritten u t after
  unfolding regenerate_one
  regenerate_one-HasWritten action u t has =
      let a = advert_of cfg states now (ra_of u.name) (pd_of u.name) u in
      let (conf, e) =
        radvd_conf_from_state_returns addresses cfg states now u has a.preference a.default_lifetime
          (derive_prefixes addresses cfg u (pd_of u.name)) a.valid_lifetime a.preferred_lifetime
          a.is_down in
      let path = radvd_conf_path u.name in
      let unit = radvd_unit_name u.name in
      let written : Trace = write_file path conf ∷ t in
      (
        signal addresses action unit written,
        ap (λ o. o >>= λ c. some (signal addresses action unit (write_file path c ∷ t))) e,
        record {
          own =
              content-signal path action unit written
              ∙ ap (λ b. if b then some conf else content_of path t) (==_refl path)
              ∙ sym e;
          others = λ other ne.
              content-signal other action unit written
              ∙ ap (λ b. if b then some conf else content_of other t) ne;
        },
      )

  -- The files of a list of uplinks are written, and no others.
  pub record AreWritten (uplinks : List UplinkConfig) (before after : Trace) : Type 0 where
    pub own :
        (i : ℕ) (u : UplinkConfig)
        → get_elem? uplinks i ≡ some u
        → u.ipv6_pd ≡ true
        → content_of (radvd_conf_path u.name) after ≡ conf_of u
    pub others :
        (path : Text)
        → ((i : ℕ) (u : UplinkConfig)
            → get_elem? uplinks i ≡ some u
            → u.ipv6_pd ≡ true
            → (path == radvd_conf_path u.name) ≡ false)
        → content_of path after ≡ content_of path before

  -- The names of the uplinks are different.
  abbrev AreApart : List UplinkConfig → Type 0
  AreApart uplinks =
      (i j : ℕ) (u w : UplinkConfig)
      → i ≢ j
      → get_elem? uplinks i ≡ some u
      → get_elem? uplinks j ≡ some w
      → u.name ≢ w.name

  AreWritten-skip :
      (x : UplinkConfig) (uplinks : List UplinkConfig) (before after : Trace)
      → x.ipv6_pd ≡ false
      → AreWritten uplinks before after
      → AreWritten (x ∷ uplinks) before after
  AreWritten-skip x uplinks before after off w = record {
    own = λ i.
        elim i
          as (λ j.
            (u : UplinkConfig)
            → get_elem? (x ∷ uplinks) j ≡ some u
            → u.ipv6_pd ≡ true
            → content_of (radvd_conf_path u.name) after ≡ conf_of u) [
              | zero ↦ λ u at on. absurd (on_and_off x u at off on)
              | suc j ↦ w.own j
            ];
    others = λ path away. w.others path (λ j. away (suc j));
  }

  AreWritten-one :
      (x : UplinkConfig) (uplinks : List UplinkConfig) (before mid after : Trace)
      → AreApart (x ∷ uplinks)
      → x.ipv6_pd ≡ true
      → HasWritten x before mid
      → AreWritten uplinks mid after
      → AreWritten (x ∷ uplinks) before after
  AreWritten-one x uplinks before mid after apart on h w = record {
    own = λ i.
        elim i
          as (λ j.
            (u : UplinkConfig)
            → get_elem? (x ∷ uplinks) j ≡ some u
            → u.ipv6_pd ≡ true
            → content_of (radvd_conf_path u.name) after ≡ conf_of u) [
              | zero ↦ λ u at on'.
                  let alone : content_of (radvd_conf_path x.name) after ≡ conf_of x =
                    w.others (radvd_conf_path x.name) (λ j y at' on''.
                      path_of_ne x.name y.name (apart 0 (suc j) x y zero_ne_suc refl at'))
                    ∙ h.own in
                  subst (λ y. content_of (radvd_conf_path y.name) after ≡ conf_of y)
                    (same_uplink at) alone
              | suc j ↦ w.own j
            ];
    others = λ path away. w.others path (λ j. away (suc j)) ∙ h.others path (away 0 x refl on);
  }

  regenerate_each-AreWritten :
      (uplinks : List UplinkConfig)
      → ((i : ℕ) (u : UplinkConfig) → get_elem? uplinks i ≡ some u → HasMacvlans cfg u)
      → AreApart uplinks
      → (action : RegenerateAction) (before : Trace)
      → (after : Trace) × (regenerate_each addresses cfg states now ra_of pd_of action
            (with_ipv6_pd uplinks)
            before
          ≡ some after)
        × AreWritten uplinks before after
  unfolding regenerate_each with_ipv6_pd
  regenerate_each-AreWritten [] named apart action before =
      (before, refl, record { own = λ i u at. cc; others = λ path away. refl })
  regenerate_each-AreWritten (x ∷ uplinks) named apart action before =
      let later =
        regenerate_each-AreWritten uplinks (λ i. named (suc i))
          (λ i j u w ne. apart (suc i) (suc j) u w (suc_ne ne)) action in
      let each = regenerate_each addresses cfg states now ra_of pd_of action in
      let rest = with_ipv6_pd uplinks in
      let head : (b : Bool)
          → x.ipv6_pd ≡ b
          → each (if x.ipv6_pd then x ∷ rest else rest) before
            ≡ each (if b then x ∷ rest else rest) before =
        λ b e. ap (λ c. each (if c then x ∷ rest else rest) before) e in
      elim (Bool-cases x.ipv6_pd) [
        | inl on ↦
            let (mid, e, h) = regenerate_one-HasWritten action x before (named 0 x refl) in
            let (after, e', w) = later mid in
            (
              after,
              head true on ∙ ap (λ o. o >>= each rest) e ∙ e',
              AreWritten-one x uplinks before mid after apart on h w,
            )
        | inr off ↦
            let (after, e', w) = later before in
            (after, head false off ∙ e', AreWritten-skip x uplinks before after off w)
      ]

  -- For a valid configuration whose networks have macvlan names of their own for every uplink:
  -- regenerating the files of radvd returns, and then the file of each uplink with prefix
  -- delegation holds what follows from the state files of that uplink, and no other file is
  -- written.
  pub regenerate_all-AreWritten :
      IsValid cfg
      → IsNamed cfg
      → (action : RegenerateAction) (before : Trace)
      → (after : Trace) × (regenerate_all addresses cfg states now ra_of pd_of action before
          ≡ some after)
        × AreWritten cfg.uplinks before after
  unfolding regenerate_all
  regenerate_all-AreWritten valid named action before =
      regenerate_each-AreWritten cfg.uplinks (λ i u at. (named i u at).0)
        (λ i j u w ne at at'. (valid.apart i j u w ne at at').name) action before
