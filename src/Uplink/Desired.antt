-- ===== src/Uplink/Desired.antt =====
-- What reconciling an uplink brings about: the elements that its health and state files call for,
-- and nothing more on a second run.
use uplinkmgr.Prelude.{
  ◌<◌, ◌≡◌, refl, sym, ap, ◌∙◌, Bool, false, ◌&&◌, not, Option, none, some, Text, is_some,
  is_nonempty, eqb_option_iff, length, if◌then◌else◌, arith,
}
use uplinkmgr.Config.{Config, UplinkConfig}
use uplinkmgr.StateMachine.{LinkState, up, down, is_up, ipv4, with_link}
use uplinkmgr.State.{Files, Ipv4State, read_ipv4_state}
use uplinkmgr.Uplink.View.{View, force_link_down}
use uplinkmgr.Uplink.Ipv4.{wanted_gateway4, wanted_address4, reconcile_route4, reconcile_rule4}
use uplinkmgr.Uplink.Reconcile.{reconcile_uplink_ipv4}
use uplinkmgr.Uplink.Ledger.{held, one_if}
use uplinkmgr.Uplink.Places.{shared_route, own_route, lo4_rule, IsAccounted}
use uplinkmgr.Uplink.Invariant.{reconcile_uplink_ipv4-IsAccounted}

-- Whether there is a lease that names an address.
abbrev pub has_address : Option Ipv4State → Bool
has_address none = false
has_address (some st) = is_nonempty st.address

wanted_address4-is_some :
    (health : LinkState) (st : Option Ipv4State)
    → is_some (wanted_address4 health st) ≡ (is_up health && has_address st)
wanted_address4-is_some up none = refl
wanted_address4-is_some up (some st) = ground arith
wanted_address4-is_some down st = refl

module _ (cfg : Config) (files : Files) (uplink : UplinkConfig) where
  abbrev lease : Option Ipv4State
  lease = read_ipv4_state files uplink.name

  record IsWanted4 (health : LinkState) (v : View) : Type 0 where
    health_is : v.health.ipv4 ≡ health
    gateway_is : v.installed.ipv4_installed ≡ wanted_gateway4 health lease
    address_is : v.installed.ipv4_lo_to_uplink_addr ≡ wanted_address4 health lease

  -- A link without a lease is taken for down.
  abbrev health_after : View → LinkState
  health_after v = if is_some lease then v.health.ipv4 else down

  reconcile_route4-installed :
      (gw : Option Text) (v : View)
      → ((reconcile_route4 cfg uplink gw v).installed.ipv4_installed ≡ gw)
        × ((reconcile_route4 cfg uplink gw v).health ≡ v.health)
  unfolding reconcile_route4
  reconcile_route4-installed gw v = ground (arith, eqb_option_iff gw v.installed.ipv4_installed)

  reconcile_rule4-installed :
      (addr : Option Text) (v : View)
      → ((reconcile_rule4 cfg uplink addr v).installed.ipv4_lo_to_uplink_addr ≡ addr)
        × ((reconcile_rule4 cfg uplink addr v).installed.ipv4_installed
            ≡ v.installed.ipv4_installed)
        × ((reconcile_rule4 cfg uplink addr v).health ≡ v.health)
  unfolding reconcile_rule4
  reconcile_rule4-installed addr v =
      ground (arith, eqb_option_iff addr v.installed.ipv4_lo_to_uplink_addr)

  abbrev checked : View → View
  checked v =
      if not (is_some lease) && is_up v.health.ipv4 then force_link_down files uplink ipv4 v else v

  checked-health : (v : View) → (checked v).health.ipv4 ≡ health_after v
  unfolding force_link_down with_link
  checked-health v = ground arith

  reconcile_uplink_ipv4-IsWanted4 :
      (v : View) → IsWanted4 (health_after v) (reconcile_uplink_ipv4 cfg files uplink v)
  unfolding reconcile_uplink_ipv4
  reconcile_uplink_ipv4-IsWanted4 v =
      let c = checked v in
      let gw = wanted_gateway4 c.health.ipv4 lease in
      let routed = reconcile_route4 cfg uplink gw c in
      let (e1, e2) = reconcile_route4-installed gw c in
      let (f1, f2, f3) = reconcile_rule4-installed (wanted_address4 c.health.ipv4 lease) routed in
      record {
        health_is = ap (λ h. h.ipv4) (f3 ∙ e2) ∙ checked-health v;
        gateway_is = f2 ∙ e1 ∙ ap (λ h. wanted_gateway4 h lease) (checked-health v);
        address_is = f1 ∙ ap (λ h. wanted_address4 h lease) (checked-health v);
      }

  checked-eq : (v : View) → (is_some lease ≡ false → v.health.ipv4 ≡ down) → checked v ≡ v
  checked-eq v dead = ground arith

  reconcile_route4-eq :
      (gw : Option Text) (v : View)
      → v.installed.ipv4_installed ≡ gw
      → reconcile_route4 cfg uplink gw v ≡ v
  unfolding reconcile_route4
  reconcile_route4-eq gw v e = rw ((eqb_option_iff gw v.installed.ipv4_installed).1 (sym e))

  reconcile_rule4-eq :
      (addr : Option Text) (v : View)
      → v.installed.ipv4_lo_to_uplink_addr ≡ addr
      → reconcile_rule4 cfg uplink addr v ≡ v
  unfolding reconcile_rule4
  reconcile_rule4-eq addr v e =
      rw ((eqb_option_iff addr v.installed.ipv4_lo_to_uplink_addr).1 (sym e))

  finish : View → View
  finish c =
      reconcile_rule4 cfg uplink (wanted_address4 c.health.ipv4 lease)
        (reconcile_route4 cfg uplink (wanted_gateway4 c.health.ipv4 lease) c)

  reconcile_uplink_ipv4-eq :
      (v : View) → reconcile_uplink_ipv4 cfg files uplink v ≡ finish (checked v)
  unfolding reconcile_uplink_ipv4 finish
  reconcile_uplink_ipv4-eq v = refl

  finish-eq :
      (v : View)
      → v.installed.ipv4_installed ≡ wanted_gateway4 v.health.ipv4 lease
      → v.installed.ipv4_lo_to_uplink_addr ≡ wanted_address4 v.health.ipv4 lease
      → finish v ≡ v
  unfolding finish
  finish-eq v gw addr =
      ap (reconcile_rule4 cfg uplink (wanted_address4 v.health.ipv4 lease))
        (reconcile_route4-eq (wanted_gateway4 v.health.ipv4 lease) v gw)
      ∙ reconcile_rule4-eq (wanted_address4 v.health.ipv4 lease) v addr

  -- Nothing is done where all is as it is wanted.
  unchanged_of_IsWanted4 :
      (h : LinkState) (v : View)
      → (is_some lease ≡ false → h ≡ down)
      → IsWanted4 h v
      → reconcile_uplink_ipv4 cfg files uplink v ≡ v
  unchanged_of_IsWanted4 h v dead w =
      reconcile_uplink_ipv4-eq v
      ∙ ap finish (checked-eq v (λ gone. w.health_is ∙ dead gone))
      ∙ finish-eq v (w.gateway_is ∙ ap (λ k. wanted_gateway4 k lease) (sym w.health_is))
          (w.address_is ∙ ap (λ k. wanted_address4 k lease) (sym w.health_is))

  -- Reconciling the IPv4 routing twice is the same as once: while the state files stay as they are,
  -- the second run issues no command and fires no event.
  pub reconcile_uplink_ipv4_idem :
      (v : View)
      → reconcile_uplink_ipv4 cfg files uplink (reconcile_uplink_ipv4 cfg files uplink v)
        ≡ reconcile_uplink_ipv4 cfg files uplink v
  reconcile_uplink_ipv4_idem v =
      unchanged_of_IsWanted4 (health_after v) _ (λ gone. ground arith)
        (reconcile_uplink_ipv4-IsWanted4 v)

  -- After the IPv4 routing of an uplink is reconciled, both of its default routes are in place
  -- exactly if it has a lease and was up, and its lo_to_uplink rule exactly if the lease has an
  -- address that is not empty as well. Without a lease it is down. The account is taken to be right
  -- before.
  pub reconcile_uplink_ipv4-held :
      (v : View)
      → uplink.index < length cfg.uplinks
      → IsAccounted cfg uplink v
      → let after = reconcile_uplink_ipv4 cfg files uplink v in
        let routed = is_up v.health.ipv4 && is_some lease in
        (held (shared_route cfg uplink) after.trace ≡ one_if routed)
        × (held (own_route cfg uplink) after.trace ≡ one_if routed)
        × (held (lo4_rule cfg uplink) after.trace ≡ one_if (routed && has_address lease))
        × (after.health.ipv4 ≡ (if is_some lease then v.health.ipv4 else down))
  reconcile_uplink_ipv4-held v known a =
      let w = reconcile_uplink_ipv4-IsWanted4 v in
      let a' = reconcile_uplink_ipv4-IsAccounted cfg uplink known files v a in
      (
        a'.shared ∙ ap (λ o. one_if (is_some o)) w.gateway_is ∙ ground arith,
        a'.own ∙ ap (λ o. one_if (is_some o)) w.gateway_is ∙ ground arith,
        a'.lo4
            ∙ ap (λ o. one_if (is_some o)) w.address_is
            ∙ ap one_if (wanted_address4-is_some (health_after v) lease)
            ∙ ground arith,
        w.health_is,
      )
