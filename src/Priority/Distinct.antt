-- ===== src/Priority/Distinct.antt =====
-- No two rules of one address family have the same priority.
use uplinkmgr.Prelude.{
  ℕ, zero, suc, ◌+◌, ◌*◌, ◌<◌, ◌≤◌, ◌≡◌, ◌≢◌, refl, ap, ◌∙◌, sym, ℤ, pos, ◌+ℤ◌, int_laws, +ℤ_parts,
  pos_part, neg_part, ap₂, length, arith,
}
use uplinkmgr.Config.{Config}
use uplinkmgr.Priority.{
  ipv4_internal_traffic_priority, ipv4_lo_to_uplink_priority, ipv4_fwd_to_wan_priority,
  ipv6_internal_traffic_priority, ipv6_fwd_to_uplink_priority, ipv6_lo_to_uplink_priority,
  ipv6_reject_wrong_pd_src_priority, ipv6_pd_lo_to_uplink_priority,
}

-- The IPv4 rules that the daemon can hold, by the priority function that places each.
pub data Rule4 : Type 0 where
  internal4 wan4 : Rule4
  lo4 : ℕ → Rule4

pub data Rule6 : Type 0 where
  internal6 : Rule6
  fwd6 : ℕ → ℕ → Rule6
  lo6 : ℕ → Rule6
  reject6 : ℕ → ℕ → Rule6
  pd6 : ℕ → Rule6

pub same_offset : (a : ℤ) {m n : ℕ} → a +ℤ pos m ≡ a +ℤ pos n → m ≡ n
same_offset a {m} {n} e =
    omega (arith, +ℤ_parts a (pos m), +ℤ_parts a (pos n), ap pos_part e, ap neg_part e)

grid_bound : (u n : ℕ) {us ns : ℕ} → u < us → n < ns → u * ns + n < us * ns
grid_bound u n hu hn = grind arith

grid-injective :
    (u v n m : ℕ) {ns : ℕ} → n < ns → m < ns → u * ns + n ≡ v * ns + m → (u ≡ v) × (n ≡ m)
grid-injective zero zero n m hn hm e = (refl, omega arith)
grid-injective zero (suc v) n m hn hm e = absurd (omega arith)
grid-injective (suc u) zero n m hn hm e = absurd (omega arith)
grid-injective (suc u) (suc v) n m hn hm e =
    let (eu, en) = grid-injective u v n m hn hm (omega arith) in (ap suc eu, en)

module _ (cfg : Config) where
  abbrev pub priority4 : Rule4 → ℤ
  priority4 internal4 = ipv4_internal_traffic_priority cfg
  priority4 wan4 = ipv4_fwd_to_wan_priority cfg
  priority4 (lo4 u) = ipv4_lo_to_uplink_priority cfg u

  abbrev pub priority6 : Rule6 → ℤ
  priority6 internal6 = ipv6_internal_traffic_priority cfg
  priority6 (fwd6 u n) = ipv6_fwd_to_uplink_priority cfg u n
  priority6 (lo6 u) = ipv6_lo_to_uplink_priority cfg u
  priority6 (reject6 u n) = ipv6_reject_wrong_pd_src_priority cfg u n
  priority6 (pd6 u) = ipv6_pd_lo_to_uplink_priority cfg u

  -- The indices are those of an uplink and of a network of the configuration.
  abbrev pub InRange4 : Rule4 → Type 0
  InRange4 (lo4 u) = u < length cfg.uplinks
  InRange4 _ = Unit

  abbrev pub InRange6 : Rule6 → Type 0
  InRange6 internal6 = Unit
  InRange6 (fwd6 u n) = (u < length cfg.uplinks) × (n < length cfg.networks)
  InRange6 (lo6 u) = u < length cfg.uplinks
  InRange6 (reject6 u n) = (u < length cfg.uplinks) × (n < length cfg.networks)
  InRange6 (pd6 u) = u < length cfg.uplinks

  abbrev size : ℕ
  size = length cfg.uplinks * length cfg.networks

  -- How far a rule stands behind `rule_priority_start`.
  abbrev offset4 : Rule4 → ℕ
  offset4 internal4 = 0
  offset4 (lo4 u) = 1 + u
  offset4 wan4 = 1 + length cfg.uplinks

  abbrev offset6 : Rule6 → ℕ
  offset6 internal6 = 0
  offset6 (fwd6 u n) = 1 + (u * length cfg.networks + n)
  offset6 (lo6 u) = 1 + size + u
  offset6 (reject6 u n) = 1 + size + length cfg.uplinks + (u * length cfg.networks + n)
  offset6 (pd6 u) = 1 + size + length cfg.uplinks + size + u

  priority4-offset : (r : Rule4) → priority4 r ≡ cfg.rule_priority_start +ℤ pos (offset4 r)
  unfolding ipv4_internal_traffic_priority ipv4_lo_to_uplink_priority ipv4_fwd_to_wan_priority
  priority4-offset internal4 = omega int_laws
  priority4-offset wan4 = omega int_laws
  priority4-offset (lo4 u) = omega int_laws

  priority6-offset : (r : Rule6) → priority6 r ≡ cfg.rule_priority_start +ℤ pos (offset6 r)
  unfolding ipv6_internal_traffic_priority ipv6_fwd_to_uplink_priority ipv6_lo_to_uplink_priority
      ipv6_reject_wrong_pd_src_priority ipv6_pd_lo_to_uplink_priority
  priority6-offset internal6 = omega int_laws
  priority6-offset (fwd6 u n) = omega int_laws
  priority6-offset (lo6 u) = omega int_laws
  priority6-offset (reject6 u n) = omega int_laws
  priority6-offset (pd6 u) = omega int_laws

  -- The rules of one kind take a block of offsets, and the blocks follow one another.
  abbrev block : Rule6 → ℕ × ℕ
  block internal6 = (0, 1)
  block (fwd6 u n) = (1, 1 + size)
  block (lo6 u) = (1 + size, 1 + size + length cfg.uplinks)
  block (reject6 u n) = (1 + size + length cfg.uplinks, 1 + size + length cfg.uplinks + size)
  block (pd6 u) = (
    1 + size + length cfg.uplinks + size,
    1 + size + length cfg.uplinks + size + length cfg.uplinks,
  )

  offset6_bounds : (r : Rule6) → InRange6 r → ((block r).0 ≤ offset6 r) × (offset6 r < (block r).1)
  offset6_bounds internal6 h = omega arith
  offset6_bounds (fwd6 u n) h = omega (arith, grid_bound u n h.0 h.1)
  offset6_bounds (lo6 u) h = omega arith
  offset6_bounds (reject6 u n) h = omega (arith, grid_bound u n h.0 h.1)
  offset6_bounds (pd6 u) h = omega arith

  offset4-injective : (r s : Rule4) → InRange4 r → InRange4 s → offset4 r ≡ offset4 s → r ≡ s
  offset4-injective internal4 internal4 hr hs e = refl
  offset4-injective wan4 wan4 hr hs e = refl
  offset4-injective (lo4 u) (lo4 v) hr hs e = ap lo4 (omega arith)
  offset4-injective _ _ hr hs e = absurd (omega arith)

  offset6-injective : (r s : Rule6) → InRange6 r → InRange6 s → offset6 r ≡ offset6 s → r ≡ s
  offset6-injective internal6 internal6 hr hs e = refl
  offset6-injective (fwd6 u n) (fwd6 v m) hr hs e =
      let (eu, en) = grid-injective u v n m hr.1 hs.1 (omega arith) in ap₂ fwd6 eu en
  offset6-injective (lo6 u) (lo6 v) hr hs e = ap lo6 (omega arith)
  offset6-injective (reject6 u n) (reject6 v m) hr hs e =
      let (eu, en) = grid-injective u v n m hr.1 hs.1 (omega arith) in ap₂ reject6 eu en
  offset6-injective (pd6 u) (pd6 v) hr hs e = ap pd6 (omega arith)
  offset6-injective r s hr hs e = absurd (omega (arith, offset6_bounds r hr, offset6_bounds s hs))

  pub priority4-injective :
      (r s : Rule4) → InRange4 r → InRange4 s → priority4 r ≡ priority4 s → r ≡ s
  priority4-injective r s hr hs e =
      offset4-injective r s hr hs
        (same_offset cfg.rule_priority_start (sym (priority4-offset r) ∙ e ∙ priority4-offset s))

  pub priority6-injective :
      (r s : Rule6) → InRange6 r → InRange6 s → priority6 r ≡ priority6 s → r ≡ s
  priority6-injective r s hr hs e =
      offset6-injective r s hr hs
        (same_offset cfg.rule_priority_start (sym (priority6-offset r) ∙ e ∙ priority6-offset s))

  -- Two different IPv4 rules, with indices of uplinks of the configuration, never have the same
  -- priority.
  pub priority4_distinct :
      (r s : Rule4) → InRange4 r → InRange4 s → r ≢ s → priority4 r ≢ priority4 s
  priority4_distinct r s hr hs ne e = ne (priority4-injective r s hr hs e)

  -- Two different IPv6 rules, with indices of uplinks and networks of the configuration, never have
  -- the same priority.
  pub priority6_distinct :
      (r s : Rule6) → InRange6 r → InRange6 s → r ≢ s → priority6 r ≢ priority6 s
  priority6_distinct r s hr hs ne e = ne (priority6-injective r s hr hs e)
