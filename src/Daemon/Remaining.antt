-- ===== src/Daemon/Remaining.antt =====
-- The least lifetime that is left to a router.
use uplinkmgr.Prelude.{
  ℕ, zero, suc, ◌≡◌, ◌≢◌, ◌↔◌, ◌⊎◌, ◌||◌, ◌-ℤ◌, pos, max_ℤ, eqb_ℤ, eqb_ℤ_iff, refl, sym, ap, ◌∙◌,
  subst, List, [], ◌∷◌, true, false, inl, inr, Bool-cases, Option, none, some, Text, ℤ, ltb_ℤ, ◌≤ℤ◌,
  get_elem?, arith,
}
use uplinkmgr.Config.{Config, UplinkConfig}
use uplinkmgr.State.{Ipv6RaState, remaining, remaining_lifetime}
use uplinkmgr.Daemon.{gw_left, lesser, gw_remaining, min_gw, min_gw_remaining}

-- A minimum is no greater than a value, if there is a value.
abbrev AtMost : Option ℤ → Option ℤ → Type 0
AtMost r none = Unit
AtMost none (some n) = false ≡ true
AtMost (some m) (some n) = m ≤ℤ n

AtMost-refl : (r : Option ℤ) → AtMost r r
AtMost-refl none = tt
AtMost-refl (some m) = omega arith

AtMost-trans : (a b c : Option ℤ) → AtMost a b → AtMost b c → AtMost a c
AtMost-trans a b none h k = tt
AtMost-trans a none (some n) h k = cc
AtMost-trans none (some m) (some n) h k = h
AtMost-trans (some l) (some m) (some n) h k = omega arith

lesser-AtMost : (a b : Option ℤ) → AtMost (lesser a b) a × AtMost (lesser a b) b
lesser-AtMost none none = (tt, tt)
lesser-AtMost (some m) none = (omega arith, tt)
lesser-AtMost none (some n) = (tt, omega arith)
lesser-AtMost (some m) (some n) = elim (Bool-cases (ltb_ℤ n m)) [
  | inl less ↦ rw less (ground arith)
  | inr more ↦ rw more (ground arith)
]

lesser_either : (a b : Option ℤ) → (lesser a b ≡ a) ⊎ (lesser a b ≡ b)
lesser_either a none = inl refl
lesser_either none (some n) = inr refl
lesser_either (some m) (some n) = elim (Bool-cases (ltb_ℤ n m)) [
  | inl less ↦ inr (rw less refl)
  | inr more ↦ inl (rw more refl)
]

module _ (now : ℤ) (ra_of : Text → Option Ipv6RaState) where
  min_gw-AtMost :
      (acc : Option ℤ) (uplinks : List UplinkConfig) → AtMost (min_gw now ra_of acc uplinks) acc
  unfolding min_gw
  min_gw-AtMost acc [] = AtMost-refl acc
  min_gw-AtMost acc (u ∷ uplinks) =
      let next = lesser acc (gw_remaining now ra_of u) in
      AtMost-trans (min_gw now ra_of next uplinks) next acc (min_gw-AtMost next uplinks)
        (lesser-AtMost acc (gw_remaining now ra_of u)).0

  min_gw_below :
      (acc : Option ℤ) (uplinks : List UplinkConfig) (i : ℕ) (w : UplinkConfig)
      → get_elem? uplinks i ≡ some w
      → AtMost (min_gw now ra_of acc uplinks) (gw_remaining now ra_of w)
  unfolding min_gw
  min_gw_below acc [] i w at = cc
  min_gw_below acc (u ∷ uplinks) zero w at =
      let same : u ≡ w = ground arith in
      let next = lesser acc (gw_remaining now ra_of u) in
      subst (λ x. AtMost (min_gw now ra_of next uplinks) (gw_remaining now ra_of x)) same
        (AtMost-trans (min_gw now ra_of next uplinks) next (gw_remaining now ra_of u)
          (min_gw-AtMost next uplinks) (lesser-AtMost acc (gw_remaining now ra_of u)).1)
  min_gw_below acc (u ∷ uplinks) (suc i) w at =
      min_gw_below (lesser acc (gw_remaining now ra_of u)) uplinks i w at

  -- The lifetime is left to the router of an uplink of the list.
  abbrev IsLeft : List UplinkConfig → Option ℤ → Type 0
  IsLeft uplinks r =
      (i : ℕ) × (u : UplinkConfig) × (get_elem? uplinks i ≡ some u) × (gw_remaining now ra_of u ≡ r)

  min_gw-IsLeft :
      (acc : Option ℤ) (uplinks : List UplinkConfig)
      → (min_gw now ra_of acc uplinks ≡ acc) ⊎ IsLeft uplinks (min_gw now ra_of acc uplinks)
  unfolding min_gw
  min_gw-IsLeft acc [] = inl refl
  min_gw-IsLeft acc (u ∷ uplinks) =
      let own = gw_remaining now ra_of u in
      elim (min_gw-IsLeft (lesser acc own) uplinks) [
        | inl e ↦ elim (lesser_either acc own) [
          | inl old ↦ inl (e ∙ old)
          | inr new ↦ inr (0, u, refl, sym (e ∙ new))
        ]
        | inr (i, w, at, same) ↦ inr (suc i, w, at, same)
      ]

  -- That many seconds are left of a router's lifetime, which is not 0: what has passed since its time
  -- stamp is taken off, down to 0.
  abbrev pub RouterLeft : Ipv6RaState → ℤ → Type 0
  RouterLeft ra n =
      (ra.lifetime ≢ pos 0) × (n ≡ max_ℤ (pos 0) (ra.lifetime -ℤ (now -ℤ ra.timestamp)))

  -- That many seconds are left to the router of an uplink with IPv6.
  pub record HasLeft (u : UplinkConfig) (n : ℤ) : Type 0 where
    pub ipv6 : (u.ipv6_pd || u.ia_na) ≡ true
    pub router : (ra : Ipv6RaState) × (ra_of u.name ≡ some ra) × RouterLeft ra n

  gw_left-RouterLeft :
      (st : Ipv6RaState) (n : ℤ) → (gw_left now (some st) ≡ some n) ↔ RouterLeft st n
  unfolding remaining_lifetime remaining
  gw_left-RouterLeft st n = elim (Bool-cases (eqb_ℤ st.lifetime (pos 0))) [
    | inl zeroed ↦ (
      λ h. let bad = rw zeroed at h in cc,
      λ l. absurd (l.0 ((eqb_ℤ_iff st.lifetime (pos 0)).0 zeroed)),
    )
    | inr finite ↦ (
      λ h. (λ e. let bad = (eqb_ℤ_iff st.lifetime (pos 0)).1 e in cc, let e = rw finite at h in cc),
      λ l. rw (finite, l.1) refl,
    )
  ]

  gw_left-router :
      (st : Option Ipv6RaState) (n : ℤ)
      → (gw_left now st ≡ some n) ↔ ((ra : Ipv6RaState) × (st ≡ some ra) × RouterLeft ra n)
  gw_left-router none n = (λ h. cc, λ (ra, e, l). cc)
  gw_left-router (some st) n = (
    λ h. (st, refl, (gw_left-RouterLeft st n).0 h),
    λ (ra, e, l). ap (gw_left now) e ∙ (gw_left-RouterLeft ra n).1 l,
  )

  gw_remaining-HasLeft :
      (u : UplinkConfig) (n : ℤ) → (gw_remaining now ra_of u ≡ some n) ↔ HasLeft u n
  gw_remaining-HasLeft u n = elim (Bool-cases (u.ipv6_pd || u.ia_na)) [
    | inl on ↦ (
      λ h. record { ipv6 = on; router = (gw_left-router (ra_of u.name) n).0 (ground arith) },
      λ l. let e = (gw_left-router (ra_of u.name) n).1 l.router in ground arith,
    )
    | inr off ↦ (λ h. ground arith, λ l. let e = l.ipv6 in cc)
  ]

  some_least : (r : Option ℤ) (n : ℤ) → AtMost r (some n) → (m : ℤ) × (r ≡ some m) × (m ≤ℤ n)
  some_least none n h = cc
  some_least (some m) n h = (m, refl, h)

  -- `_min_gw_remaining` is no greater than what is left to any router with a finite lifetime of an
  -- uplink with IPv6, so that there is one if there is such a router; and unless it is None, it is
  -- what is left to the router of such an uplink.
  pub min_gw_remaining-IsLeft :
      (cfg : Config)
      → ((i : ℕ) (u : UplinkConfig) (n : ℤ)
          → get_elem? cfg.uplinks i ≡ some u
          → HasLeft u n
          → (m : ℤ) × (min_gw_remaining cfg now ra_of ≡ some m) × (m ≤ℤ n))
        × ((m : ℤ)
            → min_gw_remaining cfg now ra_of ≡ some m
            → (i : ℕ) × (u : UplinkConfig) × (get_elem? cfg.uplinks i ≡ some u) × HasLeft u m)
  unfolding min_gw_remaining
  min_gw_remaining-IsLeft cfg = (
    λ i u n at left. some_least (min_gw now ra_of none cfg.uplinks) n (
        subst (AtMost (min_gw now ra_of none cfg.uplinks)) ((gw_remaining-HasLeft u n).1 left)
          (min_gw_below none cfg.uplinks i u at)),
    λ m e. elim (min_gw-IsLeft none cfg.uplinks) [
      | inl missing ↦ cc
      | inr (i, u, at, same) ↦ (i, u, at, (gw_remaining-HasLeft u m).0 (same ∙ e))
    ],
  )
