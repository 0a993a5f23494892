-- ===== src/Daemon/Primary.antt =====
-- The primary uplinks and the events for their changes.
use uplinkmgr.Prelude.{
  ℕ, zero, suc, ◌≡◌, ◌⊎◌, refl, sym, ap, ◌∙◌, subst, List, [], ◌∷◌, Bool, true, false, Bool-cases,
  inl, inr, Option, none, some, Text, text, eqb_option_iff, ℤ, ltb_ℤ, ◌≤ℤ◌, if◌then◌else◌,
  get_elem?, arith,
}
use uplinkmgr.Config.{Config, UplinkConfig}
use uplinkmgr.StateMachine.{UplinkState, is_up}
use uplinkmgr.Effect.{Trace}
use uplinkmgr.Daemon.{
  Primaries, least_metric, up_ipv4, least_of, primary_ipv4_uplink, name_of, note_primary,
  update_primary_uplinks,
}
use uplinkmgr.Radvd.{primary_ipv6_uplink}

-- An uplink stands in a list.
abbrev pub IsIn : UplinkConfig → List UplinkConfig → Type 0
IsIn u uplinks = (i : ℕ) × (get_elem? uplinks i ≡ some u)

-- No uplink of the list has a smaller metric.
abbrev pub IsLeast : ℤ → List UplinkConfig → Type 0
IsLeast m [] = Unit
IsLeast m (u ∷ uplinks) = (m ≤ℤ u.metric) × IsLeast m uplinks

IsLeast-weaken :
    (m n : ℤ) (uplinks : List UplinkConfig) → m ≤ℤ n → IsLeast n uplinks → IsLeast m uplinks
IsLeast-weaken m n [] h k = tt
IsLeast-weaken m n (u ∷ uplinks) h k = (omega arith, IsLeast-weaken m n uplinks h k.1)

≤ℤ_trans : (a b c : ℤ) → a ≤ℤ b → b ≤ℤ c → a ≤ℤ c
≤ℤ_trans a b c h k = omega arith

better_metric :
    (best u : UplinkConfig)
    → let c = if ltb_ℤ u.metric best.metric then u else best in
      (c.metric ≤ℤ best.metric) × (c.metric ≤ℤ u.metric)
better_metric best u = elim (Bool-cases (ltb_ℤ u.metric best.metric)) [
  | inl less ↦ ground arith
  | inr more ↦ ground arith
]

least_metric-IsLeast :
    (best : UplinkConfig) (uplinks : List UplinkConfig)
    → IsLeast (least_metric best uplinks).metric (best ∷ uplinks)
unfolding least_metric
least_metric-IsLeast best [] = (omega arith, tt)
least_metric-IsLeast best (u ∷ uplinks) =
    let better = if ltb_ℤ u.metric best.metric then u else best in
    let (below, rest) = least_metric-IsLeast better uplinks in
    let (h, k) = better_metric best u in
    let least = (least_metric better uplinks).metric in
    (
      ≤ℤ_trans least better.metric best.metric below h,
      (≤ℤ_trans least better.metric u.metric below k, rest),
    )

IsIn-skip :
    (r c best u : UplinkConfig) (uplinks : List UplinkConfig)
    → (c ≡ u) ⊎ (c ≡ best)
    → IsIn r (c ∷ uplinks)
    → IsIn r (best ∷ u ∷ uplinks)
IsIn-skip r c best u uplinks (inl e) (zero, at) = (1, ap some (sym e) ∙ at)
IsIn-skip r c best u uplinks (inr e) (zero, at) = (0, ap some (sym e) ∙ at)
IsIn-skip r c best u uplinks e (suc i, at) = (suc (suc i), at)

either :
    (b : Bool) (u best : UplinkConfig)
    → ((if b then u else best) ≡ u) ⊎ ((if b then u else best) ≡ best)
either true u best = inl refl
either false u best = inr refl

least_metric-IsIn :
    (best : UplinkConfig) (uplinks : List UplinkConfig)
    → IsIn (least_metric best uplinks) (best ∷ uplinks)
unfolding least_metric
least_metric-IsIn best [] = (0, refl)
least_metric-IsIn best (u ∷ uplinks) =
    IsIn-skip _ _ best u uplinks (either (ltb_ℤ u.metric best.metric) u best)
      (least_metric-IsIn (if ltb_ℤ u.metric best.metric then u else best) uplinks)

module _ (states : Text → UplinkState) where
  abbrev pub runs_ipv4 : UplinkConfig → Bool
  runs_ipv4 u = is_up (states u.name).ipv4

  later_or_here :
      (u x : UplinkConfig) (uplinks : List UplinkConfig)
      → runs_ipv4 x ≡ true
      → (IsIn u (up_ipv4 states uplinks) → IsIn u uplinks × (runs_ipv4 u ≡ true))
      → IsIn u (x ∷ up_ipv4 states uplinks)
      → IsIn u (x ∷ uplinks) × (runs_ipv4 u ≡ true)
  later_or_here u x uplinks good later (zero, at) =
      let same : x ≡ u = ground arith in ((0, ap some same), ap runs_ipv4 (sym same) ∙ good)
  later_or_here u x uplinks good later (suc i, at) =
      let ((k, there), alive) = later (i, at) in ((suc k, there), alive)

  up_ipv4-IsIn :
      (u : UplinkConfig) (uplinks : List UplinkConfig)
      → IsIn u (up_ipv4 states uplinks)
      → IsIn u uplinks × (runs_ipv4 u ≡ true)
  unfolding up_ipv4
  up_ipv4-IsIn u [] (i, at) = cc
  up_ipv4-IsIn u (x ∷ uplinks) h = elim (Bool-cases (runs_ipv4 x)) [
    | inl good ↦ later_or_here u x uplinks good (up_ipv4-IsIn u uplinks) (simp good at h)
    | inr bad ↦
        let ((i, at), alive) = up_ipv4-IsIn u uplinks (simp bad at h) in ((suc i, at), alive)
  ]

  -- No uplink of the list that is up in IPv4 has a smaller metric.
  abbrev pub Beats : ℤ → List UplinkConfig → Type 0
  Beats m uplinks =
      (i : ℕ) (w : UplinkConfig) → get_elem? uplinks i ≡ some w → runs_ipv4 w ≡ true → m ≤ℤ w.metric

  IsLeast-Beats :
      (m : ℤ) (uplinks : List UplinkConfig) → IsLeast m (up_ipv4 states uplinks) → Beats m uplinks
  unfolding up_ipv4
  IsLeast-Beats m [] h i w at alive = cc
  IsLeast-Beats m (x ∷ uplinks) h zero w at alive =
      let same : x ≡ w = ground arith in
      let good : runs_ipv4 x ≡ true = ap runs_ipv4 same ∙ alive in
      let least : IsLeast m (x ∷ up_ipv4 states uplinks) = simp good at h in
      subst (λ u. m ≤ℤ u.metric) same least.0
  IsLeast-Beats m (x ∷ uplinks) h (suc i) w at alive = elim (Bool-cases (runs_ipv4 x)) [
    | inl good ↦
        let least : IsLeast m (x ∷ up_ipv4 states uplinks) = simp good at h in
        IsLeast-Beats m uplinks least.1 i w at alive
    | inr bad ↦ IsLeast-Beats m uplinks (simp bad at h) i w at alive
  ]

  up_ipv4-empty :
      (uplinks : List UplinkConfig)
      → up_ipv4 states uplinks ≡ []
      → (i : ℕ) (w : UplinkConfig) → get_elem? uplinks i ≡ some w
      → runs_ipv4 w ≡ false
  unfolding up_ipv4
  up_ipv4-empty [] h i w at = cc
  up_ipv4-empty (x ∷ uplinks) h zero w at =
      let same : x ≡ w = ground arith in ap runs_ipv4 (sym same) ∙ ground arith
  up_ipv4-empty (x ∷ uplinks) h (suc i) w at = up_ipv4-empty uplinks (ground arith) i w at

  abbrev IsBest : Config → Option UplinkConfig → Type 0
  IsBest cfg primary =
      ((primary ≡ none)
        × ((i : ℕ) (w : UplinkConfig) → get_elem? cfg.uplinks i ≡ some w → runs_ipv4 w ≡ false))
      ⊎ ((u : UplinkConfig) × (primary ≡ some u)
          × IsIn u cfg.uplinks
          × (runs_ipv4 u ≡ true)
          × Beats u.metric cfg.uplinks)

  least_of_ups :
      (cfg : Config) (ups : List UplinkConfig)
      → up_ipv4 states cfg.uplinks ≡ ups
      → IsBest cfg (least_of ups)
  least_of_ups cfg [] e = inl (refl, up_ipv4-empty cfg.uplinks e)
  least_of_ups cfg (u ∷ ups) e =
      let best = least_metric u ups in
      let (there, alive) = up_ipv4-IsIn best cfg.uplinks (rw e (least_metric-IsIn u ups)) in
      let least = IsLeast-Beats best.metric cfg.uplinks (rw e (least_metric-IsLeast u ups)) in
      inr (best, refl, there, alive, least)

  -- The primary IPv4 uplink is an uplink of the configuration that is up in IPv4 and has the least
  -- metric of those, and there is none exactly if no uplink is up in IPv4.
  pub primary_ipv4_uplink-Beats :
      (cfg : Config)
      → ((primary_ipv4_uplink cfg states ≡ none)
          × ((i : ℕ) (w : UplinkConfig) → get_elem? cfg.uplinks i ≡ some w → runs_ipv4 w ≡ false))
        ⊎ ((u : UplinkConfig) × (primary_ipv4_uplink cfg states ≡ some u)
            × IsIn u cfg.uplinks
            × (runs_ipv4 u ≡ true)
            × Beats u.metric cfg.uplinks)
  unfolding primary_ipv4_uplink
  primary_ipv4_uplink-Beats cfg = least_of_ups cfg (up_ipv4 states cfg.uplinks) refl

note_primary_same :
    (cfg : Config) (family : Text) (new : Option UplinkConfig) (trace : Trace)
    → note_primary cfg family (name_of new) new trace ≡ trace
unfolding note_primary
note_primary_same cfg family new trace = ground (arith, eqb_option_iff (name_of new) (name_of new))

-- The primary uplinks that are recorded are those of the states, and a second update with the same
-- states changes nothing and fires no event.
pub update_primary_uplinks_idem :
    (cfg : Config) (states : Text → UplinkState) (p : Primaries)
    → let q = update_primary_uplinks cfg states p in
      (q.primary_ipv4 ≡ name_of (primary_ipv4_uplink cfg states))
      × (q.primary_ipv6 ≡ name_of (primary_ipv6_uplink cfg states))
      × (update_primary_uplinks cfg states q ≡ q)
unfolding update_primary_uplinks
update_primary_uplinks_idem cfg states p = (
  refl,
  refl,
  ap (λ t. record (update_primary_uplinks cfg states p) { trace = t })
      (note_primary_same cfg (text "ipv6") (primary_ipv6_uplink cfg states) _
        ∙ note_primary_same cfg (text "ipv4") (primary_ipv4_uplink cfg states) _),
)
