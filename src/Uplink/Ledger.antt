-- ===== src/Uplink/Ledger.antt =====
-- An account of the commands in a trace: how many rules, or whether a route, they leave at a place.
-- It counts the commands that were run, whether or not the kernel carried them out.
use uplinkmgr.Prelude.{
  ℕ, suc, ◌-◌, ◌≡◌, [], ◌∷◌, Bool, true, false, ◌&&◌, Text, ◌==◌, ==_refl, eq_of_==, refl, ap₂, ℤ,
  eqb_ℤ, eqb_ℤ_iff, if◌then◌else◌, arith,
}
use uplinkmgr.StateMachine.{Family, ipv4, ipv6}
use uplinkmgr.Routing.{Command, rule_add, rule_del, route4_replace, route6_replace, route_del}
use uplinkmgr.Effect.{ip, Trace}

-- The rules of one priority; the default route through an interface in a table, as `ip route del`
-- finds it. `ip route replace` finds it by table and metric: those of different routes of a valid
-- configuration differ (Daemon.Keys), so that it replaces no other one.
pub data Place : Type 0 where
  rules_at : Family → ℤ → Place
  route_in : Family → Text → ℤ → Place

abbrev pub same_family : Family → Family → Bool
same_family ipv4 ipv4 = true
same_family ipv6 ipv6 = true
same_family _ _ = false

abbrev pub same : Place → Place → Bool
same (rules_at f p) (rules_at g q) = same_family f g && eqb_ℤ p q
same (route_in f i t) (route_in g j u) = same_family f g && i == j && eqb_ℤ t u
same _ _ = false

-- The place that a command changes, and what it leaves there.
abbrev pub place_of : Command → Place
place_of (rule_add f r) = rules_at f r.priority
place_of (rule_del f p) = rules_at f p
place_of (route4_replace gateway iface metric table) = route_in ipv4 iface table
place_of (route6_replace gateway iface table expires) = route_in ipv6 iface table
place_of (route_del f iface table) = route_in f iface table

abbrev pub count_after : Command → ℕ → ℕ
count_after (rule_add f r) n = suc n
count_after (rule_del f p) n = n - 1
count_after (route4_replace gateway iface metric table) n = 1
count_after (route6_replace gateway iface table expires) n = 1
count_after (route_del f iface table) n = 0

-- What the commands of a trace leave at a place, from nothing.
abbrev pub held : Place → Trace → ℕ
held k [] = 0
held k (ip c ∷ earlier) =
    let before = held k earlier in if same k (place_of c) then count_after c before else before
held k (_ ∷ earlier) = held k earlier

abbrev pub one_if : Bool → ℕ
one_if true = 1
one_if false = 0

pub same_refl : (k : Place) → same k k ≡ true
same_refl (rules_at ipv4 p) = ground arith
same_refl (rules_at ipv6 p) = ground arith
same_refl (route_in ipv4 i t) = ground (arith, ==_refl i)
same_refl (route_in ipv6 i t) = ground (arith, ==_refl i)

same_family_iff : (f g : Family) → same_family f g ≡ true → f ≡ g
same_family_iff ipv4 ipv4 h = refl
same_family_iff ipv6 ipv6 h = refl
same_family_iff ipv4 ipv6 h = cc
same_family_iff ipv6 ipv4 h = cc

pub eq_of_same : (k p : Place) → same k p ≡ true → k ≡ p
eq_of_same (rules_at f p) (rules_at g q) h =
    ap₂ rules_at (same_family_iff f g (ground arith)) ((eqb_ℤ_iff p q).0 (ground arith))
eq_of_same (route_in f i t) (route_in g j u) h =
    let e = same_family_iff f g (ground arith) in
    let e' = eq_of_== i j (ground arith) in let e'' = (eqb_ℤ_iff t u).0 (ground arith) in cc
eq_of_same (rules_at f p) (route_in g j u) h = cc
eq_of_same (route_in f i t) (rules_at g q) h = cc
