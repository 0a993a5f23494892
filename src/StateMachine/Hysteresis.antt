-- ===== src/StateMachine/Hysteresis.antt =====
-- The debouncing of statemachine.py: how many equal probe results it takes to change a state.
use uplinkmgr.Prelude.{
  ℕ, zero, suc, ◌≤◌, ◌<◌, ◌≡◌, ◌≢◌, ◌↔◌, ◌⊎◌, refl, Bool, true, false, if◌then◌else◌, List, [], ◌∷◌,
  ◌++◌, inl, inr, ℤ, pos, ◌≤ℤ◌, take, replicate, arith,
}
use uplinkmgr.StateMachine.{
  LinkState, up, down, Family, ipv4, ipv6, UplinkState, Link, link_of, step_link, update_link,
  update,
}

module _ (failure_threshold recovery_threshold : ℤ) where
  -- The state after the probe results of one family, the latest result first.
  abbrev pub probes : Family → UplinkState → List Bool → UplinkState
  probes f s [] = s
  probes f s (ok ∷ older) =
      (update_link failure_threshold recovery_threshold (probes f s older) f ok).0

  abbrev pub links : Link → List Bool → Link
  links l [] = l
  links l (ok ∷ older) = (step_link failure_threshold recovery_threshold ok (links l older)).0

  link_of-update_link :
      (f : Family) (s : UplinkState) (ok : Bool)
      → link_of f (update_link failure_threshold recovery_threshold s f ok).0
        ≡ (step_link failure_threshold recovery_threshold ok (link_of f s)).0
  unfolding update_link
  link_of-update_link ipv4 s ok = refl
  link_of-update_link ipv6 s ok = refl

  pub link_of-probes :
      (f : Family) (s : UplinkState) (history : List Bool)
      → link_of f (probes f s history) ≡ links (link_of f s) history
  link_of-probes f s [] = refl
  link_of-probes f s (ok ∷ older) =
      rw (link_of-update_link f (probes f s older) ok, link_of-probes f s older)

  -- Each counter is at most the length of the latest run of equal results.
  abbrev CountsRuns : Link → List Bool → Type 0
  CountsRuns l history =
      (take l.failures history ≡ replicate l.failures false)
      × (take l.successes history ≡ replicate l.successes true)

  -- The threshold for the state that the result `ok` speaks for, and that state.
  abbrev pub threshold : Bool → ℤ
  threshold true = recovery_threshold
  threshold false = failure_threshold

  abbrev pub target : Bool → LinkState
  target true = up
  target false = down

  abbrev counter : Bool → Link → ℕ
  counter true l = l.successes
  counter false l = l.failures

  -- The last `n` results were all `ok`: the state is their target, or the run is still too short.
  abbrev Settling : Bool → ℕ → Link → Type 0
  Settling ok n l =
      (l.state ≡ target ok) ⊎ ((n ≤ counter ok l) × (¬ (threshold ok ≤ℤ pos (counter ok l))))

  Settling-step :
      (ok : Bool) (n : ℕ) (l : Link)
      → Settling ok n l
      → Settling ok (suc n) (step_link failure_threshold recovery_threshold ok l).0
  unfolding step_link
  Settling-step true n l h = ground arith
  Settling-step false n l h = ground arith

  first_step :
      (ok : Bool) (l : Link) → Settling ok 1 (step_link failure_threshold recovery_threshold ok l).0
  unfolding step_link
  first_step true l = ground arith
  first_step false l = ground arith

  Settling-links :
      (ok : Bool) (n : ℕ) (l : Link) (older : List Bool)
      → Settling ok (suc n) (links l (replicate (suc n) ok ++ older))
  Settling-links ok zero l older = first_step ok (links l older)
  Settling-links ok (suc n) l older =
      Settling-step ok (suc n) (links l (replicate (suc n) ok ++ older))
        (Settling-links ok n l older)

  -- From any state and after any results, `n` equal results in a row bring a family to the state
  -- that they speak for, if `n` is positive and reaches the threshold.
  pub probes_settle :
      (f : Family) (s : UplinkState) (older : List Bool) (ok : Bool) (n : ℕ)
      → 0 < n
      → threshold ok ≤ℤ pos n
      → (link_of f (probes f s (replicate n ok ++ older))).state ≡ target ok
  probes_settle f s older ok zero h reached = absurd (omega arith)
  probes_settle f s older ok (suc n) h reached =
      rw (link_of-probes f s (replicate (suc n) ok ++ older))
        (elim (Settling-links ok n (link_of f s) older) [
          | inl there ↦ there
          | inr short ↦ absurd (omega arith)
        ])

  -- `_update_link` returns True exactly when it changes the state of its family.
  update_link_reports :
      (s : UplinkState) (f : Family) (ok : Bool)
      → ((update_link failure_threshold recovery_threshold s f ok).1 ≡ true) ↔ (
          (link_of f (update_link failure_threshold recovery_threshold s f ok).0).state
          ≢ (link_of f s).state)
  unfolding update_link
  update_link_reports s ipv4 true = ground arith
  update_link_reports s ipv4 false = ground arith
  update_link_reports s ipv6 true = ground arith
  update_link_reports s ipv6 false = ground arith

  -- `update` moves the IPv4 family by the IPv4 result alone, and the IPv6 family by the IPv6 result
  -- alone if IPv6 is enabled. If not, the IPv6 family keeps its state and counters, and no IPv6
  -- change is reported. The name stays.
  update_by_family :
      (s : UplinkState) (ipv4_ok ipv6_ok ipv6_enabled : Bool)
      → let after = update failure_threshold recovery_threshold s ipv4_ok ipv6_ok ipv6_enabled in
        let step = step_link failure_threshold recovery_threshold in
        ((link_of ipv4 after.0, after.1) ≡ step ipv4_ok (link_of ipv4 s))
        × ((link_of ipv6 after.0, after.2)
            ≡ (if ipv6_enabled then step ipv6_ok (link_of ipv6 s) else (link_of ipv6 s, false)))
        × (after.0.name ≡ s.name)
  unfolding update
  update_by_family s ipv4_ok ipv6_ok true = (refl, refl, refl)
  update_by_family s ipv4_ok ipv6_ok false = (refl, refl, refl)
