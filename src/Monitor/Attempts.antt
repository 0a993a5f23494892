-- ===== src/Monitor/Attempts.antt =====
-- What a probe tries, and when it stops.
use native.Mathlib.Nat.{add-suc, suc-add, add-zero}
use uplinkmgr.Prelude.{
  ℕ, zero, suc, ◌+◌, ◌≡◌, ◌↔◌, refl, ap, ◌∙◌, List, [], ◌∷◌, ◌++◌, Bool, true, false, Bool-cases,
  inl, inr, Option, some, Text, ℤ, pos_part, get_elem?, replicate, if◌then◌else◌, arith,
}
use uplinkmgr.Monitor.{
  Ping, attempts, probe_hosts, probe_ipv4, probe_ipv6, ping4_words, ping6_words,
}

-- The commands that a probe may run, in their order: `count` for each host.
abbrev pub plan : (Text → List Text) → ℕ → List Text → List (List Text)
plan command count [] = []
plan command count (host ∷ hosts) = replicate count (command host) ++ plan command count hosts

-- Runs commands until one succeeds.
run_until : Ping → List (List Text) → ℕ → Bool × ℕ
run_until ping [] n = (false, n)
run_until ping (cmd ∷ cmds) n =
    let rest = run_until ping cmds (suc n) in if ping n cmd then (true, suc n) else rest

module _ (ping : Ping) where
  attempts-eq :
      (cmd : List Text) (left n : ℕ)
      → attempts ping cmd left n ≡ run_until ping (replicate left cmd) n
  unfolding attempts run_until
  attempts-eq cmd zero n = refl
  attempts-eq cmd (suc left) n = rw (attempts-eq cmd left (suc n))

  run_until-append :
      (xs ys : List (List Text)) (n : ℕ)
      → run_until ping (xs ++ ys) n ≡ (
          if (run_until ping xs n).0
          then (true, (run_until ping xs n).1)
          else run_until ping ys (run_until ping xs n).1)
  unfolding run_until
  run_until-append [] ys n = refl
  run_until-append (x ∷ xs) ys n = elim (Bool-cases (ping n x)) [
    | inl ok ↦ rw ok
    | inr bad ↦ rw bad (run_until-append xs ys (suc n))
  ]

  probe_hosts-eq :
      (command : Text → List Text) (count : ℕ) (hosts : List Text) (n : ℕ)
      → probe_hosts ping command count hosts n ≡ run_until ping (plan command count hosts) n
  unfolding probe_hosts
  probe_hosts-eq command count [] n = unfold run_until in refl
  probe_hosts-eq command count (host ∷ hosts) n = rw (
    run_until-append (replicate count (command host)) (plan command count hosts) n,
    attempts-eq (command host) count n,
    probe_hosts-eq command count hosts (run_until ping (replicate count (command host)) n).1,
  )

  -- Some command of the list succeeds when its turn comes.
  abbrev pub Succeeds : List (List Text) → ℕ → Type 0
  Succeeds cmds n =
      (i : ℕ) × (cmd : List Text) × (get_elem? cmds i ≡ some cmd) × (ping (n + i) cmd ≡ true)

  run_until-Succeeds :
      (cmds : List (List Text)) (n : ℕ) → (run_until ping cmds n).0 ≡ true → Succeeds cmds n
  unfolding run_until
  run_until-Succeeds [] n h = cc
  run_until-Succeeds (c ∷ cmds) n h = elim (Bool-cases (ping n c)) [
    | inl ok ↦ (0, c, refl, rw add-zero ok)
    | inr bad ↦
        let (i, cmd, at, ok) = run_until-Succeeds cmds (suc n) (rw bad at h) in
        (suc i, cmd, at, rw (add-suc, ← suc-add) ok)
  ]

  run_until-true :
      (cmds : List (List Text)) (n i : ℕ) (cmd : List Text)
      → get_elem? cmds i ≡ some cmd
      → ping (n + i) cmd ≡ true
      → (run_until ping cmds n).0 ≡ true
  unfolding run_until
  run_until-true [] n i cmd at ok = cc
  run_until-true (c ∷ cmds) n zero cmd at ok =
      let here : ping n c ≡ true = ap (ping n) (ground arith) ∙ (rw add-zero at ok) in rw here
  run_until-true (c ∷ cmds) n (suc i) cmd at ok =
      let later = run_until-true cmds (suc n) i cmd at (rw (suc-add, ← add-suc) ok) in
      elim (Bool-cases (ping n c)) [ inl good ↦ rw good | inr bad ↦ rw bad later ]

  -- The IPv4 probe of an uplink succeeds exactly if one of its pings does, each host being tried
  -- `count` times in turn.
  pub probe_ipv4_iff :
      (wan_iface : Text) (hosts : List Text) (count : ℤ)
      → ((probe_ipv4 ping wan_iface hosts count).0 ≡ true)
        ↔ Succeeds (plan (ping4_words wan_iface) (pos_part count) hosts) 0
  unfolding probe_ipv4
  probe_ipv4_iff wan_iface hosts count =
      rw (probe_hosts-eq (ping4_words wan_iface) (pos_part count) hosts 0)
        (run_until-Succeeds _ 0, λ (i, cmd, at, ok). run_until-true _ 0 i cmd at ok)

  -- So does the IPv6 probe, with the source address that is given, if any.
  probe_ipv6_iff :
      (wan_iface : Text) (hosts : List Text) (count : ℤ) (src_addr : Option Text)
      → ((probe_ipv6 ping wan_iface hosts count src_addr).0 ≡ true)
        ↔ Succeeds (plan (ping6_words wan_iface src_addr) (pos_part count) hosts) 0
  unfolding probe_ipv6
  probe_ipv6_iff wan_iface hosts count src_addr =
      rw (probe_hosts-eq (ping6_words wan_iface src_addr) (pos_part count) hosts 0)
        (run_until-Succeeds _ 0, λ (i, cmd, at, ok). run_until-true _ 0 i cmd at ok)
