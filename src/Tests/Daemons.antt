-- ===== src/Tests/Daemons.antt =====
-- The daemon on the sample configuration, through signals, rounds of the loop and a reload.
use uplinkmgr.Prelude.{
  ◌≢◌, false, ◌+◌, ◌*◌, ◌≤◌, ◌≡◌, ℕ, List, [], ◌∷◌, true, false, arith, some, text, pos, refl, eqb,
  length, ℤ, ◌+ℤ◌, ◌-ℤ◌, int_laws,
}
use uplinkmgr.Daemon.Sleep.{sleep, nap-le, sleep-ends}
use uplinkmgr.Config.Yaml.{ok}
use uplinkmgr.Radvd.{Ipaddress}
use uplinkmgr.Daemon.Slots.{own4, route}
use uplinkmgr.Daemon.Keys.{key, key_distinct}
use uplinkmgr.Daemon.Rounds.{ReturnsBooked}
use uplinkmgr.Daemon.Start.{bring_up-IsBooked}
use uplinkmgr.Daemon.Safe.{EndsSafe, IsSafe-of}
use uplinkmgr.Daemon.Lifetime.{LeavesNothing, iterate-EndsSafe, lifetime-LeavesNothing}
use uplinkmgr.Daemon.Machine.{Daemon, bring_up}
use uplinkmgr.Daemon.Handlers.{
  Env, new_daemon, iterate, lifetime, Input, term, hup, usr1, usr2, round,
}
use uplinkmgr.Tests.Samples.{cable, satellite, home, leased, home-IsNamed}
use uplinkmgr.Tests.Configs.{home-IsValid}

-- Addresses are numbers here, and every network has one text.
abbrev numbered : Ipaddress
numbered = record {
  Address = ℕ;
  network_address = λ s. some 0;
  add = λ base n. some (base + n);
  network64 = λ address. some (text "2001:db8::/64");
}

-- A lease and a delegated prefix are there, every ping is answered, and the configuration is `home`.
abbrev sunny : Env
sunny = record {
  files = leased;
  now = pos 1500;
  mono = pos 20000000000;
  ping = λ name n words. true;
  loaded = ok home;
  dhcpcd_runs = true;
}

booted : ReturnsBooked home (bring_up leased (pos 1500) home (new_daemon home))
booted =
    bring_up-IsBooked home home-IsValid home-IsNamed leased (pos 1500) home (new_daemon home)
      (record { config = refl; no_rules4 = refl; no_rule6 = refl; empty = λ k. refl })

bring_up-IsBooked_example : ReturnsBooked home (bring_up leased (pos 1500) home (new_daemon home))
bring_up-IsBooked_example =
    bring_up-IsBooked home home-IsValid home-IsNamed leased (pos 1500) home (new_daemon home)
      (record { config = refl; no_rules4 = refl; no_rule6 = refl; empty = λ k. refl })

iterate-EndsSafe_example : EndsSafe (iterate numbered sunny booted.0)
iterate-EndsSafe_example =
    iterate-EndsSafe numbered sunny booted.0 (home-IsValid, home-IsNamed)
      (IsSafe-of home home-IsValid home-IsNamed booted.0 booted.2)

-- A reload, both signals for radvd, and the end.
abbrev events : List Input
events = usr1 ∷ round sunny ∷ hup ∷ usr2 ∷ round sunny ∷ term ∷ round sunny ∷ []

lifetime-LeavesNothing_example : LeavesNothing (lifetime numbered sunny home events sunny)
lifetime-LeavesNothing_example =
    lifetime-LeavesNothing numbered sunny home events sunny home-IsValid home-IsNamed (
      (home-IsValid, home-IsNamed),
      ((home-IsValid, home-IsNamed), ((home-IsValid, home-IsNamed), tt)),
    )

-- The IPv4 routes of both uplinks in tables of their own.
key_distinct_example : key home (route own4 cable) ≢ key home (route own4 satellite)
key_distinct_example =
    key_distinct home home-IsValid (route own4 cable) (route own4 satellite) refl refl (λ e. cc)

-- Ten seconds later, and a second after that.
abbrev later : Env
later = record sunny { mono = pos 30000000000 }

abbrev too_early : Env
too_early = record sunny { mono = pos 31000000000 }

-- The last cycle was at the time of `sunny`.
abbrev waiting : Daemon
waiting = record booted.0 { last_probe = some (pos 20000000000); reload_requested = false }

abbrev many_signals : List Input
many_signals = usr1 ∷ round later ∷ usr1 ∷ usr2 ∷ round too_early ∷ term ∷ []

-- A clock that goes on by half a second, and a signal at the third turn.
abbrev ticks : ℕ → ℤ
ticks k = pos (k * 500000000)

sleep-ends_example :
    (naps : List ℤ) × (sleep (λ j. eqb j 2) ticks (pos 0) (pos 2000000000) 5 ≡ some naps)
    × (length naps ≤ 4)
    × ((j : ℕ) → eqb j 2 ≡ true → length naps ≤ j)
sleep-ends_example =
    sleep-ends (λ j. eqb j 2) ticks (pos 0) (pos 2000000000) 4 5
      (λ k. omega (int_laws, nap-le (pos 0 +ℤ pos 2000000000 -ℤ ticks k))) (omega arith)
      (omega arith) (omega arith)
