-- ===== src/Tests/States.antt =====
-- The state machine at concrete probe results, with 3 failures to go down and 2 successes to come up.
use uplinkmgr.Prelude.{
  ◌≡◌, ◌≢◌, refl, ap, [], ◌∷◌, ◌++◌, ◌&&◌, true, false, some, none, text, ◌==◌, pos, replicate,
  length, lookup, if◌then◌else◌, arith,
}
use uplinkmgr.State.{
  Files, Ipv4State, Ipv6RaState, Ipv6NaState, Ipv6PdState, read_ipv4_state, read_ipv6ra_state,
  read_ipv6na_state, read_ipv6pd_state,
}
use uplinkmgr.State.Atomic.{write_atomic, at_write, is_whole, lookup-write_atomic}
use uplinkmgr.Generator.Disk.{file, tmp_path}
use uplinkmgr.State.Printed.{print, pd_entries}
use uplinkmgr.State.Handover.{ipv4_entries, ra_entries, na_entries, AreSolid, read_states-print}
use uplinkmgr.StateMachine.{ipv6, initial, link_of}
use uplinkmgr.StateMachine.Hysteresis.{probes, target, probes_settle}

probes_settle_example :
    (link_of ipv6 (
      probes
        (pos 3)
        (pos 2)
        ipv6
        (initial (text "comcast"))
        (replicate 3 false ++ true ∷ false ∷ []))).state
    ≡ target (pos 3) (pos 2) false
probes_settle_example =
    probes_settle (pos 3) (pos 2) ipv6 (initial (text "comcast")) (true ∷ false ∷ []) false 3
      (omega arith) (omega arith)

-- The state of the sample file.
abbrev delegation : Ipv6PdState
delegation = record {
  delegated_prefix = text "2001:db8::";
  delegated_length = pos 56;
  vltime = pos 7200;
  pltime = pos 1800;
  timestamp = pos 1000;
}

abbrev lease : Ipv4State
lease = record { gateway = text "203.0.113.1"; address = text "203.0.113.7" }

-- A router that has the addresses given by DHCPv6.
abbrev advertised : Ipv6RaState
advertised = record {
  gateway = text "fe80::1";
  lifetime = pos 1800;
  timestamp = pos 1000;
  address = [];
  prefix = [];
  plen = pos 0;
}

abbrev assigned : Ipv6NaState
assigned = record { address = text "2001:db8:1::7" }

-- All four files are there.
unfoldable full : Files
full name =
    if name == text "comcast.ipv4.state"
    then some (print (ipv4_entries lease))
    else if name == text "comcast.ipv6ra.state"
    then some (print (ra_entries advertised))
    else if name == text "comcast.ipv6na.state"
    then some (print (na_entries assigned))
    else if name == text "comcast.ipv6pd.state"
    then some (print (pd_entries delegation))
    else none

full_ipv4 : full (text "comcast" ++ text ".ipv4.state") ≡ some (print (ipv4_entries lease))
unfolding full text ◌==◌
full_ipv4 = refl

full_ra : full (text "comcast" ++ text ".ipv6ra.state") ≡ some (print (ra_entries advertised))
unfolding full text ◌==◌
full_ra = refl

full_na : full (text "comcast" ++ text ".ipv6na.state") ≡ some (print (na_entries assigned))
unfolding full text ◌==◌
full_na = refl

full_pd : full (text "comcast" ++ text ".ipv6pd.state") ≡ some (print (pd_entries delegation))
unfolding full text ◌==◌
full_pd = refl

solid_texts : AreSolid (
    lease.gateway ∷ lease.address ∷ advertised.gateway ∷ advertised.address ∷ advertised.prefix
    ∷ assigned.address ∷ delegation.delegated_prefix ∷ [])
unfolding text
solid_texts = (refl, (refl, (refl, (refl, (refl, (refl, (refl, tt)))))))

read_states-print_example :
    (read_ipv4_state full (text "comcast") ≡ some lease)
    × (read_ipv6ra_state full (text "comcast") ≡ some advertised)
    × (read_ipv6na_state full (text "comcast") ≡ some assigned)
    × (read_ipv6pd_state full (text "comcast") ≡ some delegation)
read_states-print_example =
    read_states-print full (text "comcast") lease advertised assigned delegation full_ipv4 full_ra
      full_na full_pd solid_texts

lookup-write_atomic_example :
    lookup (text "/run/a") (write_atomic (text "/run/a") (text "new") (at_write (text "n")) []) ≡ (
      if text "/run/a" == text "/run/a" && is_whole (at_write (text "n"))
      then some (file (text "new"))
      else lookup (text "/run/a") [])
lookup-write_atomic_example =
    lookup-write_atomic (text "/run/a") (text "new") (at_write (text "n")) [] (text "/run/a") other
  where
    other : text "/run/a" ≢ tmp_path (text "/run/a")
    other e = unfold text in ground (arith, ap length e)
