-- ===== src/Config/Decided.antt =====
-- Loading a file whose numbers are numbers.
use uplinkmgr.Prelude.{
  ℕ, suc, ◌+◌, ◌*◌, refl, Bool, true, false, Option, none, some, Text, text, arith, ℤ,
}
use uplinkmgr.Config.{UplinkConfig}
use uplinkmgr.Config.Yaml.{
  Yaml, null, sequence, mapping, Items, nil, cons, Fields, end, Complaint, top_not_mapping, ◌>>=◌,
  check, get,
}
use uplinkmgr.Config.Names.{validate_iface}
use uplinkmgr.Config.Load.{
  fields_or, parse_monitor, Seen, nothing_seen, see, check_uplink, parse_network,
  parse_network_list, parse_networks, read_uplink, parse_uplink, parse_uplink_list, parse_uplinks,
  finish_load, load_lists, load_checked, load_top, load_raw, Source, missing, failing, undecodable,
  content, or_yaml_error, load,
}
use uplinkmgr.Config.Typed.{
  Decides, >>=-Decides, check-Decides, IsTypedMonitor, AreTypedUplinks, IsTypedUplinks, IsTypedTop,
  IsTyped, TypedIfRead, IsTypedSource, int_in-Decides, hosts-Decides,
}

parse_monitor-Decides : (raw : Yaml) → IsTypedMonitor raw → Decides (parse_monitor raw)
unfolding parse_monitor
parse_monitor-Decides (mapping fs) (i, f, r, v4, v6, c) =
    >>=-Decides _ _ (int_in-Decides (text "interval") 10 fs i) (λ interval.
      >>=-Decides _ _ (int_in-Decides (text "failure_threshold") 3 fs f) (λ failures.
        >>=-Decides _ _ (int_in-Decides (text "recovery_threshold") 3 fs r) (λ recoveries.
          >>=-Decides _ _ (hosts-Decides (text "v4_hosts") _ fs tt v4) (λ v4_hosts.
            >>=-Decides _ _ (hosts-Decides (text "v6_hosts") _ fs tt v6) (λ v6_hosts.
              >>=-Decides _ _ (int_in-Decides (text "ping_count") 3 fs c) (λ count. refl))))))
parse_monitor-Decides _ t = refl

check_last-Decides : (b : Bool) (c : Complaint) → Decides (check b c)
check_last-Decides true c = refl
check_last-Decides false c = refl

validate_iface-Decides : (iface : Text) → Decides (validate_iface iface)
unfolding validate_iface
validate_iface-Decides iface = ground arith

check_uplink-Decides : (seen : Seen) (u : UplinkConfig) → Decides (check_uplink seen u)
unfolding check_uplink
check_uplink-Decides seen u = ground arith

module _ (repr : Yaml → Text) where
  parse_network-Decides : (i : ℕ) (entry : Yaml) → Decides (parse_network repr i entry)
  unfolding parse_network validate_iface
  parse_network-Decides i (mapping fs) = ground arith
  parse_network-Decides i _ = refl

  parse_network_list-Decides : (i : ℕ) (xs : Items) → Decides (parse_network_list repr i xs)
  unfolding parse_network_list
  parse_network_list-Decides i nil = refl
  parse_network_list-Decides i (cons x xs) =
      >>=-Decides (parse_network repr i x) _ (parse_network-Decides i x) (λ net.
        >>=-Decides (parse_network_list repr (suc i) xs) _ (parse_network_list-Decides (suc i) xs)
          (λ nets. refl))

  parse_networks-Decides : (raw : Yaml) → Decides (parse_networks repr raw)
  unfolding parse_networks
  parse_networks-Decides (sequence xs) = parse_network_list-Decides 0 xs
  parse_networks-Decides _ = refl

  parse_uplink_list-Decides :
      (seen : Seen) (i : ℕ) (xs : Items)
      → AreTypedUplinks xs
      → Decides (parse_uplink_list repr seen i xs)
  unfolding parse_uplink_list parse_uplink read_uplink
  parse_uplink_list-Decides seen i nil t = refl
  parse_uplink_list-Decides seen i (cons (mapping fs) xs) (hint, metric, t) =
      >>=-Decides _ _
        (>>=-Decides _ _
          (>>=-Decides _ _ (int_in-Decides (text "ipv6_pd_hint") 56 fs hint) (λ h.
            >>=-Decides _ _ (int_in-Decides (text "metric") (100 * (i + 1)) fs metric) (λ m. refl)))
          (λ u. >>=-Decides (check_uplink seen u) _ (check_uplink-Decides seen u) (λ done. refl)))
        (λ u.
          >>=-Decides (parse_uplink_list repr (see u seen) (suc i) xs) _
            (parse_uplink_list-Decides (see u seen) (suc i) xs t) (λ uplinks. refl))
  parse_uplink_list-Decides seen i (cons _ xs) t = refl

  parse_uplinks-Decides : (raw : Yaml) → IsTypedUplinks raw → Decides (parse_uplinks repr raw)
  unfolding parse_uplinks
  parse_uplinks-Decides (sequence xs) t = parse_uplink_list-Decides nothing_seen 0 xs t
  parse_uplinks-Decides _ t = refl

  load_lists-Decides :
      (start priority min timeout : ℤ) (top : Fields)
      → IsTypedMonitor (get (text "monitor") (mapping end) top)
      → IsTypedUplinks (get (text "uplinks") (sequence nil) top)
      → Decides (load_lists repr start priority min timeout top)
  unfolding load_lists finish_load
  load_lists-Decides start priority min timeout top monitor uplinks =
      >>=-Decides (parse_monitor (get (text "monitor") (mapping end) top)) _
        (parse_monitor-Decides (get (text "monitor") (mapping end) top) monitor)
        (λ m.
          >>=-Decides (parse_networks repr (get (text "networks") (sequence nil) top)) _
            (parse_networks-Decides (get (text "networks") (sequence nil) top))
            (λ nets.
              >>=-Decides (parse_uplinks repr (get (text "uplinks") (sequence nil) top)) _
                (parse_uplinks-Decides (get (text "uplinks") (sequence nil) top) uplinks)
                (λ us. ground arith)))

  load_checked-Decides :
      (start priority min timeout : ℤ) (top : Fields)
      → Decides (load_lists repr start priority min timeout top)
      → Decides (load_checked repr start priority min timeout top)
  unfolding load_checked
  load_checked-Decides start priority min timeout top d = ground arith

  load_top-Decides : (top : Fields) → IsTypedTop (mapping top) → Decides (load_top repr top)
  unfolding load_top
  load_top-Decides top (start, priority, min, timeout, monitor, uplinks) =
      >>=-Decides _ _ (int_in-Decides (text "routing_table_start") 160 top start) (λ a.
        >>=-Decides _ _ (int_in-Decides (text "rule_priority_start") 29000 top priority) (λ b.
          >>=-Decides _ _ (int_in-Decides (text "radvd_min_restart_interval") 60 top min) (λ c.
            >>=-Decides _ _ (int_in-Decides (text "hook_timeout") 10 top timeout) (λ d.
              load_checked-Decides a b c d top (load_lists-Decides a b c d top monitor uplinks)))))

  load_raw-Decides : (raw : Yaml) → IsTyped raw → Decides (load_raw repr raw)
  unfolding load_raw
  load_raw-Decides (mapping fs) t = check-Decides _ _ _ (at_top (get (text "uplinkmgr") null fs) t)
    where
      at_top :
          (top : Yaml) → IsTypedTop top → Decides (fields_or top_not_mapping top >>= load_top repr)
      at_top (mapping top) t' = load_top-Decides top t'
      at_top _ t' = refl
  load_raw-Decides _ t = refl

  -- If the file is missing, cannot be read, is no YAML, or is YAML with numbers (or Booleans) where
  -- `load` converts to numbers and lists of texts for the hosts, then `load` returns a configuration
  -- or ends by `_die`: it never raises an exception that `_do_reload` does not catch.
  pub load-Decides :
      (safe_load : Text → Option Yaml) (source : Source)
      → IsTypedSource safe_load source
      → Decides (load safe_load repr source)
  unfolding load
  load-Decides safe_load missing t = refl
  load-Decides safe_load failing t = refl
  load-Decides safe_load undecodable t = absurd t
  load-Decides safe_load (content s) t = read (safe_load s) t
    where
      read : (raw : Option Yaml) → TypedIfRead raw → Decides (or_yaml_error raw >>= load_raw repr)
      read none t' = refl
      read (some raw) t' = load_raw-Decides raw t'
