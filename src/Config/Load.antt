-- ===== src/Config/Load.antt =====
-- Loading the configuration (src/uplinkmgr/config.py). `yaml.safe_load` is a parameter, `none` where
-- it raises YAMLError, and so is `repr` of lists and mappings.
use uplinkmgr.Prelude.{
  ℕ, suc, ◌+◌, ◌*◌, List, [], ◌∷◌, Bool, true, false, ◌&&◌, ◌||◌, not, Option, none, some, Text,
  text, ℤ, pos, ◌+ℤ◌, leb_ℤ, ltb_ℤ, eqb_ℤ, length, contains, is_nonempty,
}
use uplinkmgr.Config.{Config, MonitorConfig, NetworkConfig, UplinkConfig}
use uplinkmgr.Config.Yaml.{
  Yaml, null, boolean, integer, string, sequence, mapping, Items, nil, cons, Fields, end, Complaint,
  no_file, unreadable, yaml_error, no_top_key, top_not_mapping, table_range, timeout_not_positive,
  networks_not_list, uplinks_not_list, no_networks, no_uplinks, network_not_mapping,
  network_without_name, network_without_interface, uplink_not_mapping, uplink_without_name,
  uplink_without_interface, name_invalid, duplicate_name, duplicate_interface, metric_not_positive,
  duplicate_metric, hint_range, table_overflow, die, value_error, Result, ok, err, ◌>>=◌, ◌>>◌,
  check, get, has, to_int, to_bool, to_str, to_texts,
}
use uplinkmgr.Config.Names.{is_name, validate_iface}

abbrev pub fields_of : Yaml → Fields
fields_of (mapping fs) = fs
fields_of _ = end

abbrev pub items_or : Complaint → Yaml → Result Items
items_or c (sequence xs) = ok xs
items_or c _ = err (die c)

abbrev pub fields_or : Complaint → Yaml → Result Fields
fields_or c (mapping fs) = ok fs
fields_or c _ = err (die c)

abbrev pub default_v4_hosts : Yaml
default_v4_hosts = sequence (cons (string (text "8.8.8.8")) (cons (string (text "1.1.1.1")) nil))

abbrev pub default_v6_hosts : Yaml
default_v6_hosts =
    sequence (
      cons (string (text "2001:4860:4860::8888")) (cons (string (text "2606:4700:4700::1111")) nil))

-- int(d.get(key, default))
abbrev pub int_in : Text → ℕ → Fields → Result ℤ
int_in key default fs = to_int (get key (integer (pos default)) fs)

unfoldable pub parse_monitor : Yaml → Result MonitorConfig
unfolding get
parse_monitor raw =
    let fs = fields_of raw in
    int_in (text "interval") 10 fs >>= λ interval.
    int_in (text "failure_threshold") 3 fs >>= λ failure_threshold.
    int_in (text "recovery_threshold") 3 fs >>= λ recovery_threshold.
    to_texts (get (text "v4_hosts") default_v4_hosts fs) >>= λ v4_hosts.
    to_texts (get (text "v6_hosts") default_v6_hosts fs) >>= λ v6_hosts.
    int_in (text "ping_count") 3 fs >>= λ ping_count. ok (record {
      interval = interval;
      failure_threshold = failure_threshold;
      recovery_threshold = recovery_threshold;
      v4_hosts = v4_hosts;
      v6_hosts = v6_hosts;
      ping_count = ping_count;
    })

-- `seen_names`, `seen_ifaces` and `seen_metrics`.
pub record Seen : Type 0 where
  pub names : List Text
  pub ifaces : List Text
  pub metrics : List ℤ

abbrev pub nothing_seen : Seen
nothing_seen = record { names = []; ifaces = []; metrics = [] }

abbrev pub see : UplinkConfig → Seen → Seen
see u seen = record {
  names = u.name ∷ seen.names;
  ifaces = u.interface ∷ seen.ifaces;
  metrics = u.metric ∷ seen.metrics;
}

-- n in s, s a set of numbers
abbrev pub holds_ℤ : ℤ → List ℤ → Bool
holds_ℤ n [] = false
holds_ℤ n (m ∷ s) = eqb_ℤ n m || holds_ℤ n s

-- The tests of one uplink, in the order of the source.
unfoldable pub check_uplink : Seen → UplinkConfig → Result (Unit {0})
unfolding validate_iface
check_uplink seen u =
    check (is_nonempty u.name) (uplink_without_name u.index)
    >> (check (is_name u.name) (name_invalid u.name)
        >> (check (not (contains u.name seen.names)) (duplicate_name u.name)
            >> (check (is_nonempty u.interface) (uplink_without_interface u.index)
                >> (validate_iface u.interface
                    >> (check (not (contains u.interface seen.ifaces))
                          (duplicate_interface u.interface)
                        >> (check (ltb_ℤ (pos 0) u.metric) (metric_not_positive u.metric)
                            >> (check (not (holds_ℤ u.metric seen.metrics))
                                  (duplicate_metric u.metric)
                                >> check
                                    (ltb_ℤ (pos 0) u.ipv6_pd_hint && leb_ℤ u.ipv6_pd_hint (pos 64))
                                    (hint_range u.ipv6_pd_hint))))))))

abbrev pub is_list_nonempty {ℓ} : {A : Type ℓ} → List A → Bool
is_list_nonempty [] = false
is_list_nonempty (x ∷ xs) = true

module _ (repr : Yaml → Text) where
  -- str(d.get(key, ""))
  abbrev str_in : Text → Fields → Text
  str_in key fs = to_str repr (get key (string []) fs)

  abbrev pub bool_in : Text → Fields → Bool
  bool_in key fs = to_bool (get key (boolean false) fs)

  unfoldable pub parse_network : ℕ → Yaml → Result NetworkConfig
  unfolding get validate_iface
  parse_network i entry = fields_or (network_not_mapping i) entry >>= λ fs.
      let name = str_in (text "name") fs in
      let iface = str_in (text "interface") fs in
      check (is_nonempty name) (network_without_name i)
      >> (check (is_nonempty iface) (network_without_interface i)
          >> (validate_iface iface >> ok (record { name = name; interface = iface })))

  unfoldable pub parse_network_list : ℕ → Items → Result (List NetworkConfig)
  unfolding parse_network
  parse_network_list i nil = ok []
  parse_network_list i (cons entry entries) = parse_network i entry >>= λ net.
      parse_network_list (suc i) entries >>= λ nets. ok (net ∷ nets)

  unfoldable pub parse_networks : Yaml → Result (List NetworkConfig)
  unfolding parse_network_list
  parse_networks raw = items_or networks_not_list raw >>= parse_network_list 0

  -- The conversions of the fields of one uplink.
  unfoldable pub read_uplink : ℕ → Fields → Result UplinkConfig
  unfolding get
  read_uplink i fs = int_in (text "ipv6_pd_hint") 56 fs >>= λ ipv6_pd_hint.
      int_in (text "metric") (100 * (i + 1)) fs >>= λ metric. ok (record {
        name = str_in (text "name") fs;
        interface = str_in (text "interface") fs;
        ipv6_pd = bool_in (text "ipv6_pd") fs;
        ipv6_pd_hint = ipv6_pd_hint;
        ia_na = bool_in (text "ia_na") fs;
        metric = metric;
        index = i;
      })

  unfoldable pub parse_uplink : Seen → ℕ → Yaml → Result UplinkConfig
  unfolding read_uplink check_uplink
  parse_uplink seen i entry = fields_or (uplink_not_mapping i) entry >>= λ fs.
      read_uplink i fs >>= λ u. check_uplink seen u >> ok u

  unfoldable pub parse_uplink_list : Seen → ℕ → Items → Result (List UplinkConfig)
  unfolding parse_uplink
  parse_uplink_list seen i nil = ok []
  parse_uplink_list seen i (cons entry entries) = parse_uplink seen i entry >>= λ u.
      parse_uplink_list (see u seen) (suc i) entries >>= λ uplinks. ok (u ∷ uplinks)

  unfoldable pub parse_uplinks : Yaml → Result (List UplinkConfig)
  unfolding parse_uplink_list
  parse_uplinks raw = items_or uplinks_not_list raw >>= parse_uplink_list nothing_seen 0

  -- The end of `load`: the tests of the lists, and the configuration.
  unfoldable pub finish_load :
      (table_start priority_start min_interval timeout : ℤ)
      → Fields
      → MonitorConfig
      → List NetworkConfig
      → List UplinkConfig
      → Result Config
  finish_load table_start priority_start min_interval timeout top monitor networks uplinks =
      let table_end = table_start +ℤ pos (length uplinks) in
      check (is_list_nonempty networks) no_networks
      >> (check (is_list_nonempty uplinks) no_uplinks
          >> (check (leb_ℤ table_end (pos 252)) (table_overflow table_end)
              >> ok (record {
                routing_table_start = table_start;
                rule_priority_start = priority_start;
                reject_wrong_pd_src = bool_in (text "reject_wrong_pd_src") top;
                exclusive_preferred_pd = bool_in (text "exclusive_preferred_pd") top;
                radvd_min_restart_interval = min_interval;
                hook_timeout = timeout;
                monitor = monitor;
                networks = networks;
                uplinks = uplinks;
              })))

  -- The part of `load` after the conversions of the numbers.
  unfoldable pub load_lists :
      (table_start priority_start min_interval timeout : ℤ) → Fields → Result Config
  unfolding parse_monitor parse_networks parse_uplinks finish_load
  load_lists table_start priority_start min_interval timeout top =
      parse_monitor (get (text "monitor") (mapping end) top) >>= λ monitor.
      parse_networks (get (text "networks") (sequence nil) top) >>= λ networks.
      parse_uplinks (get (text "uplinks") (sequence nil) top)
      >>= finish_load table_start priority_start min_interval timeout top monitor networks

  -- The tests of the numbers, and the rest of `load`.
  unfoldable pub load_checked :
      (table_start priority_start min_interval timeout : ℤ) → Fields → Result Config
  unfolding load_lists
  load_checked table_start priority_start min_interval timeout top =
      check (leb_ℤ (pos 1) table_start && leb_ℤ table_start (pos 252)) (table_range table_start)
      >> (check (ltb_ℤ (pos 0) timeout) (timeout_not_positive timeout)
          >> load_lists table_start priority_start min_interval timeout top)

  -- `load`, from the mapping under the key `uplinkmgr`.
  unfoldable pub load_top : Fields → Result Config
  unfolding get load_checked
  load_top top = int_in (text "routing_table_start") 160 top >>= λ table_start.
      int_in (text "rule_priority_start") 29000 top >>= λ priority_start.
      int_in (text "radvd_min_restart_interval") 60 top >>= λ min_interval.
      int_in (text "hook_timeout") 10 top >>= λ timeout.
      load_checked table_start priority_start min_interval timeout top

  unfoldable pub load_raw : Yaml → Result Config
  unfolding has get load_top
  load_raw raw =
      let fs = fields_of raw in
      check (has (text "uplinkmgr") fs) no_top_key
      >> (fields_or top_not_mapping (get (text "uplinkmgr") null fs) >>= load_top)

-- What reading the file gives. `undecodable` is UnicodeDecodeError, a ValueError.
pub data Source : Type 0 where
  missing failing undecodable : Source
  content : Text → Source

abbrev pub or_yaml_error : Option Yaml → Result Yaml
or_yaml_error none = err (die yaml_error)
or_yaml_error (some raw) = ok raw

unfoldable pub load : (Text → Option Yaml) → (Yaml → Text) → Source → Result Config
unfolding load_raw
load safe_load repr missing = err (die no_file)
load safe_load repr failing = err (die unreadable)
load safe_load repr undecodable = err value_error
load safe_load repr (content s) = or_yaml_error (safe_load s) >>= load_raw repr
