-- ===== src/Config/Render.antt =====
-- A configuration as the value that a YAML file of it holds, and that `load` reads it back.
use uplinkmgr.Prelude.{
  ℕ, suc, ◌<◌, ◌≡◌, refl, subst, List, [], ◌∷◌, true, Option, some, Text, text, ◌==◌, ℤ, pos,
  int_laws, ◌+ℤ◌, ◌≤ℤ◌, leb_ℤ, ltb_ℤ, get_elem?, length, arith,
}
use uplinkmgr.Config.{Config, MonitorConfig, NetworkConfig, UplinkConfig}
use uplinkmgr.Config.Yaml.{
  Yaml, boolean, integer, string, sequence, mapping, Items, nil, cons, Fields, end, field, ok, get,
  texts,
}
use uplinkmgr.Config.Load.{
  Seen, nothing_seen, see, read_uplink, parse_uplink, parse_uplink_list, parse_uplinks,
  parse_monitor, parse_network, parse_network_list, parse_networks, is_list_nonempty, finish_load,
  load_lists, load_checked, load_top, load_raw, load, content,
}
use uplinkmgr.Config.Valid.{IsNetwork, Accepted}
use uplinkmgr.Config.Loaded.{IsValid}
use uplinkmgr.Config.Accepting.{iface_nonempty, check_uplink-passes, IsValid-Accepted}

abbrev render_texts : List Text → Items
render_texts [] = nil
render_texts (s ∷ ss) = cons (string s) (render_texts ss)

abbrev render_network : NetworkConfig → Yaml
render_network net =
    mapping
      (field (text "name") (string net.name) (field (text "interface") (string net.interface) end))

abbrev render_networks : List NetworkConfig → Items
render_networks [] = nil
render_networks (net ∷ nets) = cons (render_network net) (render_networks nets)

abbrev uplink_fields : UplinkConfig → Fields
uplink_fields u = field (text "name") (string u.name) (
    field (text "interface") (string u.interface) (
      field (text "ipv6_pd") (boolean u.ipv6_pd) (
        field (text "ipv6_pd_hint") (integer u.ipv6_pd_hint)
          (field (text "ia_na") (boolean u.ia_na) (field (text "metric") (integer u.metric) end)))))

abbrev render_uplinks : List UplinkConfig → Items
render_uplinks [] = nil
render_uplinks (u ∷ uplinks) = cons (mapping (uplink_fields u)) (render_uplinks uplinks)

abbrev render_monitor : MonitorConfig → Yaml
render_monitor m = mapping (
    field (text "interval") (integer m.interval) (
      field (text "failure_threshold") (integer m.failure_threshold) (
        field (text "recovery_threshold") (integer m.recovery_threshold) (
          field (text "v4_hosts") (sequence (render_texts m.v4_hosts)) (
            field (text "v6_hosts") (sequence (render_texts m.v6_hosts))
              (field (text "ping_count") (integer m.ping_count) end))))))

abbrev top_fields : Config → Fields
top_fields cfg = field (text "routing_table_start") (integer cfg.routing_table_start) (
    field (text "rule_priority_start") (integer cfg.rule_priority_start) (
      field (text "reject_wrong_pd_src") (boolean cfg.reject_wrong_pd_src) (
        field (text "exclusive_preferred_pd") (boolean cfg.exclusive_preferred_pd) (
          field (text "radvd_min_restart_interval") (integer cfg.radvd_min_restart_interval) (
            field (text "hook_timeout") (integer cfg.hook_timeout) (
              field (text "monitor") (render_monitor cfg.monitor) (
                field (text "networks") (sequence (render_networks cfg.networks))
                  (field (text "uplinks") (sequence (render_uplinks cfg.uplinks)) end))))))))

-- Every option written out.
abbrev pub render : Config → Yaml
render cfg = mapping (field (text "uplinkmgr") (mapping (top_fields cfg)) end)

texts-render : (ss : List Text) → texts (render_texts ss) ≡ ok ss
texts-render [] = refl
texts-render (s ∷ ss) = rw (texts-render ss)

parse_monitor-render : (m : MonitorConfig) → parse_monitor (render_monitor m) ≡ ok m
unfolding parse_monitor text ◌==◌
parse_monitor-render m = rw (texts-render m.v4_hosts, texts-render m.v6_hosts)

nonempty_of {ℓ} : {A : Type ℓ} (xs : List A) → 0 < length xs → is_list_nonempty xs ≡ true
nonempty_of [] h = absurd (omega arith)
nonempty_of (x ∷ xs) h = refl

leb_ℤ_of : (a b : ℤ) → a ≤ℤ b → leb_ℤ a b ≡ true
leb_ℤ_of a b h = ground arith

ltb_ℤ_of : (a : ℤ) → pos 1 ≤ℤ a → ltb_ℤ (pos 0) a ≡ true
ltb_ℤ_of a h = ground arith

below_end : (a : ℤ) (n : ℕ) → a +ℤ pos n ≤ℤ pos 252 → a ≤ℤ pos 252
below_end a n h = omega int_laws

module _ (repr : Yaml → Text) where
  read_uplink-render : (u : UplinkConfig) → read_uplink repr u.index (uplink_fields u) ≡ ok u
  unfolding read_uplink text ◌==◌
  read_uplink-render u = refl

  parse_network-render :
      (i : ℕ) (net : NetworkConfig)
      → IsNetwork net
      → parse_network repr i (render_network net) ≡ ok net
  unfolding parse_network text ◌==◌
  parse_network-render i net v =
      ground (arith, iface_nonempty net.interface, v.named, v.interface, v.short)

  parse_network_list-render :
      (i : ℕ) (nets : List NetworkConfig)
      → ((k : ℕ) (net : NetworkConfig) → get_elem? nets k ≡ some net → IsNetwork net)
      → parse_network_list repr i (render_networks nets) ≡ ok nets
  unfolding parse_network_list
  parse_network_list-render i [] h = refl
  parse_network_list-render i (net ∷ nets) h = rw (
    parse_network-render i net (h 0 net refl),
    parse_network_list-render (suc i) nets (λ k. h (suc k)),
  )

  parse_uplink_list-render :
      (seen : Seen) (i : ℕ) (uplinks : List UplinkConfig)
      → Accepted seen i uplinks
      → parse_uplink_list repr seen i (render_uplinks uplinks) ≡ ok uplinks
  unfolding parse_uplink_list parse_uplink
  parse_uplink_list-render seen i [] a = refl
  parse_uplink_list-render seen i (u ∷ uplinks) (valid, fresh, index, rest) =
      let later = parse_uplink_list-render (see u seen) (suc i) uplinks rest in
      let first : parse_uplink repr seen i (mapping (uplink_fields u)) ≡ ok u =
        subst (λ k. parse_uplink repr seen k (mapping (uplink_fields u)) ≡ ok u) index
          (simp (read_uplink-render u, check_uplink-passes seen u valid fresh)) in
      simp (first, later)

  finish_load-render :
      (cfg : Config)
      → IsValid cfg
      → finish_load repr cfg.routing_table_start cfg.rule_priority_start
          cfg.radvd_min_restart_interval cfg.hook_timeout
          (top_fields cfg)
          cfg.monitor
          cfg.networks
          cfg.uplinks
        ≡ ok cfg
  unfolding finish_load text ◌==◌ get
  finish_load-render cfg v = simp (
    nonempty_of cfg.networks v.some_network,
    nonempty_of cfg.uplinks v.some_uplink,
    leb_ℤ_of (cfg.routing_table_start +ℤ pos (length cfg.uplinks)) (pos 252) v.table_end,
  )

  load_lists-render :
      (cfg : Config)
      → IsValid cfg
      → load_lists repr cfg.routing_table_start cfg.rule_priority_start
          cfg.radvd_min_restart_interval cfg.hook_timeout
          (top_fields cfg)
        ≡ ok cfg
  unfolding load_lists parse_networks parse_uplinks text ◌==◌
  load_lists-render cfg v = simp (
    parse_monitor-render cfg.monitor,
    parse_network_list-render 0 cfg.networks v.network,
    parse_uplink_list-render nothing_seen 0 cfg.uplinks (IsValid-Accepted cfg v),
    finish_load-render cfg v,
  )

  load_checked-render :
      (cfg : Config)
      → IsValid cfg
      → load_checked repr cfg.routing_table_start cfg.rule_priority_start
          cfg.radvd_min_restart_interval cfg.hook_timeout
          (top_fields cfg)
        ≡ ok cfg
  unfolding load_checked
  load_checked-render cfg v = simp (
    leb_ℤ_of (pos 1) cfg.routing_table_start v.table_start,
    leb_ℤ_of cfg.routing_table_start (pos 252)
        (below_end cfg.routing_table_start (length cfg.uplinks) v.table_end),
    ltb_ℤ_of cfg.hook_timeout v.timeout,
    load_lists-render cfg v,
  )

  load_raw-render : (cfg : Config) → IsValid cfg → load_raw repr (render cfg) ≡ ok cfg
  unfolding load_raw load_top text ◌==◌
  load_raw-render cfg v = load_checked-render cfg v

  -- A file that holds a valid configuration, every option written out, is loaded as that
  -- configuration.
  pub load-render :
      (safe_load : Text → Option Yaml) (s : Text) (cfg : Config)
      → safe_load s ≡ some (render cfg)
      → IsValid cfg
      → load safe_load repr (content s) ≡ ok cfg
  unfolding load
  load-render safe_load s cfg read v = simp (read, load_raw-render cfg v)
