-- ===== src/Config/Loaded.antt =====
-- What `load` guarantees of the configuration that it returns.
use uplinkmgr.Prelude.{
  ℕ, zero, suc, ◌<◌, ◌≡◌, ◌≢◌, ◌⊎◌, inl, inr, refl, sym, ◌∙◌, subst, List, [], ◌∷◌, ◌&&◌,
  Bool-cases, Option-cases, leb_ℤ, ltb_ℤ, Option, some, Text, text, ℤ, pos, ◌+ℤ◌, ◌≤ℤ◌, get_elem?,
  length, arith,
}
use uplinkmgr.Config.{Config, MonitorConfig, NetworkConfig, UplinkConfig}
use uplinkmgr.Config.Yaml.{
  Yaml, null, sequence, mapping, Items, nil, cons, Fields, end, table_range, timeout_not_positive,
  top_not_mapping, has, Result, ok, ◌>>=◌, ◌>>◌, check, Result-cases, get,
}
use uplinkmgr.Config.Load.{
  nothing_seen, parse_monitor, parse_network, parse_network_list, parse_networks, parse_uplinks,
  finish_load, load_lists, load_checked, int_in, fields_or, load_top, load_raw, load, Source,
  missing, failing, undecodable, content,
}
use uplinkmgr.Config.Valid.{
  IsNetwork, IsUplink, IsApart, IsApart-sym, Accepted, Accepted-at, Accepted-IsApart,
  parse_uplink_list-Accepted, ok-injective,
}

lt_or_gt : (i j : ℕ) → i ≢ j → (i < j) ⊎ (j < i)
lt_or_gt i j ne = omega arith

-- A configuration that the daemon may rely on.
pub record IsValid (cfg : Config) : Type 0 where
  pub table_start : pos 1 ≤ℤ cfg.routing_table_start
  pub table_end : cfg.routing_table_start +ℤ pos (length cfg.uplinks) ≤ℤ pos 252
  pub timeout : pos 1 ≤ℤ cfg.hook_timeout
  pub some_network : 0 < length cfg.networks
  pub some_uplink : 0 < length cfg.uplinks
  pub network : (i : ℕ) (net : NetworkConfig) → get_elem? cfg.networks i ≡ some net → IsNetwork net
  pub uplink :
      (i : ℕ) (u : UplinkConfig) → get_elem? cfg.uplinks i ≡ some u → IsUplink u × (u.index ≡ i)
  pub apart :
      (i j : ℕ) (u w : UplinkConfig)
      → i ≢ j
      → get_elem? cfg.uplinks i ≡ some u
      → get_elem? cfg.uplinks j ≡ some w
      → IsApart u w

-- The lists of a configuration, as `_parse_networks` and `_parse_uplinks` return them.
abbrev AllNetworks : List NetworkConfig → Type 0
AllNetworks [] = Unit
AllNetworks (net ∷ nets) = IsNetwork net × AllNetworks nets

AllNetworks-at :
    (nets : List NetworkConfig)
    → AllNetworks nets
    → (i : ℕ) (net : NetworkConfig) → get_elem? nets i ≡ some net
    → IsNetwork net
AllNetworks-at [] a i net at = cc
AllNetworks-at (x ∷ nets) a zero net at =
    let same : x ≡ net = ground arith in subst IsNetwork same a.0
AllNetworks-at (x ∷ nets) a (suc i) net at = AllNetworks-at nets a.1 i net at

IsApart-of :
    (cfg : Config)
    → Accepted nothing_seen 0 cfg.uplinks
    → (i j : ℕ) (u w : UplinkConfig) → i ≢ j
    → get_elem? cfg.uplinks i ≡ some u
    → get_elem? cfg.uplinks j ≡ some w
    → IsApart u w
IsApart-of cfg a i j u w ne at at' = elim (lt_or_gt i j ne) [
  | inl less ↦ Accepted-IsApart nothing_seen 0 cfg.uplinks a i j u w less at at'
  | inr more ↦ IsApart-sym w u (Accepted-IsApart nothing_seen 0 cfg.uplinks a j i w u more at' at)
]

-- The two tests of the numbers.
number_checks :
    (table_start timeout : ℤ) (r : Result Config) {cfg : Config}
    → (check (leb_ℤ (pos 1) table_start && leb_ℤ table_start (pos 252)) (table_range table_start)
        >> (check (ltb_ℤ (pos 0) timeout) (timeout_not_positive timeout) >> r))
      ≡ ok cfg
    → (pos 1 ≤ℤ table_start) × (pos 1 ≤ℤ timeout) × (r ≡ ok cfg)
number_checks ts to r h = ground arith

module _ (repr : Yaml → Text) where
  parse_network-IsNetwork :
      (i : ℕ) (entry : Yaml) (net : NetworkConfig)
      → parse_network repr i entry ≡ ok net
      → IsNetwork net
  unfolding parse_network
  parse_network-IsNetwork i (mapping fs) net h = record {
    named = ground arith;
    interface = ground arith;
    short = ground arith;
  }
  parse_network-IsNetwork i _ net h = cc

  parse_network_list-AllNetworks :
      (i : ℕ) (entries : Items) (nets : List NetworkConfig)
      → parse_network_list repr i entries ≡ ok nets
      → AllNetworks nets
  unfolding parse_network_list
  parse_network_list-AllNetworks i nil [] h = tt
  parse_network_list-AllNetworks i nil (net ∷ nets) h = cc
  parse_network_list-AllNetworks i (cons entry entries) nets h =
      elim (Result-cases (parse_network repr i entry)) [
        | inl (e, fails) ↦ cc (simp fails at h)
        | inr (net, first) ↦ elim (Result-cases (parse_network_list repr (suc i) entries)) [
          | inl (e, fails) ↦ cc (simp (first, fails) at h)
          | inr (rest, later) ↦ subst AllNetworks (ok-injective (simp (first, later) at h)) (
            parse_network-IsNetwork i entry net first,
            parse_network_list-AllNetworks (suc i) entries rest later,
          )
        ]
      ]

  parse_networks-AllNetworks :
      (raw : Yaml) (nets : List NetworkConfig)
      → parse_networks repr raw ≡ ok nets
      → AllNetworks nets
  unfolding parse_networks
  parse_networks-AllNetworks (sequence xs) nets h = parse_network_list-AllNetworks 0 xs nets h
  parse_networks-AllNetworks _ nets h = cc

  parse_uplinks-Accepted :
      (raw : Yaml) (uplinks : List UplinkConfig)
      → parse_uplinks repr raw ≡ ok uplinks
      → Accepted nothing_seen 0 uplinks
  unfolding parse_uplinks
  parse_uplinks-Accepted (sequence xs) uplinks h =
      parse_uplink_list-Accepted repr nothing_seen 0 xs uplinks h
  parse_uplinks-Accepted _ uplinks h = cc

  -- What the last part of `load` establishes.
  record IsListed (table_start timeout : ℤ) (cfg : Config) : Type 0 where
    start : cfg.routing_table_start ≡ table_start
    wait : cfg.hook_timeout ≡ timeout
    last : cfg.routing_table_start +ℤ pos (length cfg.uplinks) ≤ℤ pos 252
    some_network : 0 < length cfg.networks
    some_uplink : 0 < length cfg.uplinks
    networks : AllNetworks cfg.networks
    uplinks : Accepted nothing_seen 0 cfg.uplinks

  finish_load-IsListed :
      (table_start priority_start min_interval timeout : ℤ) (top : Fields) (mon : MonitorConfig)
      (nets : List NetworkConfig) (ups : List UplinkConfig) (cfg : Config)
      → AllNetworks nets
      → Accepted nothing_seen 0 ups
      → finish_load repr table_start priority_start min_interval timeout top mon nets ups ≡ ok cfg
      → IsListed table_start timeout cfg
  unfolding finish_load
  finish_load-IsListed ts ps mi to top mon [] ups cfg n u h = cc
  finish_load-IsListed ts ps mi to top mon (net ∷ nets) [] cfg n u h = cc
  finish_load-IsListed ts ps mi to top mon (net ∷ nets) (x ∷ ups) cfg n u h =
      elim (Bool-cases (leb_ℤ (ts +ℤ pos (length (x ∷ ups))) (pos 252))) [
        | inl fits ↦ subst (IsListed ts to) (ok-injective (simp fits at h)) (record {
          start = refl;
          wait = refl;
          last = ground arith;
          some_network = omega arith;
          some_uplink = omega arith;
          networks = n;
          uplinks = u;
        })
        | inr over ↦ cc (simp over at h)
      ]

  load_lists-IsListed :
      (table_start priority_start min_interval timeout : ℤ) (top : Fields) (cfg : Config)
      → load_lists repr table_start priority_start min_interval timeout top ≡ ok cfg
      → IsListed table_start timeout cfg
  unfolding load_lists
  load_lists-IsListed ts ps mi to top cfg h =
      elim (Result-cases (parse_monitor (get (text "monitor") (mapping end) top))) [
        | inl (e, fails) ↦ cc (simp fails at h)
        | inr (mon, m) ↦
            elim (Result-cases (parse_networks repr (get (text "networks") (sequence nil) top))) [
              | inl (e, fails) ↦ cc (simp (m, fails) at h)
              | inr (nets, n) ↦
                  elim (Result-cases
                    (parse_uplinks repr (get (text "uplinks") (sequence nil) top))) [
                      | inl (e, fails) ↦ cc (simp (m, n, fails) at h)
                      | inr (ups, u) ↦
                          finish_load-IsListed ts ps mi to top mon nets ups cfg
                            (parse_networks-AllNetworks _ nets n) (parse_uplinks-Accepted _ ups u)
                            (simp (m, n, u) at h)
                    ]
            ]
      ]

  load_checked-IsValid :
      (table_start priority_start min_interval timeout : ℤ) (top : Fields) (cfg : Config)
      → load_checked repr table_start priority_start min_interval timeout top ≡ ok cfg
      → IsValid cfg
  unfolding load_checked
  load_checked-IsValid ts ps mi to top cfg h =
      let (low, positive, rest) = number_checks ts to _ h in
      let l = load_lists-IsListed ts ps mi to top cfg rest in
      record {
        table_start = subst (λ n. pos 1 ≤ℤ n) (sym l.start) low;
        table_end = l.last;
        timeout = subst (λ n. pos 1 ≤ℤ n) (sym l.wait) positive;
        some_network = l.some_network;
        some_uplink = l.some_uplink;
        network = AllNetworks-at cfg.networks l.networks;
        uplink = λ i u at.
            let (valid, index, fresh) = Accepted-at nothing_seen 0 cfg.uplinks l.uplinks i u at in
            (valid, index ∙ omega arith);
        apart = λ i j u w ne at at'. IsApart-of cfg l.uplinks i j u w ne at at';
      }

  load_top-IsValid : (top : Fields) (cfg : Config) → load_top repr top ≡ ok cfg → IsValid cfg
  unfolding load_top
  load_top-IsValid top cfg h = elim (Result-cases (int_in (text "routing_table_start") 160 top)) [
    | inl (e, fails) ↦ cc (simp fails at h)
    | inr (ts, t) ↦ elim (Result-cases (int_in (text "rule_priority_start") 29000 top)) [
      | inl (e, fails) ↦ cc (simp (t, fails) at h)
      | inr (ps, p) ↦ elim (Result-cases (int_in (text "radvd_min_restart_interval") 60 top)) [
        | inl (e, fails) ↦ cc (simp (t, p, fails) at h)
        | inr (mi, m) ↦ elim (Result-cases (int_in (text "hook_timeout") 10 top)) [
          | inl (e, fails) ↦ cc (simp (t, p, m, fails) at h)
          | inr (to, w) ↦ load_checked-IsValid ts ps mi to top cfg (simp (t, p, m, w) at h)
        ]
      ]
    ]
  ]

  load_under :
      (top : Yaml) (cfg : Config)
      → (fields_or top_not_mapping top >>= load_top repr) ≡ ok cfg
      → IsValid cfg
  load_under (mapping top) cfg h = load_top-IsValid top cfg h
  load_under _ cfg h = cc

  load_raw-IsValid : (raw : Yaml) (cfg : Config) → load_raw repr raw ≡ ok cfg → IsValid cfg
  unfolding load_raw
  load_raw-IsValid (mapping fs) cfg h = elim (Bool-cases (has (text "uplinkmgr") fs)) [
    | inl there ↦ load_under (get (text "uplinkmgr") null fs) cfg (simp there at h)
    | inr absent ↦ cc (simp absent at h)
  ]
  load_raw-IsValid _ cfg h = cc

  -- Whatever the file holds, a configuration that `load` returns is valid: the tables fit below 253,
  -- the hook timeout is positive, there are networks and uplinks, their names and interfaces are
  -- acceptable, the index of an uplink is its position, its metric is positive and the hint of its
  -- prefix length lies from 1 to 64, and two uplinks share no name, no interface and no metric.
  pub load-IsValid :
      (safe_load : Text → Option Yaml) (source : Source) (cfg : Config)
      → load safe_load repr source ≡ ok cfg
      → IsValid cfg
  unfolding load
  load-IsValid safe_load missing cfg h = cc
  load-IsValid safe_load failing cfg h = cc
  load-IsValid safe_load undecodable cfg h = cc
  load-IsValid safe_load (content s) cfg h = elim (Option-cases (safe_load s)) [
    | inl bad ↦ cc (simp bad at h)
    | inr (raw, read) ↦ load_raw-IsValid raw cfg (simp read at h)
  ]
