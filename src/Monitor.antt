-- ===== src/Monitor.antt =====
-- The probes of an uplink (src/uplinkmgr/monitor.py). `ping` stands for the program: whether the
-- n-th ping of a probe, run with these words, exits with 0.
pub mod Attempts
use uplinkmgr.Prelude.{
  ℕ, zero, suc, List, [], ◌∷◌, ◌++◌, Bool, true, false, Option, none, some, Text, text, ℤ, pos_part,
  is_nonempty, if◌then◌else◌,
}

abbrev pub Ping : Type 0
Ping = ℕ → List Text → Bool

-- `for _ in range(count)`, for one host: whether a ping succeeded, and the number of pings so far.
unfoldable pub attempts : Ping → List Text → ℕ → ℕ → Bool × ℕ
attempts ping cmd zero n = (false, n)
attempts ping cmd (suc left) n =
    let rest = attempts ping cmd left (suc n) in if ping n cmd then (true, suc n) else rest

-- `for host in hosts`, with the command for each host.
unfoldable pub probe_hosts : Ping → (Text → List Text) → ℕ → List Text → ℕ → Bool × ℕ
probe_hosts ping command count [] n = (false, n)
probe_hosts ping command count (host ∷ hosts) n =
    let (ok, n') = attempts ping (command host) count n in
    let rest = probe_hosts ping command count hosts n' in if ok then (true, n') else rest

abbrev pub ping4_words : Text → Text → List Text
ping4_words wan_iface host =
    text "ping"
    ∷ text "-c"
    ∷ text "1"
    ∷ text "-W"
    ∷ text "2"
    ∷ text "-n"
    ∷ text "-q"
    ∷ text "-I"
    ∷ wan_iface
    ∷ host
    ∷ []

-- `if src_addr` holds of a text that is not empty.
abbrev bind_words : Option Text → List Text
bind_words none = []
bind_words (some addr) = if is_nonempty addr then text "-I" ∷ addr ∷ [] else []

abbrev pub ping6_words : Text → Option Text → Text → List Text
ping6_words wan_iface src_addr host =
    text "ping6"
      ∷ text "-c"
      ∷ text "1"
      ∷ text "-W"
      ∷ text "2"
      ∷ text "-n"
      ∷ text "-q"
      ∷ text "-I"
      ∷ wan_iface
      ∷ bind_words src_addr
    ++ host ∷ []

-- The result, and the number of pings that were run. `range` of a negative count is empty.
unfoldable pub probe_ipv4 : Ping → Text → List Text → ℤ → Bool × ℕ
unfolding probe_hosts attempts
probe_ipv4 ping wan_iface hosts count =
    probe_hosts ping (ping4_words wan_iface) (pos_part count) hosts 0

unfoldable pub probe_ipv6 : Ping → Text → List Text → ℤ → Option Text → Bool × ℕ
unfolding probe_hosts attempts
probe_ipv6 ping wan_iface hosts count src_addr =
    probe_hosts ping (ping6_words wan_iface src_addr) (pos_part count) hosts 0
