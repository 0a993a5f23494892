-- ===== src/Radvd/Shown.antt =====
-- The file of radvd for one uplink, by the values that it shows (src/uplinkmgr/generator.py).
use uplinkmgr.Prelude.{
  ℕ, ◌≡◌, refl, ap, ◌∙◌, List, [], ◌∷◌, ◌++◌, Option, some, Text, text, ℤ, pos, Dict, if◌then◌else◌,
}
use uplinkmgr.Prelude.Decimal.{str_ℤ}
use uplinkmgr.Config.{Config, NetworkConfig, UplinkConfig}
use uplinkmgr.StateMachine.{UplinkState}
use uplinkmgr.State.{Ipv6RaState, Ipv6PdState, ◌>>=◌}
use uplinkmgr.Generator.{newline, join, macvlan_lines}
use uplinkmgr.Generator.Advert.{
  clamp_default_lifetime, prefix_of, radvd_interface_block, radvd_conf_from_state,
}
use uplinkmgr.Radvd.{Ipaddress, advert_of, derive_prefixes}
use uplinkmgr.Radvd.Files.{conf_of}

-- One option, indented: its name, a blank, and its value.
abbrev option : (indent name value : Text) → Text
option indent name value = indent ++ name ++ text " " ++ value ++ text ";"

abbrev router : (name value : Text) → Text
router = option (text "    ")

abbrev inner : (name value : Text) → Text
inner = option (text "        ")

-- The lines for one macvlan, with these values and no others.
abbrev pub shown_block :
    (iface preference : Text) → (default : ℤ) → (prefix : Text) → (valid preferred : ℤ) → List Text
shown_block iface preference default prefix valid preferred =
    (text "interface " ++ iface)
    ∷ text "{"
    ∷ router (text "AdvSendAdvert") (text "on")
    ∷ router (text "MaxRtrAdvInterval") (text "300")
    ∷ router (text "AdvDefaultPreference") preference
    ∷ router (text "AdvDefaultLifetime") (str_ℤ default)
    ∷ []
    ∷ (text "    prefix " ++ prefix)
    ∷ text "    {"
    ∷ inner (text "AdvOnLink") (text "on")
    ∷ inner (text "AdvAutonomous") (text "on")
    ∷ inner (text "AdvRouterAddr") (text "on")
    ∷ inner (text "AdvValidLifetime") (str_ℤ valid)
    ∷ inner (text "AdvPreferredLifetime") (str_ℤ preferred)
    ∷ inner (text "DecrementLifetimes") (text "off")
    ∷ text "    };"
    ∷ []
    ∷ text "};"
    ∷ []
    ∷ []

-- The file of an uplink that shows a preference and lifetimes for each of its macvlans.
abbrev pub showing :
    Config
    → UplinkConfig
    → (prefixes : Dict Text) → (preference : Text) → (default valid preferred : ℤ) → Option Text
showing cfg uplink prefixes preference default valid preferred =
    let lines_of = λ (n : ℕ) (net : NetworkConfig) (mv : Text).
      shown_block mv preference default (prefix_of prefixes mv) valid preferred in
    macvlan_lines uplink.index lines_of 0 cfg.networks >>= λ blocks. some (
      join newline (
        (text "# Generated by uplinkmgr daemon for uplink: " ++ uplink.name)
        ∷ text "# Do not edit by hand."
        ∷ []
        ∷ blocks)
      ++ newline)

pub showing_eq :
    (cfg : Config) (uplink : UplinkConfig) (prefixes : Dict Text)
    → {q q' : Text} → {d d' v v' p p' : ℤ} → q ≡ q'
    → d ≡ d'
    → v ≡ v'
    → p ≡ p'
    → showing cfg uplink prefixes q d v p ≡ showing cfg uplink prefixes q' d' v' p'
showing_eq cfg uplink prefixes {q} {q'} {d} {d'} {v} {v'} {p} {p'} eq ed ev ep =
    ap (λ x. showing cfg uplink prefixes x d v p) eq
    ∙ ap (λ x. showing cfg uplink prefixes q' x v p) ed
    ∙ ap (λ x. showing cfg uplink prefixes q' d' x p) ev
    ∙ ap (λ x. showing cfg uplink prefixes q' d' v' x) ep

module _ (addresses : Ipaddress) (cfg : Config) (states : Text → UplinkState) (now : ℤ)
    (ra_of : Text → Option Ipv6RaState) (pd_of : Text → Option Ipv6PdState) where
  -- What the file of an uplink shows.
  pub conf_of-showing :
      (u : UplinkConfig)
      → let a = advert_of cfg states now (ra_of u.name) (pd_of u.name) u in
        conf_of addresses cfg states now ra_of pd_of u
        ≡ showing cfg u
            (derive_prefixes addresses cfg u (pd_of u.name))
            a.preference
            (clamp_default_lifetime (if a.is_down then pos 0 else a.default_lifetime))
            (if a.is_down then pos 0 else a.valid_lifetime)
            (if a.is_down then pos 0 else a.preferred_lifetime)
  unfolding radvd_conf_from_state radvd_interface_block text str_ℤ
  conf_of-showing u = refl
