-- ===== src/State/Handover.antt =====
-- All state files of an uplink, from the dhcpcd hook to the daemon.
use uplinkmgr.Prelude.{◌≡◌, refl, List, [], ◌∷◌, ◌++◌, true, some, Text, text, ◌==◌, lookup, insert}
use uplinkmgr.Prelude.Decimal.{str_ℤ}
use uplinkmgr.State.{
  Files, Ipv4State, Ipv6RaState, Ipv6NaState, Ipv6PdState, int_field, int_field_or, text_field_or,
  read_ipv4_state, read_ipv6ra_state, read_ipv6na_state, read_ipv6pd_state,
}
use uplinkmgr.State.Numbers.{is_solid, is_solid-str_ℤ, int_of-str_ℤ}
use uplinkmgr.State.Printed.{print, ArePlain, read_kv-print, pd_entries, read_ipv6pd_state-print}

-- What the hook prints for a lease, for a router advertisement and for an address.
abbrev pub ipv4_entries : Ipv4State → List (Text × Text)
ipv4_entries st = (text "gateway", st.gateway) ∷ (text "address", st.address) ∷ []

abbrev pub ra_entries : Ipv6RaState → List (Text × Text)
ra_entries st =
    (text "gateway", st.gateway)
    ∷ (text "lifetime", str_ℤ st.lifetime)
    ∷ (text "timestamp", str_ℤ st.timestamp)
    ∷ (text "address", st.address)
    ∷ (text "prefix", st.prefix)
    ∷ (text "plen", str_ℤ st.plen)
    ∷ []

abbrev pub na_entries : Ipv6NaState → List (Text × Text)
na_entries st = (text "address", st.address) ∷ []

read_ipv4_state-print :
    (files : Files) (name : Text) (st : Ipv4State)
    → files (name ++ text ".ipv4.state") ≡ some (print (ipv4_entries st))
    → is_solid st.gateway ≡ true
    → is_solid st.address ≡ true
    → read_ipv4_state files name ≡ some st
unfolding read_ipv4_state text ◌==◌ lookup insert
read_ipv4_state-print files name st content g a =
    rw (content, read_kv-print (ipv4_entries st) (refl, refl, g, (refl, refl, a, tt))) refl

ra_entries-ArePlain :
    (st : Ipv6RaState)
    → is_solid st.gateway ≡ true
    → is_solid st.address ≡ true
    → is_solid st.prefix ≡ true
    → ArePlain (ra_entries st)
unfolding text
ra_entries-ArePlain st g a p = (
  refl,
  refl,
  g,
  (
    refl,
    refl,
    is_solid-str_ℤ st.lifetime,
    (
      refl,
      refl,
      is_solid-str_ℤ st.timestamp,
      (refl, refl, a, (refl, refl, p, (refl, refl, is_solid-str_ℤ st.plen, tt))),
    ),
  ),
)

read_ipv6ra_state-print :
    (files : Files) (name : Text) (st : Ipv6RaState)
    → files (name ++ text ".ipv6ra.state") ≡ some (print (ra_entries st))
    → is_solid st.gateway ≡ true
    → is_solid st.address ≡ true
    → is_solid st.prefix ≡ true
    → read_ipv6ra_state files name ≡ some st
unfolding read_ipv6ra_state text ◌==◌ lookup insert int_field int_field_or text_field_or
read_ipv6ra_state-print files name st content g a p =
    rw
      (
        content,
        read_kv-print (ra_entries st) (ra_entries-ArePlain st g a p),
        int_of-str_ℤ st.lifetime,
        int_of-str_ℤ st.timestamp,
        int_of-str_ℤ st.plen,
      )
      refl

read_ipv6na_state-print :
    (files : Files) (name : Text) (st : Ipv6NaState)
    → files (name ++ text ".ipv6na.state") ≡ some (print (na_entries st))
    → is_solid st.address ≡ true
    → read_ipv6na_state files name ≡ some st
unfolding read_ipv6na_state text ◌==◌ lookup insert
read_ipv6na_state-print files name st content a =
    rw (content, read_kv-print (na_entries st) (refl, refl, a, tt)) refl

-- The addresses and prefixes of the states of an uplink, which are texts.
abbrev pub AreSolid : List Text → Type 0
AreSolid [] = Unit
AreSolid (s ∷ texts) = (is_solid s ≡ true) × AreSolid texts

-- The states of an uplink, for IPv4, router advertisement, IPv6 address and delegated prefix, are
-- read back from the four files that have their fields as the hook prints them, one `key=value` a
-- line, if no address and no prefix has white space.
pub read_states-print :
    (files : Files) (name : Text) (v4 : Ipv4State) (ra : Ipv6RaState) (na : Ipv6NaState)
    (pd : Ipv6PdState)
    → files (name ++ text ".ipv4.state") ≡ some (print (ipv4_entries v4))
    → files (name ++ text ".ipv6ra.state") ≡ some (print (ra_entries ra))
    → files (name ++ text ".ipv6na.state") ≡ some (print (na_entries na))
    → files (name ++ text ".ipv6pd.state") ≡ some (print (pd_entries pd))
    → AreSolid (
        v4.gateway ∷ v4.address ∷ ra.gateway ∷ ra.address ∷ ra.prefix ∷ na.address
        ∷ pd.delegated_prefix ∷ [])
    → (read_ipv4_state files name ≡ some v4)
      × (read_ipv6ra_state files name ≡ some ra)
      × (read_ipv6na_state files name ≡ some na)
      × (read_ipv6pd_state files name ≡ some pd)
read_states-print files name v4 ra na pd c4 cra cna cpd
      (g4, (a4, (gra, (ara, (pra, (ana, (p, u))))))) =
    (
      read_ipv4_state-print files name v4 c4 g4 a4,
      read_ipv6ra_state-print files name ra cra gra ara pra,
      read_ipv6na_state-print files name na cna ana,
      read_ipv6pd_state-print files name pd cpd p,
    )
