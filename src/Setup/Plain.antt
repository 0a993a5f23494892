-- ===== src/Setup/Plain.antt =====
-- The names of the files that carry an uplink have no slash.
use uplinkmgr.Prelude.{
  ℕ, zero, suc, ◌+◌, ◌-◌, ◌≡◌, refl, sym, ap, ◌∙◌, [], ◌∷◌, ◌++◌, true, false, Bool, Bool-cases,
  inl, inr, ◌||◌, Text, text, take, map, eqb, length, is_nonempty, some, none, ltb, List, Dict,
  Option-cases, get_elem?, arith, if◌then◌else◌,
}
use uplinkmgr.Config.Names.{
  is_name, is_iface, is_iface_from, is_alnum, is_name_char, is_iface_char, all_chars,
}
use uplinkmgr.Prelude.Decimal.{str_ℕ, is_digit, all_digits, all_digits-str_ℕ}
use uplinkmgr.Naming.{macvlan_name, split_digits, chomp, slice_to, undot, uplink_suffix}
use uplinkmgr.Generator.Disk.{Node, has_slash}
use uplinkmgr.Config.{Config, NetworkConfig, UplinkConfig}
use uplinkmgr.Config.Loaded.{IsValid}
use uplinkmgr.Uplink.Invariant.{if_keeps}
use uplinkmgr.Setup.Envs.{macvlan_entries, own_entries, env_entries}

plain_char : (p : ℕ → Bool) → p b'/' ≡ false → (c : ℕ) → p c ≡ true → eqb c b'/' ≡ false
plain_char p fails c h = elim (Bool-cases (eqb c b'/')) [
  | inl e ↦ let same : c ≡ b'/' = ground arith in let bad : p c ≡ p b'/' = ap p same in cc
  | inr e ↦ e
]

all_chars-plain :
    (p : ℕ → Bool) → p b'/' ≡ false → (s : Text) → all_chars p s ≡ true → has_slash s ≡ false
all_chars-plain p fails [] h = refl
all_chars-plain p fails (c ∷ s) h = ground (arith, plain_char p fails c, all_chars-plain p fails s)

all_digits-plain : (s : Text) → all_digits s ≡ true → has_slash s ≡ false
all_digits-plain [] h = refl
all_digits-plain (c ∷ s) h = ground (arith, plain_char is_digit refl c, all_digits-plain s)

has_slash-chomp : (s : Text) → has_slash (chomp s) ≡ has_slash s
unfolding chomp
has_slash-chomp [] = refl
has_slash-chomp (c ∷ []) = ground arith
has_slash-chomp (c ∷ d ∷ s) = ap (λ b. eqb c b'/' || b) (has_slash-chomp (d ∷ s))

is_name-plain : (s : Text) → is_name s ≡ true → has_slash s ≡ false
unfolding is_name
is_name-plain s h =
    sym (has_slash-chomp s) ∙ all_chars-plain is_name_char refl (chomp s) (ground arith)

has_slash-append : (s t : Text) → has_slash (s ++ t) ≡ (has_slash s || has_slash t)
has_slash-append [] t = refl
has_slash-append (c ∷ s) t = ground (arith, has_slash-append s t)

append-plain : (s t : Text) → has_slash s ≡ false → has_slash t ≡ false → has_slash (s ++ t) ≡ false
append-plain s t hs ht = has_slash-append s t ∙ ground (arith, hs, ht)

has_slash-take : (n : ℕ) (s : Text) → has_slash s ≡ false → has_slash (take n s) ≡ false
has_slash-take zero s h = refl
has_slash-take (suc n) [] h = refl
has_slash-take (suc n) (c ∷ s) h = ground (arith, has_slash-take n s)

has_slash-undot : (s : Text) → has_slash (map undot s) ≡ has_slash s
has_slash-undot [] = refl
has_slash-undot (c ∷ s) = ground (arith, has_slash-undot s)

has_slash-split_digits :
    (s : Text) → has_slash s ≡ (has_slash (split_digits s).0 || has_slash (split_digits s).1)
unfolding split_digits
has_slash-split_digits [] = refl
has_slash-split_digits (c ∷ s) =
    ground (arith, has_slash-split_digits s, plain_char is_digit refl c)

uplink_suffix-plain : (u : ℕ) → has_slash (uplink_suffix u) ≡ false
unfolding uplink_suffix text
uplink_suffix-plain u = all_digits-plain (str_ℕ u) (all_digits-str_ℕ u)

is_iface_from-plain : (s : Text) → is_iface_from s ≡ true → has_slash s ≡ false
is_iface_from-plain [] h = refl
is_iface_from-plain (c ∷ s) h =
    ground (arith, plain_char is_alnum refl c, all_chars-plain is_iface_char refl s)

is_iface-plain : (s : Text) → is_iface s ≡ true → has_slash s ≡ false
unfolding is_iface
is_iface-plain s h = sym (has_slash-chomp s) ∙ is_iface_from-plain (chomp s) h

slice_to-plain : (a b : ℕ) (s : Text) → has_slash s ≡ false → has_slash (slice_to a b s) ≡ false
unfolding slice_to
slice_to-plain a b s h =
    ground (arith, has_slash-take (a - b) s h, has_slash-take (length s - (b - a)) s h)

-- A name that is made in one of two ways, or not at all.
by_form :
    (s t m : Text) (numeric long : Bool)
    → has_slash s ≡ false
    → has_slash t ≡ false
    → (if numeric then (if long then none else some s) else some t) ≡ some m
    → has_slash m ≡ false
by_form s t m numeric long hs ht e = ground arith

-- A macvlan has no slash in its name if its network has none.
macvlan_name-plain :
    (i : Text) (u : ℕ) (m : Text)
    → has_slash i ≡ false
    → macvlan_name i u ≡ some m
    → has_slash m ≡ false
unfolding macvlan_name
macvlan_name-plain i u m h e =
    let iface = map undot i in
    let flat : has_slash iface ≡ false = has_slash-undot i ∙ h in
    let suffix = uplink_suffix u in
    let parts = split_digits (chomp iface) in
    let whole : (has_slash parts.0 || has_slash parts.1) ≡ false =
      sym (has_slash-split_digits (chomp iface)) ∙ has_slash-chomp iface ∙ flat in
    let room : ℕ = 15 - (length parts.1 + length suffix) in
    let front : has_slash parts.0 ≡ false = ground arith in
    let digits : has_slash parts.1 ≡ false = ground arith in
    let numbered =
      append-plain (take room parts.0 ++ parts.1) suffix
        (append-plain (take room parts.0) parts.1 (has_slash-take room parts.0 front) digits)
        (uplink_suffix-plain u) in
    let lettered =
      append-plain (slice_to 15 (length suffix) iface) suffix
        (slice_to-plain 15 (length suffix) iface flat) (uplink_suffix-plain u) in
    by_form _ _ m (is_nonempty parts.1) (ltb 15 (length parts.1 + length suffix)) numbered lettered
      e

abbrev pub AllPlain : Dict Node → Type 0
AllPlain [] = Unit
AllPlain ((n, node) ∷ entries) = (has_slash n ≡ false) × AllPlain entries

AllPlain-append : (xs ys : Dict Node) → AllPlain xs → AllPlain ys → AllPlain (xs ++ ys)
AllPlain-append [] ys p q = q
AllPlain-append ((n, node) ∷ xs) ys (first, p) q = (first, AllPlain-append xs ys p q)

-- The two parts of a valid configuration that names come from.
abbrev PlainNetworks : List NetworkConfig → Type 0
PlainNetworks nets =
    (i : ℕ) (net : NetworkConfig) → get_elem? nets i ≡ some net → has_slash net.interface ≡ false

abbrev PlainUplinks : List UplinkConfig → Type 0
PlainUplinks uplinks =
    (i : ℕ) (u : UplinkConfig)
    → get_elem? uplinks i ≡ some u
    → (has_slash u.name ≡ false) × (has_slash u.interface ≡ false)

macvlan_entries-AllPlain :
    (u : UplinkConfig) (nets : List NetworkConfig)
    → PlainNetworks nets
    → AllPlain (macvlan_entries u nets)
macvlan_entries-AllPlain u [] p = tt
macvlan_entries-AllPlain u (net ∷ nets) p =
    let rest = macvlan_entries-AllPlain u nets (λ i. p (suc i)) in
    elim (Option-cases (macvlan_name net.interface u.index)) [
      | inl bad ↦ rw (bad, macvlan_entries) rest
      | inr (mv, good) ↦
          rw (good, macvlan_entries)
            (macvlan_name-plain net.interface u.index mv (p 0 net refl) good, rest)
    ]

env_entries-AllPlain :
    (nets : List NetworkConfig) (uplinks : List UplinkConfig)
    → PlainNetworks nets
    → PlainUplinks uplinks
    → AllPlain (env_entries nets uplinks)
env_entries-AllPlain nets [] p q = tt
env_entries-AllPlain nets (u ∷ uplinks) p q =
    let (name, interface) = q 0 u refl in
    let links : AllPlain (if u.ipv6_pd then macvlan_entries u nets else []) =
      if_keeps AllPlain u.ipv6_pd (macvlan_entries-AllPlain u nets p) tt in
    AllPlain-append (own_entries nets u) (env_entries nets uplinks) (name, (interface, links))
      (env_entries-AllPlain nets uplinks p (λ i. q (suc i)))

-- A valid configuration gives no name with a slash to a file in the directory.
pub IsValid-AllPlain :
    (cfg : Config) → IsValid cfg → AllPlain (env_entries cfg.networks cfg.uplinks)
IsValid-AllPlain cfg valid =
    env_entries-AllPlain cfg.networks cfg.uplinks
      (λ i net at. is_iface-plain net.interface (valid.network i net at).interface)
      (λ i u at.
        let of_uplink = (valid.uplink i u at).0 in
        (is_name-plain u.name of_uplink.named, is_iface-plain u.interface of_uplink.interface))
