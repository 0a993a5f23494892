-- ===== src/Radvd/Subnets.antt =====
-- The prefixes of the macvlans, out of the prefix that is delegated to an uplink.
use uplinkmgr.Prelude.{
  ltb, ltb_ℤ, ==_of_ne, ℕ, zero, suc, ◌+◌, ◌*◌, ◌^◌, ◌<◌, ◌≤◌, ◌≡◌, ◌≢◌, refl, sym, ap, ◌∙◌, subst,
  List, [], ◌∷◌, false, Option, none, some, Text, ==_refl, ℤ, pos, pos_part, ◌-ℤ◌, ◌≤ℤ◌, length,
  Dict, insert, lookup, lookup-insert, get_elem?, arith, if◌then◌else◌,
}
use native.Mathlib.Nat.{pow-suc}
use uplinkmgr.Config.{Config, NetworkConfig, UplinkConfig}
use uplinkmgr.State.{Ipv6PdState, ◌>>=◌}
use uplinkmgr.Naming.{macvlan_name}
use uplinkmgr.Uplink.Ipv6.{delegated_text}
use uplinkmgr.Uplink.Loops.{HasMacvlans}
use uplinkmgr.Uplink.Places.{macvlan_at, HasDistinctMacvlans}
use uplinkmgr.Radvd.{Ipaddress, subnets, derive_prefixes}

>>=-assoc :
    {A B C : Type 0} (o : Option A) (f : A → Option B) (g : B → Option C)
    → ((o >>= f) >>= g) ≡ (o >>= λ a. f a >>= g)
>>=-assoc none f g = refl
>>=-assoc (some a) f g = refl

same_text : {s t : Text} → some s ≡ some t → s ≡ t
same_text e = cc

zero_ne : {n : ℕ} → 0 ≢ suc n
zero_ne e = omega arith

-- The /64 network number `k` from an address on.
abbrev pub network_at : (ip : Ipaddress) → ip.Address → ℕ → Option Text
network_at ip base k = ip.add base (k * 2 ^ 64) >>= ip.network64

module _ (ip : Ipaddress) (idx : ℕ) (base : ip.Address) where
  abbrev name_at : List NetworkConfig → ℕ → Option Text
  name_at nets n = get_elem? nets n >>= λ net. macvlan_name net.interface idx

  -- Each of the networks, from number `k` on, has a name of its own and a subnet.
  record IsPlanned (k : ℕ) (nets : List NetworkConfig) : Type 0 where
    named : (n : ℕ) → n < length nets → (mv : Text) × (name_at nets n ≡ some mv)
    distinct : (n m : ℕ) (mv : Text) → name_at nets n ≡ some mv → name_at nets m ≡ some mv → n ≡ m
    there : (n : ℕ) → n < length nets → (p : Text) × (network_at ip base (k + n) ≡ some p)

  IsPlanned-rest :
      (k : ℕ) (net : NetworkConfig) (nets : List NetworkConfig)
      → IsPlanned k (net ∷ nets)
      → IsPlanned (suc k) nets
  IsPlanned-rest k net nets h = record {
    named = λ n lt. h.named (suc n) (omega arith);
    distinct = λ n m mv e e'. let same = h.distinct (suc n) (suc m) mv e e' in omega arith;
    there = λ n lt.
        subst (λ j. (p : Text) × (network_at ip base j ≡ some p)) (omega arith)
          (h.there (suc n) (omega arith));
  }

  record HasSubnets (k : ℕ) (nets : List NetworkConfig) (result d : Dict Text) : Type 0 where
    found :
        (n : ℕ) (mv : Text) → name_at nets n ≡ some mv → lookup mv d ≡ network_at ip base (k + n)
    others : (mv : Text) → ((n : ℕ) → name_at nets n ≢ some mv) → lookup mv d ≡ lookup mv result

  subnets_next :
      (k : ℕ) (net : NetworkConfig) (nets : List NetworkConfig) (result : Dict Text) {mv p : Text}
      → macvlan_name net.interface idx ≡ some mv
      → network_at ip base k ≡ some p
      → subnets ip idx base k (net ∷ nets) result
        ≡ subnets ip idx base (suc k) nets (insert mv p result)
  unfolding subnets
  subnets_next k net nets result {mv} {p} name at =
      let rest : Text → Option (Dict Text) =
        λ prefix. subnets ip idx base (suc k) nets (insert mv prefix result) in
      rw name
        (sym (>>=-assoc (ip.add base (k * 2 ^ 64)) ip.network64 rest) ∙ ap (λ o. o >>= rest) at)

  -- One network more.
  HasSubnets-next :
      (k : ℕ) (net : NetworkConfig) (nets : List NetworkConfig) (result d : Dict Text) (mv p : Text)
      → IsPlanned k (net ∷ nets)
      → macvlan_name net.interface idx ≡ some mv
      → network_at ip base k ≡ some p
      → HasSubnets (suc k) nets (insert mv p result) d
      → HasSubnets k (net ∷ nets) result d
  HasSubnets-next k net nets result d mv p h name at s = record {
    found = λ n.
        elim n
          as (λ j.
            (m : Text)
            → name_at (net ∷ nets) j ≡ some m
            → lookup m d ≡ network_at ip base (k + j)) [
              | zero ↦ λ m e.
                  let same : mv ≡ m = same_text (sym name ∙ e) in
                  let alone : lookup mv d ≡ some p =
                    s.others mv (λ j e'. zero_ne (h.distinct 0 (suc j) mv name e'))
                    ∙ lookup-insert mv mv p result
                    ∙ ap (λ b. if b then some p else lookup mv result) (==_refl mv) in
                  ap (λ x. lookup x d) (sym same)
                  ∙ alone
                  ∙ sym at
                  ∙ ap (network_at ip base) (omega arith)
              | suc j ↦ λ m e. s.found j m e ∙ ap (network_at ip base) (omega arith)
            ];
    others = λ m away.
        s.others m (λ n. away (suc n))
        ∙ lookup-insert mv m p result
        ∙ ap (λ b. if b then some p else lookup m result)
            (==_of_ne m mv (λ same. away 0 (name ∙ ap some (sym same))));
  }

  subnets-HasSubnets :
      (k : ℕ) (nets : List NetworkConfig) (result : Dict Text)
      → IsPlanned k nets
      → (d : Dict Text) × (subnets ip idx base k nets result ≡ some d) × HasSubnets k nets result d
  unfolding subnets
  subnets-HasSubnets k [] result h = (
    result,
    refl,
    record { found = λ n mv e. absurd (let x = e in cc); others = λ mv away. refl },
  )
  subnets-HasSubnets k (net ∷ nets) result h =
      let (mv, name) = h.named 0 (omega arith) in
      let (p, first) = h.there 0 (omega arith) in
      let at : network_at ip base k ≡ some p = ap (network_at ip base) (omega arith) ∙ first in
      let (d, e, s) =
        subnets-HasSubnets (suc k) nets (insert mv p result) (IsPlanned-rest k net nets h) in
      (
        d,
        subnets_next k net nets result name at ∙ e,
        HasSubnets-next k net nets result d mv p h name at s,
      )

twice : (a b : ℕ) → a * b * 2 ≡ a * 2 * b
twice a b = grind arith

pow_add : (j k : ℕ) → 2 ^ (j + k) ≡ 2 ^ j * 2 ^ k
pow_add zero k = let same : 0 + k ≡ k = omega arith in ap (λ b. 2 ^ b) same ∙ omega arith
pow_add (suc j) k =
    let same : suc j + k ≡ suc (j + k) = omega arith in
    ap (λ b. 2 ^ b) same
    ∙ pow-suc 2 (j + k)
    ∙ ap (λ x. x * 2) (pow_add j k)
    ∙ twice (2 ^ j) (2 ^ k)
    ∙ ap (λ x. x * 2 ^ k) (sym (pow-suc 2 j))

more_bits : (len : ℤ) → len ≤ℤ pos 64 → pos_part (pos 128 -ℤ len) ≡ 64 + pos_part (pos 64 -ℤ len)
unfolding ◌-ℤ◌
more_bits len short = ground arith

no_deficit : (len : ℤ) → len ≤ℤ pos 64 → ltb_ℤ (pos 64 -ℤ len) (pos 0) ≡ false
unfolding ◌-ℤ◌
no_deficit len short = ground arith

fits :
    (n nets : ℕ) (len : ℤ)
    → n < nets
    → len ≤ℤ pos 64
    → nets ≤ 2 ^ pos_part (pos 64 -ℤ len)
    → suc n * 2 ^ 64 ≤ 2 ^ pos_part (pos 128 -ℤ len)
fits n nets len lt short room =
    let bits = more_bits len short in
    let whole = ap (λ b. 2 ^ b) bits ∙ pow_add 64 (pos_part (pos 64 -ℤ len)) in
    rw whole (omega arith)

-- If the macvlans of an uplink have names, and different ones, and the prefix that is delegated to it
-- is an address, is no longer than 64 bits and has room for a /64 network for each network of the
-- configuration, and these can be computed: then the macvlan of network number `n` gets the /64
-- network number `n` from the first address on, and that many networks of this size fit into a
-- prefix of the delegated length, this one included.
pub lookup-derive_prefixes :
    (ip : Ipaddress) (cfg : Config) (u : UplinkConfig) (st : Ipv6PdState) (base : ip.Address)
    → HasMacvlans cfg u
    → HasDistinctMacvlans cfg u
    → st.delegated_length ≤ℤ pos 64
    → length cfg.networks ≤ 2 ^ pos_part (pos 64 -ℤ st.delegated_length)
    → ip.network_address (delegated_text st) ≡ some base
    → ((n : ℕ) → n < length cfg.networks → (p : Text) × (network_at ip base n ≡ some p))
    → (n : ℕ) (mv : Text) → n < length cfg.networks
    → macvlan_at cfg u n ≡ some mv
    → (lookup mv (derive_prefixes ip cfg u (some st)) ≡ network_at ip base n)
      × (suc n * 2 ^ 64 ≤ 2 ^ pos_part (pos 128 -ℤ st.delegated_length))
unfolding derive_prefixes macvlan_at
lookup-derive_prefixes ip cfg u st base has distinct short room parsed there n mv lt at =
    let enough : ltb (2 ^ pos_part (pos 64 -ℤ st.delegated_length)) (length cfg.networks) ≡ false =
      ground arith in
    let derived : (d : Dict Text)
        → subnets ip u.index base 0 cfg.networks [] ≡ some d
        → lookup mv (derive_prefixes ip cfg u (some st)) ≡ lookup mv d =
      λ d e. rw (parsed, e, no_deficit st.delegated_length short, enough) refl in
    let (d, e, s) = subnets-HasSubnets ip u.index base 0 cfg.networks [] (record {
      named = has;
      distinct = distinct;
      there = λ k lt'.
          subst (λ j. (p : Text) × (network_at ip base j ≡ some p)) (omega arith) (there k lt');
    }) in
    (
      derived d e ∙ s.found n mv at ∙ ap (network_at ip base) (omega arith),
      fits n (length cfg.networks) st.delegated_length lt short room,
    )
