-- ===== src/Naming/Macvlan.antt =====
-- The macvlan names: their length, and that different uplinks have different names.
use mathlib.Core.List.{append_assoc}
use uplinkmgr.Prelude.{
  ℕ, ◌+◌, ◌≤◌, ◌≡◌, ◌≢◌, refl, ◌∙◌, sym, [], ◌∷◌, ◌++◌, true, false, some, Text, text, length, take,
  is_nonempty, map, ◌-◌, ◌<◌, length-append, length-take, if◌then◌else◌, arith,
}
use uplinkmgr.Prelude.Decimal.{
  str_ℕ, str_ℕ-injective, is_digit, all_digits, all_digits-str_ℕ, length-str_ℕ-le_three,
}
use uplinkmgr.Naming.{macvlan_name, split_digits, chomp, slice_to, undot, uplink_suffix}

split_digits-digits : (ds : Text) → all_digits ds ≡ true → split_digits ds ≡ ([], ds)
unfolding split_digits
split_digits-digits [] h = refl
split_digits-digits (d ∷ ds) h =
    let rest = split_digits-digits ds (ground arith) in rw rest (ground arith)

-- The digits that end a text stand after the last thing that is no digit.
split_digits-after :
    (p ds : Text) (c : ℕ)
    → is_digit c ≡ false
    → all_digits ds ≡ true
    → split_digits (p ++ c ∷ ds) ≡ (p ++ c ∷ [], ds)
unfolding split_digits
split_digits-after [] ds c hc hd = rw (split_digits-digits ds hd) (ground arith)
split_digits-after (b ∷ []) ds c hc hd = rw (split_digits-after [] ds c hc hd)
split_digits-after (b ∷ a ∷ p) ds c hc hd = rw (split_digits-after (a ∷ p) ds c hc hd)

-- The part of a name before the suffix of its uplink.
abbrev front : Text → ℕ → Text
front i u =
    let iface = map undot i in
    let suffix = uplink_suffix u in
    let (alpha_prefix, numeric_suffix) = split_digits (chomp iface) in
    if is_nonempty numeric_suffix
    then take (15 - (length numeric_suffix + length suffix)) alpha_prefix ++ numeric_suffix
    else slice_to 15 (length suffix) iface

macvlan_name-eq :
    (i : Text) (u : ℕ) {m : Text} → macvlan_name i u ≡ some m → m ≡ front i u ++ uplink_suffix u
unfolding macvlan_name
macvlan_name-eq i u h = ground arith

split_digits-name :
    (i : Text) (u : ℕ) {m : Text} → macvlan_name i u ≡ some m → (split_digits m).1 ≡ str_ℕ u
unfolding uplink_suffix text
split_digits-name i u {m} h =
    let last_letter : m ≡ (front i u ++ b'-' ∷ []) ++ b'u' ∷ str_ℕ u =
      macvlan_name-eq i u h ∙ sym (append_assoc (front i u) (b'-' ∷ []) (b'u' ∷ str_ℕ u)) in
    rw last_letter
      (rw (split_digits-after (front i u ++ b'-' ∷ []) (str_ℕ u) b'u' refl (all_digits-str_ℕ u)))

-- The macvlan interfaces of different uplinks have different names, whatever their networks are.
pub macvlan_name-distinct_uplinks :
    (i j : Text) (u v : ℕ) {m : Text}
    → u ≢ v
    → macvlan_name i u ≡ some m
    → macvlan_name j v ≢ some m
macvlan_name-distinct_uplinks i j u v ne hi hj =
    ne (str_ℕ-injective u v (sym (split_digits-name i u hi) ∙ split_digits-name j v hj))

length-slice_to : (a b : ℕ) (s : Text) → b ≤ a → length (slice_to a b s) ≤ a - b
unfolding slice_to
length-slice_to a b s h = ground (arith, length-take (a - b) s)

length-front :
    (i : Text) (u : ℕ) {m : Text}
    → macvlan_name i u ≡ some m
    → length (uplink_suffix u) ≤ 15
    → length (front i u) + length (uplink_suffix u) ≤ 15
unfolding macvlan_name
length-front i u h short =
    let iface = map undot i in
    let parts = split_digits (chomp iface) in
    let room : ℕ = 15 - (length parts.1 + length (uplink_suffix u)) in
    ground (
      arith,
      length-append (take room parts.0) parts.1,
      length-take room parts.0,
      length-slice_to 15 (length (uplink_suffix u)) iface,
    )

-- A generated name fits the kernel's limit of 15 characters, for each of the first thousand
-- uplinks.
pub length-macvlan_name :
    (i : Text) (u : ℕ) {m : Text} → u < 1000 → macvlan_name i u ≡ some m → length m ≤ 15
length-macvlan_name i u {m} small h =
    let short : length (uplink_suffix u) ≤ 15 =
      unfold uplink_suffix text in omega (arith, length-str_ℕ-le_three u small) in
    rw (macvlan_name-eq i u h)
      (omega (arith, length-append (front i u) (uplink_suffix u), length-front i u h short))
