-- ===== src/State/Printed.antt =====
-- Reading the state files as the dhcpcd hook prints them, one `key=value` a line.
use uplinkmgr.Prelude.{
  ℕ, ◌≡◌, refl, ap, ap₂, ◌∙◌, List, [], ◌∷◌, ◌++◌, Bool, true, false, not, ◌&&◌, none, some, Text,
  text, ◌==◌, Dict, lookup, insert, eqb, if◌then◌else◌, arith,
}
use uplinkmgr.Prelude.Decimal.{str_ℤ}
use uplinkmgr.State.{
  Files, Ipv6PdState, read_line, read_lines, read_kv, int_field, read_ipv6pd_state,
}
use uplinkmgr.State.Strings.{is_space, is_break, push, split_lines, strip, partition}
use uplinkmgr.State.Numbers.{is_solid, is_solid-append, strip-solid, is_solid-str_ℤ, int_of-str_ℤ}

-- No equals sign.
abbrev pub is_key : Text → Bool
is_key [] = true
is_key (c ∷ s) = not (eqb c b'=') && is_key s

abbrev line_of : Text × Text → Text
line_of (k, v) = k ++ b'=' ∷ v

abbrev pub print : List (Text × Text) → Text
print [] = []
print (entry ∷ entries) = line_of entry ++ 10 ∷ print entries

abbrev pub insert_all : Dict Text → List (Text × Text) → Dict Text
insert_all kv [] = kv
insert_all kv ((k, v) ∷ entries) = insert_all (insert k v kv) entries

-- Keys and values without white space, keys without an equals sign.
abbrev pub ArePlain : List (Text × Text) → Type 0
ArePlain [] = Unit
ArePlain ((k, v) ∷ entries) =
    (is_solid k ≡ true) × (is_key k ≡ true) × (is_solid v ≡ true) × ArePlain entries

-- A line break is white space.
break_is_space : (c : ℕ) → is_space c ≡ false → is_break c ≡ false
break_is_space c h = ground arith

partition-key : (k v : Text) → is_key k ≡ true → partition (k ++ b'=' ∷ v) ≡ some (k, v)
unfolding partition
partition-key [] v h = refl
partition-key (c ∷ k) v h = ground (arith, partition-key k v)

read_line-plain :
    (kv : Dict Text) (k v : Text)
    → is_solid k ≡ true
    → is_key k ≡ true
    → is_solid v ≡ true
    → read_line kv (line_of (k, v)) ≡ insert k v kv
unfolding read_line
read_line-plain kv k v hk key hv =
    ap (λ o. elim o as (λ x. Dict Text) [ none ↦ kv | some (a, b) ↦ insert (strip a) (strip b) kv ])
      (ap partition (strip-solid (k ++ b'=' ∷ v) (is_solid-append k (b'=' ∷ v) hk hv))
        ∙ partition-key k v key)
    ∙ ap₂ (λ a b. insert a b kv) (strip-solid k hk) (strip-solid v hv)

return_is_space : (c : ℕ) → is_space c ≡ false → eqb c 13 ≡ false
return_is_space c h = ground arith

solid_parts : (b r : Bool) → (not b && r) ≡ true → (b ≡ false) × (r ≡ true)
solid_parts b r h = ground arith

last_branch :
    (a b c : Bool) (x y z : List Text)
    → a ≡ false
    → c ≡ false
    → (if a && b then x else if c then y else z) ≡ z
last_branch a b c x y z ha hc = ground arith

-- A line ends at its line feed.
split_lines-solid : (s t : Text) → is_solid s ≡ true → split_lines (s ++ 10 ∷ t) ≡ s ∷ split_lines t
unfolding split_lines
split_lines-solid [] [] h = refl
split_lines-solid [] (d ∷ t) h = refl
split_lines-solid (c ∷ []) t h =
    let (solid, rest) = solid_parts (is_space c) true h in
    last_branch (eqb c 13) true (is_break c) (split_lines (10 ∷ t)) ([] ∷ split_lines (10 ∷ t))
      (push c (split_lines (10 ∷ t))) (return_is_space c solid) (break_is_space c solid)
    ∙ ap (push c) (split_lines-solid [] t refl)
split_lines-solid (c ∷ d ∷ s) t h =
    let (solid, rest) = solid_parts (is_space c) (is_solid (d ∷ s)) h in
    last_branch (eqb c 13) (eqb d 10) (is_break c) (split_lines (d ∷ (s ++ 10 ∷ t)))
      ([] ∷ split_lines (d ∷ (s ++ 10 ∷ t))) (push c (split_lines (d ∷ (s ++ 10 ∷ t))))
      (return_is_space c solid) (break_is_space c solid)
    ∙ ap (push c) (split_lines-solid (d ∷ s) t rest)

read_lines-print :
    (kv : Dict Text) (entries : List (Text × Text))
    → ArePlain entries
    → read_lines kv (split_lines (print entries)) ≡ insert_all kv entries
unfolding read_lines
read_lines-print kv [] plain = unfold split_lines in refl
read_lines-print kv ((k, v) ∷ entries) (hk, key, hv, plain) =
    ap (read_lines kv)
      (split_lines-solid (line_of (k, v)) (print entries) (is_solid-append k (b'=' ∷ v) hk hv))
    ∙ ap (λ x. read_lines x (split_lines (print entries))) (read_line-plain kv k v hk key hv)
    ∙ read_lines-print (insert k v kv) entries plain

-- The printed entries are what is read.
pub read_kv-print :
    (entries : List (Text × Text))
    → ArePlain entries
    → read_kv (print entries) ≡ insert_all [] entries
unfolding read_kv
read_kv-print entries plain = read_lines-print [] entries plain

-- What the hook prints for a delegated prefix.
abbrev pub pd_entries : Ipv6PdState → List (Text × Text)
pd_entries st =
    (text "delegated_prefix", st.delegated_prefix)
    ∷ (text "delegated_length", str_ℤ st.delegated_length)
    ∷ (text "vltime", str_ℤ st.vltime)
    ∷ (text "pltime", str_ℤ st.pltime)
    ∷ (text "timestamp", str_ℤ st.timestamp)
    ∷ []

pd_entries-ArePlain :
    (st : Ipv6PdState) → is_solid st.delegated_prefix ≡ true → ArePlain (pd_entries st)
unfolding text
pd_entries-ArePlain st solid = (
  refl,
  refl,
  solid,
  (
    refl,
    refl,
    is_solid-str_ℤ st.delegated_length,
    (
      refl,
      refl,
      is_solid-str_ℤ st.vltime,
      (refl, refl, is_solid-str_ℤ st.pltime, (refl, refl, is_solid-str_ℤ st.timestamp, tt)),
    ),
  ),
)

-- The state of a delegated prefix is read from a file that has its fields, one `key=value` a line,
-- if the prefix has no white space.
pub read_ipv6pd_state-print :
    (files : Files) (name : Text) (st : Ipv6PdState)
    → files (name ++ text ".ipv6pd.state") ≡ some (print (pd_entries st))
    → is_solid st.delegated_prefix ≡ true
    → read_ipv6pd_state files name ≡ some st
unfolding read_ipv6pd_state text ◌==◌ lookup insert int_field
read_ipv6pd_state-print files name st content solid =
    rw
      (
        content,
        read_kv-print (pd_entries st) (pd_entries-ArePlain st solid),
        int_of-str_ℤ st.delegated_length,
        int_of-str_ℤ st.vltime,
        int_of-str_ℤ st.pltime,
        int_of-str_ℤ st.timestamp,
      )
      refl
