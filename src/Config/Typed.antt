-- ===== src/Config/Typed.antt =====
-- Files whose numbers are numbers, and the conversions of their fields.
use uplinkmgr.Prelude.{
  ℕ, ◌≡◌, refl, Bool, Bool-cases, true, false, inl, inr, Option, none, some, Text, text, ◌==◌, pos,
}
use uplinkmgr.Config.Yaml.{
  Yaml, null, boolean, integer, string, sequence, mapping, Items, nil, cons, Fields, end, field,
  Complaint, Result, ok, err, die, ◌>>=◌, ◌>>◌, check, get, to_int, texts, to_texts,
}
use uplinkmgr.Config.Load.{int_in, Source, missing, failing, undecodable, content}

-- The outcome is a value or a message of `_die`.
abbrev pub is_decided {ℓ} : {A : Type ℓ} → Result A → Bool
is_decided (ok a) = true
is_decided (err (die c)) = true
is_decided (err _) = false

abbrev pub Decides {ℓ} : {A : Type ℓ} → Result A → Type 0
Decides r = is_decided r ≡ true

pub >>=-Decides {ℓ κ} :
    {A : Type ℓ} {B : Type κ} (r : Result A) (f : A → Result B)
    → Decides r
    → ((a : A) → Decides (f a))
    → Decides (r >>= f)
>>=-Decides (ok a) f d next = next a
>>=-Decides (err (die c)) f d next = refl
>>=-Decides (err e) f d next = d

pub check-Decides {ℓ} :
    {A : Type ℓ} (b : Bool) (c : Complaint) (rest : Result A)
    → Decides rest
    → Decides (check b c >> rest)
check-Decides true c rest d = d
check-Decides false c rest d = refl

-- What `int` takes, short of texts: a number, or a Boolean.
abbrev pub IsInt : Yaml → Type 0
IsInt (integer n) = Unit
IsInt (boolean b) = Unit
IsInt _ = ⊥

abbrev pub AreTexts : Items → Type 0
AreTexts nil = Unit
AreTexts (cons (string s) xs) = AreTexts xs
AreTexts (cons _ xs) = ⊥

abbrev pub IsTexts : Yaml → Type 0
IsTexts (sequence xs) = AreTexts xs
IsTexts _ = ⊥

-- The value of a key, if there is one.
abbrev pub HasInt : Text → Fields → Type 0
HasInt key fs = IsInt (get key (integer (pos 0)) fs)

abbrev pub HasTexts : Text → Fields → Type 0
HasTexts key fs = IsTexts (get key (sequence nil) fs)

abbrev pub IsTypedMonitor : Yaml → Type 0
IsTypedMonitor (mapping fs) =
    HasInt (text "interval") fs
    × HasInt (text "failure_threshold") fs
    × HasInt (text "recovery_threshold") fs
    × HasTexts (text "v4_hosts") fs
    × HasTexts (text "v6_hosts") fs
    × HasInt (text "ping_count") fs
IsTypedMonitor _ = Unit

abbrev pub AreTypedUplinks : Items → Type 0
AreTypedUplinks nil = Unit
AreTypedUplinks (cons (mapping fs) xs) =
    HasInt (text "ipv6_pd_hint") fs × HasInt (text "metric") fs × AreTypedUplinks xs
AreTypedUplinks (cons _ xs) = AreTypedUplinks xs

abbrev pub IsTypedUplinks : Yaml → Type 0
IsTypedUplinks (sequence xs) = AreTypedUplinks xs
IsTypedUplinks _ = Unit

abbrev pub IsTypedTop : Yaml → Type 0
IsTypedTop (mapping top) =
    HasInt (text "routing_table_start") top
    × HasInt (text "rule_priority_start") top
    × HasInt (text "radvd_min_restart_interval") top
    × HasInt (text "hook_timeout") top
    × IsTypedMonitor (get (text "monitor") (mapping end) top)
    × IsTypedUplinks (get (text "uplinks") (sequence nil) top)
IsTypedTop _ = Unit

abbrev pub IsTyped : Yaml → Type 0
IsTyped (mapping fs) = IsTypedTop (get (text "uplinkmgr") null fs)
IsTyped _ = Unit

abbrev pub TypedIfRead : Option Yaml → Type 0
TypedIfRead none = Unit
TypedIfRead (some raw) = IsTyped raw

-- The file is missing, cannot be read, is no YAML, or has numbers where numbers belong.
abbrev pub IsTypedSource : (Text → Option Yaml) → Source → Type 0
IsTypedSource safe_load missing = Unit
IsTypedSource safe_load failing = Unit
IsTypedSource safe_load undecodable = ⊥
IsTypedSource safe_load (content s) = TypedIfRead (safe_load s)

pub to_int-Decides : (v : Yaml) → IsInt v → Decides (to_int v)
to_int-Decides (integer n) i = refl
to_int-Decides (boolean b) i = refl
to_int-Decides _ i = absurd i

pub int_in-Decides :
    (key : Text) (default : ℕ) (fs : Fields) → HasInt key fs → Decides (int_in key default fs)
unfolding get
int_in-Decides key default end i = refl
int_in-Decides key default (field k v rest) i = elim (Bool-cases (key == k)) [
  | inl here ↦ rw here (to_int-Decides v (simp here at i))
  | inr there ↦ rw there (int_in-Decides key default rest (simp there at i))
]

pub texts-Decides : (xs : Items) → AreTexts xs → Decides (texts xs)
texts-Decides nil t = refl
texts-Decides (cons (string s) xs) t = >>=-Decides (texts xs) _ (texts-Decides xs t) (λ rest. refl)
texts-Decides (cons _ xs) t = absurd t

pub to_texts-Decides : (v : Yaml) → IsTexts v → Decides (to_texts v)
to_texts-Decides (sequence xs) t = texts-Decides xs t
to_texts-Decides _ t = absurd t

pub hosts-Decides :
    (key : Text) (default : Items) (fs : Fields)
    → AreTexts default
    → HasTexts key fs
    → Decides (to_texts (get key (sequence default) fs))
unfolding get
hosts-Decides key default end d t = texts-Decides default d
hosts-Decides key default (field k v rest) d t = elim (Bool-cases (key == k)) [
  | inl here ↦ rw here (to_texts-Decides v (simp here at t))
  | inr there ↦ rw there (hosts-Decides key default rest d (simp there at t))
]
