-- ===== src/Config/Yaml.antt =====
-- The values that `yaml.safe_load` gives, and Python's conversions of them (for config.py).
use uplinkmgr.Prelude.{
  ℕ, ◌≡◌, ◌⊎◌, inl, inr, refl, List, [], ◌∷◌, Bool, true, false, not, Option, none, some, Text,
  text, ◌==◌, ℤ, pos, eqb_ℤ, is_nonempty, if◌then◌else◌,
}
use uplinkmgr.Prelude.Decimal.{str_ℤ}
use uplinkmgr.State.{int_of}

-- How loading ends early: by `_die` with one of its messages, or by an exception that `load` lets
-- through. `ill_typed` stands for a host that is no text: the source puts it into the list, against
-- the type of the dataclass.
pub data Complaint : Type 0 where
  no_file unreadable yaml_error no_top_key top_not_mapping : Complaint
  table_range : ℤ → Complaint
  timeout_not_positive : ℤ → Complaint
  networks_not_list uplinks_not_list no_networks no_uplinks : Complaint
  network_not_mapping network_without_name network_without_interface : ℕ → Complaint
  uplink_not_mapping uplink_without_name uplink_without_interface : ℕ → Complaint
  interface_too_long interface_invalid : Text → Complaint
  name_invalid duplicate_name duplicate_interface : Text → Complaint
  metric_not_positive duplicate_metric hint_range : ℤ → Complaint
  table_overflow : ℤ → Complaint

pub data Failure : Type 0 where
  die : Complaint → Failure
  value_error type_error ill_typed : Failure

pub data Result {ℓ} (A : Type ℓ) : Type ℓ where
  ok : A → Result A
  err : Failure → Result A

-- A scalar that is none of null, Boolean, integer and text (a float, a date, bytes) is known by what
-- `int`, `bool` and `str` make of it.
pub record Scalar : Type 0 where
  pub as_int : Result ℤ
  pub as_bool : Bool
  pub as_str : Text

-- The keys of a mapping are texts: the source looks up no other key.
mutual
  pub data Yaml : Type 0 where
    null : Yaml
    boolean : Bool → Yaml
    integer : ℤ → Yaml
    string : Text → Yaml
    scalar : Scalar → Yaml
    sequence : Items → Yaml
    mapping : Fields → Yaml

  pub data Items : Type 0 where
    nil : Items
    cons : Yaml → Items → Items

  pub data Fields : Type 0 where
    end : Fields
    field : Text → Yaml → Fields → Fields

-- `if not b: _die(...)`
abbrev pub check : Bool → Complaint → Result (Unit {0})
check b c = if b then ok tt else err (die c)

infixl 5 ◌>>=◌
abbrev pub ◌>>=◌ {ℓ κ} :
    {Before : Type ℓ} {After : Type κ} → Result Before → (Before → Result After) → Result After
err failure >>= next = err failure
ok value >>= next = next value

-- One step, and then another that does not depend on it.
infixl 5 ◌>>◌
abbrev pub ◌>>◌ {ℓ} : {After : Type ℓ} → Result (Unit {0}) → Result After → Result After
step >> rest = step >>= (λ done. rest)

-- To split on an outcome and keep the equation.
pub Result-cases {ℓ} :
    {A : Type ℓ} (r : Result A) → ((e : Failure) × (r ≡ err e)) ⊎ ((a : A) × (r ≡ ok a))
Result-cases (ok a) = inr (a, refl)
Result-cases (err e) = inl (e, refl)

-- d.get(key, default)
unfoldable pub get : Text → Yaml → Fields → Yaml
get key default end = default
get key default (field k v rest) = if key == k then v else get key default rest

-- key in d
unfoldable pub has : Text → Fields → Bool
has key end = false
has key (field k v rest) = if key == k then true else has key rest

abbrev or_error : Failure → Option ℤ → Result ℤ
or_error e none = err e
or_error e (some n) = ok n

-- int(v)
abbrev pub to_int : Yaml → Result ℤ
to_int null = err type_error
to_int (boolean b) = ok (if b then pos 1 else pos 0)
to_int (integer n) = ok n
to_int (string s) = or_error value_error (int_of s)
to_int (scalar s) = s.as_int
to_int (sequence xs) = err type_error
to_int (mapping fs) = err type_error

abbrev has_item : Items → Bool
has_item nil = false
has_item (cons x xs) = true

abbrev has_field : Fields → Bool
has_field end = false
has_field (field k v rest) = true

-- bool(v)
abbrev pub to_bool : Yaml → Bool
to_bool null = false
to_bool (boolean b) = b
to_bool (integer n) = not (eqb_ℤ n (pos 0))
to_bool (string s) = is_nonempty s
to_bool (scalar s) = s.as_bool
to_bool (sequence xs) = has_item xs
to_bool (mapping fs) = has_field fs

-- str(v), for what `repr` makes of lists and mappings.
abbrev pub to_str : (Yaml → Text) → Yaml → Text
to_str repr null = text "None"
to_str repr (boolean b) = if b then text "True" else text "False"
to_str repr (integer n) = str_ℤ n
to_str repr (string s) = s
to_str repr (scalar s) = s.as_str
to_str repr (sequence xs) = repr (sequence xs)
to_str repr (mapping fs) = repr (mapping fs)

abbrev letters : Text → List Text
letters [] = []
letters (c ∷ s) = (c ∷ []) ∷ letters s

abbrev keys : Fields → List Text
keys end = []
keys (field k v rest) = k ∷ keys rest

abbrev pub texts : Items → Result (List Text)
texts nil = ok []
texts (cons (string s) xs) = texts xs >>= λ rest. ok (s ∷ rest)
texts (cons _ xs) = err ill_typed

-- list(v), for a list of texts. A scalar is not iterable; bytes are left out.
abbrev pub to_texts : Yaml → Result (List Text)
to_texts (string s) = ok (letters s)
to_texts (sequence xs) = texts xs
to_texts (mapping fs) = ok (keys fs)
to_texts _ = err type_error
