-- ===== src/State.antt =====
-- The runtime state files (src/uplinkmgr/state.py). A file system is a function from the name of a
-- file in the state directory to its text, `none` where reading it raises OSError.
mod Strings
pub mod Numbers
pub mod Printed
pub mod Handover
pub mod Atomic
unfoldable pub use Strings.*
use uplinkmgr.Prelude.{
  List, [], ◌∷◌, ◌++◌, Option, none, some, Text, text, Dict, lookup, insert, ℤ, pos, ◌-ℤ◌, max_ℤ,
  eqb_ℤ, if◌then◌else◌,
}

pub record Ipv4State : Type 0 where
  pub gateway : Text
  pub address : Text

pub record Ipv6RaState : Type 0 where
  pub gateway : Text
  pub lifetime : ℤ
  pub timestamp : ℤ
  pub address : Text
  pub prefix : Text
  pub plen : ℤ

pub record Ipv6NaState : Type 0 where
  pub address : Text

pub record Ipv6PdState : Type 0 where
  pub delegated_prefix : Text
  pub delegated_length : ℤ
  pub vltime : ℤ
  pub pltime : ℤ
  pub timestamp : ℤ

-- max(0, lifetime - (now - timestamp))
unfoldable pub remaining : ℤ → ℤ → ℤ → ℤ
remaining lifetime timestamp now = max_ℤ (pos 0) (lifetime -ℤ (now -ℤ timestamp))

unfoldable pub remaining_lifetime : Ipv6RaState → ℤ → ℤ
unfolding remaining
remaining_lifetime st now =
    if eqb_ℤ st.lifetime (pos 0) then pos 0 else remaining st.lifetime st.timestamp now

unfoldable pub remaining_vltime : Ipv6PdState → ℤ → ℤ
unfolding remaining
remaining_vltime st now = remaining st.vltime st.timestamp now

unfoldable pub remaining_pltime : Ipv6PdState → ℤ → ℤ
unfolding remaining
remaining_pltime st now = remaining st.pltime st.timestamp now

abbrev pub Files : Type 0
Files = Text → Option Text

infixl 5 ◌>>=◌
abbrev pub ◌>>=◌ {ℓ κ} : {A : Type ℓ} {B : Type κ} → Option A → (A → Option B) → Option B
none >>= f = none
some a >>= f = f a

-- The body of the loop over the lines.
unfoldable pub read_line : Dict Text → Text → Dict Text
read_line kv line = elim (partition (strip line)) [
  | none ↦ kv
  | some (k, v) ↦ insert (strip k) (strip v) kv
]

unfoldable pub read_lines : Dict Text → List Text → Dict Text
unfolding read_line
read_lines kv [] = kv
read_lines kv (line ∷ lines) = read_lines (read_line kv line) lines

-- The `kv` of `_read_kv_state`.
unfoldable pub read_kv : Text → Dict Text
unfolding read_lines
read_kv content = read_lines [] (split_lines content)

-- A field of type `int`, and one with a default.
unfoldable pub int_field : Text → Dict Text → Option ℤ
int_field k kv = lookup k kv >>= int_of

unfoldable pub int_field_or : ℤ → Text → Dict Text → Option ℤ
int_field_or default k kv = elim (lookup k kv) [ none ↦ some default | some v ↦ int_of v ]

unfoldable pub text_field_or : Text → Text → Dict Text → Text
text_field_or default k kv = elim (lookup k kv) [ none ↦ default | some v ↦ v ]

unfoldable pub read_ipv4_state : Files → Text → Option Ipv4State
read_ipv4_state files uplink_name = do
  content ← files (uplink_name ++ text ".ipv4.state")
  let kv = read_kv content
  gateway ← lookup (text "gateway") kv
  address ← lookup (text "address") kv
  some (record { gateway = gateway; address = address })

unfoldable pub read_ipv6ra_state : Files → Text → Option Ipv6RaState
unfolding int_field int_field_or text_field_or
read_ipv6ra_state files uplink_name = do
  content ← files (uplink_name ++ text ".ipv6ra.state")
  let kv = read_kv content
  gateway ← lookup (text "gateway") kv
  lifetime ← int_field (text "lifetime") kv
  timestamp ← int_field (text "timestamp") kv
  plen ← int_field_or (pos 0) (text "plen") kv
  some (record {
    gateway = gateway;
    lifetime = lifetime;
    timestamp = timestamp;
    address = text_field_or [] (text "address") kv;
    prefix = text_field_or [] (text "prefix") kv;
    plen = plen;
  })

unfoldable pub read_ipv6na_state : Files → Text → Option Ipv6NaState
read_ipv6na_state files uplink_name = do
  content ← files (uplink_name ++ text ".ipv6na.state")
  address ← lookup (text "address") (read_kv content)
  some (record { address = address })

unfoldable pub read_ipv6pd_state : Files → Text → Option Ipv6PdState
unfolding int_field
read_ipv6pd_state files uplink_name = do
  content ← files (uplink_name ++ text ".ipv6pd.state")
  let kv = read_kv content
  delegated_prefix ← lookup (text "delegated_prefix") kv
  delegated_length ← int_field (text "delegated_length") kv
  vltime ← int_field (text "vltime") kv
  pltime ← int_field (text "pltime") kv
  timestamp ← int_field (text "timestamp") kv
  some (record {
    delegated_prefix = delegated_prefix;
    delegated_length = delegated_length;
    vltime = vltime;
    pltime = pltime;
    timestamp = timestamp;
  })
