-- ===== src/Config.antt =====
-- core/config.c, the table of entries: `config_get` and its variants, and `config_set`.
pub mod Table
pub mod File
pub mod Env
use vajra_ai.Prelude.{
  ℕ, zero, suc, ◌+◌, ◌-◌, ◌*◌, Bool, true, false, ◌&&◌, ◌||◌, Option, none, some, List, [], ◌∷◌,
  ◌++◌, ltb, leb, ◌==◌, if◌then◌else◌, length, take,
}
use vajra_ai.Prelude.Int.{ℤ, pos, negated}
use vajra_ai.CString.{Bytes, codes, equal, skip_space}

abbrev pub max_entries : ℕ
max_entries = 256

-- The longest section or key that an entry holds: `snprintf` cuts at MAX_KEY_LEN - 1.
abbrev pub max_name : ℕ
max_name = 127

-- `config_entry_t`
pub record Entry : Type 0 where
  pub section : Bytes
  pub key : Bytes
  pub value : Bytes

-- `config_t`: the entries in use.
abbrev pub Config : Type 0
Config = List Entry

-- `config_create`
abbrev pub config_create : Config
config_create = []

abbrev pub is_entry : Bytes → Bytes → Entry → Bool
is_entry section key e = equal e.section section && equal e.key key

-- `config_get` at a configuration that is not NULL; the default is returned as it is, NULL or not.
unfoldable pub config_get : Config → Bytes → Bytes → Option Bytes → Option Bytes
config_get [] section key default_val = default_val
config_get (e ∷ es) section key default_val =
    if is_entry section key e then some e.value else config_get es section key default_val

-- The decimal digits in front of a text, added to a number.
digits_from : ℕ → Bytes → ℕ
digits_from n [] = n
digits_from n (c ∷ cs) = elim (leb b'0' c && leb c b'9') [
  | true ↦ digits_from (n * 10 + (c - b'0')) cs
  | false ↦ n
]

signed : Bytes → ℤ
unfolding digits_from
signed [] = pos 0
signed (c ∷ cs) =
    if c == b'-'
    then negated (digits_from 0 cs)
    else pos (if c == b'+' then digits_from 0 cs else digits_from 0 (c ∷ cs))

-- atoi(), for texts whose number fits an int.
unfoldable pub atoi : Bytes → ℤ
unfolding signed skip_space
atoi s = signed (skip_space s)

unfoldable pub config_get_int : Config → Bytes → Bytes → ℤ → ℤ
unfolding config_get atoi
config_get_int cfg section key default_val = elim (config_get cfg section key none) [
  | none ↦ default_val
  | some val ↦ atoi val
]

unfoldable pub config_get_bool : Config → Bytes → Bytes → Bool → Bool
unfolding config_get
config_get_bool cfg section key default_val = elim (config_get cfg section key none) [
  | none ↦ default_val
  | some val ↦ equal val (codes "true") || equal val (codes "yes") || equal val (codes "1")
]

unfoldable pub cons_update : Entry → Option Config → Option Config
cons_update e none = none
cons_update e (some es) = some (e ∷ es)

-- The loop that looks for an entry to update; `none` if there is none.
unfoldable pub update_entry : Config → Bytes → Bytes → Bytes → Option Config
unfolding cons_update
update_entry [] section key value = none
update_entry (e ∷ es) section key value =
    if is_entry section key e
    then some (record e { value = value } ∷ es)
    else cons_update e (update_entry es section key value)

unfoldable pub new_entry : Bytes → Bytes → Bytes → Entry
new_entry section key value = record {
  section = take max_name section;
  key = take max_name key;
  value = value;
}

unfoldable pub or_append : Config → Entry → Option Config → Config
or_append cfg e none = cfg ++ e ∷ []
or_append cfg e (some cfg') = cfg'

unfoldable pub config_set : Config → Bytes → Bytes → Bytes → Config
unfolding update_entry new_entry or_append
config_set cfg section key value =
    if leb max_entries (length cfg)
    then cfg
    else or_append cfg (new_entry section key value) (update_entry cfg section key value)
