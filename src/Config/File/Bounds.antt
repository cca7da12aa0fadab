-- ===== src/Config/File/Bounds.antt =====
-- What every configuration file leaves in the table.
use vajra_ai.Prelude.{
  ◌≤◌, Option, none, some, List, [], ◌∷◌, ◌++◌, arith, length, length-take, leb, Bool-cases, inl,
  inr,
}
use vajra_ai.CString.{Bytes, codes, strchr, skip_space}
use vajra_ai.Files.{fgets_lines}
use vajra_ai.Types.{str_trim}
use vajra_ai.Config.{
  max_entries, max_name, Entry, Config, is_entry, cons_update, update_entry, new_entry, or_append,
  config_set,
}
use vajra_ai.Config.Table.{length-config_set}
use vajra_ai.Config.File.{config_lines, config_line, set_value, config_load}

-- Every section and key fits its buffer of 128 bytes.
abbrev pub NamesFit : Config → Type 0
NamesFit [] = Unit {0}
NamesFit (e ∷ es) = (length e.section ≤ max_name) × (length e.key ≤ max_name) × NamesFit es

pub record IsValid (cfg : Config) : Type 0 where
  pub fits : length cfg ≤ max_entries
  pub names : NamesFit cfg

abbrev NamesFit? : Option Config → Type 0
NamesFit? none = Unit {0}
NamesFit? (some cfg) = NamesFit cfg

NamesFit-cons_update :
    (e : Entry) (o : Option Config) → NamesFit (e ∷ []) → NamesFit? o → NamesFit? (cons_update e o)
unfolding cons_update
NamesFit-cons_update e none h k = tt
NamesFit-cons_update e (some es) h k = (h.0, h.1, k)

NamesFit-update_entry :
    (cfg : Config) (s k v : Bytes) → NamesFit cfg → NamesFit? (update_entry cfg s k v)
unfolding update_entry
NamesFit-update_entry [] s k v h = tt
NamesFit-update_entry (e ∷ es) s k v h = elim (Bool-cases (is_entry s k e)) [
  | inl hit ↦ rw hit h
  | inr miss ↦
      rw miss (NamesFit-cons_update e _ (h.0, h.1, tt) (NamesFit-update_entry es s k v h.2))
]

NamesFit-append :
    (cfg : Config) (e : Entry) → NamesFit cfg → NamesFit (e ∷ []) → NamesFit (cfg ++ e ∷ [])
NamesFit-append [] e h k = k
NamesFit-append (x ∷ cfg) e h k = (h.0, h.1, NamesFit-append cfg e h.2 k)

NamesFit-or_append :
    (cfg : Config) (e : Entry) (o : Option Config)
    → NamesFit cfg
    → NamesFit (e ∷ [])
    → NamesFit? o
    → NamesFit (or_append cfg e o)
unfolding or_append
NamesFit-or_append cfg e none h k u = NamesFit-append cfg e h k
NamesFit-or_append cfg e (some cfg') h k u = u

NamesFit-new_entry : (s k v : Bytes) → NamesFit (new_entry s k v ∷ [])
unfolding new_entry
NamesFit-new_entry s k v =
    (omega (arith, length-take max_name s), omega (arith, length-take max_name k), tt)

-- Setting a value keeps the table valid, whatever the lengths of section and key.
pub config_set-IsValid :
    (cfg : Config) (s k v : Bytes) → IsValid cfg → IsValid (config_set cfg s k v)
config_set-IsValid cfg s k v h = record {
  fits = length-config_set cfg s k v h.fits;
  names = config_set-NamesFit;
}
  where
    config_set-NamesFit : NamesFit (config_set cfg s k v)
    config_set-NamesFit =
        unfold config_set in
        (elim (Bool-cases (leb max_entries (length cfg))) [
          | inl full ↦ rw full h.names
          | inr room ↦ rw room (
              NamesFit-or_append cfg (new_entry s k v) _ h.names (NamesFit-new_entry s k v)
                (NamesFit-update_entry cfg s k v h.names))
        ])

set_value-IsValid :
    (cfg : Config) (section : Bytes) (o : Option (Bytes × Bytes))
    → IsValid cfg
    → IsValid (set_value cfg section o)
unfolding set_value
set_value-IsValid cfg section none h = h
set_value-IsValid cfg section (some (key, val)) h =
    config_set-IsValid cfg section (str_trim key) _ h

config_line-IsValid :
    (cfg : Config) (section line : Bytes) → IsValid cfg → IsValid (config_line cfg section line).0
unfolding config_line
config_line-IsValid cfg section [] h = h
config_line-IsValid cfg section (c ∷ cs) h =
    ground (arith, set_value-IsValid cfg section (strchr (c ∷ cs) b'=') h)

config_lines-IsValid :
    (lines : List Bytes) (cfg : Config) (section : Bytes)
    → IsValid cfg
    → IsValid (config_lines cfg section lines)
unfolding config_lines
config_lines-IsValid [] cfg section h = h
config_lines-IsValid (line ∷ rest) cfg section h =
    config_lines-IsValid rest _ _ (config_line-IsValid cfg section (skip_space line) h)

-- Any file, also one that cannot be opened, gives a table of at most 256 entries whose sections and
-- keys fit their buffers.
pub config_load-IsValid : (content : Option Bytes) → IsValid (config_load content)
unfolding config_load
config_load-IsValid none = record { fits = omega arith; names = tt }
config_load-IsValid (some content) =
    config_lines-IsValid (fgets_lines 1023 content) [] (codes "general")
      (record { fits = omega arith; names = tt })
