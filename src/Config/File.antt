-- ===== src/Config/File.antt =====
-- `config_load` of core/config.c.
pub mod Bounds
use vajra_ai.Prelude.{
  ℕ, ◌+◌, Bool, true, false, ◌||◌, Option, none, some, List, [], ◌∷◌, ◌++◌, ◌==◌, if◌then◌else◌,
  take,
}
use vajra_ai.CString.{Bytes, codes, strchr, skip_space}
use vajra_ai.Files.{fgets_lines}
use vajra_ai.Types.{str_trim}
use vajra_ai.Config.{Config, max_name, config_create, config_set}

-- One line feed at the end of a value goes.
unfoldable pub drop_newline : Bytes → Bytes
drop_newline [] = []
drop_newline (c ∷ []) = if c == b'\n' then [] else c ∷ []
drop_newline (c ∷ d ∷ ds) = c ∷ drop_newline (d ∷ ds)

-- A section header, behind its `[`: the name up to `]`, cut to the size of the buffer.
set_section : Bytes → Option (Bytes × Bytes) → Bytes
set_section current none = current
set_section current (some (name, _)) = take max_name name

-- A line with `=` sets a value, and any other is skipped.
set_value : Config → Bytes → Option (Bytes × Bytes) → Config
unfolding drop_newline
set_value cfg section none = cfg
set_value cfg section (some (key, val)) =
    config_set cfg section (str_trim key) (drop_newline (str_trim val))

-- The body of the loop, on a line without the white space in front, with the current section.
unfoldable pub config_line : Config → Bytes → Bytes → Config × Bytes
unfolding set_section set_value
config_line cfg section [] = (cfg, section)
config_line cfg section (c ∷ cs) =
    if c == b'#' || c == b';'
    then (cfg, section)
    else if c == b'['
    then (cfg, set_section section (strchr cs b']'))
    else (set_value cfg section (strchr (c ∷ cs) b'='), section)

unfoldable pub config_lines : Config → Bytes → List Bytes → Config
unfolding config_line
config_lines cfg section [] = cfg
config_lines cfg section (line ∷ rest) =
    let (cfg', section') = config_line cfg section (skip_space line) in
    config_lines cfg' section' rest

-- The file's content, or `none` if it cannot be opened.
unfoldable pub config_load : Option Bytes → Config
unfolding config_lines
config_load none = config_create
config_load (some content) = config_lines config_create (codes "general") (fgets_lines 1023 content)
