-- ===== src/Tests/Settings.antt =====
-- core/config.c
use vajra_ai.Prelude.{◌≡◌, ◌&&◌, refl, some, none, [], ◌∷◌, arith, ltb, if◌then◌else◌, length}
use vajra_ai.CString.{Bytes, codes, equal, has_prefix, strchr, skip_space, strip_end}
use vajra_ai.Types.{str_trim}
use vajra_ai.Files.{fgets_lines}
use vajra_ai.Config.{Config, max_entries, config_get, config_set}
use vajra_ai.Config.Table.{config_get-config_set}
use vajra_ai.Config.File.{config_load}
use vajra_ai.Config.File.Bounds
use vajra_ai.Config.File.Bounds.{config_load-IsValid}
use vajra_ai.Config.Env.{getenv, env_line, env_load}
use vajra_ai.Config.Env.Keep.{env_load-keeps, env_line_counts_kept}

abbrev file : Bytes
file = codes "top = 1\n[gateway]\n port = 8080 \n; c\n"

load_runs :
    config_get (config_load (some file)) (codes "gateway") (codes "port") none ≡ some (codes "8080")
unfolding config_load config_get config_set fgets_lines strchr str_trim equal
load_runs = refl

abbrev empty : Config
empty = []

config_get-config_set_example :
    config_get (config_set empty (codes "a") (codes "b") (codes "1")) (codes "a") (codes "b") none
    ≡ (if ltb (length empty) max_entries
          && (equal (codes "a") (codes "a") && equal (codes "b") (codes "b"))
        then some (codes "1")
        else config_get empty (codes "a") (codes "b") none)
config_get-config_set_example =
    config_get-config_set empty (codes "a") (codes "b") (codes "1") (codes "a") (codes "b") none
      (omega arith) (omega arith)

config_load-IsValid_example : Bounds.IsValid (config_load (some file))
config_load-IsValid_example = config_load-IsValid (some file)

env_runs :
    env_load ((codes "A", codes "0") ∷ []) (some (codes "A=1\nexport B = 'x y'\n"))
    ≡ ((codes "A", codes "0") ∷ (codes "B", codes "x y") ∷ [], 2)
unfolding env_load fgets_lines getenv strchr skip_space has_prefix strip_end equal
env_runs = refl

env_load-keeps_example :
    getenv (env_load ((codes "A", codes "0") ∷ []) (some (codes "A=1\n"))).0 (codes "A")
    ≡ some (codes "0")
env_load-keeps_example =
    env_load-keeps (codes "A") (codes "0") ((codes "A", codes "0") ∷ []) (some (codes "A=1\n"))
      (unfold getenv equal in refl)

env_line_counts_kept_example :
    env_line ((codes "A", codes "0") ∷ [], 0) (codes "A=1") ≡ ((codes "A", codes "0") ∷ [], 1)
unfolding strchr getenv equal strip_end skip_space has_prefix
env_line_counts_kept_example =
    env_line_counts_kept ((codes "A", codes "0") ∷ []) 0 b'A' b'A' (codes "=1") (codes "A")
      (codes "1") [] (codes "0") refl refl refl refl
