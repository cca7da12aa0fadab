-- ===== src/Tests/FileSystem.antt =====
-- tools/file_ops/file_tool.c over a file system of one file, whose content is
-- the world, and core/templates.c at a small workspace.
use vajra_ai.Prelude.{◌≡◌, ◌⊎◌, refl, true, false, none, some, [], ◌∷◌, length}
use vajra_ai.CString.{Bytes, codes, equal, has_prefix}
use vajra_ai.Cjson.{string_arg}
use vajra_ai.Types.{str_starts_with}
use vajra_ai.Allowlist.{Allowlist, allowlist_check, allowlist_is_enabled, check_rules, rule_matches}
use vajra_ai.FileTools.Answers.{io_ok, FileSystem}
use vajra_ai.FileTools.{check_path, file_write_exec, write_at, write_open}
use vajra_ai.FileTools.Gate.{
  file_write, file_read, execute, Touched, execute-Touched, execute-blocked,
}
use vajra_ai.Templates.{
  FileTable, seeded_names, content_at, set_content, copy_content, copy_missing, copy_if_missing,
  dir_or, seed_names, templates_seed,
}
use vajra_ai.Templates.Keep.{Effect, templates_seed-Effect}
use vajra_ai.Tests.Json.{Json, str, obj, field, end, json, get_field}

abbrev one_file : FileSystem Bytes
one_file = record {
  stat = λ path content. io_ok record { is_dir = false; st_size = length content };
  read_file = λ path content. io_ok content;
  write_file = λ path text content. (io_ok (length text), text);
  list_dir = λ path content. io_ok (codes "f" ∷ []);
  unlink = λ path content. (none, []);
}

abbrev only_tmp : Allowlist
only_tmp = record {
  command = record { rules = []; enabled = false };
  path = record { rules = codes "/tmp" ∷ []; enabled = true };
  endpoint = record { rules = []; enabled = false };
}

abbrev write_args : Bytes → Json
write_args path =
    obj (field (codes "path") (str path) (field (codes "content") (str (codes "x")) end))

-- A path rule is a prefix, so a path that leaves the directory again is allowed.
write_runs :
    ((file_write_exec json one_file equal (some only_tmp) (write_args (codes "/tmp/../etc/f")) []).1
      ≡ codes "x")
    × ((file_write_exec json one_file equal (some only_tmp) (write_args (codes "/etc/f")) []).1
        ≡ [])
unfolding file_write_exec write_at write_open check_path allowlist_check allowlist_is_enabled
    check_rules rule_matches str_starts_with has_prefix string_arg get_field equal
write_runs = (refl, refl)

execute-Touched_example :
    ((execute json one_file equal (some only_tmp) file_write (write_args (codes "/tmp/f")) []).1
      ≡ [])
    ⊎ Touched json one_file equal
        (some only_tmp)
        (string_arg json (write_args (codes "/tmp/f")) (codes "path"))
        (string_arg json (write_args (codes "/tmp/f")) (codes "content"))
        []
        (execute json one_file equal (some only_tmp) file_write (write_args (codes "/tmp/f")) []).1
execute-Touched_example =
    execute-Touched json one_file equal (some only_tmp) file_write (write_args (codes "/tmp/f")) []

execute-blocked_example :
    execute json one_file equal (some only_tmp) file_read (write_args (codes "/etc/f")) (codes "a")
    ≡ (
      (execute json one_file equal
          (some only_tmp)
          file_read
          (write_args (codes "/etc/f"))
          (codes "b")).0,
      codes "a",
    )
execute-blocked_example =
    execute-blocked json equal (some only_tmp) one_file one_file file_read
      (write_args (codes "/etc/f")) (codes "a") (codes "b")
      (unfold check_path allowlist_check allowlist_is_enabled check_rules rule_matches
          str_starts_with has_prefix string_arg get_field equal in
        refl)

-- A workspace with a SOUL.md of its own, and the templates.
abbrev workspace : FileTable
workspace =
    (codes "w/SOUL.md", codes "mine")
    ∷ (codes "t/SOUL.md", codes "soul")
    ∷ (codes "t/AGENT.md", codes "agent")
    ∷ []

seed_runs :
    let seeded = templates_seed (λ path. true) (some (codes "t")) (some (codes "w")) workspace in
    (content_at seeded (codes "w/SOUL.md") ≡ some (codes "mine"))
    × (content_at seeded (codes "w/AGENT.md") ≡ some (codes "agent"))
    × (content_at seeded (codes "w/TOOLS.md") ≡ none)
unfolding templates_seed seed_names copy_if_missing copy_missing copy_content set_content content_at
    dir_or equal
seed_runs = (refl, refl, refl)

templates_seed-Effect_example :
    Effect
      (λ path. true)
      (dir_or (codes "templates") (some (codes "t")))
      (dir_or (codes ".") (some (codes "w")))
      seeded_names
      workspace
      (codes "w/AGENT.md")
      (content_at workspace (codes "w/AGENT.md"))
      (content_at
        (templates_seed (λ path. true) (some (codes "t")) (some (codes "w")) workspace)
        (codes "w/AGENT.md"))
templates_seed-Effect_example =
    templates_seed-Effect (λ path. true) (some (codes "t")) (some (codes "w")) workspace
      (codes "w/AGENT.md")
