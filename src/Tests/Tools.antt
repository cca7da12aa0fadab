-- ===== src/Tests/Tools.antt =====
-- tools/shell/shell_tool.c, providers/http_client.c, providers/registry.c and history/history.c at
-- concrete inputs.
use vajra_ai.Prelude.{
  ℕ, ◌+◌, ◌≤◌, ◌≡◌, ◌⊎◌, refl, true, none, some, List, [], ◌∷◌, ◌++◌, arith, length,
}
use vajra_ai.Prelude.Int.{ℤ, pos, negsuc}
use vajra_ai.CString.{Bytes, codes, equal, has_prefix, strstr, until_nul, to_lower, equal_nocase}
use vajra_ai.Cjson.{string_arg}
use vajra_ai.Types.StrBuf.{strbuf_init, strbuf_append, put_bytes, grow}
use vajra_ai.Shell.Run.{
  Round, Child, spawned, finished, timeout_note, put_chunk, drain, is_past, end_round, after_drain,
  poll, finish_with, finish, finish_drained, last_drain, shell_run_timed,
}
use vajra_ai.Shell.Bounds.{output_bound, shell_run_timed-bounded}
use vajra_ai.Shell.Gate.{Refused, Started, shell_execute-Started}
use vajra_ai.Shell.{shell_execute}
use vajra_ai.Http.{Request, Transfer, delivered, http_post_json_auth_ex}
use vajra_ai.Http.Body.{whole_response, http_post_json_auth_ex-whole_response}
use vajra_ai.Providers.{
  providers, groq, openai, detects, first_spec, key_matches, url_matches, registry_detect,
  registry_find_by_name,
}
use vajra_ai.Providers.Detect.{IsFirst, registry_detect-IsFirst}
use vajra_ai.HistoryLog.{
  history_create, detect_last_date, date_lines, date_line, ensure_file, date_heading, entry_text,
  category_name, bullet,
}
use vajra_ai.HistoryLog.Entries.{lines_of, Event, log_all, sections, final_date, log_all-sections}
use vajra_ai.Files.{fgets_lines, chunks}
use vajra_ai.Tests.Json.{Json, str, obj, field, end, json}
use vajra_ai.Tests.Security.{only_ls}

-- A command that writes twice, and does not end within its second.
abbrev rounds : List Round
rounds =
    record { output = codes "a" ∷ codes "b" ∷ []; exit_status = none; now_sec = 7; now_nsec = 5 }
    ∷ record { output = []; exit_status = none; now_sec = 8; now_nsec = 0 }
    ∷ []

run_runs :
    shell_run_timed (spawned 7 0 rounds (codes "c" ∷ [])) 1
    ≡ some (finished (codes "abc" ++ timeout_note) (negsuc 0))
unfolding shell_run_timed poll drain put_chunk is_past end_round after_drain last_drain finish
    finish_with finish_drained strbuf_init strbuf_append put_bytes grow until_nul
run_runs = refl

shell_run_timed-bounded_example :
    (output : Bytes) × (code : ℤ) × (shell_run_timed (spawned 7 0 rounds (codes "c" ∷ [])) 1
      ≡ some (finished output code))
    × (length output ≤ output_bound)
shell_run_timed-bounded_example =
    shell_run_timed-bounded 7 0 1 rounds (codes "c" ∷ []) (unfold is_past in refl)

-- The world counts the commands that are started.
abbrev spawn : Bytes → ℕ → Child × ℕ
spawn command n = (spawned 7 0 rounds [], n + 1)

abbrev rm_args : Json
rm_args = obj (field (codes "command") (str (codes "rm x")) end)

shell_execute-Started_example :
    Refused 0 (shell_execute json equal (some only_ls) spawn rm_args 0)
    ⊎ Started json equal
        (some only_ls)
        spawn
        (string_arg json rm_args (codes "command"))
        0
        (shell_execute json equal (some only_ls) spawn rm_args 0)
shell_execute-Started_example = shell_execute-Started json equal (some only_ls) spawn rm_args 0

-- A key of OpenAI with a URL of Groq means Groq, which stands further up in the table.
detect_runs :
    (registry_detect (some (codes "sk-1")) (some (codes "https://api.groq.com")) ≡ some groq)
    × (registry_detect (some (codes "sk-1")) none ≡ some openai)
    × (registry_find_by_name (some (codes "OpenAI")) ≡ some openai)
unfolding registry_detect registry_find_by_name first_spec key_matches url_matches has_prefix strstr
    equal_nocase to_lower
detect_runs = (refl, refl, refl)

registry_detect-IsFirst_example :
    IsFirst
      (detects (some (codes "sk-1")) none)
      providers
      (registry_detect (some (codes "sk-1")) none)
registry_detect-IsFirst_example = registry_detect-IsFirst (some (codes "sk-1")) none

abbrev curl : Request → Transfer
curl r = delivered (codes "{" ∷ codes "}" ∷ []) 200

http_post_json_auth_ex-whole_response_example :
    http_post_json_auth_ex curl (codes "http://x") (codes "{}") none none (pos 0)
    ≡ some (whole_response 200 (codes "{" ∷ codes "}" ∷ []))
http_post_json_auth_ex-whole_response_example =
    http_post_json_auth_ex-whole_response curl (codes "http://x") (codes "{}") none none (pos 0) 200
      (codes "{" ∷ codes "}" ∷ []) (λ r. refl) (omega arith) (omega arith)

abbrev event : Event
event = record {
  date = codes "2025-01-02";
  ts = codes "10:00:00";
  category = pos 0;
  title = codes "Start";
  details = some (codes "model: m");
}

log_all-sections_example :
    log_all (event ∷ event ∷ []) (some record { file = some (codes "x"); last_date = [] })
    ≡ some record {
      file = some (codes "x" ++ sections [] (event ∷ event ∷ []));
      last_date = final_date [] (event ∷ event ∷ []);
    }
log_all-sections_example = log_all-sections (event ∷ event ∷ []) (codes "x") [] refl

-- After a restart the last date is found again.
restart_runs :
    (history_create true (some (sections [] (event ∷ [])))).last_date ≡ codes "2025-01-02"
unfolding history_create ensure_file detect_last_date date_lines date_line fgets_lines chunks
    until_nul has_prefix date_heading entry_text category_name lines_of bullet equal
restart_runs = refl
