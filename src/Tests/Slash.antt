-- ===== src/Tests/Slash.antt =====
-- ux/slash_commands.c and heartbeat/heartbeat.c
use vajra_ai.Prelude.{
  ◌≡◌, refl, ℕ, zero, suc, ◌+◌, true, false, Option, some, none, List, [], ◌∷◌, take,
}
use vajra_ai.Prelude.Int.{pos}
use vajra_ai.CString.{Bytes, codes, equal, has_prefix}
use vajra_ai.CString.Number.{decimal}
use vajra_ai.Types.{str_trim}
use vajra_ai.Skills
use vajra_ai.Gateway
use vajra_ai.SlashCommands.{SlashCtx, slash_handle}
use vajra_ai.SlashCommands.Bounds.{Answer, slash_handle-Answer}
use vajra_ai.Heartbeat.{max_checks, Check, heartbeat_create, run_checks, heartbeat_thread}
use vajra_ai.Heartbeat.Rounds.{add_checks, RoundOf, run_checks-add_checks}
use vajra_ai.Tests.Json.{Json}
use vajra_ai.Tests.Agent.{one_tool}

abbrev host : Gateway.Host
host = record { open_file = λ p. none; getenv = λ v. none; popen = λ c. none }

abbrev disk : Skills.Host
disk = record {
  system_ok = λ c. true;
  getenv = λ v. none;
  entries = λ d. none;
  is_dir = λ p. false;
  exists = λ p. false;
  read = λ p. none;
}

abbrev ctx : SlashCtx Json ℕ
ctx = record {
  agent = none;
  provider = some (codes "ollama", codes "qwen");
  scheduler = none;
  skills = none;
}

model_runs :
    slash_handle host disk 99 one_tool ctx (some (codes "/model "))
    ≡ some (codes "Model: qwen (ollama)\n", ctx)
unfolding slash_handle str_trim equal has_prefix
model_runs = refl

-- Any line that begins with /model is one.
models_runs :
    slash_handle host disk 99 one_tool ctx (some (codes "/models"))
    ≡ some (codes "Set model = s in aham.conf and restart.\n", ctx)
unfolding slash_handle str_trim equal has_prefix
models_runs = refl

cut_runs :
    slash_handle host disk 7 one_tool ctx (some (codes "/usage")) ≡ some (codes "Message", ctx)
unfolding slash_handle str_trim equal has_prefix decimal
cut_runs = refl

slash_handle-Answer_example :
    Answer disk 7 ctx
      (some (codes "/usage"))
      (slash_handle host disk 7 one_tool ctx (some (codes "/usage")))
slash_handle-Answer_example = slash_handle-Answer host disk 7 one_tool ctx (some (codes "/usage"))

-- A check that counts, and speaks where it finds the count below two.
abbrev low : ℕ → Option Bytes
low zero = some (codes "low")
low (suc zero) = some (codes "low")
low (suc (suc n)) = none

abbrev count : Check ℕ
count = record { name = codes "count"; fn = λ w. (low w, w + 1) }

abbrev counts : ℕ → List (Check ℕ)
counts zero = []
counts (suc n) = count ∷ counts n

-- Each message adds ten.
abbrev notify : Option (Bytes → ℕ → ℕ)
notify = some (λ msg w. w + 10)

-- The flag is cleared during the second sleep.
thread_runs :
    heartbeat_thread
      (record (add_checks (heartbeat_create (pos 0)) (counts 2)) { notify = notify })
      ((true, true) ∷ (true, false) ∷ (true, true) ∷ [])
      0
    ≡ 12
unfolding heartbeat_thread add_checks heartbeat_create
thread_runs = refl

run_checks-add_checks_example :
    RoundOf notify
      (take max_checks (counts 17))
      0
      (run_checks notify (add_checks (heartbeat_create (pos 0)) (counts 17)).checks 0)
run_checks-add_checks_example = run_checks-add_checks (pos 0) (counts 17) notify 0
