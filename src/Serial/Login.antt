-- ===== src/Serial/Login.antt =====
-- tools/serial/serial_tool.c, `serial_login`: the reads share one deadline, so each takes the events
-- that the one before has left.
use vajra_ai.Prelude.{
  ℕ, suc, ◌-◌, ◌||◌, Option, none, some, List, [], ◌∷◌, ◌++◌, ◌==◌, if◌then◌else◌, length, take,
  drop,
}
use vajra_ai.CString.{Bytes, codes, until_nul}
use vajra_ai.Serial.{Device, int_text}
use vajra_ai.Serial.Read.{Event, read_until, is_match}

-- The result: a status, or the text of an error.
pub data Login : Type 0 where
  skipped already_authenticated logged_in : Login
  failed : Bytes → Login

-- The patterns of the first read; the last one is the shell prompt.
unfoldable pub login_patterns : Device → List Bytes
login_patterns dev =
    let known =
      codes "login:" ∷ codes "Login:" ∷ codes "username:" ∷ codes "Username:" ∷ dev.prompt ∷ [] in
    elim dev.login_prompt [ [] ↦ known | (c ∷ cs) ↦ (c ∷ cs) ∷ known ]

-- The last 200 bytes, as `%.200s` prints them.
unfoldable pub last_bytes : Bytes → Bytes
unfolding until_nul
last_bytes buf = take 200 (until_nul (drop (length buf - 200) buf))

-- An error text in its buffer.
abbrev error_text : Bytes → Login
error_text text = failed (take 511 text)

unfoldable pub no_login_prompt : Device → Bytes → Login
unfolding last_bytes int_text
no_login_prompt dev buf = error_text (
    codes "Login prompt not found within "
    ++ (int_text dev.login_timeout_sec ++ (codes "s. Last: " ++ last_bytes buf)))

unfoldable pub no_password_prompt : Bytes → Login
unfolding last_bytes
no_password_prompt buf =
    error_text (codes "Password prompt not found after sending username. Last: " ++ last_bytes buf)

unfoldable pub no_shell_prompt : Device → Bytes → Login
unfolding last_bytes int_text
no_shell_prompt dev buf = error_text (
    codes "Shell prompt '"
    ++ (dev.prompt
        ++ (codes "' not seen after login within "
            ++ (int_text dev.login_timeout_sec ++ (codes "s. Last: " ++ last_bytes buf)))))

-- The loop over the words of a failure.
unfoldable pub failure : Device → List Bytes → Bytes → Login
unfolding no_shell_prompt is_match last_bytes until_nul
failure dev [] buf = no_shell_prompt dev buf
failure dev (word ∷ words) buf =
    let later = failure dev words buf in
    if is_match (until_nul buf) word
    then error_text (
        codes "Login failed (detected '"
        ++ (word ++ (codes "'). Check credentials. Last: " ++ last_bytes buf)))
    else later

abbrev pub failure_words : List Bytes
failure_words =
    codes "incorrect" ∷ codes "denied" ∷ codes "failed" ∷ codes "invalid" ∷ codes "error" ∷ []

-- What the reads have found, with the lines that have been sent.
abbrev pub at_shell : Device → List Bytes → Option ℕ × Bytes × List Event → Login × List Bytes
at_shell dev sent (some p, buf, events) = (logged_in, sent)
at_shell dev sent (none, buf, events) = (failure dev failure_words buf, sent)

unfoldable pub await_shell : Device → List Bytes → List Event → Login × List Bytes
unfolding read_until failure
await_shell dev sent events = at_shell dev sent (read_until (dev.prompt ∷ []) events [])

abbrev pub at_password : Device → List Bytes → Option ℕ × Bytes × List Event → Login × List Bytes
at_password dev sent (none, buf, events) = (no_password_prompt buf, sent)
at_password dev sent (some p, buf, events) = await_shell dev (sent ++ dev.password ∷ []) events

-- The password of the device, if one is configured.
abbrev pub with_password : Device → List Bytes → List Event → Bytes → Login × List Bytes
with_password dev sent events [] = await_shell dev sent events
with_password dev sent events (c ∷ cs) =
    at_password dev sent (read_until (codes "password:" ∷ codes "Password:" ∷ []) events [])

unfoldable pub await_password : Device → List Bytes → List Event → Login × List Bytes
unfolding read_until await_shell no_password_prompt
await_password dev sent events = with_password dev sent events dev.password

abbrev pub at_login : Device → Option ℕ × Bytes × List Event → Login × List Bytes
at_login dev (none, buf, events) = (no_login_prompt dev buf, [] ∷ [])
at_login dev (some p, buf, events) =
    if suc p == length (login_patterns dev)
    then (already_authenticated, [] ∷ [])
    else await_password dev ([] ∷ dev.username ∷ []) events

-- The result and the lines that are sent.
unfoldable pub serial_login : Device → List Event → Login × List Bytes
unfolding read_until await_password login_patterns no_login_prompt
serial_login dev events =
    if dev.no_login || length dev.username == 0
    then (skipped, [])
    else at_login dev (read_until (login_patterns dev) events [])
