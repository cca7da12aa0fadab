-- ===== src/Tests/Serial.antt =====
-- tools/serial/serial_tool.c
use vajra_ai.Prelude.{◌≡◌, refl, true, some, none, List, [], ◌∷◌, arith}
use vajra_ai.Prelude.Int.{pos}
use vajra_ai.CString.{Bytes, codes, equal, strstr, strchr, until_nul}
use vajra_ai.Config.{atoi}
use vajra_ai.Files.{fgets_lines}
use vajra_ai.Serial.{Device, default_device, device_lookup}
use vajra_ai.Serial.Ansi.{strip_ansi, IsTextOf, IsStripped, strip_ansi-IsStripped}
use vajra_ai.Serial.Read.{Event, quiet, came, read_until, IsRead, read_until-IsRead}
use vajra_ai.Serial.Login.{logged_in, serial_login}
use vajra_ai.Serial.Sent.{Sent, serial_login-Sent}
use vajra_ai.Serial.Command
use vajra_ai.Serial.Command.{CmdResult, run_one_command}
use vajra_ai.Serial.Execute.{Session, serial_execute}
use vajra_ai.Tests.Json.{str, obj, field, end, json, get_field}

abbrev coloured : Bytes
coloured = codes "a\u{1b}[1;32mb\u{1b}(Bc\u{1b}"

strip_runs : strip_ansi coloured ≡ codes "abc"
unfolding strip_ansi
strip_runs = refl

strip_ansi-IsStripped_example :
    IsTextOf coloured (strip_ansi coloured)
    × IsStripped coloured (strip_ansi coloured)
    × (strip_ansi (strip_ansi coloured) ≡ strip_ansi coloured)
strip_ansi-IsStripped_example = strip_ansi-IsStripped coloured

-- A sequence that two reads share leaves its end in the output.
split_runs :
    read_until (codes "#" ∷ []) (came (codes "a\u{1b}[1") ∷ came (codes ";32mb#") ∷ []) []
    ≡ (some 0, codes "a;32mb#", [])
unfolding read_until strstr until_nul
split_runs = refl

read_until-IsRead_example :
    IsRead (codes "#" ∷ []) (read_until (codes "#" ∷ []) (quiet ∷ came (codes "b#") ∷ []) [])
read_until-IsRead_example =
    read_until-IsRead (codes "#" ∷ []) (quiet ∷ came (codes "b#") ∷ []) [] (omega arith)

abbrev conf : Bytes
conf =
    codes "; boards\n[m1]\nport = /dev/t\nbaud=9600\nusername =root\n password= pw\nno_login=no\n"

abbrev board : Device
board = record (default_device (codes "m1")) {
  port = codes "/dev/t";
  baud = pos 9600;
  username = codes "root";
  password = codes "pw";
}

lookup_runs : device_lookup (λ v. pos 0) (some conf) (codes "m1") ≡ some board
unfolding device_lookup default_device equal strchr fgets_lines atoi
lookup_runs = refl

abbrev dialogue : List Event
dialogue =
    came (codes "m1 login: ") ∷ quiet ∷ came (codes "Password: ") ∷ came (codes "\r\nroot# ") ∷ []

login_runs : serial_login board dialogue ≡ (logged_in, [] ∷ codes "root" ∷ codes "pw" ∷ [])
unfolding serial_login default_device strstr until_nul
login_runs = refl

serial_login-Sent_example : Sent board dialogue (serial_login board dialogue)
serial_login-Sent_example = serial_login-Sent board dialogue

-- The echo is left out, and the prompt is not, since a blank stands behind it.
command_runs :
    run_one_command (codes "ls") (codes "#") true (came (codes "ls\r\na\r\nb\r\n# ") ∷ [])
    ≡ record { command = codes "ls"; output = codes "a\nb\n#"; status = Command.Status.ok }
unfolding run_one_command strstr until_nul equal
command_runs = refl

-- An empty command takes the first line of the output for its echo.
empty_runs :
    run_one_command [] (codes "#") true (came (codes "a\r\nb\r\n#") ∷ [])
    ≡ record { command = []; output = codes "b"; status = Command.Status.ok }
unfolding run_one_command strstr until_nul equal
empty_runs = refl

abbrev session : Session
session = record {
  conf_path = codes "d.conf";
  conf = some conf;
  delay_of = λ v. pos 0;
  port =
      λ p. record { stat_error = none; is_character = true; open_error = none; tty_error = none };
  at_login = dialogue;
  replies = [];
  elapsed_ms = pos 7;
}

-- The small printer shows only texts, so an answer that is an object is not shown.
missing_runs :
    serial_execute json session (obj (field (codes "device") (str (codes "m2")) end)) ≡ none
unfolding serial_execute device_lookup get_field equal strchr fgets_lines atoi
missing_runs = refl
