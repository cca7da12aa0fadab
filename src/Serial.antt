-- ===== src/Serial.antt =====
-- tools/serial/serial_tool.c: the profiles of device.conf, the baud rates, and how a port is opened.
-- A size of a text array is written as the bytes that it holds before its NUL.
pub mod Ansi
pub mod Read
pub mod Login
pub mod Sent
pub mod Command
pub mod Execute
use vajra_ai.Prelude.{
  ℕ, zero, suc, ◌+◌, Bool, true, false, not, ◌||◌, Option, none, some, List, [], ◌∷◌, ◌++◌, ltb,
  leb, ◌==◌, if◌then◌else◌, length, take,
}
use vajra_ai.Prelude.Int.{ℤ, pos, negsuc}
use vajra_ai.CString.{Bytes, codes, equal, strchr}
use vajra_ai.CString.Number.{decimal}
use vajra_ai.Files.{fgets_lines}
use vajra_ai.Config.{atoi}

-- SERIAL_MAX_DEVICES
abbrev pub max_devices : ℕ
max_devices = 64

-- `serial_device_t`
pub record Device : Type 0 where
  pub name : Bytes
  pub port : Bytes
  pub baud : ℤ
  pub username : Bytes
  pub password : Bytes
  pub login_prompt : Bytes
  pub prompt : Bytes
  pub no_login : Bool
  pub timeout_sec : ℤ
  pub login_timeout_sec : ℤ
  pub inter_cmd_delay_ms : ℤ

-- A profile of a name, with the defaults.
unfoldable pub default_device : Bytes → Device
default_device name = record {
  name = take 63 name;
  port = [];
  baud = pos 115200;
  username = [];
  password = [];
  login_prompt = [];
  prompt = codes "#";
  no_login = false;
  timeout_sec = pos 10;
  login_timeout_sec = pos 30;
  inter_cmd_delay_ms = pos 300;
}

-- while (test(*s)) s++, and the like at the end of a text.
unfoldable pub skip_while : (ℕ → Bool) → Bytes → Bytes
skip_while test [] = []
skip_while test (c ∷ cs) = if test c then skip_while test cs else c ∷ cs

abbrev put_front : (ℕ → Bool) → ℕ → Bytes → Bytes
put_front test c [] = if test c then [] else c ∷ []
put_front test c (x ∷ xs) = c ∷ x ∷ xs

unfoldable pub strip_while : (ℕ → Bool) → Bytes → Bytes
strip_while test [] = []
strip_while test (c ∷ cs) = put_front test c (strip_while test cs)

abbrev pub is_blank : ℕ → Bool
is_blank c = c == b' ' || c == b'\t'

abbrev pub is_newline : ℕ → Bool
is_newline c = c == b'\n' || c == b'\r'

-- The blanks at the end of a key, whose first byte stays.
unfoldable pub trim_key : Bytes → Bytes
unfolding strip_while
trim_key [] = []
trim_key (c ∷ cs) = c ∷ strip_while is_blank cs

abbrev is_yes : Bytes → Bool
is_yes val = equal val (codes "true") || (equal val (codes "1") || equal val (codes "yes"))

-- A key of a section. `delay_of` is (int)(atof(val) * 1000.0).
unfoldable pub put_field : (Bytes → ℤ) → Bytes → Bytes → Device → Device
unfolding equal atoi
put_field delay_of key val d =
    if equal key (codes "port")
    then record d { port = take 255 val }
    else if equal key (codes "baud")
    then record d { baud = atoi val }
    else if equal key (codes "username")
    then record d { username = take 255 val }
    else if equal key (codes "password")
    then record d { password = take 255 val }
    else if equal key (codes "login_prompt")
    then record d { login_prompt = take 255 val }
    else if equal key (codes "prompt")
    then record d { prompt = take 255 val }
    else if equal key (codes "no_login")
    then record d { no_login = is_yes val }
    else if equal key (codes "timeout")
    then record d { timeout_sec = atoi val }
    else if equal key (codes "login_timeout")
    then record d { login_timeout_sec = atoi val }
    else if equal key (codes "inter_cmd_delay")
    then record d { inter_cmd_delay_ms = delay_of val }
    else d

-- The profiles before, and the one that is read, if there is one.
abbrev pub Profiles : Type 0
Profiles = List Device × Option Device

abbrev pub finished : Profiles → List Device
finished (ds, none) = ds
finished (ds, some d) = ds ++ d ∷ []

abbrev with_field : (Bytes → ℤ) → Profiles → Option (Bytes × Bytes) → Profiles
with_field delay_of (ds, none) at_eq = (ds, none)
with_field delay_of (ds, some d) none = (ds, some d)
with_field delay_of (ds, some d) (some (key, val)) =
    (ds, some (put_field delay_of (trim_key (skip_while is_blank key)) (skip_while is_blank val) d))

-- A heading behind its bracket: the profiles, or `none` where the table is full and the loop ends.
abbrev with_section : Profiles → Option (Bytes × Bytes) → Option Profiles
with_section ps none = some ps
with_section ps (some (name, _)) =
    if leb max_devices (length (finished ps))
    then none
    else some (finished ps, some (default_device name))

unfoldable pub conf_line : (Bytes → ℤ) → Bytes → Profiles → Option Profiles
unfolding put_field trim_key skip_while default_device strchr
conf_line delay_of [] ps = some ps
conf_line delay_of (c ∷ cs) ps =
    if c == b'#' || c == b';'
    then some ps
    else if c == b'['
    then with_section ps (strchr cs b']')
    else some (with_field delay_of ps (strchr (c ∷ cs) b'='))

unfoldable pub conf_lines : (Bytes → ℤ) → List Bytes → Profiles → List Device
unfolding conf_line skip_while strip_while
conf_lines delay_of [] ps = finished ps
conf_lines delay_of (line ∷ lines) ps =
    elim (conf_line delay_of (strip_while is_newline (skip_while is_blank line)) ps) [
      | none ↦ finished ps
      | some ps' ↦ conf_lines delay_of lines ps'
    ]

-- The file's content, or `none` where it does not open.
unfoldable pub parse_device_conf : (Bytes → ℤ) → Option Bytes → List Device
unfolding conf_lines fgets_lines
parse_device_conf delay_of none = []
parse_device_conf delay_of (some content) = conf_lines delay_of (fgets_lines 511 content) ([], none)

unfoldable pub find_device : Bytes → List Device → Option Device
unfolding equal
find_device name [] = none
find_device name (d ∷ ds) = if equal d.name name then some d else find_device name ds

unfoldable pub device_lookup : (Bytes → ℤ) → Option Bytes → Bytes → Option Device
unfolding find_device parse_device_conf
device_lookup delay_of conf [] = none
device_lookup delay_of conf (c ∷ cs) = find_device (c ∷ cs) (parse_device_conf delay_of conf)

-- `%d`
unfoldable pub int_text : ℤ → Bytes
unfolding decimal
int_text (pos n) = decimal n
int_text (negsuc n) = b'-' ∷ decimal (n + 1)

abbrev is_rate : ℕ → List ℕ → Bool
is_rate n [] = false
is_rate n (r ∷ rs) = n == r || is_rate n rs

-- Is there a termios constant for a rate? Those of Linux.
unfoldable pub is_baud : ℤ → Bool
is_baud (negsuc _) = false
is_baud (pos n) = is_rate n (
    50 ∷ 75 ∷ 110 ∷ 134 ∷ 150 ∷ 200 ∷ 300 ∷ 600 ∷ 1200 ∷ 1800 ∷ 2400 ∷ 4800 ∷ 9600 ∷ 19200 ∷ 38400
    ∷ 57600 ∷ 115200 ∷ 230400 ∷ 460800 ∷ 921600 ∷ [])

-- What the system answers for a port: stat() with the text of its error, S_ISCHR, and open() and
-- tcsetattr() with the texts of theirs.
pub record Port : Type 0 where
  pub stat_error : Option Bytes
  pub is_character : Bool
  pub open_error : Option Bytes
  pub tty_error : Option Bytes

abbrev port_error : Bytes → Bytes → Bytes → Bytes → Bytes
port_error before path between text = before ++ (path ++ (between ++ text))

abbrev tty_set : Bytes → Option Bytes → Option Bytes
tty_set path none = none
tty_set path (some text) = some (port_error (codes "tcsetattr failed on ") path (codes ": ") text)

abbrev opened : Port → Bytes → Option Bytes → Option Bytes
opened p path none = tty_set path p.tty_error
opened p path (some text) = some (
    port_error (codes "Cannot open ") path (codes ": ") text
    ++ (b' ' ∷ 0xe2 ∷ 0x80 ∷ 0x94 ∷ codes " try: sudo chmod a+rw " ++ path))

abbrev is_device : Port → Bytes → ℤ → Option Bytes → Option Bytes
is_device p path baud (some text) =
    some (port_error (codes "Device not found: ") path (codes " (") (text ++ codes ")"))
is_device p path baud none =
    if not p.is_character
    then some (path ++ codes " is not a character device")
    else if not (is_baud baud)
    then some (codes "Unsupported baud rate: " ++ int_text baud)
    else opened p path p.open_error

abbrev capped : Option Bytes → Option Bytes
capped none = none
capped (some text) = some (take 511 text)

-- The text of an error, or `none` where the port is open.
unfoldable pub serial_open : Port → Bytes → ℤ → Option Bytes
unfolding is_baud int_text
serial_open p path baud = capped (is_device p path baud p.stat_error)
