-- ===== src/Cli.antt =====
-- The command line, src/cli.rs. An argument is its bytes.
pub mod Forms
use ubgp.Base.{
  ℕ, Bool, true, false, not, ◌&&◌, ◌||◌, Option, none, some, List, [], ◌∷◌, Str, str_eq, same,
  is_empty, if◌then◌else◌, Result, ok, err, message, ◌==◌,
}

-- "--help"
abbrev pub help_long : Str
help_long = 45 ∷ 45 ∷ 104 ∷ 101 ∷ 108 ∷ 112 ∷ []

-- "-h"
abbrev pub help_short : Str
help_short = 45 ∷ 104 ∷ []

-- "--version"
abbrev pub version_long : Str
version_long = 45 ∷ 45 ∷ 118 ∷ 101 ∷ 114 ∷ 115 ∷ 105 ∷ 111 ∷ 110 ∷ []

-- "-V"
abbrev pub version_short : Str
version_short = 45 ∷ 86 ∷ []

-- "--daemon"
abbrev pub daemon_long : Str
daemon_long = 45 ∷ 45 ∷ 100 ∷ 97 ∷ 101 ∷ 109 ∷ 111 ∷ 110 ∷ []

-- "-d"
abbrev pub daemon_short : Str
daemon_short = 45 ∷ 100 ∷ []

-- "--debug"
abbrev pub debug_long : Str
debug_long = 45 ∷ 45 ∷ 100 ∷ 101 ∷ 98 ∷ 117 ∷ 103 ∷ []

-- "--check-config"
abbrev pub check_long : Str
check_long = 45 ∷ 45 ∷ 99 ∷ 104 ∷ 101 ∷ 99 ∷ 107 ∷ 45 ∷ 99 ∷ 111 ∷ 110 ∷ 102 ∷ 105 ∷ 103 ∷ []

-- "--config"
abbrev pub config_long : Str
config_long = 45 ∷ 45 ∷ 99 ∷ 111 ∷ 110 ∷ 102 ∷ 105 ∷ 103 ∷ []

-- "-c"
abbrev pub config_short : Str
config_short = 45 ∷ 99 ∷ []

-- "--config="
abbrev pub config_prefix : Str
config_prefix = 45 ∷ 45 ∷ 99 ∷ 111 ∷ 110 ∷ 102 ∷ 105 ∷ 103 ∷ 61 ∷ []

-- "/etc/ubgp.toml"
abbrev pub default_path : Str
default_path = 47 ∷ 101 ∷ 116 ∷ 99 ∷ 47 ∷ 117 ∷ 98 ∷ 103 ∷ 112 ∷ 46 ∷ 116 ∷ 111 ∷ 109 ∷ 108 ∷ []

-- The fields of `Command::Run`, which are the locals of the loop too.
pub record Run : Type 0 where
  pub path : Str
  pub daemon : Bool
  pub debug : Bool
  pub check : Bool

pub data Command : Type 0 where
  help version : Command
  run : Run → Command

abbrev pub run_start : Run
run_start = record { path = default_path; daemon = false; debug = false; check = false }

-- `strip_prefix`
pub strip_prefix : Str → Str → Option Str
strip_prefix [] arg = some arg
strip_prefix (p ∷ ps) [] = none
strip_prefix (p ∷ ps) (a ∷ as_bytes) = if p == a then strip_prefix ps as_bytes else none

abbrev pub starts_with_dash : Str → Bool
starts_with_dash [] = false
starts_with_dash (a ∷ rest) = a == 45

-- The arms of the `match` on an argument.
pub data Arm : Type 0 where
  help_arm version_arm daemon_arm debug_arm check_arm config_arm unknown_arm : Arm
  prefix_arm : Str → Arm

abbrev pub prefix_or_unknown : Option Str → Arm
prefix_or_unknown none = unknown_arm
prefix_or_unknown (some value) = prefix_arm value

pub arm_of : Str → Arm
arm_of arg =
    if same arg help_long || same arg help_short
    then help_arm
    else if same arg version_long || same arg version_short
    then version_arm
    else if same arg daemon_long || same arg daemon_short
    then daemon_arm
    else if same arg debug_long
    then debug_arm
    else if same arg check_long
    then check_arm
    else if same arg config_long || same arg config_short
    then config_arm
    else prefix_or_unknown (strip_prefix config_prefix arg)

-- What an arm does; `go` is the rest of the loop, which first takes a path when its flag is set.
pub run_arm : Arm → (Bool → Run → Result Command) → Run → Result Command
run_arm help_arm go s = ok help
run_arm version_arm go s = ok version
run_arm daemon_arm go s = go false (record s { daemon = true })
run_arm debug_arm go s = go false (record s { debug = true })
run_arm check_arm go s = go false (record s { check = true })
run_arm config_arm go s = go true s
run_arm unknown_arm go s = err (message "unknown argument")
run_arm (prefix_arm value) go s =
    if not (is_empty value)
    then go false (record s { path = value })
    else err (message "--config requires a path")

pub parse_from : Bool → Run → List Str → Result Command
parse_from true s [] = err (message "--config requires a path")
parse_from true s (value ∷ args) =
    if not (is_empty value) && not (starts_with_dash value)
    then parse_from false (record s { path = value }) args
    else err (message "--config requires a path")
parse_from false s [] = ok (run s)
parse_from false s (arg ∷ args) =
    run_arm (arm_of arg) (λ path_next s'. parse_from path_next s' args) s

pub parse : List Str → Result Command
parse args = parse_from false run_start args
