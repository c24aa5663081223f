-- ===== src/Cli/Forms.antt =====
-- The forms of the options.
use ubgp.Base.{◌≢◌, Bool, true, false, List, [], ◌∷◌, ◌++◌, Str, Result, ok, err, message}
use ubgp.Cli.{Run, Command, help, version, run}

-- One option. `true` is the short form of its name.
pub data Asked : Type 0 where
  daemon_by : Bool → Asked
  debug_asked check_asked : Asked
  path_by : Bool → Str → Asked
  joined_path : Str → Asked

-- "-d" and "--daemon"
abbrev daemon_word : Bool → Str
daemon_word true = 45 ∷ 100 ∷ []
daemon_word false = 45 ∷ 45 ∷ 100 ∷ 97 ∷ 101 ∷ 109 ∷ 111 ∷ 110 ∷ []

-- "-c" and "--config"
abbrev config_word : Bool → Str
config_word true = 45 ∷ 99 ∷ []
config_word false = 45 ∷ 45 ∷ 99 ∷ 111 ∷ 110 ∷ 102 ∷ 105 ∷ 103 ∷ []

-- "-h" and "--help"
abbrev help_word : Bool → Str
help_word true = 45 ∷ 104 ∷ []
help_word false = 45 ∷ 45 ∷ 104 ∷ 101 ∷ 108 ∷ 112 ∷ []

-- "-V" and "--version"
abbrev version_word : Bool → Str
version_word true = 45 ∷ 86 ∷ []
version_word false = 45 ∷ 45 ∷ 118 ∷ 101 ∷ 114 ∷ 115 ∷ 105 ∷ 111 ∷ 110 ∷ []

-- "--debug"
abbrev debug_word : Str
debug_word = 45 ∷ 45 ∷ 100 ∷ 101 ∷ 98 ∷ 117 ∷ 103 ∷ []

-- "--check-config"
abbrev check_word : Str
check_word = 45 ∷ 45 ∷ 99 ∷ 104 ∷ 101 ∷ 99 ∷ 107 ∷ 45 ∷ 99 ∷ 111 ∷ 110 ∷ 102 ∷ 105 ∷ 103 ∷ []

-- "--config="
abbrev joined_word : Str
joined_word = 45 ∷ 45 ∷ 99 ∷ 111 ∷ 110 ∷ 102 ∷ 105 ∷ 103 ∷ 61 ∷ []

-- The arguments of an option, before others.
pub words : Asked → List Str → List Str
words (daemon_by is_short) args = daemon_word is_short ∷ args
words debug_asked args = debug_word ∷ args
words check_asked args = check_word ∷ args
words (path_by is_short path) args = config_word is_short ∷ path ∷ args
words (joined_path path) args = (joined_word ++ path) ∷ args

pub all_words : List Asked → List Str → List Str
all_words [] args = args
all_words (a ∷ asked) args = words a (all_words asked args)

-- A path of its own is not empty and starts with no dash; one behind "--config=" is not empty.
abbrev IsPath : Str → Type 0
IsPath [] = ⊥
IsPath (b ∷ bytes) = b ≢ 45

abbrev IsJoined : Str → Type 0
IsJoined [] = ⊥
IsJoined (b ∷ bytes) = Unit

abbrev pub IsAsked : Asked → Type 0
IsAsked (path_by is_short path) = IsPath path
IsAsked (joined_path path) = IsJoined path
IsAsked (daemon_by is_short) = Unit
IsAsked debug_asked = Unit
IsAsked check_asked = Unit

-- What an option sets.
unfoldable pub set : Asked → Run → Run
set (daemon_by is_short) r = record r { daemon = true }
set debug_asked r = record r { debug = true }
set check_asked r = record r { check = true }
set (path_by is_short path) r = record r { path = path }
set (joined_path path) r = record r { path = path }

unfoldable pub set_all : List Asked → Run → Run
set_all [] r = r
set_all (a ∷ asked) r = set_all asked (set a r)

-- No flags, and "/etc/ubgp.toml".
abbrev pub defaults : Run
defaults = record {
  path = 47 ∷ 101 ∷ 116 ∷ 99 ∷ 47 ∷ 117 ∷ 98 ∷ 103 ∷ 112 ∷ 46 ∷ 116 ∷ 111 ∷ 109 ∷ 108 ∷ [];
  daemon = false;
  debug = false;
  check = false;
}

-- How the arguments end: with the options, with a question that hides what follows it, or with a
-- path option without a path.
pub data Ending : Type 0 where
  no_more : Ending
  asks_help asks_version : Bool → List Str → Ending
  path_missing : Bool → Ending
  path_dashed : Bool → Str → List Str → Ending
  path_empty : List Str → Ending

pub last_words : Ending → List Str
last_words no_more = []
last_words (asks_help is_short rest) = help_word is_short ∷ rest
last_words (asks_version is_short rest) = version_word is_short ∷ rest
last_words (path_missing is_short) = config_word is_short ∷ []
last_words (path_dashed is_short value rest) = config_word is_short ∷ (45 ∷ value) ∷ rest
last_words (path_empty rest) = joined_word ∷ rest

unfoldable pub answer : Ending → Run → Result Command
answer no_more r = ok (run r)
answer (asks_help is_short rest) r = ok help
answer (asks_version is_short rest) r = ok version
answer (path_missing is_short) r = err (message "--config requires a path")
answer (path_dashed is_short value rest) r = err (message "--config requires a path")
answer (path_empty rest) r = err (message "--config requires a path")
