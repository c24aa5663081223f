-- ===== src/Tests/Programs.antt =====
-- The program: its supervisor and its log.
use ubgp.Base.{Option, ℕ, ◌≡◌, ok, refl, Bool, true, false, none, some, List, [], ◌∷◌}
use ubgp.Net.IpNet.Concrete.{Cidr, cidr}
use ubgp.Supervisor.{Workers, workers_start, returned, Happening, hangup, terminated, up, supervise}
use ubgp.Supervisor.Quiesces.{IsQuiet, AreEnded, supervise-IsQuiet}
use ubgp.Syslog.{Priority, warn_level, log_event}
use ubgp.Syslog.Emits.{joined, IsMessage, log_event-emits}
use ubgp.Tests.Data.{router_a}
use ubgp.Tests.Configuration.{router_a_valid}

-- Nothing runs before the first start.
abbrev nobody : Workers
nobody = record { kernel = false; bgp = false; console = false; stop = false }

nobody-AreEnded : AreEnded nobody
nobody-AreEnded = record { kernel_ended = refl; bgp_ended = refl; console_ended = refl }

-- A reload that cannot be parsed, one that can, and the end.
abbrev signals : List (Bool × Happening Cidr)
signals =
    (true, hangup none returned)
    ∷ (true, hangup (some router_a) returned)
    ∷ (true, terminated returned)
    ∷ []

supervise-IsQuiet_example : IsQuiet (supervise signals (up router_a workers_start nobody))
supervise-IsQuiet_example =
    supervise-IsQuiet signals (up router_a workers_start nobody)
      (router_a_valid, refl, nobody-AreEnded)

-- Two writes with a NUL in the second.
abbrev writes : List (List ℕ)
writes = (72 ∷ 105 ∷ []) ∷ (0 ∷ 10 ∷ []) ∷ []

log_event-emits_example :
    (emitted : Option (Priority × List ℕ)) × (log_event warn_level writes ≡ ok emitted)
    × IsMessage warn_level (joined writes) emitted
log_event-emits_example = log_event-emits warn_level writes
