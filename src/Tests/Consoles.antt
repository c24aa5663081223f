-- ===== src/Tests/Consoles.antt =====
-- The management console.
use ubgp.Base.{ℕ, ◌≡◌, refl, Bool, true, false, Option, none, List, [], ◌∷◌, ◌++◌, Str, arith}
use ubgp.Base.Ensures.{Checks}
use ubgp.Net.IpNet.Concrete.{Cidr, cidr}
use ubgp.Management.{statuses}
use ubgp.Management.Line.{Output, line}
use ubgp.Management.Line.Bounds.{Reads, line-Reads}
use ubgp.Management.Line.Plain.{Gives, line-Gives}
use ubgp.Management.Console.{View, split_whitespace}
use ubgp.Tests.Data.{router_a, routes, out}

abbrev nothing_written : Output ℕ
nothing_written = record { written = []; writes = 0 }

abbrev healthy : ℕ → Bool
healthy n = true

-- IAC, WILL, 1, then "hi" and CR, LF.
abbrev typed : List ℕ
typed = 255 ∷ 251 ∷ 1 ∷ 104 ∷ 105 ∷ 13 ∷ 10 ∷ []

line-Reads_example :
    Checks
      (Reads healthy typed 8193 nothing_written)
      (line healthy true typed false nothing_written)
line-Reads_example = line-Reads healthy true typed false nothing_written

-- "quit"
abbrev quit : List ℕ
quit = 113 ∷ 117 ∷ 105 ∷ 116 ∷ []

line-Gives_example :
    Gives healthy quit
      (10 ∷ [])
      nothing_written
      (line healthy true (quit ++ (13 ∷ 10 ∷ [])) false nothing_written)
    × Gives healthy quit
        (10 ∷ [])
        nothing_written
        (line healthy true (10 ∷ (quit ++ (13 ∷ 10 ∷ []))) true nothing_written)
line-Gives_example =
    line-Gives healthy true quit (10 ∷ []) false nothing_written
      (omega arith, (refl, (refl, (refl, (refl, tt)))))

abbrev view : ℕ → View Cidr
view n = record { now = n; statuses = statuses 0 router_a; exports = (out, routes) ∷ [] }

-- No prefix is understood.
abbrev no_prefix : Str → Option Cidr
no_prefix text = none

-- "hi", a space, a tab, and "p"
words_split :
    split_whitespace (104 ∷ 105 ∷ 32 ∷ 9 ∷ 112 ∷ []) ≡ ((104 ∷ 105 ∷ []) ∷ (112 ∷ []) ∷ [])
unfolding split_whitespace
words_split = refl
