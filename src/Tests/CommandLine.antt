-- ===== src/Tests/CommandLine.antt =====
-- The command line.
use ubgp.Base.{◌≡◌, refl, true, false, List, [], ◌∷◌, ok}
use ubgp.Cli.{run}
use ubgp.Cli.Forms.{
  Asked, daemon_by, debug_asked, path_by, joined_path, no_more, answer, set, set_all, defaults,
}

-- "--config=-", "-d", "-c a" and "--debug"
abbrev asked : List Asked
asked = joined_path (45 ∷ []) ∷ daemon_by true ∷ path_by true (97 ∷ []) ∷ debug_asked ∷ []

-- The last path counts.
asked_lem :
    answer no_more (set_all asked defaults)
    ≡ ok (run (record { path = 97 ∷ []; daemon = true; debug = true; check = false }))
unfolding answer set_all set
asked_lem = refl
