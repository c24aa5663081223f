-- ===== src/Supervisor.antt =====
-- src/main.rs: `main` up to its workers, and `run`, the supervisor. A worker task is whether it
-- runs; the kernel worker is a thread that ends once the stop flag is set, so to wait for it
-- without the flag is to wait for ever. `Config::load` of src/config.rs is given what reading and
-- parsing the file yields.
pub mod Quiesces
use ubgp.Base.{
  Bool, true, false, Option, none, some, List, [], ◌∷◌, Str, if◌then◌else◌, Error, message, Result,
  ok, err, panic, out_of_fuel, ◌>>=◌, ◌>>◌, String,
}
use ubgp.Net.IpNet.{IpNet}
use ubgp.Config.{Config}
use ubgp.Config.Validate.{validate}
use ubgp.Cli.{Run, Command, help, version, parse}

module _ {Net : Type 0} ⦃ops : IpNet Net⦄ where
  -- `Config::load`
  unfoldable pub load : Option (Config Net) → Result (Config Net)
  load none = err (message "reading or parsing the configuration")
  load (some c) = do validate c; ok c

-- What `main` does before the supervisor.
pub data Startup (Net : Type 0) : Type 0 where
  printed_help printed_version printed_valid : Startup Net
  -- The path, whether to detach, whether to debug, and the configuration.
  supervises : Str → Bool → Bool → Config Net → Startup Net

module _ {Net : Type 0} ⦃ops : IpNet Net⦄ where
  unfoldable pub start_command : (Str → Option (Config Net)) → Command → Result (Startup Net)
  start_command files help = ok printed_help
  start_command files version = ok printed_version
  start_command files (Command.run r) = do
    c ← load (files r.path)
    ok (if r.check then printed_valid else supervises r.path r.daemon r.debug c)

  -- `files` is what a path holds.
  unfoldable pub main : (Str → Option (Config Net)) → List Str → Result (Startup Net)
  main files args = parse args >>= start_command files

-- Which workers run, and the stop flag.
pub record Workers : Type 0 where
  pub kernel : Bool
  pub bgp : Bool
  pub console : Bool
  pub stop : Bool

abbrev pub workers_start : Workers
workers_start = record { kernel = true; bgp = true; console = true; stop = false }

-- How a worker ended: a panic, a return, or an error.
pub data Joined : Type 0 where
  panicked returned : Joined
  failed : Error → Joined

-- What the `select!` sees: the end of a worker, the signals, and what a reload reads. With a
-- signal comes how the kernel worker will end.
pub data Happening (Net : Type 0) : Type 0 where
  kernel_ended bgp_ended console_ended : Joined → Happening Net
  hangup : Option (Config Net) → Joined → Happening Net
  terminated interrupted : Joined → Happening Net

-- `abort` and `await`, and setting the flag.
abbrev pub end_bgp : Workers → Workers
end_bgp w = record w { bgp = false }

abbrev pub end_console : Workers → Workers
end_console w = record w { console = false }

abbrev pub set_stop : Workers → Workers
set_stop w = record w { stop = true }

-- `none`: it waits for ever.
unfoldable pub await_kernel : Workers → Option Workers
await_kernel w = if w.stop then some (record w { kernel = false }) else none

abbrev pub end_kernel : Workers → Workers
end_kernel w = record w { kernel = false }

-- `result.context(..)??; bail!(..)`
abbrev pub worker_error : Joined → Error
worker_error panicked = message "worker panicked"
worker_error returned = message "worker stopped unexpectedly"
worker_error (failed e) = e

-- What a happening leads to.
pub data Outcome (Net : Type 0) : Type 0 where
  goes_on : Outcome Net
  restarts : Config Net → Workers → Outcome Net
  ends : Option Error → Workers → Outcome Net
  hangs : Outcome Net

-- The workers behind a wait for the kernel worker.
abbrev pub behind_kernel : {Net : Type 0} → Option Workers → (Workers → Outcome Net) → Outcome Net
behind_kernel none k = hangs
behind_kernel (some w) k = k w

-- `kernel.await.context(..)??`, then the replacement.
abbrev pub replaced : {Net : Type 0} → Option (Config Net) → Joined → Workers → Outcome Net
replaced replacement panicked w = ends (some (message "joining netlink worker")) w
replaced replacement (failed e) w = ends (some e) w
replaced none returned w = ends none w
replaced (some next) returned w = restarts next w

-- What follows the inner loop.
unfoldable pub shut_down : {Net : Type 0} → Option (Config Net) → Joined → Workers → Outcome Net
shut_down replacement joined w =
    behind_kernel (await_kernel (end_bgp (end_console (set_stop w)))) (replaced replacement joined)

module _ {Net : Type 0} ⦃ops : IpNet Net⦄ where
  -- The arm of SIGHUP.
  abbrev pub reload : Result (Config Net) → Joined → Workers → Outcome Net
  reload (ok next) joined w = shut_down (some next) joined w
  reload (err e) joined w = goes_on
  reload panic joined w = hangs
  reload out_of_fuel joined w = hangs

  -- A round of the inner loop.
  unfoldable pub supervise_once : Happening Net → Workers → Outcome Net
  supervise_once (kernel_ended j) w =
      ends (some (worker_error j)) (end_bgp (set_stop (end_console (end_kernel w))))
  supervise_once (bgp_ended j) w =
      behind_kernel (await_kernel (set_stop (end_console (end_bgp w))))
        (ends (some (worker_error j)))
  supervise_once (console_ended j) w =
      behind_kernel (await_kernel (end_bgp (set_stop (end_console w))))
        (ends (some (worker_error j)))
  supervise_once (hangup file j) w = reload (load file) j w
  supervise_once (terminated j) w = shut_down none j w
  supervise_once (interrupted j) w = shut_down none j w

-- The supervisor: up with its configuration, its workers and what is left of those before them,
-- down with its result and what is left, or waiting for ever.
pub data Supervisor (Net : Type 0) : Type 0 where
  up : Config Net → Workers → Workers → Supervisor Net
  down : Option Error → Workers → Supervisor Net
  hung : Supervisor Net

-- The top of the outer loop: `management::bind`, then new workers.
unfoldable pub begin : {Net : Type 0} → Bool → Config Net → Workers → Supervisor Net
begin binds c old =
    if binds then up c workers_start old else down (some (message "binding management CLI")) old

-- What follows a round of the inner loop. `binds` says whether the next `bind` succeeds.
unfoldable pub settle :
    {Net : Type 0} → Bool → Config Net → Workers → Workers → Outcome Net → Supervisor Net
settle binds c w old goes_on = up c w old
settle binds c w old (restarts next w') = begin binds next w'
settle binds c w old (ends r w') = down r w'
settle binds c w old hangs = hung

module _ {Net : Type 0} ⦃ops : IpNet Net⦄ where
  unfoldable pub supervise : List (Bool × Happening Net) → Supervisor Net → Supervisor Net
  supervise [] s = s
  supervise ((binds, h) ∷ hs) (up c w old) =
      supervise hs (settle binds c w old (supervise_once h w))
  supervise ((binds, h) ∷ hs) (down r w) = down r w
  supervise ((binds, h) ∷ hs) hung = hung
