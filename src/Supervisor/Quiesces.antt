-- ===== src/Supervisor/Quiesces.antt =====
-- No worker outlives its supervisor or its configuration.
use ubgp.Base.{
  sym, subst, unwrap_or, Checked, ◌>>◌, ◌≡◌, refl, Bool, true, false, Option, none, some, List, [],
  ◌∷◌, Result, ok,
}
use ubgp.Base.Ensures.{Checks, holds, rejected}
use ubgp.Net.IpNet.{IpNet}
use ubgp.Config.{Config}
use ubgp.Config.Validate.{validate}
use ubgp.Config.Validate.Total.{validate-Ends}
use ubgp.Supervisor.{
  load, Workers, workers_start, Joined, panicked, returned, failed, Happening, kernel_ended,
  bgp_ended, console_ended, hangup, terminated, interrupted, Outcome, goes_on, restarts, ends,
  hangs, await_kernel, shut_down, reload, supervise_once, Supervisor, up, down, hung, begin, settle,
  supervise,
}

-- No worker runs.
pub record AreEnded (w : Workers) : Type 0 where
  pub kernel_ended : w.kernel ≡ false
  pub bgp_ended : w.bgp ≡ false
  pub console_ended : w.console ≡ false

all_ended : AreEnded (record { kernel = false; bgp = false; console = false; stop = true })
all_ended = record { kernel_ended = refl; bgp_ended = refl; console_ended = refl }

module _ {Net : Type 0} ⦃ops : IpNet Net⦄ where
  abbrev IsSettled : Outcome Net → Type 0
  IsSettled goes_on = Unit
  IsSettled (restarts next w) = (validate next ≡ ok tt) × AreEnded w
  IsSettled (ends r w) = AreEnded w
  IsSettled hangs = ⊥

  -- Up with a valid configuration and all of its workers, and none from before, or down with no
  -- worker left. It does not wait for ever.
  abbrev pub IsQuiet : Supervisor Net → Type 0
  IsQuiet (up c w old) = (validate c ≡ ok tt) × (w ≡ workers_start) × AreEnded old
  IsQuiet (down r w) = AreEnded w
  IsQuiet hung = ⊥

  loaded :
      {r : Checked} (c : Config Net)
      → Checks (λ u. Unit {0}) r
      → r ≡ validate c
      → Checks (λ b. validate b ≡ ok tt) (r >> ok c)
  loaded c (holds h) e = holds (sym e)
  loaded c (rejected h) e = rejected tt

  load-validate : (file : Option (Config Net)) → Checks (λ c. validate c ≡ ok tt) (load file)
  unfolding load
  load-validate none = rejected tt
  load-validate (some c) = loaded c (validate-Ends c) refl

  shut_down-IsSettled :
      (replacement : Option (Config Net)) (j : Joined)
      → ((c : Config Net) → replacement ≡ some c → validate c ≡ ok tt)
      → IsSettled (shut_down replacement j workers_start)
  unfolding shut_down await_kernel
  shut_down-IsSettled none panicked h = all_ended
  shut_down-IsSettled none returned h = all_ended
  shut_down-IsSettled none (failed e) h = all_ended
  shut_down-IsSettled (some c) panicked h = all_ended
  shut_down-IsSettled (some c) (failed e) h = all_ended
  shut_down-IsSettled (some c) returned h = (h c refl, all_ended)

  reload-IsSettled :
      {r : Result (Config Net)} (j : Joined)
      → Checks (λ c. validate c ≡ ok tt) r
      → IsSettled (reload r j workers_start)
  reload-IsSettled j (holds {a = next} valid) =
      shut_down-IsSettled (some next) j
        (λ c e. subst (λ o. validate (unwrap_or o next) ≡ ok tt) e valid)
  reload-IsSettled j (rejected h) = tt

  supervise_once-IsSettled : (h : Happening Net) → IsSettled (supervise_once h workers_start)
  unfolding supervise_once await_kernel
  supervise_once-IsSettled (kernel_ended j) = all_ended
  supervise_once-IsSettled (bgp_ended j) = all_ended
  supervise_once-IsSettled (console_ended j) = all_ended
  supervise_once-IsSettled (hangup file j) = reload-IsSettled j (load-validate file)
  supervise_once-IsSettled (terminated j) = shut_down-IsSettled none j (λ c e. cc)
  supervise_once-IsSettled (interrupted j) = shut_down-IsSettled none j (λ c e. cc)

  settle-IsQuiet :
      (binds : Bool) (c : Config Net) (old : Workers) (o : Outcome Net)
      → validate c ≡ ok tt
      → AreEnded old
      → IsSettled o
      → IsQuiet (settle binds c workers_start old o)
  unfolding settle begin
  settle-IsQuiet binds c old goes_on valid ended h = (valid, refl, ended)
  settle-IsQuiet true c old (restarts next w) valid ended (valid', ended') = (valid', refl, ended')
  settle-IsQuiet false c old (restarts next w) valid ended (valid', ended') = ended'
  settle-IsQuiet binds c old (ends r w) valid ended h = h
  settle-IsQuiet binds c old hangs valid ended h = absurd h

  -- Whatever happens to a supervisor that is up, it never waits for ever for its kernel worker. It
  -- is up with a configuration that `validate` has accepted and with all of its workers, and none
  -- of those before them still runs; or it has returned, and no worker runs.
  pub supervise-IsQuiet :
      (hs : List (Bool × Happening Net)) (s : Supervisor Net) → IsQuiet s → IsQuiet (supervise hs s)
  unfolding supervise
  supervise-IsQuiet [] s h = h
  supervise-IsQuiet ((binds, e) ∷ hs) (up c w old) (valid, all, ended) = supervise-IsQuiet hs _ (
      rw all (
        settle-IsQuiet binds c old (supervise_once e workers_start) valid ended
          (supervise_once-IsSettled e)))
  supervise-IsQuiet ((binds, e) ∷ hs) (down r w) h = h
  supervise-IsQuiet ((binds, e) ∷ hs) hung h = absurd h
