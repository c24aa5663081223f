-- ===== src/Bgp/PeerLoop/Delays.antt =====
-- How long a peer waits between its attempts.
use ubgp.Base.{ℕ, zero, suc, ◌+◌, ◌*◌, ◌≤◌, ◌<◌, ◌≡◌, ◌⊎◌, List, [], ◌∷◌}
use ubgp.Bgp.PeerLoop.{Tried, unselected, held, listener_stopped, Round, Turn}

-- A session that lasted 30 seconds.
abbrev pub Lasted : Tried → Type 0
Lasted (unselected e) = ⊥
Lasted (held result seconds redundant) = 30 ≤ seconds
Lasted listener_stopped = ⊥

-- Any other attempt.
abbrev pub IsBrief : Tried → Type 0
IsBrief (unselected e) = Unit
IsBrief (held result seconds redundant) = seconds < 30
IsBrief listener_stopped = Unit

-- One more on a counter of 32 bits, which stays at its greatest value.
abbrev pub IsNext : ℕ → ℕ → Type 0
IsNext before after =
    ((before < 4_294_967_295) × (after ≡ before + 1))
    ⊎ ((4_294_967_295 ≤ before) × (after ≡ 4_294_967_295))

-- The seconds between attempts: each wait is twice the one before, up to half a minute.
pub waits : ℕ → ℕ
waits zero = 1
waits (suc zero) = 2
waits (suc (suc zero)) = 4
waits (suc (suc (suc zero))) = 8
waits (suc (suc (suc (suc zero)))) = 16
waits (suc (suc (suc (suc (suc n))))) = 30

-- Each delay is from 2 to 31 seconds. It belongs to the number of attempts in a row without a
-- session of 30 seconds, `failures` of them before these. The wait behind such a session is the
-- first of a row.
abbrev pub IsBackoff : ℕ → List Round → List Turn → Type 0
IsBackoff failures [] [] = Unit
IsBackoff failures [] (t ∷ ts) = ⊥
IsBackoff failures (r ∷ rs) [] = ⊥
IsBackoff failures (r ∷ rs) (t ∷ ts) =
    (2000 ≤ t.delay)
    × (t.delay < 31000)
    × (t.delay ≡ waits t.failures * 1000 + r.jitter)
    × ((IsNext failures t.failures × IsBrief r.tried) ⊎ ((t.failures ≡ 1) × Lasted r.tried))
    × IsBackoff t.failures rs ts

-- What a turn of a round is.
record IsTurn (failures : ℕ) (r : Round) (t : Turn) : Type 0 where
  low : 2000 ≤ t.delay
  high : t.delay < 31000
  exact : t.delay ≡ waits t.failures * 1000 + r.jitter
  counted : (IsNext failures t.failures × IsBrief r.tried) ⊎ ((t.failures ≡ 1) × Lasted r.tried)

-- The failures behind the first half.
abbrev IsKept : ℕ → Tried → ℕ → Type 0
IsKept failures tried kept = ((kept ≡ failures) × IsBrief tried) ⊎ ((kept ≡ 0) × Lasted tried)
