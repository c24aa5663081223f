-- ===== src/Netlink/Events.antt =====
-- `Socket::recv` and `drain` of src/netlink.rs: one datagram of a socket, and a bounded batch of
-- notifications. A socket is the list of what its reads will find, in order; a read behind the
-- end of the list finds nothing queued.
pub mod Drained
pub mod Told
use ubgp.Base.{
  ℕ, zero, suc, ◌+◌, Bool, true, false, not, ◌&&◌, ◌||◌, List, [], ◌∷◌, length, leb, ◌==◌,
  if◌then◌else◌, Result, Checked, ok, err, panic, out_of_fuel, ◌>>=◌,
}
use ubgp.Netlink.Message.{Message, messages}

-- What one `recvmsg` finds.
pub data Arrival : Type 0 where
  -- `EAGAIN`, `EINTR` and any other error
  nothing_queued signal system_error : Arrival
  -- The bytes written, `MSG_TRUNC`, the length of the sender's address and its port.
  delivered : List ℕ → Bool → ℕ → ℕ → Arrival

-- `io::Result<usize>` with the bytes, its errors told apart as the callers do.
pub data Received : Type 0 where
  would_block interrupted failed : Received
  datagram : List ℕ → Received

abbrev pub sockaddr_size : ℕ
sockaddr_size = 12

unfoldable pub recv : Arrival → Received
recv nothing_queued = would_block
recv signal = interrupted
recv system_error = failed
recv (delivered bytes truncated namelen pid) =
    if truncated
    then failed
    else if not (namelen == sockaddr_size) || not (pid == 0)
    then failed
    else datagram bytes

pub record Events : Type 0 where
  pub changed : Bool
  pub lost : Bool
  pub datagrams : ℕ

-- `Events::default`
abbrev pub no_events : Events
no_events = record { changed = false; lost = false; datagrams = 0 }

-- The patterns of the `match` on a kind: OVERRUN / ERROR, and what a change of routes sends.
abbrev pub tells_loss : ℕ → Bool
tells_loss kind = kind == 4 || kind == 2

abbrev pub tells_change : ℕ → Bool
tells_change kind = leb 16 kind && leb kind 28 || leb 104 kind && leb kind 106

-- The callback.
unfoldable pub note : Message → Events → Checked × Events
note m e = (
  ok tt,
  if tells_loss m.kind
      then record e { lost = true }
      else if tells_change m.kind
      then record e { changed = true }
      else e,
)

abbrev pub counted : Events → Events
counted e = record e { datagrams = e.datagrams + 1 }

abbrev pub lose : Events → Events
lose e = record e { lost = true }

-- `.is_err()`
abbrev pub lose_if_err : Checked × Events → Result Events
lose_if_err (ok u, e) = ok e
lose_if_err (err x, e) = ok (lose e)
lose_if_err (panic, e) = panic
lose_if_err (out_of_fuel, e) = out_of_fuel

-- What a datagram that is not empty adds.
unfoldable pub note_all : List ℕ → Events → Result Events
note_all bytes e = lose_if_err (messages note (length bytes) bytes (counted e))

-- One round, with whether the loop goes on.
unfoldable pub drain_round : Received → Events → Result (Bool × Events)
drain_round would_block e = ok (false, e)
drain_round interrupted e = ok (true, e)
drain_round failed e = ok (false, lose e)
drain_round (datagram []) e = ok (false, lose (counted e))
drain_round (datagram (b ∷ bs)) e = note_all (b ∷ bs) e >>= λ e'. ok (true, e')

-- The rounds that are left, with what is left of the socket.
unfoldable pub drain_rounds : ℕ → List Arrival → Events → Result (Events × List Arrival)
drain_rounds zero queue e = ok (e, queue)
drain_rounds (suc n) [] e = ok (e, [])
drain_rounds (suc n) (a ∷ queue) e =
    drain_round (recv a) e >>= λ (on, e'). if on then drain_rounds n queue e' else ok (e', queue)

abbrev pub drain : List Arrival → Result (Events × List Arrival)
drain queue = drain_rounds 128 queue no_events
