-- ===== src/Netlink/Events/Told.antt =====
-- What an arrival on the socket of events tells, by what the kernel delivered: its flag, its sender
-- and the kinds of its messages, for `Socket::recv` and `drain` of src/netlink.rs.
use ubgp.Base.{
  ℕ, ◌+◌, ◌≡◌, inl, inr, refl, Bool, true, false, ◌&&◌, ◌||◌, Bool-cases, List, [], ◌∷◌, length,
  any, arith, ap, ◌==◌, Checked, ok, err, panic, out_of_fuel, if◌then◌else◌,
}
use ubgp.Netlink.Message.{Message, messages}
use ubgp.Netlink.Events.{
  Arrival, nothing_queued, signal, system_error, delivered, Received, would_block, interrupted,
  failed, datagram, recv, tells_loss, tells_change,
}

-- The messages in front of the first defect of a datagram, and whether there is none.
abbrev pub collect : Message → List Message → Checked × List Message
collect m ms = (ok tt, m ∷ ms)

abbrev pub listed : List ℕ → Checked × List Message
listed bytes = messages collect (length bytes) bytes []

abbrev pub is_err : Checked → Bool
is_err (ok u) = false
is_err (err e) = true
is_err panic = true
is_err out_of_fuel = true

abbrev is_one_of : List ℕ → ℕ → Bool
is_one_of kinds kind = any (λ k. kind == k) kinds

-- NLMSG_ERROR and NLMSG_OVERRUN
abbrev loss_kinds : List ℕ
loss_kinds = 2 ∷ 4 ∷ []

-- The kinds of links, addresses, routes and neighbours, from RTM_NEWLINK to RTM_NEWNEIGH, and of
-- next hops, from RTM_NEWNEXTHOP to RTM_GETNEXTHOP.
abbrev change_kinds : List ℕ
change_kinds = 16 ∷ 17 ∷ 18 ∷ 19 ∷ 20 ∷ 21 ∷ 22 ∷ 23 ∷ 24 ∷ 25 ∷ 26 ∷ 27 ∷ 28 ∷ 104 ∷ 105 ∷ 106 ∷ []

-- A datagram that was not truncated and is from the kernel: port 0 of a netlink address, which has
-- 12 bytes.
abbrev accepted : Bool → ℕ → ℕ → Bool
accepted true namelen pid = false
accepted false namelen pid = namelen == 12 && pid == 0

-- An empty datagram, one with a defect, and one with a message of an error or an overrun.
abbrev datagram_loses : List ℕ → Bool
datagram_loses [] = true
datagram_loses (b ∷ bs) =
    is_err (listed (b ∷ bs)).0 || any (λ m. is_one_of loss_kinds m.kind) (listed (b ∷ bs)).1

abbrev datagram_changes : List ℕ → Bool
datagram_changes [] = false
datagram_changes (b ∷ bs) = any (λ m. is_one_of change_kinds m.kind) (listed (b ∷ bs)).1

abbrev datagram_ends : List ℕ → Bool
datagram_ends [] = true
datagram_ends (b ∷ bs) = false

-- The arrivals after which routes may have changed unseen.
pub loses : Arrival → Bool
loses nothing_queued = false
loses signal = false
loses system_error = true
loses (delivered bytes truncated namelen pid) =
    if accepted truncated namelen pid then datagram_loses bytes else true

-- The arrivals that tell of a change of routes.
pub changes : Arrival → Bool
changes nothing_queued = false
changes signal = false
changes system_error = false
changes (delivered bytes truncated namelen pid) =
    if accepted truncated namelen pid then datagram_changes bytes else false

-- The arrivals behind which no more is read.
pub ends_batch : Arrival → Bool
ends_batch nothing_queued = true
ends_batch signal = false
ends_batch system_error = true
ends_batch (delivered bytes truncated namelen pid) =
    if accepted truncated namelen pid then datagram_ends bytes else true

-- One for a datagram that counts.
pub counts : Arrival → ℕ
counts nothing_queued = 0
counts signal = 0
counts system_error = 0
counts (delivered bytes truncated namelen pid) = if accepted truncated namelen pid then 1 else 0

unfoldable pub count_datagrams : List Arrival → ℕ
count_datagrams [] = 0
count_datagrams (a ∷ queue) = counts a + count_datagrams queue

-- The same by what `recv` returns.
abbrev pub is_loss : Received → Bool
is_loss would_block = false
is_loss interrupted = false
is_loss failed = true
is_loss (datagram []) = true
is_loss (datagram (b ∷ bs)) =
    is_err (listed (b ∷ bs)).0 || any (λ m. tells_loss m.kind) (listed (b ∷ bs)).1

abbrev pub is_change : Received → Bool
is_change would_block = false
is_change interrupted = false
is_change failed = false
is_change (datagram []) = false
is_change (datagram (b ∷ bs)) = any (λ m. tells_change m.kind) (listed (b ∷ bs)).1

abbrev pub is_last : Received → Bool
is_last would_block = true
is_last interrupted = false
is_last failed = true
is_last (datagram []) = true
is_last (datagram (b ∷ bs)) = false

abbrev pub is_datagram : Received → Bool
is_datagram (datagram bytes) = true
is_datagram would_block = false
is_datagram interrupted = false
is_datagram failed = false

tells_loss_lem : (k : ℕ) → is_one_of loss_kinds k ≡ tells_loss k
tells_loss_lem k = ground arith

tells_change_lem : (k : ℕ) → is_one_of change_kinds k ≡ tells_change k
tells_change_lem k = ground arith

any-ext :
    (f g : Message → Bool) (ms : List Message) → ((m : Message) → f m ≡ g m) → any f ms ≡ any g ms
any-ext f g [] h = refl
any-ext f g (m ∷ ms) h = rw (h m, any-ext f g ms h) refl

-- The two views agree.
pub record Agrees (a : Arrival) (r : Received) : Type 0 where
  pub loss : loses a ≡ is_loss r
  pub change : changes a ≡ is_change r
  pub last : ends_batch a ≡ is_last r
  pub count : counts a ≡ (if is_datagram r then 1 else 0)

Accepted : List ℕ → Type 0
Accepted bytes =
    (datagram_loses bytes ≡ is_loss (datagram bytes))
    × (datagram_changes bytes ≡ is_change (datagram bytes))
    × (datagram_ends bytes ≡ is_last (datagram bytes))

accepted_lem : (bytes : List ℕ) → Accepted bytes
unfolding Accepted
accepted_lem [] = (refl, refl, refl)
accepted_lem (b ∷ bs) = (
  ap (λ t. is_err (listed (b ∷ bs)).0 || t)
      (any-ext (λ m. is_one_of loss_kinds m.kind) (λ m. tells_loss m.kind) (listed (b ∷ bs)).1
        (λ m. tells_loss_lem m.kind)),
  any-ext (λ m. is_one_of change_kinds m.kind) (λ m. tells_change m.kind) (listed (b ∷ bs)).1
      (λ m. tells_change_lem m.kind),
  refl,
)

pub recv-Agrees : (a : Arrival) → Agrees a (recv a)
unfolding recv loses changes ends_batch counts Accepted
recv-Agrees nothing_queued = record { loss = refl; change = refl; last = refl; count = refl }
recv-Agrees signal = record { loss = refl; change = refl; last = refl; count = refl }
recv-Agrees system_error = record { loss = refl; change = refl; last = refl; count = refl }
recv-Agrees (delivered bytes true namelen pid) = record {
  loss = refl;
  change = refl;
  last = refl;
  count = refl;
}
recv-Agrees (delivered bytes false namelen pid) = elim (Bool-cases (namelen == 12)) [
  | inr other ↦ record {
    loss = rw other refl;
    change = rw other refl;
    last = rw other refl;
    count = rw other refl;
  }
  | inl address ↦ elim (Bool-cases (pid == 0)) [
    | inr other ↦ record {
      loss = rw (address, other) refl;
      change = rw (address, other) refl;
      last = rw (address, other) refl;
      count = rw (address, other) refl;
    }
    | inl kernel ↦
        let (loss, change, last) = accepted_lem bytes in
        record {
          loss = rw (address, kernel) loss;
          change = rw (address, kernel) change;
          last = rw (address, kernel) last;
          count = rw (address, kernel) refl;
        }
  ]
]
