-- ===== src/Netlink/Socket.antt =====
-- `Socket::open` and `Socket::option` of src/netlink.rs, and the sockets that `snapshot` and `run`
-- set up with them. A call of the kernel is a value, and a trace is the calls that succeeded. The
-- kernel is a parameter: whether it refuses a call behind a trace. A socket is closed when its
-- owner is dropped, which an early return does. What `open` logs of the buffer is left out.
pub mod Closes
use ubgp.Base.{
  ℕ, ◌+◌, ◌%◌, ◌^◌, Bool, true, false, Option, none, some, List, [], ◌∷◌, ◌++◌, if◌then◌else◌,
  bit_or, Error, Checked, ok, err, panic, out_of_fuel,
}
use ubgp.Net.IpNet.{IpNet}
use ubgp.Config.{Config}
use ubgp.Netlink.Message.{attempt}

pub data NetlinkCall : Type 0 where
  -- AF_NETLINK, raw, close-on-exec and nonblocking, NETLINK_ROUTE
  open_route_socket get_receive_buffer close_socket : NetlinkCall
  -- SO_RCVBUF, and NETLINK_GET_STRICT_CHK
  set_receive_buffer set_strict_check : ℕ → NetlinkCall
  bind_groups : ℕ → NetlinkCall

abbrev pub Calls : Type 0
Calls = List NetlinkCall

abbrev pub answered : Option Error → Checked
answered none = ok tt
answered (some e) = err e

-- `OwnedFd::drop` where the call fails.
abbrev pub or_close : Checked × Calls → Checked × Calls
or_close (ok u, trace) = (ok u, trace)
or_close (err e, trace) = (err e, trace ++ (close_socket ∷ []))
or_close (panic, trace) = (panic, trace)
or_close (out_of_fuel, trace) = (out_of_fuel, trace)

-- The groups of `run`: links, and the addresses and routes of the families.
abbrev pub event_groups : Bool → ℕ
event_groups ipv6 = bit_or (bit_or (bit_or 1 0x10) 0x40) (if ipv6 then bit_or 0x100 0x400 else 0)

module _ (refuses : Calls → NetlinkCall → Option Error) where
  unfoldable pub call : NetlinkCall → Calls → Checked × Calls
  call k trace = attempt (answered (refuses trace k)) trace (λ u. (ok tt, trace ++ (k ∷ [])))

  -- `Socket::option`
  abbrev pub socket_option : (ℕ → NetlinkCall) → ℕ → Calls → Checked × Calls
  socket_option option value trace = call (option value) trace

  -- What follows the socket in `open`. The size is cast to i32.
  unfoldable pub set_up : ℕ → ℕ → Calls → Checked × Calls
  set_up groups buffer trace =
      let r1 = socket_option set_receive_buffer (buffer % 2 ^ 32) trace in
      attempt r1.0 r1.1 (λ u.
        let r2 = call get_receive_buffer r1.1 in
        attempt r2.0 r2.1 (λ u'. call (bind_groups groups) r2.1))

  -- `Socket::open`
  unfoldable pub open_socket : ℕ → ℕ → Calls → Checked × Calls
  open_socket groups buffer trace =
      let r = call open_route_socket trace in
      attempt r.0 r.1 (λ u. or_close (set_up groups buffer r.1))

  -- The socket of `snapshot`, which takes its success as an argument.
  unfoldable pub open_dump : {Net : Type 0} → Config Net → Calls → Checked × Calls
  open_dump c trace =
      let r = open_socket 0 c.kernel.receive_buffer_bytes trace in
      attempt r.0 r.1 (λ u. or_close (socket_option set_strict_check 1 r.1))

  unfoldable pub open_events : {Net : Type 0} → Config Net → Calls → Checked × Calls
  open_events c trace = open_socket (event_groups c.ipv6) c.kernel.receive_buffer_bytes trace
