-- ===== src/Lib.antt =====
-- Verification of ubgp, a BGP speaker for Linux that exports kernel routes to its peers.
--
-- The program reads routes from the kernel (src/netlink.rs), filters them by access lists
-- (src/config.rs), and offers the result to its BGP sessions (src/bgp.rs), which encode and check
-- messages (src/wire.rs). A console shows the state (src/management.rs), and src/main.rs starts and
-- stops these workers.
--
-- + Base: what the modules share. Base/Outcome has what a Rust call can end in: a value, an
--   error, or a panic (index out of range, `expect`, `assert!`); `out_of_fuel` marks a loop of the
--   model that was cut off. Base/Ensures has postconditions that exclude panics. Base/Sets has a
--   HashSet as a list in any order.
-- + Net: addresses, and in Net/IpNet the `ipnet` crate as an interface of operations with the laws
--   that the program relies on. Net/IpNet/Concrete implements it, for the examples and to show
--   that the laws can be met.
-- + Config: src/config.rs. Config holds the data, the address checks and the next hops,
--   Config/Permits `Acl::permits`, Config/Validate `Config::validate`, Config/Parse `Config::parse`
--   with the `toml` crate as an argument.
-- + Wire: src/wire.rs. Wire/Frame has `frame`, `notification` and `read_frame`, Wire/Open `open`
--   and `parse_open`, Wire/Update `update` and `end_of_rib`, Wire/Validate `validate_update`,
--   Wire/Routes `update_prefixes`, `refresh_family` and `unexpected`. Wire/Received is a reader of
--   UPDATE messages that follows the RFCs and not the program.
-- + Netlink: src/netlink.rs. Netlink/Message has `messages`, `route` and `dump_status`,
--   Netlink/Filter `filter` with `desired` of src/bgp.rs, Netlink/Freshness `Freshness`,
--   Netlink/Socket `Socket::open`, Netlink/Events `recv` and `drain`, Netlink/Snapshot `request`,
--   `poll` and `snapshot`, Netlink/Reconcile the loop of `run` with its watchdog. Netlink/Kernel
--   describes, from the documentation of the kernel, the messages that a dump consists of,
--   Netlink/Events/Told what an arrival on the socket of events tells, and Netlink/Snapshot/Whole
--   the rules by which the messages of one dump make its prefixes.
-- + Bgp: src/bgp.rs. Bgp/Choose has `prefer_incoming` and the loop of `choose` as a state machine,
--   Bgp/Receive the loop of `receive` over what arrives and when,
--   Bgp/Plan `Plan`, Bgp/Transmit the loop of `transmit` as a state machine with its clock,
--   Bgp/Local `check_local_addresses`, Bgp/Handshake `report` and `handshake`, Bgp/Session
--   `session`, Bgp/PeerLoop `peer_loop`, and Bgp/Listeners the listeners of `run` with `endpoint` of
--   src/transport.rs. Bgp/Sockets sets up the sockets of `run` and `connect` with the keys of
--   src/tcp_md5.rs. Bgp/Table is what a peer has that reads the packets that `transmit` writes.
--   Bgp/Exports follows a route from the snapshot to this table, in Bgp/Exports/Shown for all that
--   may be published, and in Bgp/Exports/Dumped from the messages of the kernel.
-- + Management: src/management.rs. Management has the states of the peers and `safe`,
--   Management/Line `line`, Management/Console `console` and `run`.
-- + Cli: src/cli.rs, `parse`.
-- + Supervisor: src/main.rs, `main` up to its workers and `run`, with `Config::load` of
--   src/config.rs.
-- + Syslog: src/daemon.rs, the writer of log events.
-- + Tests: the theorems at concrete inputs.
--
-- A byte is a number below 256 where a theorem needs that, and a cast to u8 or u16 is written as
-- a remainder. A reader is the list of the bytes to come. A loop over bytes recurses on fuel, for
-- which the length of its input is given: each round takes at least one byte, and the theorems on
-- totality show that no loop runs out.
--
-- A socket is the list of what its reads find, and a loop that waits takes its passes from a list:
-- what the stop flag, the clock and the sockets give in each. The list is the fuel of such a loop,
-- and a theorem says which lists are long enough.
--
-- Writes of an established session are taken to succeed, and the deadlines of the loop of `run` in
-- src/netlink.rs are taken to fit the clock.
--
-- Not modelled: the system calls behind sockets, timers and tasks, the TOML parser, the set-up of
-- logging and daemonising (src/daemon.rs), the erasure of keys (src/tcp_md5.rs), and the formatting
-- of the console's texts.
pub mod Base
pub mod Net
pub mod Cli
pub mod Supervisor
pub mod Syslog
pub mod Management
pub mod Config
pub mod Wire
pub mod Netlink
pub mod Bgp
pub mod Tests
