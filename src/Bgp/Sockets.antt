-- ===== src/Bgp/Sockets.antt =====
-- How sockets are set up: `install` of src/tcp_md5.rs, and `index`, `configure`, `connect` and the
-- listeners of `run` in src/bgp.rs. A call of the kernel is a value, and a trace is the calls that
-- succeeded. The kernel is a parameter: whether it refuses a call behind a trace, and the index of
-- an interface, 0 when there is none. The timeout of `connect` is such a refusal. Names of
-- interfaces and keys are bytes; that `install` erases its own copy of a key is left out.
pub mod Installed
pub mod Keyed
use ubgp.Base.{
  ℕ, ◌+◌, ◌-◌, ◌%◌, Bool, true, false, not, Option, none, some, List, [], ◌∷◌, ◌++◌, Str, ◌==◌, leb,
  length, replicate, if◌then◌else◌, Error, Result, Checked, ok, err, panic, ◌>>=◌, ◌>>◌, ensure,
}
use ubgp.Net.Addr.{IpAddr, is_ipv6}
use ubgp.Config.{Peer}
use ubgp.Config.Validate.{in_range, max_key_len}
use ubgp.Netlink.Message.{attempt}
use ubgp.Syslog.{has_nul}
use ubgp.Bgp.Listeners.{ScopedAddr, scoped_endpoint, same_listener}

-- `Signature`, whose flags, prefix and interface are zero.
pub record Signature : Type 0 where
  pub address : ScopedAddr
  pub key_len : ℕ
  pub key : List ℕ

pub data SocketCall : Type 0 where
  open_v4 open_v6 set_reuse_address set_only_v6 set_ttl_v4 set_unicast_hops_v6 : SocketCall
  set_tcp_nodelay set_nonblocking listen : SocketCall
  bind_device : Str → SocketCall
  md5sig : Signature → SocketCall
  bind connect_to : ScopedAddr → SocketCall

abbrev pub Trace : Type 0
Trace = List SocketCall

abbrev pub answer : Option Error → Checked
answer none = ok tt
answer (some e) = err e

-- `signature.key[..len].copy_from_slice(key)`
unfoldable pub padded : Str → Result (List ℕ)
padded key =
    if leb (length key) max_key_len
    then ok (key ++ replicate (max_key_len - length key) 0)
    else panic

-- The bytes of a `sockaddr_in` or a `sockaddr_in6`.
abbrev pub sockaddr_len : IpAddr → ℕ
sockaddr_len a = if is_ipv6 a then 28 else 16

-- What `install` gives the kernel for a key; a `sockaddr_storage` has 128 bytes.
unfoldable pub signature : Peer → ℕ → Str → Result Signature
signature p index key = do
  ensure (in_range 1 max_key_len (length key)) "invalid TCP-MD5 key length"
  ensure (leb (sockaddr_len p.address) 128) "TCP-MD5 address too large"
  bytes ← padded key
  ok (record {
    address = scoped_endpoint p.address 0 index;
    key_len = length key % 65536;
    key = bytes;
  })

-- `bind_device` and what follows it in `configure`.
abbrev pub configure : Peer → List SocketCall
configure p =
    bind_device p.interface
    ∷ (if is_ipv6 p.address then set_unicast_hops_v6 else set_ttl_v4)
    ∷ set_tcp_nodelay
    ∷ []

-- `cfg.peers.iter().find(..)`
unfoldable pub first_peer : IpAddr × Str → List Peer → Option Peer
first_peer key [] = none
first_peer key (p ∷ ps) =
    if same_listener key (p.local_address, p.interface) then some p else first_peer key ps

-- `unwrap`
abbrev pub unwrapped : {A : Type 0} → Option A → Result A
unwrapped none = panic
unwrapped (some a) = ok a

module _ (refuses : Trace → SocketCall → Option Error) (if_nametoindex : Str → ℕ) where
  -- Calls one behind the other, up to the first that is refused.
  unfoldable pub perform : List SocketCall → Trace → Checked × Trace
  perform [] trace = (ok tt, trace)
  perform (c ∷ cs) trace =
      attempt (answer (refuses trace c)) trace (λ u. perform cs (trace ++ (c ∷ [])))

  unfoldable pub index : Peer → Result ℕ
  index p = do
    ensure (not (has_nul p.interface)) "nul byte found"
    ensure (not (if_nametoindex p.interface == 0)) "interface does not exist"
    ok (if_nametoindex p.interface)

  unfoldable pub install_key : Peer → ℕ → Option Str → Trace → Checked × Trace
  install_key p index none trace = (ok tt, trace)
  install_key p index (some key) trace =
      attempt (signature p index key) trace (λ s. perform (md5sig s ∷ []) trace)

  -- `install`
  abbrev pub install : Peer → ℕ → Trace → Checked × Trace
  install p index trace = install_key p index p.md5_password trace

  -- The loop over the peers of a listener.
  unfoldable pub install_all : IpAddr × Str → ℕ → List Peer → Trace → Checked × Trace
  install_all key index [] trace = (ok tt, trace)
  install_all key index (p ∷ ps) trace =
      let r =
        if same_listener key (p.local_address, p.interface)
        then install p index trace
        else (ok tt, trace) in
      attempt r.0 r.1 (λ u. install_all key index ps r.1)

  -- The calls in front of the keys of a listener.
  abbrev pub prepare : IpAddr → Peer → List SocketCall
  prepare local p =
      (if is_ipv6 local then open_v6 else open_v4)
      ∷ set_reuse_address
      ∷ (if is_ipv6 local then set_only_v6 ∷ configure p else configure p)

  -- One listener of `run`, from its socket to `listen`.
  unfoldable pub open_listener : IpAddr × Str → ℕ → List Peer → Checked × Trace
  open_listener key port peers = attempt (unwrapped (first_peer key peers)) [] (λ p.
      attempt (index p) [] (λ i.
        let prepared = perform (prepare key.0 p) [] in
        attempt prepared.0 prepared.1 (λ u.
          let keyed = install_all key i peers prepared.1 in
          attempt keyed.0 keyed.1 (λ v.
            let bound =
              perform (set_nonblocking ∷ bind (scoped_endpoint key.0 port i) ∷ []) keyed.1 in
            attempt bound.0 bound.1 (λ w. perform (listen ∷ []) bound.1)))))

  -- `connect`
  unfoldable pub connect : Peer → Checked × Trace
  connect p = attempt (index p) [] (λ i.
      let first = if is_ipv6 p.address then open_v6 else open_v4 in
      let prepared =
        perform (first ∷ configure p ++ (bind (scoped_endpoint p.local_address 0 i) ∷ [])) [] in
      attempt prepared.0 prepared.1 (λ u.
        let keyed = install p i prepared.1 in
        attempt keyed.0 keyed.1
          (λ v. perform (connect_to (scoped_endpoint p.address p.port i) ∷ []) keyed.1)))
