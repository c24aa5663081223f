-- ===== src/Bgp/Sockets/Installed.antt =====
-- What the installation of keys leaves, and when a socket may carry traffic.
use ubgp.Base.{
  ℕ, ◌≤◌, ◌≡◌, ◌⊎◌, inl, inr, refl, Bool, true, false, not, ◌==◌, Option, none, some, List, [], ◌∷◌,
  ◌++◌, Str, Error, All, All-append, Bool-cases, arith, leb, ◌%◌, same_iff, str_eq, length, take,
  take-append,
}
use ubgp.Base.Ensures.{Checks, holds, rejected, Ensures-if, Ensures-bind, ensure-Checks}
use ubgp.Net.Addr.{ip_eq, IpAddr, v4, v6}
use ubgp.Config.{Peer}
use ubgp.Config.Validate.{in_range, max_key_len}
use ubgp.Netlink.Message.Ending.{Ends, fine, Ends-attempt, Ends-onto, Ends-if, Ends-weaken}
use ubgp.Syslog.{has_nul}
use ubgp.Bgp.Listeners.{scoped_endpoint, same_listener}
use ubgp.Bgp.Sockets.{
  SocketCall, open_v4, open_v6, set_reuse_address, set_only_v6, set_ttl_v4, set_unicast_hops_v6,
  set_tcp_nodelay, set_nonblocking, listen, bind_device, md5sig, bind, connect_to, Trace, answer,
  padded, signature, first_peer, unwrapped, sockaddr_len, perform, index, install_key, install_all,
}

-- The calls behind which segments are exchanged.
abbrev pub is_traffic : SocketCall → Bool
is_traffic listen = true
is_traffic (connect_to a) = true
is_traffic open_v4 = false
is_traffic open_v6 = false
is_traffic set_reuse_address = false
is_traffic set_only_v6 = false
is_traffic set_ttl_v4 = false
is_traffic set_unicast_hops_v6 = false
is_traffic set_tcp_nodelay = false
is_traffic set_nonblocking = false
is_traffic (bind_device name) = false
is_traffic (md5sig s) = false
is_traffic (bind a) = false

abbrev pub IsQuiet : Trace → Type 0
IsQuiet trace = All (λ c. is_traffic c ≡ false) trace

-- The key of a peer, whole, for its address.
abbrev pub IsKeyOf : Peer → Str → SocketCall → Type 0
IsKeyOf p k (md5sig s) = (s.address.ip ≡ p.address) × (take s.key_len s.key ≡ k)
IsKeyOf p k listen = ⊥
IsKeyOf p k (connect_to a) = ⊥
IsKeyOf p k open_v4 = ⊥
IsKeyOf p k open_v6 = ⊥
IsKeyOf p k set_reuse_address = ⊥
IsKeyOf p k set_only_v6 = ⊥
IsKeyOf p k set_ttl_v4 = ⊥
IsKeyOf p k set_unicast_hops_v6 = ⊥
IsKeyOf p k set_tcp_nodelay = ⊥
IsKeyOf p k set_nonblocking = ⊥
IsKeyOf p k (bind_device name) = ⊥
IsKeyOf p k (bind a) = ⊥

abbrev pub HasKeyOf : Peer → Str → Trace → Type 0
HasKeyOf p k [] = ⊥
HasKeyOf p k (c ∷ cs) = IsKeyOf p k c ⊎ HasKeyOf p k cs

-- The key was installed, and only then the socket was opened for traffic.
abbrev pub IsKeyed : Peer → Str → Trace → Type 0
IsKeyed p k trace =
    (before : Trace) × (last : SocketCall) × (trace ≡ before ++ (last ∷ []))
    × IsQuiet before
    × HasKeyOf p k before

HasKeyOf-left : (p : Peer) (k : Str) (xs ys : Trace) → HasKeyOf p k xs → HasKeyOf p k (xs ++ ys)
HasKeyOf-left p k [] ys h = absurd h
HasKeyOf-left p k (x ∷ xs) ys (inl h) = inl h
HasKeyOf-left p k (x ∷ xs) ys (inr h) = inr (HasKeyOf-left p k xs ys h)

HasKeyOf-last :
    (p : Peer) (k : Str) (xs : Trace) (c : SocketCall)
    → IsKeyOf p k c
    → HasKeyOf p k (xs ++ (c ∷ []))
HasKeyOf-last p k [] c h = inl h
HasKeyOf-last p k (x ∷ xs) c h = inr (HasKeyOf-last p k xs c h)

padded_lem :
    (key : Str)
    → length key ≤ max_key_len
    → Checks (λ bytes. take (length key) bytes ≡ key) (padded key)
unfolding padded
padded_lem key small =
    Ensures-if (leb (length key) max_key_len) (λ h. holds (take-append (length key) key _ refl))
      λ h. absurd (ground arith)

scoped_endpoint-ip : (a : IpAddr) (port i : ℕ) → (scoped_endpoint a port i).ip ≡ a
unfolding scoped_endpoint
scoped_endpoint-ip (v4 a) port i = refl
scoped_endpoint-ip (v6 a) port i = refl

fits_u16 : (n : ℕ) → n ≤ max_key_len → n % 65536 ≡ n
fits_u16 n h = ground arith

signature-IsKeyOf :
    (p : Peer) (i : ℕ) (k : Str) → Checks (λ s. IsKeyOf p k (md5sig s)) (signature p i k)
unfolding signature
signature-IsKeyOf p i k =
    Ensures-bind (ensure-Checks (in_range 1 max_key_len (length k)) _) λ u sized.
      let small : length k ≤ max_key_len = ground arith in
      Ensures-bind (ensure-Checks (leb (sockaddr_len p.address) 128) _) λ v w.
        Ensures-bind (padded_lem k small)
          λ bytes h. holds (scoped_endpoint-ip p.address 0 i, rw (fits_u16 (length k) small) h)

pub same_listener-own : (key : IpAddr × Str) → same_listener key key ≡ true
same_listener-own (a, i) = rw ((same_iff a a).1 refl, (same_iff i i).1 refl) refl

module _ (refuses : Trace → SocketCall → Option Error) (if_nametoindex : Str → ℕ) where
  answer-Checks : (a : Option Error) → Checks (λ u. Unit {0}) (answer a)
  answer-Checks none = holds tt
  answer-Checks (some e) = rejected tt

  pub index-Checks : (p : Peer) → Checks (λ n. Unit {0}) (index refuses if_nametoindex p)
  unfolding index
  index-Checks p =
      Ensures-bind (ensure-Checks (not (has_nul p.interface)) _) λ u h.
        Ensures-bind (ensure-Checks (not (if_nametoindex p.interface == 0)) _) λ v h'. holds tt

  -- Calls that carry no traffic, and what they keep.
  pub perform-Keeps :
      (p : Peer) (k : Str) (cs trace : Trace)
      → IsQuiet cs
      → IsQuiet trace
      → Ends
          (λ t. IsQuiet t × (HasKeyOf p k trace → HasKeyOf p k t))
          IsQuiet
          (perform refuses if_nametoindex cs trace).0
          (perform refuses if_nametoindex cs trace).1
  unfolding perform
  perform-Keeps p k [] trace quiet h = fine (h, λ x. x)
  perform-Keeps p k (c ∷ cs) trace (q, quiet) h =
      Ends-attempt _ IsQuiet (answer-Checks (refuses trace c)) h λ u v.
        Ends-weaken _ IsQuiet
          (perform-Keeps p k cs (trace ++ (c ∷ [])) quiet
            (All-append (λ c. is_traffic c ≡ false) trace (c ∷ []) h (q, tt)))
          λ t (quiet_t, keeps). (quiet_t, λ x. keeps (HasKeyOf-left p k trace (c ∷ []) x))

  -- The call that opens the socket for traffic.
  pub perform-IsKeyed :
      (p : Peer) (k : Str) (c : SocketCall) (trace : Trace)
      → IsQuiet trace
      → HasKeyOf p k trace
      → Ends
          (IsKeyed p k)
          IsQuiet
          (perform refuses if_nametoindex (c ∷ []) trace).0
          (perform refuses if_nametoindex (c ∷ []) trace).1
  unfolding perform
  perform-IsKeyed p k c trace h held =
      Ends-attempt (IsKeyed p k) IsQuiet (answer-Checks (refuses trace c)) h
        λ u v. fine (trace, c, refl, h, held)

  pub install-HasKeyOf :
      (p : Peer) (k : Str) (i : ℕ) (trace : Trace) (key : Option Str)
      → key ≡ some k
      → IsQuiet trace
      → Ends
          (λ t. IsQuiet t × HasKeyOf p k t)
          IsQuiet
          (install_key refuses if_nametoindex p i key trace).0
          (install_key refuses if_nametoindex p i key trace).1
  unfolding install_key perform
  install-HasKeyOf p k i trace key has h = rw has (
      Ends-attempt _ IsQuiet (signature-IsKeyOf p i k) h λ s is_key.
        Ends-attempt _ IsQuiet (answer-Checks (refuses trace (md5sig s))) h λ u v. fine (
          All-append (λ c. is_traffic c ≡ false) trace (md5sig s ∷ []) h (refl, tt),
          HasKeyOf-last p k trace (md5sig s) is_key,
        ))

  install-Keeps :
      (p q : Peer) (k : Str) (i : ℕ) (trace : Trace) (key : Option Str)
      → IsQuiet trace
      → Ends
          (λ t. IsQuiet t × (HasKeyOf p k trace → HasKeyOf p k t))
          IsQuiet
          (install_key refuses if_nametoindex q i key trace).0
          (install_key refuses if_nametoindex q i key trace).1
  unfolding install_key
  install-Keeps p q k i trace none h = fine (h, λ x. x)
  install-Keeps p q k i trace (some key) h =
      Ends-attempt _ IsQuiet (signature-IsKeyOf q i key) h
        λ s is_key. perform-Keeps p k (md5sig s ∷ []) trace (refl, tt) h

  install_all-Keeps :
      (p : Peer) (k : Str) (key : IpAddr × Str) (i : ℕ) (ps : List Peer) (trace : Trace)
      → IsQuiet trace
      → Ends
          (λ t. IsQuiet t × (HasKeyOf p k trace → HasKeyOf p k t))
          IsQuiet
          (install_all refuses if_nametoindex key i ps trace).0
          (install_all refuses if_nametoindex key i ps trace).1
  unfolding install_all
  install_all-Keeps p k key i [] trace h = fine (h, λ x. x)
  install_all-Keeps p k key i (q ∷ qs) trace h =
      Ends-onto _ IsQuiet
        (Ends-if _ IsQuiet (same_listener key (q.local_address, q.interface))
          (install-Keeps p q k i trace q.md5_password h) (fine (h, λ x. x)))
        λ t (quiet, keeps).
          Ends-weaken _ IsQuiet (install_all-Keeps p k key i qs t quiet)
            λ t' (quiet', keeps'). (quiet', λ x. keeps' (keeps x))

  -- The keys of a listener include that of each of its peers.
  pub install_all-HasKeyOf :
      (p : Peer) (k : Str) (key : IpAddr × Str) (i : ℕ) (front behind : List Peer) (trace : Trace)
      → same_listener key (p.local_address, p.interface) ≡ true
      → p.md5_password ≡ some k
      → IsQuiet trace
      → Ends
          (λ t. IsQuiet t × HasKeyOf p k t)
          IsQuiet
          (install_all refuses if_nametoindex key i (front ++ (p ∷ behind)) trace).0
          (install_all refuses if_nametoindex key i (front ++ (p ∷ behind)) trace).1
  unfolding install_all
  install_all-HasKeyOf p k key i [] behind trace here has h = rw here (
      Ends-onto _ IsQuiet (install-HasKeyOf p k i trace p.md5_password has h) λ t (quiet, held).
        Ends-weaken _ IsQuiet (install_all-Keeps p k key i behind t quiet)
          λ t' (quiet', keeps). (quiet', keeps held))
  install_all-HasKeyOf p k key i (q ∷ front) behind trace here has h =
      Ends-onto _ IsQuiet
        (Ends-if _ IsQuiet (same_listener key (q.local_address, q.interface))
          (install-Keeps p q k i trace q.md5_password h) (fine (h, λ x. x)))
        λ t (quiet, keeps). install_all-HasKeyOf p k key i front behind t here has quiet

  pub first_peer-Checks :
      (key : IpAddr × Str) (p : Peer) (front behind : List Peer)
      → same_listener key (p.local_address, p.interface) ≡ true
      → Checks (λ q. Unit {0}) (unwrapped (first_peer key (front ++ (p ∷ behind))))
  unfolding first_peer
  first_peer-Checks key p [] behind here = rw here (holds tt)
  first_peer-Checks key p (q ∷ front) behind here =
      elim (Bool-cases (same_listener key (q.local_address, q.interface))) [
        | inl found ↦ rw found (holds tt)
        | inr other ↦ rw other (first_peer-Checks key p front behind here)
      ]
