-- ===== src/Management/Console.antt =====
-- `console` and `run` of src/management.rs. A reply is what is formatted: how its numbers and
-- addresses are printed is left to the formatter. `parse_net` is the crate's `FromStr`.
pub mod Lists
pub mod Shown
use ubgp.Base.{
  ℕ, zero, suc, ◌+◌, ◌-◌, ◌/◌, Bool, true, false, not, ◌&&◌, ◌||◌, Option, none, some, List, [],
  ◌∷◌, ◌++◌, Str, str_eq, same, contains, length, is_empty, take, map, leb, ltb, ◌==◌,
  if◌then◌else◌, Result, ok, err, message, out_of_fuel, ◌>>=◌, ◌>>◌, unwrap_or,
}
use ubgp.Base.Sets.{filter}
use ubgp.Net.Addr.{Ipv4Addr, IpAddr}
use ubgp.Net.IpNet.{IpNet, eq_of_net}
use ubgp.Config.{Acl, Peer, Config, find_acl}
use ubgp.Netlink.Filter.{find_exports}
use ubgp.Management.{State, idle, connect, open_confirm, established, active, PeerStatus, safe}
use ubgp.Management.Line.{Output, write, Read, line}

-- One `write` of the console, and what `line` writes.
pub data Reply (Net : Type 0) : Type 0 where
  banner goodbye help prompt peers_header routes_header : Reply Net
  invalid_prefix unknown_acl no_candidates unknown_command : Reply Net
  -- Router ID, ASN, IPv6, the numbers of peers and of established ones, the tables, and the number
  -- of ACLs.
  summary : Ipv4Addr → ℕ → Bool → ℕ → ℕ → List ℕ → ℕ → Reply Net
  candidates : Str → ℕ → Reply Net
  -- Address, interface, ASN, state, age in seconds, whether there is a password, and the error.
  peer_line : IpAddr → Str → ℕ → State → ℕ → Bool → Str → Reply Net
  route_line : Net → Reply Net
  -- The numbers of the routes that are shown and of all.
  shown : ℕ → ℕ → Reply Net
  telnet : ℕ → Reply Net

-- "quit"
abbrev pub word_quit : Str
word_quit = 113 ∷ 117 ∷ 105 ∷ 116 ∷ []

-- "exit"
abbrev pub word_exit : Str
word_exit = 101 ∷ 120 ∷ 105 ∷ 116 ∷ []

-- "help"
abbrev pub word_help : Str
word_help = 104 ∷ 101 ∷ 108 ∷ 112 ∷ []

-- "?"
abbrev pub word_question : Str
word_question = 63 ∷ []

-- "show"
abbrev pub word_show : Str
word_show = 115 ∷ 104 ∷ 111 ∷ 119 ∷ []

-- "summary"
abbrev pub word_summary : Str
word_summary = 115 ∷ 117 ∷ 109 ∷ 109 ∷ 97 ∷ 114 ∷ 121 ∷ []

-- "peers"
abbrev pub word_peers : Str
word_peers = 112 ∷ 101 ∷ 101 ∷ 114 ∷ 115 ∷ []

-- "routes"
abbrev pub word_routes : Str
word_routes = 114 ∷ 111 ∷ 117 ∷ 116 ∷ 101 ∷ 115 ∷ []

abbrev is_some {ℓ} : {A : Type ℓ} → Option A → Bool
is_some none = false
is_some (some a) = true

abbrev is_space : ℕ → Bool
is_space b = leb 9 b && leb b 13 || b == 32

-- The word that `c` begins, when a word follows without a space.
abbrev push_char : ℕ → Bool → List Str → List Str
push_char c true words = (c ∷ []) ∷ words
push_char c false [] = (c ∷ []) ∷ []
push_char c false (w ∷ words) = (c ∷ w) ∷ words

abbrev starts_with_space : Str → Bool
starts_with_space [] = true
starts_with_space (c ∷ cs) = is_space c

-- `str::split_whitespace`, on ASCII
unfoldable pub split_whitespace : Str → List Str
split_whitespace [] = []
split_whitespace (c ∷ cs) =
    let words = split_whitespace cs in
    if is_space c then words else push_char c (starts_with_space cs) words

-- What the shared state is when a command is executed.
pub record View (Net : Type 0) : Type 0 where
  pub now : ℕ
  pub statuses : List PeerStatus
  pub exports : List (Str × List Net)

abbrev pub is_established : State → Bool
is_established established = true
is_established idle = false
is_established connect = false
is_established open_confirm = false
is_established active = false

-- The arms of the match on the words.
pub data Order : Type 0 where
  nothing quits asks_help asks_summary asks_peers unknown : Order
  asks_routes : Str → Option Str → Order

unfoldable pub order_of_routes : List Str → Order
order_of_routes (acl ∷ []) = asks_routes acl none
order_of_routes (acl ∷ prefix ∷ []) = asks_routes acl (some prefix)
order_of_routes [] = unknown
order_of_routes (acl ∷ prefix ∷ w ∷ ws) = unknown

unfoldable pub order_of : List Str → Order
order_of [] = nothing
order_of (w ∷ []) =
    if same w word_quit || same w word_exit
    then quits
    else if same w word_help || same w word_question
    then asks_help
    else unknown
order_of (w ∷ v ∷ ws) =
    if not (same w word_show)
    then unknown
    else if same v word_summary && is_empty ws
    then asks_summary
    else if same v word_peers && is_empty ws
    then asks_peers
    else if same v word_routes
    then order_of_routes ws
    else unknown

module _ {Net : Type 0} ⦃ops : IpNet Net⦄ (c : Config Net) (parse_net : Str → Option Net) where
  abbrev pub peer_reply : ℕ → Peer → PeerStatus → Reply Net
  peer_reply now p s =
      peer_line p.address (safe p.interface) p.remote_asn s.state ((now - s.since) / 1_000_000_000)
        (is_some p.md5_password) (safe (unwrap_or s.last_error (45 ∷ [])))

  -- `cfg.peers.iter().zip(&statuses)`
  unfoldable pub peer_replies : ℕ → List Peer → List PeerStatus → List (Reply Net)
  peer_replies now [] ss = []
  peer_replies now (p ∷ ps) [] = []
  peer_replies now (p ∷ ps) (s ∷ ss) = peer_reply now p s ∷ peer_replies now ps ss

  unfoldable pub summary_replies : View Net → List (Reply Net)
  summary_replies v =
      let up = length (filter (λ s. is_established s.state) v.statuses) in
      summary c.router_id c.asn c.ipv6 (length c.peers) up c.kernel.tables (length c.acls)
      ∷ map
          (λ (name, acl).
            candidates (safe name) (length (unwrap_or (find_exports name v.exports) [])))
          c.acls

  unfoldable pub selected : Option Net → List Net → List Net
  selected none routes = take 100 routes
  selected (some prefix) routes = if contains routes prefix then prefix ∷ [] else []

  abbrev pub listing : Option Net → Option (List Net) → List (Reply Net)
  listing filter none = no_candidates ∷ []
  listing filter (some routes) =
      routes_header
      ∷ (map route_line (selected filter routes)
          ++ (shown (length (selected filter routes)) (length routes) ∷ []))

  abbrev pub known : Option (Acl Net) → Bool
  known none = false
  known (some acl) = true

  unfoldable pub routes_replies : View Net → Str → Option Net → List (Reply Net)
  routes_replies v acl filter =
      if not (known (find_acl acl c.acls))
      then unknown_acl ∷ []
      else listing filter (find_exports acl v.exports)

  unfoldable pub parsed_replies : View Net → Str → Option Net → List (Reply Net)
  parsed_replies v acl none = invalid_prefix ∷ []
  parsed_replies v acl (some net) = routes_replies v acl (some net) ++ (prompt ∷ [])

  -- The replies in front of the next prompt.
  unfoldable pub respond : View Net → Order → List (Reply Net)
  respond v nothing = prompt ∷ []
  respond v quits = goodbye ∷ []
  respond v asks_help = help ∷ prompt ∷ []
  respond v asks_summary = summary_replies v ++ (prompt ∷ [])
  respond v asks_peers = peers_header ∷ (peer_replies v.now c.peers v.statuses ++ (prompt ∷ []))
  respond v unknown = unknown_command ∷ prompt ∷ []
  respond v (asks_routes acl none) = routes_replies v acl none ++ (prompt ∷ [])
  respond v (asks_routes acl (some prefix)) = parsed_replies v acl (parse_net prefix)

  -- The writes of the replies, one by one.
  module _ (can_write : ℕ → Bool) where
    unfoldable pub write_all : List (Reply Net) → Output (Reply Net) → Result (Output (Reply Net))
    write_all [] out = ok out
    write_all (r ∷ rs) out = write can_write (r ∷ []) out >>= λ out'. write_all rs out'

    -- What `line` wrote, behind what the console did.
    abbrev pub with_telnet : Output (Reply Net) → Output ℕ → Output (Reply Net)
    with_telnet out raw = record {
      written = out.written ++ map telnet raw.written;
      writes = raw.writes;
    }

    abbrev pub is_quit : Order → Bool
    is_quit quits = true
    is_quit nothing = false
    is_quit asks_help = false
    is_quit asks_summary = false
    is_quit asks_peers = false
    is_quit unknown = false
    is_quit (asks_routes acl filter) = false

    -- What follows a command: nothing at the end of the stream and behind `quit`.
    unfoldable pub execute :
        (Output (Reply Net) → Result (Output (Reply Net)))
        → View Net
        → Option Str
        → Output (Reply Net)
        → Result (Output (Reply Net))
    execute go v none out = ok out
    execute go v (some text) out = do
      let order = order_of (split_whitespace text)
      out' ← write_all (respond v order) out
      if is_quit order then ok out' else go out'

    -- The loop, from the bytes to come. `view n` is the state that the `n`-th command meets.
    module _ (closed : Bool) (view : ℕ → View Net) where
      unfoldable pub commands :
          ℕ → ℕ → List ℕ → Bool → Output (Reply Net) → Result (Output (Reply Net))
      commands zero n input skip_lf out = out_of_fuel
      commands (suc fuel) n input skip_lf out = do
        r ← line can_write closed input skip_lf (record { written = []; writes = out.writes })
        execute (commands fuel (n + 1) r.rest r.skip_lf_after) (view n) r.command_line
            (with_telnet out r.output)

      unfoldable pub console : List ℕ → Result (Output (Reply Net))
      console input = do
        out ← write can_write (banner ∷ []) (record { written = []; writes = 0 })
        commands (suc (length input)) 0 input false out

-- The events of the accept loop: a connection, a failure to accept, the end of a client.
pub data Accept : Type 0 where
  accepted : Bool → Accept
  accept_failed client_ended : Accept

-- `run`, on the number of clients.
unfoldable pub serve : List Accept → ℕ → Result ℕ
serve [] clients = ok clients
serve (accepted is_loopback ∷ events) clients =
    serve events (if not is_loopback || leb 16 clients then clients else clients + 1)
serve (accept_failed ∷ events) clients = err (message "accept")
serve (client_ended ∷ events) clients = serve events (clients - 1)
