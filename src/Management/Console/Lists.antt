-- ===== src/Management/Console/Lists.antt =====
-- The lists of routes that the console shows: how long they are, and what is counted below them.
use ubgp.Base.{
  contains, unwrap_or, ℕ, zero, suc, ◌+◌, ◌≤◌, ◌<◌, ◌≡◌, refl, Bool, true, false, not, Option, none,
  some, List, [], ◌∷◌, ◌++◌, Str, length, map, arith, Result, if◌then◌else◌, Bool-cases, inl, inr,
  length-take,
}
use ubgp.Base.Ensures.{Checks, Ensures-weaken, holds, Ensures-if, Ensures-bind, ensure-Checks}
use ubgp.Net.IpNet.{IpNet, eq_of_net}
use ubgp.Config.{Acl, Peer, Config, find_acl}
use ubgp.Netlink.Filter.{find_exports}
use ubgp.Management.{PeerStatus, safe}
use ubgp.Management.Line.{Output, write}
use ubgp.Management.Line.Bounds.{count_some, line-Reads}
use ubgp.Management.Console.{
  is_quit, order_of, split_whitespace, parsed_replies, Reply, banner, goodbye, help, prompt,
  peers_header, routes_header, invalid_prefix, unknown_acl, no_candidates, unknown_command, summary,
  candidates, peer_line, route_line, shown, telnet, View, Order, nothing, quits, asks_help,
  asks_summary, asks_peers, unknown, asks_routes, peer_replies, summary_replies, selected, listing,
  known, routes_replies, respond, write_all, execute, commands, console,
}

module _ {Net : Type 0} where
  -- The routes that were just listed, behind a reply, when there were `k` in front of it.
  abbrev pub listed_after : ℕ → Reply Net → ℕ
  listed_after k (route_line n) = k + 1
  listed_after k (shown n total) = 0
  listed_after k banner = 0
  listed_after k goodbye = 0
  listed_after k help = 0
  listed_after k prompt = 0
  listed_after k peers_header = 0
  listed_after k routes_header = 0
  listed_after k invalid_prefix = 0
  listed_after k unknown_acl = 0
  listed_after k no_candidates = 0
  listed_after k unknown_command = 0
  listed_after k (summary id asn ipv6 peers up tables acls) = 0
  listed_after k (candidates name n) = 0
  listed_after k (peer_line address interface asn state age md5 error) = 0
  listed_after k (telnet b) = 0

  -- A route is shown behind less than 100 others of its list, and the number below a list is that
  -- of its routes.
  abbrev pub IsPlaced : ℕ → Reply Net → Type 0
  IsPlaced k (route_line n) = k < 100
  IsPlaced k (shown n total) = n ≡ k
  IsPlaced k banner = Unit
  IsPlaced k goodbye = Unit
  IsPlaced k help = Unit
  IsPlaced k prompt = Unit
  IsPlaced k peers_header = Unit
  IsPlaced k routes_header = Unit
  IsPlaced k invalid_prefix = Unit
  IsPlaced k unknown_acl = Unit
  IsPlaced k no_candidates = Unit
  IsPlaced k unknown_command = Unit
  IsPlaced k (summary id asn ipv6 peers up tables acls) = Unit
  IsPlaced k (candidates name n) = Unit
  IsPlaced k (peer_line address interface asn state age md5 error) = Unit
  IsPlaced k (telnet b) = Unit

  -- Each reply in its place, where `k` routes were just listed.
  pub AllPlaced : ℕ → List (Reply Net) → Type 0
  AllPlaced k [] = Unit
  AllPlaced k (r ∷ rs) = IsPlaced k r × AllPlaced (listed_after k r) rs

  listed_behind : ℕ → List (Reply Net) → ℕ
  listed_behind k [] = k
  listed_behind k (r ∷ rs) = listed_behind (listed_after k r) rs

  -- Each in its place, and `k'` routes just listed at the end.
  Lists : ℕ → List (Reply Net) → ℕ → Type 0
  Lists k rs k' = AllPlaced k rs × (listed_behind k rs ≡ k')

  Lists-append :
      (xs ys : List (Reply Net)) (k k' k'' : ℕ)
      → Lists k xs k'
      → Lists k' ys k''
      → Lists k (xs ++ ys) k''
  unfolding Lists AllPlaced listed_behind
  Lists-append [] ys k k' k'' (h, e) hy = rw e hy
  Lists-append (x ∷ xs) ys k k' k'' ((h, hs), e) hy =
      let rest = Lists-append xs ys (listed_after k x) k' k'' (hs, e) hy in ((h, rest.0), rest.1)

  Lists-if :
      (b : Bool) (xs ys : List (Reply Net)) (k k' : ℕ)
      → Lists k xs k'
      → Lists k ys k'
      → Lists k (if b then xs else ys) k'
  Lists-if true xs ys k k' hx hy = hx
  Lists-if false xs ys k k' hx hy = hy

  Lists-routes :
      (k : ℕ) (routes : List Net)
      → k + length routes ≤ 100
      → Lists k (map route_line routes) (k + length routes)
  unfolding Lists AllPlaced listed_behind
  Lists-routes k [] h = (tt, omega arith)
  Lists-routes k (n ∷ ns) h =
      let rest = Lists-routes (k + 1) ns (omega (arith, h)) in
      ((omega (arith, h), rest.0), omega (arith, rest.1))

Lists-telnet : (Net : Type 0) (bytes : List ℕ) → Lists {Net = Net} 0 (map telnet bytes) 0
unfolding Lists AllPlaced listed_behind
Lists-telnet Net [] = (tt, refl)
Lists-telnet Net (b ∷ bs) = let rest = Lists-telnet Net bs in ((tt, rest.0), rest.1)

module _ {Net : Type 0} ⦃ops : IpNet Net⦄ (c : Config Net) (parse_net : Str → Option Net) where
  peer_replies-Lists :
      (now : ℕ) (ps : List Peer) (ss : List PeerStatus)
      → Lists 0 (peer_replies c parse_net now ps ss) 0
  unfolding peer_replies Lists AllPlaced listed_behind
  peer_replies-Lists now [] ss = (tt, refl)
  peer_replies-Lists now (p ∷ ps) [] = (tt, refl)
  peer_replies-Lists now (p ∷ ps) (s ∷ ss) =
      let rest = peer_replies-Lists now ps ss in ((tt, rest.0), rest.1)

  candidates-Lists :
      (v : View Net) (acls : List (Str × Acl Net))
      → Lists {Net = Net} 0
          (map
            (λ (name, acl).
              candidates (safe name) (length (unwrap_or (find_exports name v.exports) [])))
            acls)
          0
  unfolding Lists AllPlaced listed_behind
  candidates-Lists v [] = (tt, refl)
  candidates-Lists v (a ∷ acls) = let rest = candidates-Lists v acls in ((tt, rest.0), rest.1)

  contains-length : (routes : List Net) (n : Net) → contains routes n ≡ true → 1 ≤ length routes
  contains-length [] n h = cc
  contains-length (r ∷ routes) n h = omega arith

  pub length-selected :
      (filter : Option Net) (routes : List Net)
      → (length (selected c parse_net filter routes) ≤ 100)
        × (length (selected c parse_net filter routes) ≤ length routes)
  unfolding selected
  length-selected none routes =
      (omega (arith, length-take 100 routes), omega (arith, length-take 100 routes))
  length-selected (some n) routes = elim (Bool-cases (contains routes n)) [
    | inl held ↦ rw held (omega arith, contains-length routes n held)
    | inr e ↦ rw e (omega arith, omega arith)
  ]

  listing-Lists :
      (filter : Option Net) (routes : Option (List Net))
      → Lists 0 (listing c parse_net filter routes) 0
  unfolding Lists AllPlaced listed_behind
  listing-Lists filter none = ((tt, tt), refl)
  listing-Lists filter (some routes) =
      let few = length-selected filter routes in
      let rest =
        Lists-append _ (shown _ _ ∷ []) 0 (0 + length (selected c parse_net filter routes)) 0
          (Lists-routes 0 (selected c parse_net filter routes) (omega (arith, few.0)))
          ((omega arith, tt), refl) in
      ((tt, rest.0), rest.1)

  prompted : (rs : List (Reply Net)) → Lists 0 rs 0 → Lists 0 (rs ++ (prompt ∷ [])) 0
  unfolding Lists AllPlaced listed_behind
  prompted rs h = Lists-append rs (prompt ∷ []) 0 0 0 h ((tt, tt), refl)

  routes_replies-Lists :
      (v : View Net) (acl : Str) (filter : Option Net)
      → Lists 0 (routes_replies c parse_net v acl filter) 0
  unfolding routes_replies Lists AllPlaced listed_behind
  routes_replies-Lists v acl filter =
      Lists-if (not (known c parse_net (find_acl acl c.acls))) _ _ 0 0 ((tt, tt), refl)
        (listing-Lists filter (find_exports acl v.exports))

  parsed_replies-Lists :
      (v : View Net) (acl : Str) (net : Option Net)
      → Lists 0 (parsed_replies c parse_net v acl net) 0
  unfolding parsed_replies Lists AllPlaced listed_behind
  parsed_replies-Lists v acl none = ((tt, tt), refl)
  parsed_replies-Lists v acl (some n) = prompted _ (routes_replies-Lists v acl (some n))

  respond-Lists : (v : View Net) (o : Order) → Lists 0 (respond c parse_net v o) 0
  unfolding respond Lists AllPlaced listed_behind summary_replies
  respond-Lists v nothing = ((tt, tt), refl)
  respond-Lists v quits = ((tt, tt), refl)
  respond-Lists v asks_help = ((tt, (tt, tt)), refl)
  respond-Lists v asks_summary =
      let rest = prompted _ (candidates-Lists v c.acls) in ((tt, rest.0), rest.1)
  respond-Lists v asks_peers =
      let rest = prompted _ (peer_replies-Lists v.now c.peers v.statuses) in ((tt, rest.0), rest.1)
  respond-Lists v unknown = ((tt, (tt, tt)), refl)
  respond-Lists v (asks_routes acl none) = prompted _ (routes_replies-Lists v acl none)
  respond-Lists v (asks_routes acl (some prefix)) = parsed_replies-Lists v acl (parse_net prefix)

  module _ (can_write : ℕ → Bool) where
    -- All that is written is in its place, and `k` routes were just listed.
    abbrev Tidy : ℕ → Output (Reply Net) → Type 0
    Tidy k out = Lists 0 out.written k

    write_all-Tidy :
        (rs : List (Reply Net)) (out : Output (Reply Net)) (k k' : ℕ)
        → Lists k rs k'
        → Tidy k out
        → Checks (Tidy k') (write_all c parse_net can_write rs out)
    unfolding write_all write Lists AllPlaced listed_behind
    write_all-Tidy [] out k k' (h, e) tidy = holds (rw⁻¹ e tidy)
    write_all-Tidy (r ∷ rs) out k k' ((h, hs), e) tidy =
        Ensures-bind {R = Tidy (listed_after k r)}
          (Ensures-bind (ensure-Checks (can_write out.writes) _) λ u ready.
            holds (Lists-append out.written (r ∷ []) 0 k (listed_after k r) tidy ((h, tt), refl)))
          λ out' tidy'. write_all-Tidy rs out' (listed_after k r) k' (hs, e) tidy'

    execute-Tidy :
        (go : Output (Reply Net) → Result (Output (Reply Net))) (v : View Net) (text : Option Str)
        (out : Output (Reply Net))
        → (1 ≤ count_some text
            → (out' : Output (Reply Net)) → Tidy 0 out'
            → Checks (Tidy 0) (go out'))
        → Tidy 0 out
        → Checks (Tidy 0) (execute c parse_net can_write go v text out)
    unfolding execute
    execute-Tidy go v none out next tidy = holds tidy
    execute-Tidy go v (some text) out next tidy =
        let order = order_of (split_whitespace text) in
        Ensures-bind
          (write_all-Tidy (respond c parse_net v order) out 0 0 (respond-Lists v order) tidy)
          λ out' tidy'.
            Ensures-if (is_quit c parse_net can_write order) (λ e. holds tidy')
              (λ e. next (omega arith) out' tidy')

    module _ (closed : Bool) (view : ℕ → View Net) where
      commands-Tidy :
          (fuel n : ℕ) (input : List ℕ) (skip_lf : Bool) (out : Output (Reply Net))
          → length input + 1 ≤ fuel
          → Tidy 0 out
          → Checks (Tidy 0) (commands c parse_net can_write closed view fuel n input skip_lf out)
      unfolding commands
      commands-Tidy zero n input skip_lf out enough tidy = absurd (omega arith)
      commands-Tidy (suc fuel) n input skip_lf out enough tidy =
          Ensures-bind (line-Reads can_write closed input skip_lf _) λ r reads.
            execute-Tidy _ (view n) r.command_line _
              (λ took out' tidy'.
                commands-Tidy fuel (n + 1) r.rest r.skip_lf_after out'
                  (omega (arith, reads.shorter)) tidy')
              (Lists-append out.written _ 0 0 0 tidy (Lists-telnet Net r.output.written))

      pub console-AllPlaced :
          (input : List ℕ)
          → Checks
              (λ out. AllPlaced 0 out.written)
              (console c parse_net can_write closed view input)
      unfolding console write Lists AllPlaced listed_behind
      console-AllPlaced input =
          Ensures-bind {R = Tidy 0}
            (Ensures-bind (ensure-Checks (can_write 0) _) λ u e. holds ((tt, tt), refl))
            λ out tidy.
              Ensures-weaken (commands-Tidy _ 0 input false out (omega arith) tidy) λ o k. k.0
