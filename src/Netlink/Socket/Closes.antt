-- ===== src/Netlink/Socket/Closes.antt =====
-- No socket is left open behind an error.
use ubgp.Base.{
  ℕ, ◌+◌, ◌-◌, ◌≡◌, refl, ap, ◌∙◌, Option, [], ◌∷◌, ◌++◌, Error, Checked, arith, append_assoc, ◌%◌,
  ◌^◌, Option-cases, inl, inr,
}
use ubgp.Config.{Config}
use ubgp.Netlink.Message.Ending.{Ends, fine, failing, Ends-onto, Ends-weaken}
use ubgp.Netlink.Socket.{
  NetlinkCall, open_route_socket, close_socket, get_receive_buffer, set_receive_buffer,
  set_strict_check, bind_groups, Calls, or_close, call, set_up, open_socket, open_dump, open_events,
  event_groups,
}

-- The sockets that are open behind the calls.
abbrev pub still_open : ℕ → Calls → ℕ
still_open n [] = n
still_open n (open_route_socket ∷ calls) = still_open (n + 1) calls
still_open n (close_socket ∷ calls) = still_open (n - 1) calls
still_open n (get_receive_buffer ∷ calls) = still_open n calls
still_open n (set_receive_buffer size ∷ calls) = still_open n calls
still_open n (set_strict_check b ∷ calls) = still_open n calls
still_open n (bind_groups groups ∷ calls) = still_open n calls

-- The calls behind `before`: a socket with its buffer that is bound to the groups.
abbrev pub bound : ℕ → ℕ → Calls
bound groups buffer =
    open_route_socket
    ∷ set_receive_buffer (buffer % 2 ^ 32)
    ∷ get_receive_buffer
    ∷ bind_groups groups
    ∷ []

-- The calls `added` and no others, or no socket that was not open before.
abbrev pub Leaves : Calls → Calls → Checked × Calls → Type 0
Leaves before added r =
    Ends (λ trace. trace ≡ before ++ added) (λ trace. still_open 0 trace ≡ still_open 0 before) r.0
      r.1

still_open-append :
    (n : ℕ) (xs ys : Calls) → still_open n (xs ++ ys) ≡ still_open (still_open n xs) ys
still_open-append n [] ys = refl
still_open-append n (open_route_socket ∷ xs) ys = still_open-append (n + 1) xs ys
still_open-append n (close_socket ∷ xs) ys = still_open-append (n - 1) xs ys
still_open-append n (get_receive_buffer ∷ xs) ys = still_open-append n xs ys
still_open-append n (set_receive_buffer size ∷ xs) ys = still_open-append n xs ys
still_open-append n (set_strict_check b ∷ xs) ys = still_open-append n xs ys
still_open-append n (bind_groups groups ∷ xs) ys = still_open-append n xs ys

-- Where a socket was opened, its owner closes it.
or_close-Ends :
    (I : Calls → Type 0) (m : ℕ) {r : Checked} {trace : Calls}
    → Ends I (λ t. still_open 0 t ≡ m + 1) r trace
    → Ends I (λ t. still_open 0 t ≡ m) (or_close (r, trace)).0 (or_close (r, trace)).1
or_close-Ends I m (fine i) = fine i
or_close-Ends I m (failing {e} {s} j) =
    failing (still_open-append 0 s (close_socket ∷ []) ∙ omega (arith, j))

module _ (refuses : Calls → NetlinkCall → Option Error) where
  call-Ends :
      (I J : Calls → Type 0) (k : NetlinkCall) (trace : Calls)
      → I (trace ++ (k ∷ []))
      → J trace
      → Ends I J (call refuses k trace).0 (call refuses k trace).1
  unfolding call
  call-Ends I J k trace i j = elim (Option-cases (refuses trace k)) [
    | inl accepted ↦ rw accepted (fine i)
    | inr (e, refused) ↦ rw refused (failing j)
  ]

  set_up-Ends :
      (groups buffer m : ℕ) (trace : Calls)
      → still_open 0 trace ≡ m
      → Ends
          (λ t.
            t
            ≡ trace
              ++ (set_receive_buffer (buffer % 2 ^ 32)
                  ∷ get_receive_buffer
                  ∷ bind_groups groups
                  ∷ []))
          (λ t. still_open 0 t ≡ m)
          (set_up refuses groups buffer trace).0
          (set_up refuses groups buffer trace).1
  unfolding set_up
  set_up-Ends groups buffer m trace h =
      let size = set_receive_buffer (buffer % 2 ^ 32) in
      let t1 = trace ++ (size ∷ []) in
      let t2 = t1 ++ (get_receive_buffer ∷ []) in
      Ends-onto _ (λ t. still_open 0 t ≡ m) (call-Ends (λ t. t ≡ t1) _ size trace refl h)
        λ s1 e1.
          Ends-onto _ (λ t. still_open 0 t ≡ m)
            (call-Ends (λ t. t ≡ t2) _ get_receive_buffer s1
              (ap (λ s. s ++ (get_receive_buffer ∷ [])) e1)
              (ap (still_open 0) e1 ∙ still_open-append 0 trace (size ∷ []) ∙ h))
            λ s2 e2.
              call-Ends _ _ (bind_groups groups) s2
                (ap (λ s. s ++ (bind_groups groups ∷ [])) e2
                  ∙ append_assoc t1 (get_receive_buffer ∷ []) (bind_groups groups ∷ [])
                  ∙ append_assoc trace (size ∷ []) (get_receive_buffer ∷ bind_groups groups ∷ []))
                (ap (still_open 0) e2
                  ∙ still_open-append 0 t1 (get_receive_buffer ∷ [])
                  ∙ still_open-append 0 trace (size ∷ [])
                  ∙ h)

  open_socket-Leaves :
      (groups buffer : ℕ) (before : Calls)
      → Leaves before (bound groups buffer) (open_socket refuses groups buffer before)
  unfolding open_socket
  open_socket-Leaves groups buffer before =
      let m = still_open 0 before in
      let opened = before ++ (open_route_socket ∷ []) in
      let setup =
        set_receive_buffer (buffer % 2 ^ 32) ∷ get_receive_buffer ∷ bind_groups groups ∷ [] in
      Ends-onto _ (λ t. still_open 0 t ≡ m)
        (call-Ends (λ t. t ≡ opened) _ open_route_socket before refl refl)
        λ s e. or_close-Ends _ m (
          Ends-weaken _ _
            (set_up-Ends groups buffer (m + 1) s
              (ap (still_open 0) e ∙ still_open-append 0 before (open_route_socket ∷ [])))
            λ t h. h ∙ ap (λ x. x ++ setup) e ∙ append_assoc before (open_route_socket ∷ []) setup)

  -- Whatever the kernel refuses, setting up the socket of a dump and that of the notifications ends
  -- without a panic: with the socket open, its buffer set before it is bound to its groups, and
  -- strict checks on for the dump, or with an error and no socket open that was not open before.
  pub open_dump-open_events :
      {Net : Type 0} (c : Config Net) (before : Calls)
      → let buffer = c.kernel.receive_buffer_bytes in
        Leaves before (bound 0 buffer ++ (set_strict_check 1 ∷ [])) (open_dump refuses c before)
        × Leaves before (bound (event_groups c.ipv6) buffer) (open_events refuses c before)
  unfolding open_dump open_events
  open_dump-open_events c before =
      let m = still_open 0 before in
      let buffer = c.kernel.receive_buffer_bytes in
      (
        Ends-onto _ (λ t. still_open 0 t ≡ m) (open_socket-Leaves 0 buffer before)
            λ s e. or_close-Ends _ m (
              call-Ends (λ t. t ≡ before ++ (bound 0 buffer ++ (set_strict_check 1 ∷ []))) _
                (set_strict_check 1) s
                (ap (λ x. x ++ (set_strict_check 1 ∷ [])) e
                  ∙ append_assoc before (bound 0 buffer) (set_strict_check 1 ∷ []))
                (ap (still_open 0) e ∙ still_open-append 0 before (bound 0 buffer))),
        open_socket-Leaves (event_groups c.ipv6) buffer before,
      )
