-- ===== src/Netlink/Kernel/Datagrams.antt =====
-- `messages` on the datagrams that the kernel writes.
use ubgp.Base.{
  ℕ, zero, suc, ◌+◌, ◌*◌, ◌/◌, ◌%◌, ◌≤◌, ◌≡◌, refl, sym, ap, List, [], ◌∷◌, ◌++◌, length, All, ◌==◌,
  ==_iff, le→leb, Bool-cases, inl, inr, ok, Checked, arith, append_assoc, length-append,
}
use ubgp.Base.Slices.{slice_middle, slice_from-append}
use ubgp.Netlink.Message.{Message, first_message, behind_padding, messages, attempt, align}
use ubgp.Netlink.Snapshot.{u32_ne, u16_ne}
use ubgp.Netlink.Kernel.Words.{u32n-u32_ne, length-padded, slice_from-padded}
use ubgp.Netlink.Kernel.{padding, nlmsghdr, datagram_bytes, IsMessage}

module _ (port : ℕ) (m : Message) (rest : List ℕ) where
  -- A message and what follows it.
  abbrev onto : List ℕ
  onto = nlmsghdr port m ++ (m.payload ++ (padding (16 + length m.payload) ++ rest))

  first_message-message : IsMessage m → first_message onto ≡ ok (m, 16 + length m.payload)
  unfolding first_message
  first_message-message h =
      let n = 16 + length m.payload in
      let tail = m.payload ++ (padding n ++ rest) in
      let size = length-padded (nlmsghdr port m) m.payload rest n refl in
      let kind_read : m.kind % 256 + 256 * (m.kind / 256 % 256) ≡ m.kind =
        omega (arith, h.kind_fits) in
      let flags_read : m.flags % 256 + 256 * (m.flags / 256 % 256) ≡ m.flags =
        omega (arith, h.flags_fit) in
      rw (
        le→leb 16 (length onto) (omega arith),
        u32n-u32_ne n (u16_ne m.kind ++ (u16_ne m.flags ++ (u32_ne m.seq ++ (u32_ne port ++ tail))))
            (omega (arith, h.length_fits)),
        le→leb 16 n (omega arith),
        le→leb n (length onto) (omega arith),
        slice_from-append (u32_ne n)
            (u16_ne m.kind ++ (u16_ne m.flags ++ (u32_ne m.seq ++ (u32_ne port ++ tail)))) 4 refl,
        kind_read,
        slice_from-append (u32_ne n ++ u16_ne m.kind)
            (u16_ne m.flags ++ (u32_ne m.seq ++ (u32_ne port ++ tail))) 6 refl,
        flags_read,
        slice_from-append (u32_ne n ++ (u16_ne m.kind ++ u16_ne m.flags))
            (u32_ne m.seq ++ (u32_ne port ++ tail)) 8 refl,
        u32n-u32_ne m.seq (u32_ne port ++ tail) (omega (arith, h.seq_fits)),
        slice_middle (nlmsghdr port m) m.payload (padding n ++ rest) 16 n refl refl,
      )

module _ {S : Type 0} (f : Message → S → Checked × S) where
  -- The callback on each message, up to its first error.
  abbrev pub calls : List Message → S → Checked × S
  calls [] s = (ok tt, s)
  calls (m ∷ ms) s = let r = f m s in attempt r.0 r.1 (λ done. calls ms r.1)

  messages-empty :
      (fuel : ℕ) (rest : List ℕ) (s : S) → length rest ≡ 0 → messages f fuel rest s ≡ (ok tt, s)
  unfolding messages
  messages-empty fuel [] s h = refl
  messages-empty fuel (b ∷ bs) s h = absurd (omega arith)

  messages-message :
      (port fuel : ℕ) (m : Message) (rest : List ℕ) (s : S)
      → IsMessage m
      → messages f (suc fuel) (onto port m rest) s
        ≡ (let r = f m s in attempt r.0 r.1 (λ done. messages f fuel rest r.1))
  unfolding messages behind_padding
  messages-message port fuel m rest s h =
      let n = 16 + length m.payload in
      let size = length-padded (nlmsghdr port m) m.payload rest n refl in
      rw (first_message-message port m rest h) (
        ap (λ x. attempt (f m s).0 (f m s).1 (λ done. x))
          (elim (Bool-cases (n == length (onto port m rest))) [
            | inl last ↦
                let full = (==_iff n (length (onto port m rest))).0 last in
                rw last (sym (messages-empty fuel rest (f m s).1 (omega arith)))
            | inr more ↦ rw (
              more,
              le→leb (align n) (length (onto port m rest)) (omega arith),
              slice_from-padded (nlmsghdr port m) m.payload rest n refl,
            )
          ]))

  -- On a datagram of messages that the kernel has written, `messages` calls its callback on exactly
  -- these messages, in order, up to the first that the callback refuses.
  pub messages-datagram_bytes :
      (port fuel : ℕ) (ms : List Message) (s : S)
      → All IsMessage ms
      → length (datagram_bytes port ms) ≤ fuel
      → messages f fuel (datagram_bytes port ms) s ≡ calls ms s
  unfolding messages
  messages-datagram_bytes port fuel [] s h room = refl
  messages-datagram_bytes port zero (m ∷ ms) s h room = absurd (omega arith)
  messages-datagram_bytes port (suc fuel) (m ∷ ms) s h room =
      rw
        (
          append_assoc m.payload (padding (16 + length m.payload)) (datagram_bytes port ms),
          messages-message port fuel m (datagram_bytes port ms) s h.0,
        )
        (ap (λ x. attempt (f m s).0 (f m s).1 (λ done. x))
          (messages-datagram_bytes port fuel ms (f m s).1 h.1 (
            omega (
              arith,
              room,
              length-append (m.payload ++ padding (16 + length m.payload)) (datagram_bytes port ms),
            ))))
