-- ===== src/Bgp/Table/Packets.antt =====
-- How the packets that `transmit` writes are read.
use ubgp.Base.{
  ℕ, ◌≡◌, refl, sym, ap, ◌∙◌, Bool, true, false, not, ◌==◌, List, [], ◌∷◌, ◌++◌, append-nil,
  bit_and, if◌then◌else◌, Result, ok, err, panic, out_of_fuel, ◌>>=◌, arith,
}
use ubgp.Base.Ensures.{bind_ok, Checks, holds, Ensures-bind}
use ubgp.Net.IpNet.{IpNet, IpNetLaws, eq_of_net}
use ubgp.Config.{Config, Peer}
use ubgp.Wire.Frame.{frame, keepalive, read_frame, update_kind}
use ubgp.Wire.Frame.RoundTrip.{read_frame-frame}
use ubgp.Wire.Open.{Negotiated}
use ubgp.Wire.Update.{end_of_rib, end_of_rib_body}
use ubgp.Wire.Validate.{validate_update, valid}
use ubgp.Wire.Validate.OwnUpdates.{withdraw_v4, withdraw_v6}
use ubgp.Wire.Received.Batches.{IsRead, IsRead-withdraw_v4, IsRead-withdraw_v6}
use ubgp.Bgp.Transmit.{markers}
use ubgp.Bgp.Table.{remove_all, insert_all, read_update, read_packet, read_all}

-- A packet that is read back has been made, and is read alone.
pub read_back :
    (m : Result (List ℕ)) {x : ℕ × List ℕ}
    → (m >>= λ packet. read_frame (packet ++ [])) ≡ ok (x, [])
    → (packet : List ℕ) × (m ≡ ok packet) × (read_frame packet ≡ ok (x, []))
read_back (ok packet) h = (packet, refl, ap read_frame (sym (append-nil packet)) ∙ h)
read_back (err e) h = cc
read_back panic h = cc
read_back out_of_fuel h = cc

module _ {Net : Type 0} ⦃ops : IpNet Net⦄ (n : Negotiated) where
  pub read_packet-update :
      (packet body : List ℕ) (table : List Net) {withdrawn announced : List Net}
      → read_frame packet ≡ ok ((update_kind, body), [])
      → validate_update body n ≡ ok valid
      → IsRead withdrawn announced body
      → read_packet n packet table ≡ ok (insert_all announced (remove_all withdrawn table))
  unfolding read_packet read_update
  read_packet-update packet body table framed good read =
      rw (framed, good, read.withdraws, read.announces)

  read_packet-keepalive :
      (packet : List ℕ) (table : List Net)
      → read_frame packet ≡ ok ((keepalive, []), [])
      → read_packet n packet table ≡ ok table
  unfolding read_packet
  read_packet-keepalive packet table framed = rw framed

  pub read_all-append :
      (packets later : List (List ℕ)) (table : List Net) {table' : List Net}
      → read_all n packets table ≡ ok table'
      → read_all n (packets ++ later) table ≡ read_all n later table'
  unfolding read_all
  read_all-append [] later table {table'} h = let e : table ≡ table' = cc in ap (read_all n later) e
  read_all-append (packet ∷ packets) later table h =
      let (between, e) = bind_ok (read_packet n packet table) (λ t. read_all n packets t) h in
      rw e (read_all-append packets later between (rw e at h))

  pub keepalive-read :
      (packet : List ℕ) × (frame keepalive [] ≡ ok packet)
      × ((table : List Net) → read_packet n packet table ≡ ok table)
  keepalive-read =
      let (packet, e, framed) =
        read_back (frame keepalive []) (read_frame-frame keepalive [] [] (omega arith) refl) in
      (packet, e, λ table. read_packet-keepalive packet table framed)

  -- The packets of one kind.
  pub read_one :
      (packet : List ℕ) (table : List Net) {table' : List Net}
      → read_packet n packet table ≡ ok table'
      → read_all n (packet ∷ []) table ≡ ok table'
  unfolding read_all
  read_one packet table h = rw h

module _ {Net : Type 0} ⦃ops : IpNet Net⦄ (laws : IpNetLaws ops) (c : Config Net) (p : Peer)
    (n : Negotiated) where
  -- An end-of-RIB marker is an UPDATE without routes.
  marker-read :
      (is_v6 : Bool)
      → (packet : List ℕ) × (end_of_rib is_v6 ≡ ok packet)
        × ((table : List Net) → read_packet n packet table ≡ ok table)
  unfolding end_of_rib end_of_rib_body
  marker-read true =
      let (packet, e, framed) =
        read_back (end_of_rib true)
          (read_frame-frame update_kind (end_of_rib_body true) [] (omega arith) refl) in
      (
        packet,
        e,
        λ table.
            read_packet-update n packet (end_of_rib_body true) table framed
              (withdraw_v6 laws c p n [] (omega arith) tt)
              (IsRead-withdraw_v6 laws c p n [] (omega arith) tt),
      )
  marker-read false =
      let (packet, e, framed) =
        read_back (end_of_rib false)
          (read_frame-frame update_kind (end_of_rib_body false) [] (omega arith) refl) in
      (
        packet,
        e,
        λ table.
            read_packet-update n packet (end_of_rib_body false) table framed
              (withdraw_v4 laws c p n [] (omega arith) tt)
              (IsRead-withdraw_v4 laws c p n [] (omega arith) tt),
      )

  -- Packets that leave every table alone.
  abbrev pub AreMarkers : List (List ℕ) → Type 0
  AreMarkers packets = (table : List Net) → read_all n packets table ≡ ok table

  marker-AreMarkers :
      (due is_v6 : Bool)
      → Checks AreMarkers (if due then (end_of_rib is_v6 >>= λ m. ok (m ∷ [])) else ok [])
  unfolding read_all
  marker-AreMarkers false is_v6 = holds (λ table. refl)
  marker-AreMarkers true is_v6 =
      let (packet, e, read) = marker-read is_v6 in
      rw e (holds (λ table. read_one n packet table (read table)))

  pub markers-AreMarkers : (eor : ℕ) → Checks AreMarkers (markers eor)
  unfolding markers
  markers-AreMarkers eor =
      Ensures-bind (marker-AreMarkers (not (bit_and eor 1 == 0)) false) λ first h.
        Ensures-bind (marker-AreMarkers (not (bit_and eor 2 == 0)) true)
          λ second k. holds (λ table. read_all-append n first second table (h table) ∙ k table)
