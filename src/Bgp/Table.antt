-- ===== src/Bgp/Table.antt =====
-- What a peer has from what `transmit` of src/bgp.rs writes: an independent description, by which
-- the sender is judged. The peer reads each packet whole, wants its UPDATEs valid, and keeps a
-- table from which it takes the routes withdrawn and to which it adds the routes announced.
pub mod Trunc
pub mod Packets
pub mod Follows
use ubgp.Base.{
  ℕ, Bool, true, false, List, [], ◌∷◌, ◌==◌, if◌then◌else◌, is_empty, message, Result, ok, ensure,
  ◌>>=◌, ◌>>◌,
}
use ubgp.Base.Sets.{insert, remove}
use ubgp.Net.IpNet.{IpNet, eq_of_net}
use ubgp.Wire.Frame.{read_frame, update_kind}
use ubgp.Wire.Open.{Negotiated}
use ubgp.Wire.Routes.{update_prefixes}
use ubgp.Wire.Validate.{UpdateAction, valid, validate_update}
use ubgp.Wire.Received.{withdrawn_prefixes}
use ubgp.Bgp.Receive.{is_valid}

module _ {Net : Type 0} ⦃ops : IpNet Net⦄ where
  abbrev pub remove_all : List Net → List Net → List Net
  remove_all [] table = table
  remove_all (p ∷ ps) table = remove_all ps (remove p table)

  abbrev pub insert_all : List Net → List Net → List Net
  insert_all [] table = table
  insert_all (p ∷ ps) table = insert_all ps (insert p table)

  module _ (n : Negotiated) where
    pub read_update : List ℕ → List Net → Result (List Net)
    read_update body table = do
      action ← validate_update body n
      ensure (is_valid action) "an UPDATE with an error"
      withdrawn ← withdrawn_prefixes body
      announced ← update_prefixes body
      ok (insert_all announced (remove_all withdrawn table))

    pub read_packet : List ℕ → List Net → Result (List Net)
    read_packet packet table = do
      ((kind, body), rest) ← read_frame packet
      ensure (is_empty rest) "more than a packet"
      if kind == update_kind then read_update body table else ok table

    pub read_all : List (List ℕ) → List Net → Result (List Net)
    read_all [] table = ok table
    read_all (packet ∷ packets) table = do
      table' ← read_packet packet table
      read_all packets table'
