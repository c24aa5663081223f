-- ===== src/Tests/Messages.antt =====
-- Messages: framing, OPEN and UPDATE.
use ubgp.Base.{
  map, some, Str-discrete, ◌≤◌, ℕ, ◌≡◌, refl, true, false, List, [], ◌∷◌, ◌++◌, inl, inr, ok, ◌>>=◌,
  length, arith, IsBytes,
}
use ubgp.Base.Ensures.{Ensures}
use ubgp.Net.IpNet.Concrete.{cidr, cidr_laws}
use ubgp.Net.Addr.{ipv4, ipv4_eq, Ipv4Addr-discrete}
use ubgp.Config.{valid_v4, nh4, valid_router_id}
use ubgp.Wire.Frame.{frame, read_frame, update_kind}
use ubgp.Wire.Frame.RoundTrip.{read_frame-frame}
use ubgp.Wire.Frame.Exact.{IsFrameError, read_frame_exact, read_frame_total}
use ubgp.Wire.Faults.{IsFault}
use ubgp.Wire.Open.{open_body, parse_open}
use ubgp.Wire.Open.Total.{IsNegotiated, parse_open_total}
use ubgp.Wire.Open.RoundTrip.{parse_open-open}
use ubgp.Wire.Update.{update}
use ubgp.Wire.Validate.{validate_update, valid}
use ubgp.Wire.Validate.Total.{validate_update_total}
use ubgp.Wire.Received.Batches.{IsRead}
use ubgp.Wire.Received.Updates.{update-IsRead}
use ubgp.Tests.Data.{router_a, router_b, to_a, to_b, negotiated, routes}

read_frame-frame_example :
    (frame 4 [] >>= λ packet. read_frame (packet ++ 255 ∷ [])) ≡ ok ((4, []), 255 ∷ [])
read_frame-frame_example = read_frame-frame 4 [] (255 ∷ []) (omega arith) refl

-- A KEEPALIVE with a byte behind it.
abbrev keepalive_stream : List ℕ
keepalive_stream =
    255 ∷ 255 ∷ 255 ∷ 255 ∷ 255 ∷ 255 ∷ 255 ∷ 255 ∷ 255 ∷ 255 ∷ 255 ∷ 255 ∷ 255 ∷ 255 ∷ 255 ∷ 255
    ∷ 0 ∷ 19 ∷ 4 ∷ 7 ∷ []

keepalive_stream-IsBytes : IsBytes keepalive_stream
keepalive_stream-IsBytes = ground arith

keepalive_read : read_frame keepalive_stream ≡ ok ((4, []), 7 ∷ [])
unfolding read_frame Str-discrete
keepalive_read = refl

read_frame_exact_example : (frame 4 [] >>= λ packet. ok (packet ++ 7 ∷ [])) ≡ ok keepalive_stream
read_frame_exact_example =
    read_frame_exact keepalive_stream 4 [] (7 ∷ []) keepalive_stream-IsBytes keepalive_read

read_frame_total_example :
    Ensures IsFrameError
      (λ r. (1 ≤ r.0.0) × (r.0.0 ≤ 5) × (length r.0.1 ≤ 4077))
      (read_frame keepalive_stream)
read_frame_total_example = read_frame_total keepalive_stream

router_id_valid : valid_router_id router_a.router_id ≡ true
unfolding valid_router_id
router_id_valid = refl

parse_open-open_example : parse_open (open_body router_a to_b) router_b to_a ≡ ok (negotiated 1)
parse_open-open_example =
    parse_open-open router_a to_b router_b to_a (omega arith) refl (omega arith) (inr (omega arith))
      router_id_valid (inl (omega arith)) refl

parse_open_total_example :
    Ensures (IsFault 2) (IsNegotiated router_b to_a) (parse_open (4 ∷ 0 ∷ 1 ∷ []) router_b to_a)
parse_open_total_example = parse_open_total (4 ∷ 0 ∷ 1 ∷ []) router_b to_a (inr (omega arith))

validate_update_total_example :
    Ensures
      (IsFault 3)
      (λ _. Unit)
      (validate_update (0 ∷ 0 ∷ 0 ∷ 3 ∷ 64 ∷ 1 ∷ 9 ∷ []) (negotiated 1))
validate_update_total_example =
    validate_update_total (0 ∷ 0 ∷ 0 ∷ 3 ∷ 64 ∷ 1 ∷ 9 ∷ []) (negotiated 1)

pub own_next_hop : (nh4 to_b ≡ some (ipv4 192 0 2 1)) × (valid_v4 (ipv4 192 0 2 1) ≡ true)
unfolding nh4 valid_v4 Ipv4Addr-discrete
own_next_hop = (refl, refl)

update-IsRead_example :
    (body : List ℕ) × ((rest : List ℕ)
      → (update router_a to_b (negotiated 2) routes false >>= λ packet. read_frame (packet ++ rest))
        ≡ ok ((update_kind, body), rest))
    × (validate_update body (negotiated 2) ≡ ok valid)
    × IsRead [] (map cidr.trunc routes) body
update-IsRead_example =
    update-IsRead cidr_laws router_a to_b (negotiated 2) routes false false refl (omega arith)
      (omega arith) (refl, (refl, tt)) (inr (ipv4 192 0 2 1, own_next_hop.0, own_next_hop.1))
