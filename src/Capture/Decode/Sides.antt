-- ===== src/Capture/Decode/Sides.antt =====
-- Whose traffic a packet is counted as.
use shadow_stat.Base.{
  ℕ, ◌≡◌, refl, Bool, true, false, Option, none, some, inl, inr, List, [], ◌∷◌, ◌++◌, length,
  Bool-cases,
}
use shadow_stat.Capture.Aggregator.{FlowEvent}
use shadow_stat.Store.Flows.{dir_lan_to_wan, dir_wan_to_lan, dir_lan_out, dir_lan_in}
use shadow_stat.Capture.Decode.{
  Ip, Lan, contains, is_unspecified, is_broadcast, Parser, RawPacket, DecodeResult,
  DhcpHostnameEvent, Seen, nothing_seen, read_layers, or_now, decode, classify, source_side,
  destination_side, build_flow_event, dhcp_of,
}

abbrev to_list : Option FlowEvent → List FlowEvent
to_list none = []
to_list (some e) = e ∷ []

-- The flow events of a packet, in the order in which they are added.
abbrev pub flows_of : DecodeResult → List FlowEvent
flows_of r = to_list r.flow ++ to_list r.flow2

-- The event counts the whole frame for `local`, an address of the LAN, as sent or received.
pub record IsSide (p : Parser) (lan : Lan) (local remote : Ip) (bytes : ℕ) (sent : Bool)
    (e : FlowEvent) : Type 0 where
  pub is_local : contains lan local ≡ true
  pub local_ip : e.key.local_ip ≡ p.ip_text local
  pub remote_ip : e.key.remote_ip ≡ p.ip_text remote
  pub frame_length : e.bytes ≡ bytes
  pub way : e.is_local_src ≡ sent

-- The addresses of a packet that makes flows: of its last IP header, if the source is not the
-- unspecified address and the destination not the broadcast address.
pub record IsBetween (p : Parser) (pkt : RawPacket) (src dst : Ip) : Type 0 where
  pub addresses : (read_layers nothing_seen (p.decode_layers pkt.frame)).addresses ≡ some (src, dst)
  pub specified : is_unspecified src ≡ false
  pub unicast : is_broadcast dst ≡ false

-- The flow events are those of the sides in the LAN: of the source, then of the destination. The
-- tests say which of the two sides are in the LAN.
abbrev pub AreSides : Parser → Lan → Ip → Ip → ℕ → Bool → Bool → List FlowEvent → Type 0
AreSides p lan src dst bytes true true (e ∷ f ∷ []) =
    IsSide p lan src dst bytes true e × IsSide p lan dst src bytes false f
AreSides p lan src dst bytes true false (e ∷ []) = IsSide p lan src dst bytes true e
AreSides p lan src dst bytes false true (f ∷ []) = IsSide p lan dst src bytes false f
AreSides p lan src dst bytes false false [] = Unit
AreSides p lan src dst bytes from to events = ⊥

module _ (p : Parser) (lan : Lan) where
  decode-between :
      (now : ℕ) (pkt : RawPacket) (src dst : Ip)
      → IsBetween p pkt src dst
      → decode p lan now pkt
        ≡ classify p lan
            (read_layers nothing_seen (p.decode_layers pkt.frame))
            src
            dst
            (or_now now pkt.timestamp)
            (length pkt.frame)
            (dhcp_of p (read_layers nothing_seen (p.decode_layers pkt.frame)) pkt.timestamp now)
  unfolding decode
  decode-between now pkt src dst b = rw (decode, b.addresses, b.specified, b.unicast) refl

  source_side-IsSide :
      (direction : ℕ) (s : Seen) (src dst : Ip) (ts bytes : ℕ)
      → contains lan src ≡ true
      → IsSide p lan src dst bytes true (source_side p direction s src dst ts bytes)
  unfolding source_side build_flow_event
  source_side-IsSide direction s src dst ts bytes h = record {
    is_local = h;
    local_ip = refl;
    remote_ip = refl;
    frame_length = refl;
    way = refl;
  }

  destination_side-IsSide :
      (direction : ℕ) (s : Seen) (src dst : Ip) (ts bytes : ℕ)
      → contains lan dst ≡ true
      → IsSide p lan dst src bytes false (destination_side p direction s src dst ts bytes)
  unfolding destination_side build_flow_event
  destination_side-IsSide direction s src dst ts bytes h = record {
    is_local = h;
    local_ip = refl;
    remote_ip = refl;
    frame_length = refl;
    way = refl;
  }

  classify-sides :
      (s : Seen) (src dst : Ip) (ts bytes : ℕ) (dhcp : Option DhcpHostnameEvent)
      → AreSides p lan src dst bytes
          (contains lan src)
          (contains lan dst)
          (flows_of (classify p lan s src dst ts bytes dhcp))
  unfolding classify
  classify-sides s src dst ts bytes dhcp = elim (Bool-cases (contains lan src)) [
    | inl a ↦ elim (Bool-cases (contains lan dst)) [
      | inl b ↦
          rw (a, b)
            (
              source_side-IsSide dir_lan_out s src dst ts bytes a,
              destination_side-IsSide dir_lan_in s src dst ts bytes b,
            )
      | inr b ↦ rw (a, b) (source_side-IsSide dir_lan_to_wan s src dst ts bytes a)
    ]
    | inr a ↦ elim (Bool-cases (contains lan dst)) [
      | inl b ↦ rw (a, b) (destination_side-IsSide dir_wan_to_lan s src dst ts bytes b)
      | inr b ↦ rw (a, b) tt
    ]
  ]

  -- A packet between two addresses makes one flow event for each of its sides in the LAN: the
  -- source's, which counts the whole frame as sent, then the destination's, which counts it as
  -- received. Between two addresses of the LAN it makes both, outside the LAN none.
  pub decode-sides :
      (now : ℕ) (pkt : RawPacket) (src dst : Ip)
      → IsBetween p pkt src dst
      → AreSides p lan src dst
          (length pkt.frame)
          (contains lan src)
          (contains lan dst)
          (flows_of (decode p lan now pkt))
  decode-sides now pkt src dst b = rw (decode-between now pkt src dst b) (
      classify-sides (read_layers nothing_seen (p.decode_layers pkt.frame)) src dst
        (or_now now pkt.timestamp) (length pkt.frame)
        (dhcp_of p (read_layers nothing_seen (p.decode_layers pkt.frame)) pkt.timestamp now))
