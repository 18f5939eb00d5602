-- ===== src/Capture/Decode/Consistent.antt =====
-- The parts of one packet's result agree.
use shadow_stat.Base.{
  ℕ, ◌≡◌, refl, ◌||◌, Option, none, some, inl, inr, String, List, arith, Bool-cases, Option-cases,
}
use shadow_stat.Capture.Aggregator.{FlowKey, FlowEvent}
use shadow_stat.Store.Flows.{dir_lan_out, dir_lan_in}
use shadow_stat.Capture.Decode.{
  Ip, Lan, contains, is_unspecified, is_broadcast, Parser, RawPacket, DecodeResult,
  DhcpHostnameEvent, DnsQueryEvent, Seen, nothing_seen, read_layers, decode, classify, source_side,
  destination_side, build_flow_event, dns_of, decode_dns_query,
}

-- The same flow as the host at its other end sees it.
abbrev pub mirror : FlowKey → FlowKey
mirror k = record {
  direction = dir_lan_in;
  proto = k.proto;
  local_ip = k.remote_ip;
  local_port = k.remote_port;
  remote_ip = k.local_ip;
  remote_port = k.local_port;
}

-- A second flow event is the mirror of the first, which goes to the LAN; a DNS query names the
-- host and the time of the first.
pub record IsConsistent (r : DecodeResult) : Type 0 where
  pub second :
      (e : FlowEvent)
      → r.flow2 ≡ some e
      → (first : FlowEvent) × (r.flow ≡ some first)
        × (first.key.direction ≡ dir_lan_out)
        × (e.key ≡ mirror first.key)
        × (e.timestamp ≡ first.timestamp)
  pub query :
      (q : DnsQueryEvent)
      → r.dns ≡ some q
      → (first : FlowEvent) × (r.flow ≡ some first)
        × (q.local_ip ≡ first.key.local_ip)
        × (q.timestamp ≡ first.timestamp)

no_flows-IsConsistent :
    (dhcp : Option DhcpHostnameEvent)
    → IsConsistent (record { flow = none; flow2 = none; dns = none; dhcp = dhcp })
no_flows-IsConsistent dhcp = record { second = λ e h. cc; query = λ q h. cc }

module _ (p : Parser) where
  decode_dns_query-local :
      (payload : List ℕ) (ip : String) (ts : ℕ) (q : DnsQueryEvent)
      → decode_dns_query p payload ip ts ≡ some q
      → (q.local_ip ≡ ip) × (q.timestamp ≡ ts)
  unfolding decode_dns_query
  decode_dns_query-local payload ip ts q h = ground (arith, Option-cases (p.decode_dns payload))

  dns_of-local :
      (s : Seen) (ip : Ip) (ts : ℕ) (q : DnsQueryEvent)
      → dns_of p s ip ts ≡ some q
      → (q.local_ip ≡ p.ip_text ip) × (q.timestamp ≡ ts)
  unfolding dns_of
  dns_of-local s ip ts q h = elim (Option-cases s.udp_payload) [
    | inl none_there ↦ ground arith
    | inr (payload, there) ↦ ground (arith, decode_dns_query-local payload (p.ip_text ip) ts q)
  ]

  classify-IsConsistent :
      (lan : Lan) (s : Seen) (src dst : Ip) (ts bytes : ℕ) (dhcp : Option DhcpHostnameEvent)
      → IsConsistent (classify p lan s src dst ts bytes dhcp)
  unfolding classify source_side destination_side build_flow_event
  classify-IsConsistent lan s src dst ts bytes dhcp = elim (Bool-cases (contains lan src)) [
    | inl a ↦ elim (Bool-cases (contains lan dst)) [
      | inl b ↦ rw a (
          rw b (record {
            second = λ e h. (_, refl, refl, cc, cc);
            query = λ q h. (_, refl, (dns_of-local s src ts q h).0, (dns_of-local s src ts q h).1);
          }))
      | inr b ↦ rw a (
          rw b (record {
            second = λ e h. cc;
            query = λ q h. (_, refl, (dns_of-local s src ts q h).0, (dns_of-local s src ts q h).1);
          }))
    ]
    | inr a ↦ elim (Bool-cases (contains lan dst)) [
      | inl b ↦ rw a (
          rw b (record {
            second = λ e h. cc;
            query = λ q h. (_, refl, (dns_of-local s dst ts q h).0, (dns_of-local s dst ts q h).1);
          }))
      | inr b ↦ rw a (rw b (no_flows-IsConsistent dhcp))
    ]
  ]

  -- For every packet: a second flow event has the key of the first seen from the other end, and
  -- the first goes out to the LAN; a DNS query comes with a first flow event and names its host
  -- and time.
  pub decode-IsConsistent :
      (lan : Lan) (now : ℕ) (pkt : RawPacket) → IsConsistent (decode p lan now pkt)
  unfolding decode
  decode-IsConsistent lan now pkt =
      elim (Option-cases (read_layers nothing_seen (p.decode_layers pkt.frame)).addresses) [
        | inl h ↦ rw (decode, h) (no_flows-IsConsistent none)
        | inr (a, h) ↦ elim (Bool-cases (is_unspecified a.0 || is_broadcast a.1)) [
          | inl skip ↦ rw (decode, h, skip) (no_flows-IsConsistent _)
          | inr keep ↦
              rw (decode, h, keep)
                (classify-IsConsistent lan (read_layers nothing_seen (p.decode_layers pkt.frame)) _
                  _ _ _ _)
        ]
      ]
