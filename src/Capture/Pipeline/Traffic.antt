-- ===== src/Capture/Pipeline/Traffic.antt =====
-- From packets to the sums of their flows.
use shadow_stat.Base.{
  ℕ, ◌≡◌, refl, ap, ◌∙◌, sym, Option, none, some, List, [], ◌∷◌, ◌++◌, rows_where, str_eq,
  Bool-cases, inl, inr,
}
use shadow_stat.Base.Assoc.{lookup}
use shadow_stat.Capture.Aggregator.{
  FlowKey, FlowEvent, FlowAccum, same_key, flow_key_eq, add, drain,
}
use shadow_stat.Capture.Aggregator.Summary.{add_all, summary, drain-add_all-eq-summary}
use shadow_stat.Capture.Decode.{
  Lan, Parser, RawPacket, DnsQueryEvent, DhcpHostnameEvent, DecodeResult, decode,
}
use shadow_stat.Capture.Decode.Sides.{flows_of}
use shadow_stat.Capture.Pipeline.{
  Pipeline, Store, on_packet, remember_mac, add_flow, add_dns, add_dhcp,
}
use shadow_stat.Capture.Pipeline.Flush.{Event, packet, run}

add_flow-agg : (flow : FlowEvent) (p : Pipeline) → (add_flow (some flow) p).agg ≡ add flow p.agg
unfolding remember_mac
add_flow-agg flow p = elim (Bool-cases (str_eq flow.local_mac "")) [
  | inl empty ↦ rw (remember_mac, empty) refl
  | inr full ↦ rw (remember_mac, full) refl
]

add_dns-agg : (q : Option DnsQueryEvent) (p : Pipeline) → (add_dns q p).agg ≡ p.agg
add_dns-agg none p = refl
add_dns-agg (some q) p = refl

add_dhcp-agg : (ev : Option DhcpHostnameEvent) (p : Pipeline) → (add_dhcp ev p).agg ≡ p.agg
add_dhcp-agg none p = refl
add_dhcp-agg (some ev) p = refl

add_flows-agg :
    (a b : Option FlowEvent) (r : DecodeResult) (p : Pipeline)
    → (add_flow b (add_flow a p)).agg ≡ add_all (flows_of (record r { flow = a; flow2 = b })) p.agg
unfolding add_all
add_flows-agg none none r p = refl
add_flows-agg (some e) none r p = add_flow-agg e p
add_flows-agg none (some f) r p = add_flow-agg f p
add_flows-agg (some e) (some f) r p =
    add_flow-agg f (add_flow (some e) p) ∙ ap (λ t. add f t) (add_flow-agg e p)

on_packet-agg :
    (parser : Parser) (lan : Lan) (now : ℕ) (pkt : RawPacket) (p : Pipeline)
    → (on_packet parser lan now pkt p).agg ≡ add_all (flows_of (decode parser lan now pkt)) p.agg
unfolding on_packet
on_packet-agg parser lan now pkt p =
    let r = decode parser lan now pkt in
    add_dhcp-agg r.dhcp (add_dns r.dns (add_flow r.flow2 (add_flow r.flow p)))
    ∙ add_dns-agg r.dns (add_flow r.flow2 (add_flow r.flow p))
    ∙ add_flows-agg r.flow r.flow2 r p

add_all-append :
    (a b : List FlowEvent) (t : List (FlowKey × FlowAccum))
    → add_all (a ++ b) t ≡ add_all b (add_all a t)
unfolding add_all
add_all-append [] b t = refl
add_all-append (x ∷ a) b t = add_all-append a b (add x t)

module _ (parser : Parser) (lan : Lan) where
  -- The packets as they come, each with the time of the clock.
  abbrev pub arrivals : List (ℕ × RawPacket) → List Event
  arrivals [] = []
  arrivals (x ∷ rest) = packet x.0 x.1 ∷ arrivals rest

  -- The flow events of packets.
  abbrev pub events : List (ℕ × RawPacket) → List FlowEvent
  events [] = []
  events (x ∷ rest) = flows_of (decode parser lan x.0 x.1) ++ events rest

  run-agg :
      (pkts : List (ℕ × RawPacket)) (p : Pipeline) (s : Store)
      → (run parser lan (arrivals pkts) (p, s)).0.agg ≡ add_all (events pkts) p.agg
  unfolding run add_all
  run-agg [] p s = refl
  run-agg (x ∷ rest) p s =
      run-agg rest (on_packet parser lan x.0 x.1 p) s
      ∙ ap (λ t. add_all (events rest) t) (on_packet-agg parser lan x.0 x.1 p)
      ∙ sym (add_all-append (flows_of (decode parser lan x.0 x.1)) (events rest) p.agg)

  -- Packets that arrive at a pipeline with an empty aggregator, as a flush leaves it: the next
  -- drain hands out, for each flow, the summary of the flow events of these packets with its key.
  pub run-summary :
      (pkts : List (ℕ × RawPacket)) (p : Pipeline) (s : Store) (k : FlowKey)
      → p.agg ≡ []
      → lookup k (drain (run parser lan (arrivals pkts) (p, s)).0.agg).0
        ≡ summary (rows_where (λ e. same_key e.key k) (events pkts))
  run-summary pkts p s k empty =
      ap (λ t. lookup k (drain t).0) (run-agg pkts p s ∙ ap (λ t. add_all (events pkts) t) empty)
      ∙ drain-add_all-eq-summary k (events pkts)
