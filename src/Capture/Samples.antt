-- ===== src/Capture/Samples.antt =====
-- Tests of the capture pipeline, and its theorems at concrete packets.
use shadow_stat.Base.{
  str_eq, arith, ℕ, ◌+◌, ◌*◌, ◌^◌, ◌≡◌, refl, String, Bool, true, false, none, some, List, [], ◌∷◌,
  length, rows_where, if◌then◌else◌, ◌==◌, string_eq,
}
use shadow_stat.Base.Assoc.{lookup}
use shadow_stat.Store.Hosts.{Hosts}
use shadow_stat.Store.Hosts.Lookup.{Keeps}
use shadow_stat.Capture.Aggregator.{FlowKey, FlowEvent, FlowAccum, same_key, flow_key_eq, drain}
use shadow_stat.Capture.Aggregator.Summary.{add_all, summary, drain-add_all-eq-summary}
use shadow_stat.Capture.Decode.{
  Ip, ip4, ip6, Lan, lan4, Layer, ethernet, ipv4, tcp, udp, Parser, RawPacket, decode, read_layers,
}
use shadow_stat.Capture.Decode.Sides.{AreSides, flows_of, decode-sides}
use shadow_stat.Capture.Decode.Consistent.{IsConsistent, decode-IsConsistent}
use shadow_stat.Capture.Pipeline.{Pipeline, Store, Failures, new_pipeline}
use shadow_stat.Capture.Pipeline.Flush.{Event, packet, flushes, run, flush_flows, flow_record}
use shadow_stat.Capture.Pipeline.Cache.{IsCached}
use shadow_stat.Capture.Pipeline.Runs.{run-IsCached}
use shadow_stat.Capture.Pipeline.Traffic.{arrivals, events, run-summary}
use shadow_stat.Capture.Pipeline.Failing.{flush_flows-loses_all}

abbrev laptop : Ip
laptop = ip4 (10 * 2 ^ 24 + 5)

abbrev printer : Ip
printer = ip4 (10 * 2 ^ 24 + 6)

abbrev server : Ip
server = ip4 (2 ^ 24 + 4)

abbrev home : Lan
home = lan4 (10 * 2 ^ 24) 8

abbrev ip_text : Ip → String
ip_text (ip4 a) =
    if a == 10 * 2 ^ 24 + 5
    then "10.0.0.5"
    else if a == 10 * 2 ^ 24 + 6
    then "10.0.0.6"
    else "1.0.0.4"
ip_text (ip6 a) = "::"

-- The first byte of a sample frame says which layers it has.
abbrev layers : List ℕ → List Layer
layers [] = []
layers (kind ∷ rest) =
    if kind == 1
    then ethernet 1 2 ∷ ipv4 laptop printer 6 ∷ tcp 5000 22 ∷ []
    else if kind == 2
    then ethernet 1 3 ∷ ipv4 laptop server 17 ∷ udp 5001 53 rest ∷ []
    else ethernet 3 1 ∷ ipv4 server laptop 6 ∷ tcp 443 5002 ∷ []

abbrev parser : Parser
parser = record {
  decode_layers = layers;
  decode_dns = λ payload.
      some (record { qr = false; questions = record { name = "example.com"; qtype = 1 } ∷ [] });
  decode_dhcp = λ payload. none;
  ip_text = ip_text;
  mac_text = λ mac. if mac == 1 then "02:00:00:00:00:01" else "02:00:00:00:00:02";
  text = λ bytes. "laptop";
}

abbrev to_printer : RawPacket
to_printer = record { frame = 1 ∷ 0 ∷ []; timestamp = some 100 }

abbrev dns_query : RawPacket
dns_query = record { frame = 2 ∷ 0 ∷ 0 ∷ []; timestamp = some 101 }

abbrev from_server : RawPacket
from_server = record { frame = 3 ∷ []; timestamp = none }

-- A query is read from the packet to the DNS server.
decode_dns-test :
    (decode parser home 200 dns_query).dns
    ≡ some (record { local_ip = "10.0.0.5"; qname = "example.com"; qtype = 1; timestamp = 101 })
unfolding decode
decode_dns-test = refl

decode-sides_example :
    AreSides parser home laptop printer
      (length (to_printer.frame))
      true
      true
      (flows_of (decode parser home 200 to_printer))
unfolding read_layers
decode-sides_example =
    decode-sides parser home 200 to_printer laptop printer
      (record { addresses = refl; specified = refl; unicast = refl })

decode-IsConsistent_example : IsConsistent (decode parser home 200 to_printer)
decode-IsConsistent_example = decode-IsConsistent parser home 200 to_printer

abbrev key : FlowKey
key = record {
  direction = 2;
  proto = 6;
  local_ip = "10.0.0.5";
  local_port = 5000;
  remote_ip = "10.0.0.6";
  remote_port = 22;
}

abbrev event : ℕ → ℕ → Bool → FlowEvent
event at bytes sent = record {
  key = key;
  timestamp = at;
  bytes = bytes;
  is_local_src = sent;
  local_mac = "02:00:00:00:00:01";
}

abbrev three_events : List FlowEvent
three_events = event 105 60 true ∷ event 100 1500 false ∷ event 110 40 true ∷ []

drain-add_all-eq-summary_example :
    lookup key ((drain (add_all three_events [])).0)
    ≡ summary (rows_where (λ e. same_key e.key key) three_events)
drain-add_all-eq-summary_example = drain-add_all-eq-summary key three_events

abbrev packets : List (ℕ × RawPacket)
packets = (200, to_printer) ∷ (200, dns_query) ∷ (201, from_server) ∷ (202, to_printer) ∷ []

abbrev no_hosts : Hosts
no_hosts = record { hosts = []; dhcp_hostnames = []; next_id = 1 }

abbrev empty_store : Store
empty_store = record { hosts = no_hosts; flows_recent = []; dns_queries = [] }

run-summary_example :
    lookup key
      (drain (run parser home (arrivals parser home packets) (new_pipeline, empty_store)).0.agg).0
    ≡ summary (rows_where (λ e. same_key e.key key) (events parser home packets))
run-summary_example = run-summary parser home packets new_pipeline empty_store key refl

abbrev failures : (String → Bool) → Failures
failures upsert = record {
  upsert_host_of = upsert;
  set_mac_of = λ ip. false;
  begin_flows = false;
  commit_flows = false;
  insert_flows_chunk = λ i. false;
  begin_dns = false;
  commit_dns = false;
  insert_dns_chunk = λ i. false;
  upsert_dhcp_of = λ mac. false;
}

abbrev working : Failures
working = failures (λ ip. false)

abbrev accum : FlowAccum
accum = record {
  first_seen = 100;
  last_seen = 110;
  bytes_sent = 100;
  bytes_recv = 1500;
  packets_sent = 2;
  packets_recv = 1;
}

abbrev table : List (FlowKey × FlowAccum)
table = (key, accum) ∷ (record key { local_port = 5003 }, accum) ∷ []

abbrev loaded : Pipeline
loaded = record new_pipeline { agg = table }

-- Both flows of the new host are stored with its id.
flush_flows-test :
    (flush_flows working 300 loaded empty_store).1.flows_recent
    ≡ flow_record 1 key accum ∷ flow_record 1 (record key { local_port = 5003 }) accum ∷ []
unfolding flush_flows
flush_flows-test = refl

abbrev failing : Failures
failing = failures (λ ip. true)

abbrev mixed_table : List (FlowKey × FlowAccum)
mixed_table =
    (record key { local_ip = "10.0.0.7" }, accum)
    ∷ (key, accum)
    ∷ (record key { local_ip = "10.0.0.8" }, accum)
    ∷ (record key { local_port = 5003 }, accum)
    ∷ []

abbrev mixed : Pipeline
mixed = record new_pipeline { agg = mixed_table }

-- The upsert of one address fails.
abbrev failing_one : Failures
failing_one = failures (λ ip. str_eq ip "10.0.0.5")

-- The flows of two other hosts are lost with those of the failing one.
flush_flows-loses_all_example :
    ((flush_flows failing_one 300 mixed empty_store).1.flows_recent ≡ empty_store.flows_recent)
    × ((flush_flows failing_one 300 mixed empty_store).0.agg ≡ [])
unfolding lookup
flush_flows-loses_all_example =
    flush_flows-loses_all failing_one 300 mixed empty_store "10.0.0.5" key
      (record key { local_port = 5003 }) accum accum
      ((record key { local_ip = "10.0.0.7" }, accum) ∷ [])
      ((record key { local_ip = "10.0.0.8" }, accum) ∷ []) [] refl refl refl refl refl
      (record { absent = refl; next = omega arith })

abbrev sample_run : List Event
sample_run =
    packet 200 to_printer ∷ flushes working 300 ∷ packet 301 from_server ∷ flushes failing 310 ∷ []

run-IsCached_example :
    IsCached
      (run parser home sample_run (new_pipeline, empty_store)).0.host_cache
      (run parser home sample_run (new_pipeline, empty_store)).1.hosts
    × Keeps no_hosts (run parser home sample_run (new_pipeline, empty_store)).1.hosts
run-IsCached_example = run-IsCached parser home sample_run empty_store
