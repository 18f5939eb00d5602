-- ===== src/Capture/Pipeline.antt =====
-- internal/capture/pipeline.go. One goroutine adds packets while another flushes: the aggregator's
-- and the buffers' locks make each addition and each drain atomic, so a run is a sequence of
-- packets and flushes.
pub mod Flush
pub mod Cache
pub mod Stores
pub mod Runs
pub mod Traffic
pub mod Failing
use shadow_stat.Base.{
  ℕ, String, Bool, true, false, ◌||◌, Option, none, some, List, [], ◌∷◌, ◌++◌, if◌then◌else◌,
  str_eq, string_eq,
}
use shadow_stat.Base.Assoc.{lookup, insert}
use shadow_stat.Store.Driver.{Result, ok, err}
use shadow_stat.Store.Flows.{FlowRecord, insert_in_transaction}
use shadow_stat.Store.Dns.{DnsQueryRecord}
use shadow_stat.Store.Hosts.{Hosts, upsert_host, set_host_mac, upsert_dhcp_hostname}
use shadow_stat.Capture.Aggregator.{FlowKey, FlowEvent, FlowAccum, add, drain}
use shadow_stat.Capture.Decode.{
  Lan, Parser, RawPacket, DnsQueryEvent, DhcpHostnameEvent, DecodeResult, decode,
}

pub record Pipeline : Type 0 where
  pub agg : List (FlowKey × FlowAccum)
  pub host_cache : List (String × ℕ)
  -- the keys of bumpedThisFlush
  pub bumped_this_flush : List String
  pub mac_by_ip : List (String × String)
  pub dns_buf : List DnsQueryEvent
  pub dhcp_buf : List DhcpHostnameEvent

-- The tables that the pipeline writes.
pub record Store : Type 0 where
  pub hosts : Hosts
  pub flows_recent : List FlowRecord
  pub dns_queries : List DnsQueryRecord

abbrev pub new_pipeline : Pipeline
new_pipeline = record {
  agg = [];
  host_cache = [];
  bumped_this_flush = [];
  mac_by_ip = [];
  dns_buf = [];
  dhcp_buf = [];
}

unfoldable pub remember_mac : FlowEvent → Pipeline → Pipeline
unfolding insert
remember_mac flow p =
    if str_eq flow.local_mac ""
    then p
    else record p { mac_by_ip = insert flow.key.local_ip flow.local_mac p.mac_by_ip }

abbrev pub add_flow : Option FlowEvent → Pipeline → Pipeline
add_flow none p = p
add_flow (some flow) p = remember_mac flow (record p { agg = add flow p.agg })

abbrev pub add_dns : Option DnsQueryEvent → Pipeline → Pipeline
add_dns none p = p
add_dns (some q) p = record p { dns_buf = p.dns_buf ++ q ∷ [] }

abbrev pub add_dhcp : Option DhcpHostnameEvent → Pipeline → Pipeline
add_dhcp none p = p
add_dhcp (some ev) p = record p { dhcp_buf = p.dhcp_buf ++ ev ∷ [] }

-- The loop over the packets, one round.
unfoldable pub on_packet : Parser → Lan → ℕ → RawPacket → Pipeline → Pipeline
unfolding decode remember_mac add
on_packet parser lan now pkt p =
    let result = decode parser lan now pkt in
    add_dhcp result.dhcp (add_dns result.dns (add_flow result.flow2 (add_flow result.flow p)))

-- Which calls of the store fail in one flush. Each address is upserted at most once in a flush.
pub record Failures : Type 0 where
  pub upsert_host_of : String → Bool
  pub set_mac_of : String → Bool
  pub begin_flows : Bool
  pub commit_flows : Bool
  pub insert_flows_chunk : ℕ → Bool
  pub begin_dns : Bool
  pub commit_dns : Bool
  pub insert_dns_chunk : ℕ → Bool
  pub upsert_dhcp_of : String → Bool

abbrev pub is_bumped : String → List String → Bool
is_bumped ip [] = false
is_bumped ip (j ∷ rest) = str_eq j ip || is_bumped ip rest

abbrev pub or_zero : Option ℕ → ℕ
or_zero none = 0
or_zero (some id) = id

-- lookupMAC and SetHostMAC; an error of the latter is logged
unfoldable pub refresh_mac : Failures → String → ℕ → Pipeline → Hosts → Hosts
unfolding lookup set_host_mac
refresh_mac e ip id p t = elim (lookup ip p.mac_by_ip) [
  | none ↦ t
  | some mac ↦
      if str_eq mac ""
      then t
      else elim (set_host_mac (e.set_mac_of ip) id mac t) [ err _ ↦ t | ok t' ↦ t' ]
]

-- The id, or `none` for an error, with the pipeline and the hosts after the call.
unfoldable pub resolve_host :
    Failures → String → ℕ → Pipeline → Hosts → Option ℕ × (Pipeline × Hosts)
unfolding lookup insert upsert_host refresh_mac
resolve_host e ip seen_at p t =
    if is_bumped ip p.bumped_this_flush
    then (some (or_zero (lookup ip p.host_cache)), (p, t))
    else let q = record p { bumped_this_flush = ip ∷ p.bumped_this_flush } in
      elim (lookup ip p.host_cache) [
        | none ↦ elim (upsert_host (e.upsert_host_of ip) ip seen_at t) [
          | err _ ↦ (none, (q, t))
          | ok (new_id, t') ↦ (
            some new_id,
            (record q { host_cache = insert ip new_id p.host_cache }, refresh_mac e ip new_id p t'),
          )
        ]
        | some id ↦ elim (upsert_host (e.upsert_host_of ip) ip seen_at t) [
          | err _ ↦ (some id, (q, refresh_mac e ip id p t))
          | ok (_, t') ↦ (some id, (q, refresh_mac e ip id p t'))
        ]
      ]
